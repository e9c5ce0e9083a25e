-- ===== src/Base/Run.antt =====
-- Runs of C code that changes a state: it returns, reads or writes where C gives no meaning
-- (`fault`), is still in a loop when the fuel is used up (`hang`), or stops in `kernel_panic`.

pub data Run (S A : Type 0) : Type 0 where
  ok : A → S → Run S A
  fault : Run S A
  hang : Run S A
  panic : Run S A

abbrev pub Cmd : Type 0 → Type 0 → Type 0
Cmd S A = S → Run S A

abbrev pub pure : {S A : Type 0} → A → Cmd S A
pure a s = ok a s

-- Runs the rest of the code on what has been reached.
abbrev pub and_then : {S A B : Type 0} → Run S A → (A → Cmd S B) → Run S B
and_then (ok a s) k = k a s
and_then fault k = fault
and_then hang k = hang
and_then panic k = panic

infixl 5 ◌>>=◌ ◌>>◌
abbrev pub ◌>>=◌ : {S A B : Type 0} → Cmd S A → (A → Cmd S B) → Cmd S B
◌>>=◌ m k s = and_then (m s) k

abbrev pub ◌>>◌ : {S A B : Type 0} → Cmd S A → Cmd S B → Cmd S B
◌>>◌ m k s = and_then (m s) (λ _. k)
