-- ===== src/Base/Cyclic.antt =====
-- A buffer of `size` bytes read around its end: the `n` bytes from index `h` on.
use Prim.Native.Nat.{ℕ, zero, suc, ◌+◌, ◌%◌, ◌<◌}
use mathlib.Core.Path.{◌≡◌, ap, ◌∙◌}
use mathlib.Core.Logic.{◌≢◌}
use mathlib.Core.List.{List, [], ◌∷◌, ◌++◌}
use native.Mathlib.Omega.{arith}
use rtc_driver.Base.Lists.{length, get_or, set, get_or-set_self, get_or-set_ne}

unfoldable pub cyclic : ℕ → ℕ → ℕ → List ℕ → List ℕ
cyclic size zero h buf = []
cyclic size (suc n) h buf = get_or buf h 0 ∷ cyclic size n ((h + 1) % size) buf

-- What `omega` shows of a size that is a literal.
pub record IsSize (size : ℕ) : Type 0 where
  pub apart : (h n : ℕ) → h < size → suc n < size → (h + suc n) % size ≢ h
  pub around : (h n : ℕ) → (h + suc n) % size ≡ ((h + 1) % size + n) % size
  pub within : (h : ℕ) → h % size < size
  pub start : (h : ℕ) → h < size → (h + 0) % size ≡ h

pub length-cyclic : (size n h : ℕ) (buf : List ℕ) → length (cyclic size n h buf) ≡ n
unfolding cyclic
length-cyclic size zero h buf = omega arith
length-cyclic size (suc n) h buf = ap suc (length-cyclic size n ((h + 1) % size) buf)

-- A byte written behind the contents becomes their last.
pub cyclic-set :
    (size : ℕ)
    → IsSize size
    → (n h b : ℕ) (buf : List ℕ) → length buf ≡ size
    → h < size
    → n < size
    → cyclic size (suc n) h (set buf ((h + n) % size) b) ≡ cyclic size n h buf ++ b ∷ []
unfolding cyclic
cyclic-set size is zero h b buf len hh hn =
    ap (λ x. x ∷ [])
      (ap (λ p. get_or (set buf p b) h 0) (is.start h hh)
        ∙ get_or-set_self buf h b 0 (omega (arith, len)))
cyclic-set size is (suc n) h b buf len hh hn =
    let same : get_or (set buf ((h + suc n) % size) b) h 0 ≡ get_or buf h 0 =
      get_or-set_ne buf ((h + suc n) % size) h b 0 (λ e. is.apart h n hh hn e) in
    let next = (h + 1) % size in
    ap (λ x. x ∷ cyclic size (suc n) next (set buf ((h + suc n) % size) b)) same
    ∙ ap (λ xs. get_or buf h 0 ∷ xs)
        (ap (λ p. cyclic size (suc n) next (set buf p b)) (is.around h n)
          ∙ cyclic-set size is n next b buf len (is.within (h + 1)) (omega arith))
