-- ===== src/Strings/Walk.antt =====
-- The walks to the end of a string: `strlen`, `strchr`, `strrchr`, `strcpy`.
use rtc_driver.Base.{
  ℕ, zero, suc, ◌+◌, ◌<◌, ◌≡◌, ◌≢◌, inl, inr, Bool-cases, sym, ap, ◌∙◌, true, false, List, [], ◌∷◌,
  arith, ◌==◌, if◌then◌else◌, length,
}
use rtc_driver.Base.Run.{ok}
use rtc_driver.Strings.{Memory, strlen, strlen_loop, strchr, strrchr, strrchr_loop}

-- The characters `xs` and the null behind them stand at `s`.
abbrev pub IsString : Memory → ℕ → List ℕ → Type 0
IsString mem s [] = mem s ≡ 0
IsString mem s (x ∷ xs) = (mem s ≡ x) × (x ≢ 0) × IsString mem (s + 1) xs

pub IsString-at :
    (mem : Memory) (xs : List ℕ) (s t : ℕ) → s ≡ t → IsString mem s xs → IsString mem t xs
IsString-at mem [] s t e is = ap mem (sym e) ∙ is
IsString-at mem (x ∷ xs) s t e (v, ne, is) =
    (ap mem (sym e) ∙ v, ne, IsString-at mem xs (s + 1) (t + 1) (omega (arith, e)) is)

strlen_loop_lem :
    (mem : Memory) (xs : List ℕ) (k s c : ℕ)
    → IsString mem (s + c) xs
    → length xs < k
    → strlen_loop k s c mem ≡ ok (c + length xs) mem
unfolding strlen_loop
strlen_loop_lem mem xs zero s c is h = absurd (omega arith)
strlen_loop_lem mem [] (suc k) s c is h =
    let end : (mem (s + c) == 0) ≡ true = ground (arith, is) in
    rw end (ap (λ n. ok n mem) (omega arith))
strlen_loop_lem mem (x ∷ xs) (suc k) s c (v, ne, is) h =
    let more : (mem (s + c) == 0) ≡ false = ground (arith, v, ne) in
    rw more (
      strlen_loop_lem mem xs k s (c + 1) (IsString-at mem xs _ _ (omega arith) is) (omega arith)
      ∙ ap (λ n. ok n mem) (omega arith))

-- `strlen` returns the length of the string, and the fuel need only exceed it.
pub strlen_lem :
    (mem : Memory) (xs : List ℕ) (fuel s : ℕ)
    → IsString mem s xs
    → length xs < fuel
    → strlen fuel s mem ≡ ok (length xs) mem
unfolding strlen
strlen_lem mem xs fuel s is h =
    strlen_loop_lem mem xs fuel s 0 (IsString-at mem xs _ _ (omega arith) is) h
    ∙ ap (λ n. ok n mem) (omega arith)

-- The address of the first `c` in a string at `s`, NULL if there is none.
unfoldable pub first_at : ℕ → List ℕ → ℕ → ℕ
first_at s [] c = 0
first_at s (x ∷ xs) c = if x == c then s else first_at (s + 1) xs c

-- `strchr` of a string returns the address of its first character that is `c`, NULL if there is
-- none; the null at the end does not count, and the fuel need only exceed the length.
pub strchr_lem :
    (mem : Memory) (xs : List ℕ) (fuel s c : ℕ)
    → IsString mem s xs
    → length xs < fuel
    → strchr fuel s c mem ≡ ok (first_at s xs c) mem
unfolding strchr first_at
strchr_lem mem xs zero s c is h = absurd (omega arith)
strchr_lem mem [] (suc k) s c is h = let end : (mem s == 0) ≡ true = ground (arith, is) in rw end
strchr_lem mem (x ∷ xs) (suc k) s c (v, ne, is) h =
    let more : (mem s == 0) ≡ false = ground (arith, v, ne) in
    rw more (
      rw v (elim (Bool-cases (x == c)) [
        | inl hit ↦ rw hit
        | inr miss ↦ rw miss (strchr_lem mem xs k (s + 1) c is (omega arith))
      ]))

-- The address of the last `c`, or `p`.
unfoldable pub last_at : ℕ → ℕ → List ℕ → ℕ → ℕ
last_at p s [] c = p
last_at p s (x ∷ xs) c = last_at (if x == c then s else p) (s + 1) xs c

strrchr_loop_lem :
    (mem : Memory) (xs : List ℕ) (k p s c : ℕ)
    → IsString mem s xs
    → length xs < k
    → strrchr_loop k p s c mem ≡ ok (last_at p s xs c) mem
unfolding strrchr_loop last_at
strrchr_loop_lem mem xs zero p s c is h = absurd (omega arith)
strrchr_loop_lem mem [] (suc k) p s c is h =
    let end : (mem s == 0) ≡ true = ground (arith, is) in rw end
strrchr_loop_lem mem (x ∷ xs) (suc k) p s c (v, ne, is) h =
    let more : (mem s == 0) ≡ false = ground (arith, v, ne) in
    rw more (rw v (strrchr_loop_lem mem xs k (if x == c then s else p) (s + 1) c is (omega arith)))

-- `strrchr` of a string returns the address of its last character that is `c`, NULL if there is
-- none; the fuel need only exceed the length.
pub strrchr_lem :
    (mem : Memory) (xs : List ℕ) (fuel s c : ℕ)
    → IsString mem s xs
    → length xs < fuel
    → strrchr fuel s c mem ≡ ok (last_at 0 s xs c) mem
unfolding strrchr
strrchr_lem mem xs fuel s c is h = strrchr_loop_lem mem xs fuel 0 s c is h
