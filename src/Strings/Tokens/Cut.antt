-- ===== src/Strings/Tokens/Cut.antt =====
-- What `strtok` returns and leaves.
use rtc_driver.Base.{
  ℕ, zero, suc, ◌+◌, ◌≤◌, ◌<◌, ◌≡◌, ◌≢◌, inl, inr, Bool-cases, refl, sym, ap, ◌∙◌, true, false,
  List, [], ◌∷◌, arith, ◌==◌, if◌then◌else◌, length,
}
use rtc_driver.Base.Run.{Run, ok, ◌>>=◌}
use rtc_driver.Strings.Walk.{IsString, IsString-at}
use rtc_driver.Strings.Blocks.{stored, spared, store-IsString}
use rtc_driver.Strings.Tokens.{Tok, skip_loop, word_loop, cut, strtok}

-- The string from its first character that is no delimiter on, and how many come before it.
unfoldable pub skipped : ℕ → List ℕ → List ℕ
skipped d [] = []
skipped d (x ∷ xs) = if x == d then skipped d xs else x ∷ xs

unfoldable pub leading : ℕ → List ℕ → ℕ
leading d [] = 0
leading d (x ∷ xs) = if x == d then suc (leading d xs) else 0

-- The characters before the first delimiter, and those behind it.
unfoldable pub word : ℕ → List ℕ → List ℕ
word d [] = []
word d (x ∷ xs) = if x == d then [] else x ∷ word d xs

unfoldable pub behind : ℕ → List ℕ → List ℕ
behind d [] = []
behind d (x ∷ xs) = if x == d then xs else behind d xs

module _ (d : ℕ) (ne_d : d ≢ 0) (s : Tok) where
  not_end : (p x : ℕ) → s.mem p ≡ x → x ≢ 0 → (s.mem p == 0) ≡ false
  not_end p x v ne = ground (arith, v, ne)

  is_end : (p : ℕ) → s.mem p ≡ 0 → ((s.mem p == d) ≡ false) × ((s.mem p == 0) ≡ true)
  is_end p v = (ground (arith, v, ne_d), ground (arith, v))

  skip_loop_lem :
      (xs : List ℕ) (k p : ℕ)
      → IsString s.mem p xs
      → length xs < k
      → (skip_loop k d p s ≡ ok (p + leading d xs) s)
        × IsString s.mem (p + leading d xs) (skipped d xs)
  unfolding skip_loop leading skipped
  skip_loop_lem xs zero p is h = absurd (omega arith)
  skip_loop_lem [] (suc k) p is h =
      let (other, _) = is_end p is in
      (rw other (ap (λ q. ok q s) (omega arith)), IsString-at s.mem [] p (p + 0) (omega arith) is)
  skip_loop_lem (x ∷ xs) (suc k) p (v, ne, is) h = elim (Bool-cases (x == d)) [
    | inl hit ↦
        let (e, is') = skip_loop_lem xs k (p + 1) is (omega arith) in
        let more : (x == 0) ≡ false = ground (arith, ne) in
        rw hit (
          rw v (rw hit (rw more (e ∙ ap (λ q. ok q s) (omega arith)))),
          IsString-at s.mem (skipped d xs) _ _ (omega arith) is',
        )
    | inr miss ↦ rw miss (
      rw v (rw miss (ap (λ q. ok q s) (omega arith))),
      IsString-at s.mem (x ∷ xs) p (p + 0) (omega arith) (v, ne, is),
    )
  ]

  word_loop_lem :
      (xs : List ℕ) (k p : ℕ)
      → IsString s.mem p xs
      → length xs < k
      → word_loop k d p s ≡ ok (p + length (word d xs)) s
  unfolding word_loop word
  word_loop_lem xs zero p is h = absurd (omega arith)
  word_loop_lem [] (suc k) p is h =
      let (other, end) = is_end p is in rw other (rw end (ap (λ q. ok q s) (omega arith)))
  word_loop_lem (x ∷ xs) (suc k) p (v, ne, is) h = elim (Bool-cases (x == d)) [
    | inl hit ↦ rw v (rw hit (ap (λ q. ok q s) (omega arith)))
    | inr miss ↦
        let more : (x == 0) ≡ false = ground (arith, ne) in
        rw v (
          rw miss (
            rw more (word_loop_lem xs k (p + 1) is (omega arith) ∙ ap (λ q. ok q s) (omega arith))))
  ]

  cut-kept : (e p : ℕ) → p < e → (cut e s).mem p ≡ s.mem p
  unfolding cut
  cut-kept e p h = elim (Bool-cases (s.mem e == 0)) [
    | inl end ↦ rw end refl
    | inr more ↦ rw more (spared s.mem e 0 p (ground arith))
  ]

  cut_lem :
      (xs : List ℕ) (p e : ℕ)
      → IsString s.mem p xs
      → e ≡ p + length (word d xs)
      → IsString (cut e s).mem p (word d xs) × IsString (cut e s).mem (cut e s).ptr (behind d xs)
  unfolding word behind cut
  cut_lem [] p e is h =
      let at : s.mem e ≡ 0 = ap s.mem (omega arith) ∙ is in
      let end : (s.mem e == 0) ≡ true = ground (arith, at) in rw end (is, at)
  cut_lem (x ∷ xs) p e (v, ne, is) h = elim (Bool-cases (x == d)) [
    | inl hit ↦
        let here : e ≡ p = rw hit at h ∙ omega arith in
        let more : (s.mem e == 0) ≡ false = not_end e x (ap s.mem here ∙ v) ne in
        rw hit (
          rw more (
            stored s.mem e 0 p (ground (arith, here)),
            store-IsString s.mem e 0 xs (e + 1) (inl (omega arith))
                (IsString-at s.mem xs (p + 1) (e + 1) (omega (arith, here)) is),
          ))
    | inr miss ↦
        let past : e ≡ p + suc (length (word d xs)) = rw miss at h in
        let (w, b) = cut_lem xs (p + 1) e is (omega (arith, past)) in
        rw miss ((cut-kept e p (omega (arith, past)) ∙ v, ne, w), b)
  ]

  -- What is found at `r`, where the string `ys` is left: nothing, or a word, cut off, with the rest
  -- of the string at `ptr`.
  abbrev pub Found : List ℕ → ℕ → Run Tok ℕ → Type 0
  Found [] r out = out ≡ ok 0 (record s { ptr = r })
  Found (y ∷ ys) r out =
      (s' : Tok) × (out ≡ ok r s')
      × IsString s'.mem r (word d (y ∷ ys))
      × IsString s'.mem s'.ptr (behind d (y ∷ ys))

  found_lem :
      (ys : List ℕ) (fuel r : ℕ)
      → IsString s.mem r ys
      → length ys < fuel
      → Found ys r (
          if s.mem r == 0
          then ok 0 (record s { ptr = r })
          else (word_loop fuel d r >>= λ e s''. ok r (cut e s'')) s)
  found_lem [] fuel r is h = let (_, end) = is_end r is in rw end refl
  found_lem (y ∷ ys) fuel r is h =
      let more : (s.mem r == 0) ≡ false = not_end r y (is.0) (is.1) in
      let e = r + length (word d (y ∷ ys)) in
      let (w, b) = cut_lem (y ∷ ys) r e is refl in
      (cut e s, rw more (rw (word_loop_lem (y ∷ ys) fuel r is h) refl), w, b)

  length-skipped : (xs : List ℕ) → length (skipped d xs) ≤ length xs
  unfolding skipped
  length-skipped [] = omega arith
  length-skipped (x ∷ xs) = ground (arith, length-skipped xs)

  -- `strtok` of a string, or of what is left of the last one, with a delimiter other than the
  -- null and fuel above the length: if there are only delimiters the result is NULL; otherwise it
  -- is the address of the first word, which has become a string of its own, and `ptr` holds what
  -- follows its delimiter.
  pub strtok_lem :
      (xs : List ℕ) (fuel str start : ℕ)
      → start ≡ (if str == 0 then s.ptr else str)
      → IsString s.mem start xs
      → length xs < fuel
      → Found (skipped d xs) (start + leading d xs) (strtok fuel str d s)
  unfolding strtok
  strtok_lem xs fuel str start at is h =
      let (e, is') = skip_loop_lem xs fuel start is h in
      let found =
        found_lem (skipped d xs) fuel (start + leading d xs) is'
          (omega (arith, length-skipped xs)) in
      rw (sym at) (rw e found)
