-- ===== src/Strings/Compare.antt =====
-- `strcmp` as the order of strings.
use rtc_driver.Base.{
  ℕ, zero, suc, ◌+◌, ◌<◌, ◌≡◌, ◌≢◌, ◌↔◌, inl, inr, Bool-cases, refl, sym, ap, ◌∙◌, false, List, [],
  ◌∷◌, arith, ◌==◌, if◌then◌else◌, length,
}
use rtc_driver.Base.Int.{ℤ, pos, minus_one}
use rtc_driver.Base.Run.{Run, ok}
use rtc_driver.Strings.{Memory, signed_lt, strcmp, strcmp_loop}
use rtc_driver.Strings.Walk.{IsString, IsString-at}

abbrev by_byte : ℕ → ℕ → ℤ → ℤ
by_byte a b rest = if signed_lt a b then minus_one else if signed_lt b a then pos 1 else rest

-- The order of two strings: the first place where they differ decides, and the end of a string
-- counts as the null.
unfoldable pub order : List ℕ → List ℕ → ℤ
order [] [] = pos 0
order [] (y ∷ ys) = by_byte 0 y (pos 0)
order (x ∷ xs) [] = by_byte x 0 (pos 0)
order (x ∷ xs) (y ∷ ys) = by_byte x y (order xs ys)

-- Characters: bytes other than the null.
abbrev pub AreChars : List ℕ → Type 0
AreChars [] = Unit
AreChars (x ∷ xs) = (x ≢ 0) × (x < 256) × AreChars xs

signed_lt-same : (a : ℕ) → signed_lt a a ≡ false
unfolding signed_lt
signed_lt-same a = ground arith

-- Two bytes of which neither is below the other are equal.
tie : (a b : ℕ) → a < 256 → b < 256 → signed_lt a b ≡ false → signed_lt b a ≡ false → a ≡ b
unfolding signed_lt
tie a b ha hb h k = ground arith

-- One round of the loop.
round :
    (a b : ℕ) (mem : Memory) (last rest : Run Memory ℤ) (r : ℤ)
    → (signed_lt a b ≡ false → signed_lt b a ≡ false → (if a == 0 then last else rest) ≡ ok r mem)
    → (if signed_lt a b
        then ok minus_one mem
        else if signed_lt b a
        then ok (pos 1) mem
        else if a == 0
        then last
        else rest)
      ≡ ok (by_byte a b r) mem
round a b mem last rest r h = elim (Bool-cases (signed_lt a b)) [
  | inl below ↦ rw below
  | inr not_below ↦ elim (Bool-cases (signed_lt b a)) [
    | inl above ↦ rw (not_below, above) refl
    | inr not_above ↦ rw not_below (rw not_above (h not_below not_above))
  ]
]

strcmp_loop_lem :
    (mem : Memory) (xs ys : List ℕ) (k s z i : ℕ)
    → IsString mem (s + i) xs
    → IsString mem (z + i) ys
    → AreChars xs
    → AreChars ys
    → length xs < k
    → strcmp_loop k s z i mem ≡ ok (order xs ys) mem
unfolding strcmp_loop order
strcmp_loop_lem mem xs ys zero s z i is js cx cy h = absurd (omega arith)
strcmp_loop_lem mem [] [] (suc k) s z i is js cx cy h = rw (is, js) refl
strcmp_loop_lem mem [] (y ∷ ys) (suc k) s z i is (v, ne, js) cx cy h =
    rw (is, v) (round 0 y mem (ok (pos 0) mem) (ok (pos 0) mem) (pos 0) (λ a b. refl))
strcmp_loop_lem mem (x ∷ xs) [] (suc k) s z i (v, ne, is) js (nx, bx, cx) cy h =
    rw (v, js) (round x 0 mem _ _ (pos 0) (λ a b. absurd (nx (tie x 0 bx (omega arith) a b))))
strcmp_loop_lem mem (x ∷ xs) (y ∷ ys) (suc k) s z i (v, ne, is) (w, ne', js) (nx, bx, cx)
      (ny, by, cy) h =
    rw (v, w)
      (round x y mem _ _ (order xs ys) (λ a b.
        let more : (x == 0) ≡ false = ground (arith, nx) in
        rw more (
          strcmp_loop_lem mem xs ys k s z (i + 1) (IsString-at mem xs _ _ (omega arith) is)
            (IsString-at mem ys _ _ (omega arith) js) cx cy (omega arith))))

below_zero : minus_one ≢ pos 0
below_zero e = cc

above_zero : pos 1 ≢ pos 0
above_zero e = cc

differ : (a b : ℕ) (r : ℤ) → a < 256 → b < 256 → by_byte a b r ≡ pos 0 → (a ≡ b) × (r ≡ pos 0)
differ a b r ha hb e = elim (Bool-cases (signed_lt a b)) [
  | inl below ↦ absurd (below_zero (rw below at e))
  | inr not_below ↦ elim (Bool-cases (signed_lt b a)) [
    | inl above ↦ absurd (above_zero (rw (not_below, above) at e))
    | inr not_above ↦ (tie a b ha hb not_below not_above, rw (not_below, not_above) at e)
  ]
]

order-same : (xs : List ℕ) → order xs xs ≡ pos 0
unfolding order
order-same [] = refl
order-same (x ∷ xs) = rw (signed_lt-same x) (order-same xs)

order-zero : (xs ys : List ℕ) → AreChars xs → AreChars ys → order xs ys ≡ pos 0 → xs ≡ ys
unfolding order
order-zero [] [] cx cy e = refl
order-zero [] (y ∷ ys) cx (ny, by, cy) e = absurd (ny (sym ((differ 0 y _ (omega arith) by e).0)))
order-zero (x ∷ xs) [] (nx, bx, cx) cy e = absurd (nx ((differ x 0 _ bx (omega arith) e).0))
order-zero (x ∷ xs) (y ∷ ys) (nx, bx, cx) (ny, by, cy) e =
    let (same, rest) = differ x y _ bx by e in
    ap (λ a. a ∷ xs) same ∙ ap (λ t. y ∷ t) (order-zero xs ys cx cy rest)

-- `strcmp` of two strings of bytes other than the null returns their order as signed characters,
-- which is 0 exactly if the strings are equal; the fuel need only exceed the length of the first.
pub strcmp_lem :
    (mem : Memory) (xs ys : List ℕ) (fuel s z : ℕ)
    → IsString mem s xs
    → IsString mem z ys
    → AreChars xs
    → AreChars ys
    → length xs < fuel
    → (strcmp fuel s z mem ≡ ok (order xs ys) mem) × ((order xs ys ≡ pos 0) ↔ (xs ≡ ys))
unfolding strcmp
strcmp_lem mem xs ys fuel s z is js cx cy h = (
  strcmp_loop_lem mem xs ys fuel s z 0 (IsString-at mem xs _ _ (omega arith) is)
      (IsString-at mem ys _ _ (omega arith) js) cx cy h,
  (order-zero xs ys cx cy, λ e. ap (λ t. order t ys) e ∙ order-same ys),
)
