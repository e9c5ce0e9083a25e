-- ===== src/KList/Find.antt =====
-- The reading operations: `list_get`, `list_find`, `list_find_pos`.
use rtc_driver.Base.{
  ℕ, zero, suc, ◌+◌, ◌≤◌, ◌<◌, ◌≡◌, refl, Bool, false, inl, inr, Bool-cases, [], ◌∷◌, arith, leb,
  leb→le, ◌==◌, length, if◌then◌else◌,
}
use rtc_driver.Base.Int.{ℤ, pos, minus_one}
use rtc_driver.Base.Run.{ok}
use rtc_driver.KList.{
  Store, KList, list_get, get_loop, list_find, find_loop, list_find_pos, find_pos_loop,
}
use rtc_driver.KList.Chain.{Cells, first, Chain, IsList, load-ok}

-- The value at an index, NULL past the end.
unfoldable pub value_at : Cells → ℕ → ℕ
value_at [] i = 0
value_at ((a, v) ∷ xs) zero = v
value_at ((a, v) ∷ xs) (suc i) = value_at xs i

-- The first value that the comparison accepts, NULL if there is none.
unfoldable pub find : (ℕ → Bool) → Cells → ℕ
find cmp [] = 0
find cmp ((a, v) ∷ xs) = if cmp v then v else find cmp xs

-- Its index, counted from `i`, or -1.
unfoldable pub find_index : (ℕ → Bool) → Cells → ℕ → ℤ
find_index cmp [] i = minus_one
find_index cmp ((a, v) ∷ xs) i = if cmp v then pos i else find_index cmp xs (i + 1)

module _ (s : Store) where
  get_loop_lem :
      (xs : Cells) (i : ℕ)
      → Chain s.cells xs
      → i < length xs
      → get_loop i (first xs) s ≡ ok (value_at xs i) s
  unfolding get_loop value_at
  get_loop_lem [] i c h = absurd (omega arith)
  get_loop_lem ((a, v) ∷ xs) zero c h = rw (load-ok s a c.0 c.1)
  get_loop_lem ((a, v) ∷ xs) (suc i) c h =
      rw (load-ok s a c.0 c.1) (get_loop_lem xs i c.3 (omega arith))

  value_at-past : (xs : Cells) (i : ℕ) → length xs ≤ i → value_at xs i ≡ 0
  unfolding value_at
  value_at-past [] i h = refl
  value_at-past ((a, v) ∷ xs) zero h = absurd (omega arith)
  value_at-past ((a, v) ∷ xs) (suc i) h = value_at-past xs i (omega arith)

  -- On a well-formed list and at an index that is not negative, `list_get` returns the value
  -- there, NULL past the end, and changes nothing.
  pub list_get_lem :
      (l : KList) (xs : Cells) (i : ℕ)
      → IsList s.cells l xs
      → list_get l (pos i) s ≡ ok (value_at xs i) s
  unfolding list_get
  list_get_lem l xs i is = elim (Bool-cases (leb l.count i)) [
    | inl past ↦ rw past (rw (value_at-past xs i (omega (arith, leb→le l.count i, is.count))))
    | inr inside ↦ rw inside (rw is.head (get_loop_lem xs i is.chain (ground (arith, is.count))))
  ]

  find_loop_lem :
      (xs : Cells) (k : ℕ) (cmp : ℕ → Bool)
      → Chain s.cells xs
      → length xs < k
      → find_loop k cmp (first xs) s ≡ ok (find cmp xs) s
  unfolding find_loop find
  find_loop_lem xs zero cmp c h = absurd (omega arith)
  find_loop_lem [] (suc k) cmp c h = refl
  find_loop_lem ((a, v) ∷ xs) (suc k) cmp c h =
      let ne : (a == 0) ≡ false = ground (arith, c.0) in
      rw ne (
        rw (load-ok s a c.0 c.1) (elim (Bool-cases (cmp v)) [
          | inl hit ↦ rw hit
          | inr miss ↦ rw miss (find_loop_lem xs k cmp c.3 (omega arith))
        ]))

  -- On a well-formed list, with fuel above the number of nodes, `list_find` returns the first
  -- value that the comparison accepts, NULL if there is none, and changes nothing.
  pub list_find_lem :
      (l : KList) (xs : Cells) (fuel : ℕ) (cmp : ℕ → Bool)
      → IsList s.cells l xs
      → length xs < fuel
      → list_find fuel l cmp s ≡ ok (find cmp xs) s
  unfolding list_find
  list_find_lem l xs fuel cmp is h = rw is.head (find_loop_lem xs fuel cmp is.chain h)

  find_pos_loop_lem :
      (xs : Cells) (k i : ℕ) (cmp : ℕ → Bool)
      → Chain s.cells xs
      → length xs < k
      → find_pos_loop k cmp (first xs) i s ≡ ok (find_index cmp xs i) s
  unfolding find_pos_loop find_index
  find_pos_loop_lem xs zero i cmp c h = absurd (omega arith)
  find_pos_loop_lem [] (suc k) i cmp c h = refl
  find_pos_loop_lem ((a, v) ∷ xs) (suc k) i cmp c h =
      let ne : (a == 0) ≡ false = ground (arith, c.0) in
      rw ne (
        rw (load-ok s a c.0 c.1) (elim (Bool-cases (cmp v)) [
          | inl hit ↦ rw hit
          | inr miss ↦ rw miss (find_pos_loop_lem xs k (i + 1) cmp c.3 (omega arith))
        ]))

  -- On a well-formed list, with fuel above the number of nodes, `list_find_pos` returns the index
  -- of the first value that the comparison accepts, or -1, and changes nothing.
  pub list_find_pos_lem :
      (l : KList) (xs : Cells) (fuel : ℕ) (cmp : ℕ → Bool)
      → IsList s.cells l xs
      → length xs < fuel
      → list_find_pos fuel l cmp s ≡ ok (find_index cmp xs 0) s
  unfolding list_find_pos
  list_find_pos_lem l xs fuel cmp is h = rw is.head (find_pos_loop_lem xs fuel 0 cmp is.chain h)
