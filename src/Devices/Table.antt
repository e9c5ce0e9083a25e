-- ===== src/Devices/Table.antt =====
-- A device that is registered is found, is not registered twice, and can be removed.
use rtc_driver.Base.{
  ℕ, ◌+◌, ◌<◌, ◌≡◌, ◌≢◌, refl, ap, ◌∙◌, Bool, true, false, inl, inr, Bool-cases, [], ◌∷◌, ◌++◌,
  arith, ◌==◌, length, length-append,
}
use mathlib.Core.Path.{subst}
use rtc_driver.Base.Int.{pos}
use rtc_driver.Base.Run.{ok}
use rtc_driver.KList.{Store, KList, Heap}
use rtc_driver.KList.Chain.{Cells, IsList, has}
use rtc_driver.KList.Find.{find, list_find_lem}
use rtc_driver.KList.Add.{list_add_lem}
use rtc_driver.KList.Del.{any, remove_first, with_cells, list_find_del_lem}
use rtc_driver.Devices.{
  has_id, dev_register_block_device, dev_get_block_device, dev_register_char_device,
  dev_remove_char_device, dev_get_char_device,
}

module _ (cmp : ℕ → Bool) (a v : ℕ) (hit : cmp v ≡ true) where
  pub find-append : (xs : Cells) → any cmp xs ≡ false → find cmp (xs ++ (a, v) ∷ []) ≡ v
  unfolding find any
  find-append [] h = rw hit refl
  find-append ((b, w) ∷ xs) h = elim (Bool-cases (cmp w)) [
    | inl yes_w ↦ absurd (grind arith)
    | inr no_w ↦ rw no_w (find-append xs (rw no_w at h))
  ]

  pub any-append : (xs : Cells) → any cmp (xs ++ (a, v) ∷ []) ≡ true
  unfolding any
  any-append [] = rw hit refl
  any-append ((b, w) ∷ xs) = ground (arith, any-append xs)

  pub remove_first-append :
      (xs : Cells) → any cmp xs ≡ false → remove_first cmp (xs ++ (a, v) ∷ []) ≡ xs
  unfolding remove_first any
  remove_first-append [] h = rw hit refl
  remove_first-append ((b, w) ∷ xs) h = elim (Bool-cases (cmp w)) [
    | inl yes_w ↦ absurd (grind arith)
    | inr no_w ↦ rw no_w (ap (λ ys. (b, w) ∷ ys) (remove_first-append xs (rw no_w at h)))
  ]

pub find-none : (cmp : ℕ → Bool) (xs : Cells) → any cmp xs ≡ false → find cmp xs ≡ 0
unfolding find any
find-none cmp [] h = refl
find-none cmp ((b, w) ∷ xs) h = elim (Bool-cases (cmp w)) [
  | inl yes_w ↦ absurd (grind arith)
  | inr no_w ↦ rw no_w (find-none cmp xs (rw no_w at h))
]

-- The table of one kind, registered, looked up and removed by the given operations.
module _ (ids : ℕ → ℕ) (fuel fresh dev : ℕ) (s : Store) (l : KList) (xs : Cells)
    (is : IsList s.cells l xs) (some_node : fresh ≢ 0) (new_node : has fresh xs ≡ false)
    (some_device : dev ≢ 0) (new_number : any (has_id ids (ids dev)) xs ≡ false)
    (enough : length xs + 1 < fuel) where
  -- Where no device of the table has the number: registering returns 0 and adds the device, which
  -- is then found by its number.
  pub dev_get_block_device-register :
      (l' : KList) × (h : Heap) × (dev_register_block_device ids fuel fresh l dev s
        ≡ ok (pos 0, l') (with_cells s h))
      × IsList h l' (xs ++ (fresh, dev) ∷ [])
      × (dev_get_block_device ids fuel l' (ids dev) (with_cells s h) ≡ ok dev (with_cells s h))
  unfolding dev_register_block_device dev_get_block_device
  dev_get_block_device-register =
      let cmp = has_id ids (ids dev) in
      let hit : cmp dev ≡ true = ground arith in
      let absent = list_find_lem s l xs fuel cmp is (omega arith) in
      let (l', h, run, is', same) =
        list_add_lem s l xs fuel fresh dev is some_node new_node (omega arith) in
      let s' = with_cells s h in
      let there =
        list_find_lem s' l' (xs ++ (fresh, dev) ∷ []) fuel cmp is'
          (omega (arith, length-append xs ((fresh, dev) ∷ []))) in
      (
        l',
        h,
        rw absent (rw (find-none cmp xs new_number) run),
        is',
        there ∙ ap (λ d. ok d s') (find-append cmp fresh dev hit xs new_number),
      )

  registered :
      (l' : KList) × (h : Heap) × (dev_register_char_device ids fuel fresh l dev s
        ≡ ok (pos 0, l') (with_cells s h))
      × IsList h l' (xs ++ (fresh, dev) ∷ [])
      × (dev_get_char_device ids fuel l' (ids dev) (with_cells s h) ≡ ok dev (with_cells s h))
  unfolding dev_register_char_device dev_get_char_device dev_register_block_device
      dev_get_block_device
  registered = dev_get_block_device-register

  -- Where no device of the table has the number: after a character device has been registered, a
  -- second registration of its number returns 0 and changes nothing, and removing the number
  -- returns 0 and leaves the devices that were there before.
  pub dev_remove_char_device-register :
      (other : ℕ) (node : ℕ)
      → ids other ≡ ids dev
      → (l' : KList) × (h : Heap) × (l'' : KList) × (h' : Heap) × (dev_register_char_device ids fuel
            fresh l dev s
          ≡ ok (pos 0, l') (with_cells s h))
        × (dev_register_char_device ids fuel node l' other (with_cells s h)
            ≡ ok (pos 0, l') (with_cells s h))
        × (dev_remove_char_device ids fuel l' (ids dev) (with_cells s h)
            ≡ ok (pos 0, l'') (with_cells s h'))
        × IsList h' l'' xs
  unfolding dev_register_char_device dev_remove_char_device dev_get_char_device
  dev_remove_char_device-register other node same_number =
      let cmp = has_id ids (ids dev) in
      let hit : cmp dev ≡ true = ground arith in
      let some_dev : (dev == 0) ≡ false = ground arith in
      let (l', h, run, is', there) = registered in
      let s' = with_cells s h in
      let (l'', h', gone, removed) =
        list_find_del_lem s' l' (xs ++ (fresh, dev) ∷ []) fuel cmp is'
          (omega (arith, length-append xs ((fresh, dev) ∷ []))) (any-append cmp fresh dev hit xs) in
      (
        l',
        h,
        l'',
        h',
        run,
        rw same_number (rw there (rw some_dev refl)),
        rw gone (rw (find-append cmp fresh dev hit xs new_number) (rw some_dev refl)),
        subst (λ ys. IsList h' l'' ys) (remove_first-append cmp fresh dev hit xs new_number)
            removed.0,
      )
