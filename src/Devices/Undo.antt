-- ===== src/Devices/Undo.antt =====
-- A registration that fails at its last step is undone.
use rtc_driver.Base.{
  ℕ, ◌+◌, ◌<◌, ◌≡◌, ◌≢◌, refl, ap, ◌∙◌, Bool, true, false, ◌||◌, List, [], ◌∷◌, ◌++◌, arith, ◌==◌,
  if◌then◌else◌, length, length-append,
}
use mathlib.Core.Path.{subst}
use rtc_driver.Base.Int.{ℤ, minus_one}
use rtc_driver.Base.Run.{ok}
use rtc_driver.KList.{Store, KList, Heap}
use rtc_driver.KList.Chain.{Cells, IsList, has}
use rtc_driver.KList.Find.{list_find_lem}
use rtc_driver.KList.Add.{list_add_lem}
use rtc_driver.KList.Del.{any, with_cells, list_find_del_lem}
use rtc_driver.Devices.{
  has_id, dev_char_lookup, FileOperations, CharDevice, Devices, alloc, take_out, free, put_char,
  lookup, add_char, forget, char_mode, device_path, Fresh, publish, register_named,
  dev_register_char_dev,
}
use rtc_driver.Devices.Table.{any-append, remove_first-append, find-none}

take_out-first : (p : ℕ) (qs : List ℕ) → take_out p (p ∷ qs) ≡ qs
unfolding take_out
take_out-first p qs = let same : (p == p) ≡ true = ground arith in rw same refl

take_out-second : (p q : ℕ) (qs : List ℕ) → q ≢ p → take_out p (q ∷ p ∷ qs) ≡ q ∷ qs
unfolding take_out
take_out-second p q qs ne =
    let same : (p == p) ≡ true = ground arith in
    let other : (q == p) ≡ false = ground arith in rw other (rw same refl)

abbrev pub has_value : ℕ → Cells → Bool
has_value v [] = false
has_value v ((_, w) ∷ xs) = (w == v) || has_value v xs

-- Changing one device changes the number of no other.
any-other :
    (ids ids' : ℕ → ℕ) (chr devid : ℕ) (xs : Cells)
    → ((v : ℕ) → (v == chr) ≡ false → ids' v ≡ ids v)
    → has_value chr xs ≡ false
    → any (has_id ids' devid) xs ≡ any (has_id ids devid) xs
unfolding any
any-other ids ids' chr devid [] same out = refl
any-other ids ids' chr devid ((a, w) ∷ xs) same out =
    let here : ids' w ≡ ids w = same w (ground arith) in
    rw here (rw (any-other ids ids' chr devid xs same (ground arith)) refl)

abbrev pub table : Store → KList → (ℕ → CharDevice) → List ℕ → Devices
table st l chars live = record { store = st; chr_devs = l; chars = chars; live = live }

-- The devices after the writes to the new one.
abbrev pub written : Fresh → ℕ → FileOperations → (ℕ → CharDevice) → ℕ → CharDevice
written at devid ops chars q =
    if q == at.chr
    then record { devid = devid; name = at.name; fops = ops }
    else if q == at.chr
    then record { devid = devid; name = 0; fops = ops }
    else chars q

pick_true : (b : Bool) (c d : CharDevice) → b ≡ true → (if b then c else d) ≡ c
pick_true b c d e = rw e refl

pick_false : (b : Bool) (c d e : CharDevice) → b ≡ false → (if b then c else if b then d else e) ≡ e
pick_false b c d e h = rw h refl

-- What the registration asks of kalloc: four addresses, none of them NULL, those of the device,
-- its name and the path different, and the node and the device new to the list.
pub record IsFresh (at : Fresh) (xs : Cells) : Type 0 where
  pub chr : at.chr ≢ 0
  pub name : at.name ≢ 0
  pub node : at.node ≢ 0
  pub path : at.path ≢ 0
  pub path_name : at.path ≢ at.name
  pub path_chr : at.path ≢ at.chr
  pub new_node : has at.node xs ≡ false
  pub new_value : has_value at.chr xs ≡ false

module _ (mknod : List ℕ → ℕ → ℕ → ℤ) (fuel devid : ℕ) (at : Fresh) (name : List ℕ)
    (ops : FileOperations) (st : Store) (l : KList) (chars : ℕ → CharDevice) (live : List ℕ)
    (xs : Cells) (is : IsList st.cells l xs) (fresh : IsFresh at xs) (enough : length xs + 1 < fuel)
    (new_number : any (has_id (λ p. (chars p).devid) devid) xs ≡ false) where
  abbrev ids' : ℕ → ℕ
  ids' p = (written at devid ops chars p).devid

  own_id : ids' at.chr ≡ devid
  own_id = ap (λ (c : CharDevice). c.devid) (pick_true (at.chr == at.chr) _ _ (ground arith))

  still_new : any (has_id ids' devid) xs ≡ false
  still_new =
      any-other (λ p. (chars p).devid) ids' at.chr devid xs
        (λ v ne. ap (λ (c : CharDevice). c.devid) (pick_false (v == at.chr) _ _ _ ne))
        fresh.new_value
      ∙ new_number

  nonzero : (p : ℕ) → p ≢ 0 → (p == 0) ≡ false
  nonzero p ne = ground arith

  -- Where no character device has the number: if vfs_mknod refuses the path, registering returns
  -- -1, the list holds the devices that it held, and all that kalloc gave for the device is given
  -- back.
  pub dev_register_char_dev-undone :
      mknod (device_path name) (char_mode ops) devid ≡ minus_one
      → (l'' : KList) × (h : Heap) × (dev_register_char_dev mknod fuel at devid name ops
            (table st l chars live)
          ≡ ok minus_one (table (with_cells st h) l'' (written at devid ops chars) live))
        × IsList h l'' xs
  unfolding dev_register_char_dev register_named publish alloc free put_char lookup add_char forget
      dev_char_lookup
  dev_register_char_dev-undone refused =
      let cmp = has_id ids' devid in
      let hit : cmp at.chr ≡ true = ground (arith, own_id) in
      let absent =
        list_find_lem st l xs fuel (has_id (λ p. (chars p).devid) devid) is (omega arith) in
      let (l', h, run, is', same) =
        list_add_lem st l xs fuel at.node at.chr is fresh.node fresh.new_node (omega arith) in
      let all = xs ++ (at.node, at.chr) ∷ [] in
      let (l'', h', gone, removed) =
        list_find_del_lem (with_cells st h) l' all fuel cmp is'
          (omega (arith, length-append xs ((at.node, at.chr) ∷ [])))
          (any-append cmp at.node at.chr hit xs) in
      (
        l'',
        h',
        rw absent (
            rw (find-none _ xs new_number) (
              rw (nonzero at.chr fresh.chr) (
                rw (nonzero at.name fresh.name) (
                  rw run (
                    rw (nonzero at.path fresh.path) (
                      rw refused (
                        rw gone (
                          rw (take_out-second at.name at.path (at.chr ∷ live) fresh.path_name) (
                            rw (take_out-second at.chr at.path live fresh.path_chr)
                              (rw (take_out-first at.path live) refl)))))))))),
        subst (λ ys. IsList h' l'' ys) (remove_first-append cmp at.node at.chr hit xs still_new)
            removed.0,
      )
