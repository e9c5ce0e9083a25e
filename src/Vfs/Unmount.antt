-- ===== src/Vfs/Unmount.antt =====
-- What unmounting a superblock makes of the cache.
use rtc_driver.Base.{
  ℕ, suc, ◌+◌, ◌≡◌, ◌≢◌, ◌⊎◌, refl, sym, ap, ◌∙◌, Bool, true, false, not, ◌&&◌, Bool-cases, inl,
  inr, some, List, [], ◌∷◌, ◌++◌, map, arith, ◌==◌, if◌then◌else◌, get_elem?, set, length,
}
use mathlib.Core.List.{append_assoc}
use rtc_driver.Base.Int.{pos, minus_one}
use rtc_driver.Base.Run.{ok, and_then}
use rtc_driver.Devices.{take_out}
use rtc_driver.Files.{Dentry, Files}
use rtc_driver.Vfs.{
  no_dentry, reset_entry, vfs_dentry_reset, busy, drop_entries, vfs_dentry_unmount_sb,
}
use rtc_driver.Vfs.Cache.{with_dentry-at}
use rtc_driver.Vfs.Search.{All}

-- An entry in use that belongs to the superblock.
abbrev pub belongs : ℕ → Dentry → Bool
belongs sb d = not (d.d_name == 0) && (d.d_sb == sb)

abbrev pub cleared : ℕ → Dentry → Dentry
cleared sb d = if belongs sb d then no_dentry else d

-- An entry in use that belongs to the superblock and is a mountpoint.
abbrev pub IsHeld : ℕ → Dentry → Type 0
IsHeld sb d = (d.d_name ≢ 0) × (d.d_mnt_sb ≢ 0) × (d.d_sb ≡ sb)

abbrev held : ℕ → Dentry → Bool
held sb d = not (d.d_name == 0) && (not (d.d_mnt_sb == 0) && (d.d_sb == sb))

busy_lem :
    (sb : ℕ) (ds : List Dentry)
    → ((busy sb ds ≡ true) × (k : ℕ) × (d : Dentry) × (get_elem? ds k ≡ some d) × IsHeld sb d)
      ⊎ ((busy sb ds ≡ false) × All (λ d. ¬ IsHeld sb d) ds)
unfolding busy
busy_lem sb [] = inr (refl, tt)
busy_lem sb (d ∷ ds) = elim (Bool-cases (held sb d)) [
  | inl hit ↦ inl (rw hit refl, 0, d, refl, ground arith)
  | inr miss ↦
      let no : ¬ IsHeld sb d = λ h. ground (arith, h.0, h.1, h.2) in
      elim (busy_lem sb ds) [
        | inl (b, k, e, at, h) ↦ inl (rw miss b, suc k, e, at, h)
        | inr (b, all) ↦ inr (rw miss b, (no, all))
      ]
]

get-behind :
    (xs : List Dentry) (d : Dentry) (ds : List Dentry)
    → get_elem? (xs ++ d ∷ ds) (length xs) ≡ some d
get-behind [] d ds = refl
get-behind (x ∷ xs) d ds = get-behind xs d ds

set-behind :
    (xs : List Dentry) (d e : Dentry) (ds : List Dentry)
    → set (xs ++ d ∷ ds) (length xs) e ≡ xs ++ e ∷ ds
set-behind [] d e ds = refl
set-behind (x ∷ xs) d e ds = ap (λ ys. x ∷ ys) (set-behind xs d e ds)

length-snoc : (xs : List Dentry) (e : Dentry) → length (xs ++ e ∷ []) ≡ length xs + 1
length-snoc [] e = refl
length-snoc (x ∷ xs) e = omega (arith, length-snoc xs e)

abbrev with_cache : Files → List ℕ → List Dentry → Files
with_cache s live ds = record s { live = live; vfs_dentries = ds }

module _ (s : Files) (sb : ℕ) where
  -- One round of the loop, at the entry behind `xs`.
  round :
      (xs : List Dentry) (d : Dentry) (ds : List Dentry) (live : List ℕ)
      → (live' : List ℕ) × ((if belongs sb d
              then vfs_dentry_reset (suc (length xs))
              else (λ t. ok tt t))
            (with_cache s live (xs ++ d ∷ ds))
          ≡ ok tt (with_cache s live' (xs ++ cleared sb d ∷ ds)))
  unfolding vfs_dentry_reset reset_entry
  round xs d ds live = elim (Bool-cases (belongs sb d)) [
    | inr other ↦ (live, rw other refl)
    | inl mine ↦
        let named : (d.d_name == 0) ≡ false = ground arith in
        (
          take_out d.d_name live,
          rw mine (
              with_dentry-at (with_cache s live (xs ++ d ∷ ds)) (length xs)
                (reset_entry (suc (length xs))) (get-behind xs d ds)
              ∙ rw named (
                  ap (λ es. ok tt (with_cache s (take_out d.d_name live) es))
                    (set-behind xs d no_dentry ds))),
        )
  ]

  dropped :
      (ds xs : List Dentry) (live : List ℕ)
      → (live' : List ℕ) × (drop_entries sb (suc (length xs)) ds (with_cache s live (xs ++ ds))
          ≡ ok tt (with_cache s live' (xs ++ map (cleared sb) ds)))
  unfolding drop_entries
  dropped [] xs live = (live, refl)
  dropped (d ∷ ds) xs live =
      let (live1, one) = round xs d ds live in
      let e = cleared sb d in
      let (live2, rest) = dropped ds (xs ++ e ∷ []) live1 in
      (
        live2,
        ap (λ r. and_then r (λ _. drop_entries sb (suc (length xs) + 1) ds)) one
            ∙ (ap (λ n. drop_entries sb n ds (with_cache s live1 (xs ++ e ∷ ds)))
                  (omega (arith, length-snoc xs e))
                ∙ (ap
                      (λ es.
                        drop_entries sb (suc (length (xs ++ e ∷ []))) ds (with_cache s live1 es))
                      (sym (append_assoc xs (e ∷ []) ds))
                    ∙ (rest
                        ∙ ap (λ es. ok tt (with_cache s live2 es))
                            (append_assoc xs (e ∷ []) (map (cleared sb) ds))))),
      )

  -- vfs_dentry_unmount_sb: where an entry of the superblock is a mountpoint, the result is -1 and
  -- nothing changes; otherwise it is 0, the entries of the superblock are emptied, and the others
  -- are as they were.
  pub vfs_dentry_unmount_sb_lem :
      ((k : ℕ) × (d : Dentry) × (get_elem? s.vfs_dentries k ≡ some d)
        × IsHeld sb d
        × (vfs_dentry_unmount_sb sb s ≡ ok minus_one s))
      ⊎ (All (λ d. ¬ IsHeld sb d) s.vfs_dentries
          × (s' : Files) × (vfs_dentry_unmount_sb sb s ≡ ok (pos 0) s')
          × (s'.vfs_dentries ≡ map (cleared sb) s.vfs_dentries))
  unfolding vfs_dentry_unmount_sb
  vfs_dentry_unmount_sb_lem = elim (busy_lem sb s.vfs_dentries) [
    | inl (b, k, d, at, h) ↦ inl (k, d, at, h, rw b refl)
    | inr (b, free) ↦
        let (live, run) = dropped s.vfs_dentries [] s.live in
        inr (
          free,
          with_cache s live (map (cleared sb) s.vfs_dentries),
          rw b (ap (λ r. and_then r (λ _ t. ok (pos 0) t)) run),
          refl,
        )
  ]
