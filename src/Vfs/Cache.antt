-- ===== src/Vfs/Cache.antt =====
-- What vfs_dentry_get returns and makes of the cache.
use rtc_driver.Base.{
  ℕ, zero, suc, ◌+◌, ◌<◌, ◌≡◌, ◌≢◌, ◌⊎◌, inl, inr, Bool-cases, refl, sym, ap, ◌∙◌, true, false,
  none, some, List, ◌∷◌, arith, ◌==◌, if◌then◌else◌, get_elem?, set, set-set, lt-length,
  get_elem?-set_self, get_elem?-set_ne,
}
use rtc_driver.Base.Run.{Run, Cmd, ok, fault, ◌>>=◌, and_then}
use rtc_driver.Devices.{take_out}
use rtc_driver.Errors.{e_limit}
use rtc_driver.Files.{Name, Dentry, Files, kalloc}
use rtc_driver.Files.Fail.{IsCalm, with_errno, fail-ok}
use rtc_driver.Vfs.{
  found, room, search, no_dentry, with_dentry, put_dentry, vfs_dentry_reset, sb_below, new_dentry,
  vfs_dentry_get, reset_entry, parent_sb, put_used, fill, use_again, settle,
}
use rtc_driver.Vfs.Search.{
  All, All-map, Kept, is_entry, IsMount, IsVictim, search-found, search-room,
}

pub with_dentry-at :
    {A : Type 0} (s : Files) (k : ℕ) {d : Dentry} (f : Dentry → Cmd Files A)
    → get_elem? s.vfs_dentries k ≡ some d
    → with_dentry (suc k) f s ≡ f d s
unfolding with_dentry
with_dentry-at s k f at = ap (λ o. elim o [ none ↦ fault | some e ↦ f e s ]) at

-- An entry that is in the cache is returned, used once more, and nothing else has changed.
pub vfs_dentry_get-found :
    (s : Files) (parent k : ℕ) (name : Name) {d : Dentry}
    → get_elem? s.vfs_dentries k ≡ some d
    → is_entry parent name d ≡ true
    → ((j : ℕ) (e : Dentry)
        → j < k
        → get_elem? s.vfs_dentries j ≡ some e
        → is_entry parent name e ≡ false)
    → vfs_dentry_get parent name s
      ≡ ok
          (suc k)
          (record s { vfs_dentries = set s.vfs_dentries k (record d { d_count = d.d_count + 1 }) })
unfolding vfs_dentry_get settle use_again
vfs_dentry_get-found s parent k name at hit earlier =
    let e : search parent name 1 0 0 s.vfs_dentries ≡ found (suc k) =
      search-found parent name s.vfs_dentries 1 0 0 k at hit earlier ∙ ap found (omega arith) in
    ap (λ r. settle parent name r s) e ∙ with_dentry-at s k (use_again (suc k)) at

parent_sb-at :
    (x : Files) (j : ℕ) {e : Dentry}
    → get_elem? x.vfs_dentries j ≡ some e
    → parent_sb (suc j) x ≡ ok (sb_below e) x
unfolding parent_sb
parent_sb-at x j at =
    let some_parent : (suc j == 0) ≡ false = ground arith in
    rw some_parent (with_dentry-at x j (λ up t. ok (sb_below up) t) at)

-- The superblock of the entries below a parent, where it is in the cache.
abbrev pub below : List Dentry → ℕ → ℕ
below ds zero = 0
below ds (suc j) = elim (get_elem? ds j) [ none ↦ 0 | some up ↦ sb_below up ]

-- A parent is NULL or an entry of the cache.
abbrev pub IsParent : List Dentry → ℕ → Type 0
IsParent ds parent =
    (parent ≡ 0) ⊎ ((j : ℕ) × (up : Dentry) × (parent ≡ suc j) × (get_elem? ds j ≡ some up))

abbrev pub entry : ℕ → Name → ℕ → ℕ → Dentry
entry q name parent sb = record {
  d_name = q;
  d_text = name;
  d_vno = 0;
  d_parent = parent;
  d_sb = sb;
  d_mnt_sb = 0;
  d_count = 1;
}

module _ (s : Files) (k : ℕ) (d : Dentry) (at : get_elem? s.vfs_dentries k ≡ some d) where
  -- What is live when the entry's name has been given back.
  abbrev live : List ℕ
  live = if d.d_name == 0 then s.live else take_out d.d_name s.live

  abbrev emptied : Files
  emptied = record s { live = live; vfs_dentries = set s.vfs_dentries k no_dentry }

  reset : vfs_dentry_reset (suc k) s ≡ ok tt emptied
  unfolding vfs_dentry_reset reset_entry
  reset = with_dentry-at s k (reset_entry (suc k)) at ∙ ground arith

  module _ (parent q : ℕ) (qs : List ℕ) (name : Name) (given : s.answers ≡ q ∷ qs) (ne : q ≢ 0)
      (up : IsParent s.vfs_dentries parent) where
    -- The superblock is read when the place has been written, so that a parent at that very place
    -- has lost its own.
    abbrev sb : ℕ
    sb = if parent == suc k then 0 else below s.vfs_dentries parent

    abbrev filled : Dentry → Files
    filled e = record s { answers = qs; live = q ∷ live; vfs_dentries = set s.vfs_dentries k e }

    -- The entry before its superblock and its count are set.
    abbrev early : Dentry
    early = record no_dentry { d_name = q; d_text = name; d_parent = parent }

    asked : kalloc emptied ≡ ok q (filled no_dentry)
    unfolding kalloc
    asked = ground (arith, given, ne)

    sb_of :
        (j : ℕ) {e : Dentry}
        → parent ≡ suc j
        → get_elem? (set s.vfs_dentries k early) j ≡ some e
        → sb_below e ≡ sb
        → parent_sb parent (filled early) ≡ ok sb (filled early)
    sb_of j p get eq =
        ap (λ v. parent_sb v (filled early)) p
        ∙ (parent_sb-at (filled early) j get ∙ ap (λ v. ok v (filled early)) eq)

    sb_read : parent_sb parent (filled early) ≡ ok sb (filled early)
    sb_read = elim up [
      | inl null ↦
          let other : (0 == suc k) ≡ false = ground arith in
          unfold parent_sb in rw null (rw other refl)
      | inr (j, e, p, get) ↦ elim (Bool-cases (j == k)) [
        | inl own ↦
            let here : j ≡ k = ground arith in
            sb_of j p
              (ap (λ i. get_elem? (set s.vfs_dentries k early) i) here
                ∙ get_elem?-set_self s.vfs_dentries k early (lt-length s.vfs_dentries k at))
              (let same : (suc j == suc k) ≡ true = ground arith in
                rw p (unfold sb_below in rw same refl))
        | inr other ↦
            sb_of j p (get_elem?-set_ne s.vfs_dentries {i = k} {j = j} early (ground arith) ∙ get) (
              let apart : (suc j == suc k) ≡ false = ground arith in
              rw p (rw apart (ap (λ o. elim o [ none ↦ 0 | some a ↦ sb_below a ]) (sym get))))
      ]
    ]

    -- The rest of the code on the place that has been emptied.
    filled_in :
        fill (suc k) parent name q (filled no_dentry) ≡ ok (suc k) (filled (entry q name parent sb))
    unfolding fill put_dentry put_used
    filled_in =
        let some_name : (q == 0) ≡ false = ground arith in
        let rest : Run Files ℕ → Run Files ℕ = λ r. and_then r (put_used (suc k) early) in
        rw some_name (
          ap
            (λ ds.
              rest
                (parent_sb parent (record s { answers = qs; live = q ∷ live; vfs_dentries = ds })))
            (set-set s.vfs_dentries k no_dentry early)
          ∙ (ap rest sb_read
              ∙ ap
                  (λ ds. ok (suc k) (record s { answers = qs; live = q ∷ live; vfs_dentries = ds }))
                  (set-set s.vfs_dentries k early (entry q name parent sb))))

    added : new_dentry (suc k) parent name s ≡ ok (suc k) (filled (entry q name parent sb))
    unfolding new_dentry
    added =
        ap (λ r. and_then r (λ _. kalloc >>= fill (suc k) parent name)) reset
        ∙ (ap (λ r. and_then r (fill (suc k) parent name)) asked ∙ filled_in)

unmarked : (d : Dentry) → Kept 0 0 d → IsMount d
unmarked d (full, inl m) = (full, m)
unmarked d (full, inr (no_low, _)) = absurd (no_low refl)

abbrev pub IsNew : ℕ → Name → Dentry → Type 0
IsNew parent name d = is_entry parent name d ≡ false

module _ (s : Files) (parent q : ℕ) (qs : List ℕ) (name : Name) (calm : IsCalm s)
    (given : s.answers ≡ q ∷ qs) (ne : q ≢ 0) (up : IsParent s.vfs_dentries parent)
    (new : All (IsNew parent name) s.vfs_dentries) where
  -- At a panic level above PANIC_HYSTERICAL, at which set_errno returns, for a parent that is NULL
  -- or in the cache, and a name that the cache does not have below it, with memory for the name: if
  -- every entry is a mountpoint in use, the result is NULL with E_LIMIT, and nothing else has
  -- changed.
  -- Otherwise one entry is given up, which is free, or, where none is free, is no mountpoint and
  -- the least used of those; its place holds the new entry, with the name, the parent, a count of
  -- 1, no number, and the superblock that is mounted on the parent or else the parent's own, NULL
  -- for a parent that was given up itself; every other entry is as it was.
  pub vfs_dentry_get-new :
      (All IsMount s.vfs_dentries × (vfs_dentry_get parent name s ≡ ok 0 (with_errno e_limit s)))
      ⊎ ((k : ℕ) × (d : Dentry) × (s' : Files) × (get_elem? s.vfs_dentries k ≡ some d)
          × IsVictim s.vfs_dentries d
          × (vfs_dentry_get parent name s ≡ ok (suc k) s')
          × (s'.vfs_dentries
              ≡ set s.vfs_dentries k (
                  entry q name parent
                    (if parent == suc k then 0 else below s.vfs_dentries parent))))
  unfolding vfs_dentry_get settle
  vfs_dentry_get-new =
      let (p, run, ends) = search-room parent name s.vfs_dentries 1 0 0 (omega arith) new in
      let settled = ap (λ r. settle parent name r s) run in
      elim ends [
        | inl (null, kept) ↦ inl (
          All-map _ IsMount s.vfs_dentries unmarked kept,
          settled ∙ (ap (λ v. settle parent name (room v) s) null ∙ fail-ok e_limit 0 s calm),
        )
        | inr (k, d, at, get, victim) ↦
            let place : p ≡ suc k = omega (arith, at) in
            let there : (suc k == 0) ≡ false = ground arith in
            inr (
              k,
              d,
              filled s k d get parent q qs name given ne up
                  (entry q name parent (sb s k d get parent q qs name given ne up)),
              get,
              elim victim [ inl f ↦ inl f | inr (m, _, a) ↦ inr (m, a) ],
              settled
                  ∙ (ap (λ v. settle parent name (room v) s) place
                      ∙ rw there (added s k d get parent q qs name given ne up)),
              refl,
            )
      ]
