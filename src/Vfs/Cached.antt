-- ===== src/Vfs/Cached.antt =====
-- The lookup of a path of which every entry is in the cache.
use rtc_driver.Base.{
  ℕ, zero, suc, ◌+◌, ◌<◌, ◌≡◌, ◌≢◌, refl, sym, ap, ◌∙◌, true, false, List, [], ◌∷◌, arith, ◌==◌,
  if◌then◌else◌, map, get_elem?, get_elem?-set_self, lt-length, set, some,
}
use mathlib.Core.Path.{subst}
use rtc_driver.Base.Int.{ℤ}
use rtc_driver.Base.Run.{Cmd, ok, and_then}
use rtc_driver.Files.{Name, Dentry, Files}
use rtc_driver.Memfs.Alloc.{kalloc-ok}
use rtc_driver.Vfs.Search.{is_entry}
use rtc_driver.Vfs.Cache.{with_dentry-at, vfs_dentry_get-found}
use rtc_driver.Vfs.Walk.{known, arrive, descend, walk, finish_walk, walk_copy, vfs_lookup}
use rtc_driver.Vfs.Paths.{render, AreNames, components-render}

-- The cache but for how often its entries were used.
abbrev pub uncounted : Dentry → Dentry
uncounted d = record d { d_count = 0 }

-- The entry of a name below a parent, with a number, is at index `k`, and no earlier one has both.
abbrev pub IsAt : List Dentry → ℕ → Name → ℕ → Type 0
IsAt ds parent w k =
    (d : Dentry) × (get_elem? ds k ≡ some d)
    × (is_entry parent w d ≡ true)
    × (d.d_vno ≢ 0)
    × ((j : ℕ) (e : Dentry) → j < k → get_elem? ds j ≡ some e → is_entry parent w e ≡ false)

-- From entry to entry along the names.
pub data Leads (ds : List Dentry) : ℕ → List Name → ℕ → Type 0 where
  here : (p : ℕ) → Leads ds p [] p
  down :
      (p k : ℕ) (w : Name) (ws : List Name) (q : ℕ)
      → IsAt ds p w k
      → Leads ds (suc k) ws q
      → Leads ds p (w ∷ ws) q

end-Leads : {ds : List Dentry} {p q : ℕ} (ws : List Name) → Leads ds p ws q → p ≢ 0 → q ≢ 0
end-Leads [] (here _) some_p = some_p
end-Leads (w ∷ ws) (down _ k _ _ _ at more) some_p = end-Leads ws more (omega arith)

get-map :
    (ds : List Dentry) (k : ℕ) {e : Dentry}
    → get_elem? (map uncounted ds) k ≡ some e
    → (d : Dentry) × (get_elem? ds k ≡ some d) × (uncounted d ≡ e)
get-map [] k at = cc
get-map (d ∷ ds) zero at = (d, refl, cc)
get-map (d ∷ ds) (suc k) at = get-map ds k at

same_entry : {d e : Dentry} → some d ≡ some e → d ≡ e
same_entry h = cc

map-get :
    (ds : List Dentry) (k : ℕ) {d : Dentry}
    → get_elem? ds k ≡ some d
    → get_elem? (map uncounted ds) k ≡ some (uncounted d)
map-get [] k at = cc
map-get (d ∷ ds) zero at = ap (λ e. some (uncounted e)) (same_entry at)
map-get (d ∷ ds) (suc k) at = map-get ds k at

map-set :
    (ds : List Dentry) (k : ℕ) {d : Dentry} (n : ℕ)
    → get_elem? ds k ≡ some d
    → map uncounted (set ds k (record d { d_count = n })) ≡ map uncounted ds
map-set [] k n at = cc
map-set (d ∷ ds) zero n at = ap (λ e. uncounted e ∷ map uncounted ds) (sym (same_entry at))
map-set (d ∷ ds) (suc k) n at = ap (λ es. uncounted d ∷ es) (map-set ds k n at)

module _ (other : ℕ → List ℕ → Cmd Files ℤ) where
  -- What a walk along entries in the cache leaves as it was.
  record IsSame (s t : Files) : Type 0 where
    cache : map uncounted t.vfs_dentries ≡ map uncounted s.vfs_dentries
    live : t.live ≡ s.live
    answers : t.answers ≡ s.answers
    vnodes : t.vnodes ≡ s.vnodes
    errors : t.errors ≡ s.errors
    root : t.vfs_root_dentry ≡ s.vfs_root_dentry

  descend-cached :
      (s : Files) (p k : ℕ) (w : Name)
      → IsAt (map uncounted s.vfs_dentries) p w k
      → (t : Files) × (descend other p w s ≡ ok (suc k) t) × IsSame s t
  unfolding descend
  descend-cached s p k w (e, at, hit, numbered, earlier) =
      let (d, get, same) = get-map s.vfs_dentries k at in
      let d' : Dentry = record d { d_count = d.d_count + 1 } in
      let t : Files = record s { vfs_dentries = set s.vfs_dentries k d' } in
      let hit' : is_entry p w d ≡ true = ap (is_entry p w) same ∙ hit in
      let number : (d.d_vno == 0) ≡ false =
        ground (arith, numbered, ap (λ (x : Dentry). x.d_vno) same) in
      let run =
        vfs_dentry_get-found s p k w get hit'
          (λ j c lt here. earlier j (uncounted c) lt (map-get s.vfs_dentries j here)) in
      let there : (suc k == 0) ≡ false = ground arith in
      let get' = get_elem?-set_self s.vfs_dentries k d' (lt-length s.vfs_dentries k get) in
      (
        t,
        ap (λ r. and_then r (arrive other p)) run
            ∙ rw there (with_dentry-at t k (known other p (suc k)) get' ∙ rw number refl),
        record {
          cache = map-set s.vfs_dentries k (d.d_count + 1) get;
          live = refl;
          answers = refl;
          vnodes = refl;
          errors = refl;
          root = refl;
        },
      )

  walk-cached :
      (ws : List Name) (p q : ℕ) (s : Files)
      → Leads (map uncounted s.vfs_dentries) p ws q
      → (t : Files) × (walk other p ws s ≡ ok q t) × IsSame s t
  unfolding walk
  walk-cached [] p q s (here _) = (
    s,
    refl,
    record { cache = refl; live = refl; answers = refl; vnodes = refl; errors = refl; root = refl },
  )
  walk-cached (w ∷ ws) p q s (down _ k _ _ _ at more) =
      let (t, run, same) = descend-cached s p k w at in
      let (u, rest, same') =
        walk-cached ws (suc k) q t (subst (λ ds. Leads ds (suc k) ws q) (sym same.cache) more) in
      let there : (suc k == 0) ≡ false = ground arith in
      (
        u,
        ap (λ r. and_then r (λ c. if c == 0 then (λ x. ok 0 x) else walk other c ws)) run
            ∙ rw there rest,
        record {
          cache = same'.cache ∙ same.cache;
          live = same'.live ∙ same.live;
          answers = same'.answers ∙ same.answers;
          vnodes = same'.vnodes ∙ same.vnodes;
          errors = same'.errors ∙ same.errors;
          root = same'.root ∙ same.root;
        },
      )

  -- With a root, and memory for a copy of the path: where the cache has the entries of a path of
  -- names without slashes, each with a number and below the one before, and the first of its name
  -- and parent, vfs_lookup returns the last of them; the nodes, the error number and the cache are
  -- as before, but for the counts of use, and the copy of the path stays allocated.
  pub vfs_lookup-render :
      (s : Files) (ws : List Name) (q c : ℕ) (more : List ℕ)
      → s.vfs_root_dentry ≢ 0
      → s.answers ≡ c ∷ more
      → c ≢ 0
      → AreNames ws
      → Leads (map uncounted s.vfs_dentries) s.vfs_root_dentry ws q
      → (t : Files) × (vfs_lookup other (render ws) s ≡ ok q t)
        × (map uncounted t.vfs_dentries ≡ map uncounted s.vfs_dentries)
        × (t.live ≡ c ∷ s.live)
        × (t.answers ≡ more)
        × (t.vnodes ≡ s.vnodes)
        × (t.errors ≡ s.errors)
  unfolding vfs_lookup walk_copy finish_walk
  vfs_lookup-render s ws q c more root given some_c names leads =
      let s1 : Files = record s { answers = more; live = c ∷ s.live } in
      let (t, run, same) = walk-cached ws s.vfs_root_dentry q s1 leads in
      let r0 : (s.vfs_root_dentry == 0) ≡ false = ground arith in
      let c0 : (c == 0) ≡ false = ground arith in
      let end : q ≢ 0 = end-Leads ws leads root in
      let q0 : (q == 0) ≡ false = ground arith in
      (
        t,
        rw r0 (
            ap (λ r. and_then r (walk_copy other (render ws))) (kalloc-ok s c more given some_c)
            ∙ rw c0 (
                ap (λ path. and_then (walk other s.vfs_root_dentry path s1) (finish_walk other c))
                  (components-render ws names)
                ∙ ap (λ r. and_then r (finish_walk other c)) run
                ∙ rw q0 refl)),
        same.cache,
        same.live,
        same.answers,
        same.vnodes,
        same.errors,
      )
