-- ===== src/Memfs/Alloc.antt =====
-- What the allocation of a node and of a directory entry does where kalloc has memory.
use rtc_driver.Base.{
  ℕ, suc, ◌+◌, ◌%◌, ◌^◌, ◌<◌, ◌≡◌, ◌≢◌, refl, ap, ◌∙◌, false, none, some, List, [], ◌∷◌, ◌++◌,
  arith, ◌==◌, if◌then◌else◌, get_elem?, set, set-set, ltb, length,
}
use rtc_driver.Base.Run.{ok, fault, Cmd, ◌>>=◌, and_then}
use rtc_driver.Files.{Files, Name, MemSuper, MemNode, MemDentry, kalloc, list_add, update}
use rtc_driver.Memfs.{
  set_super, with_super, put_node, put_dentry, memfs_dentry_alloc, memfs_node_alloc, number_node,
  finish_node, name_dentry, finish_dentry,
}

pub kalloc-ok :
    (s : Files) (p : ℕ) (more : List ℕ)
    → s.answers ≡ p ∷ more
    → p ≢ 0
    → kalloc s ≡ ok p (record s { answers = more; live = p ∷ s.live })
unfolding kalloc
kalloc-ok s p more e ne = ground arith

pub list_add-ok :
    (s : Files) (p q : ℕ) (xs more : List ℕ)
    → s.answers ≡ q ∷ more
    → q ≢ 0
    → list_add p xs s ≡ ok (some (xs ++ p ∷ [])) (record s { answers = more })
unfolding list_add
list_add-ok s p q xs more e ne = ground arith

pub with_super-at :
    {A : Type 0} (s : Files) (j : ℕ) {ms : MemSuper} (k : MemSuper → Cmd Files A)
    → get_elem? s.memfs_supers j ≡ some ms
    → with_super (suc j) k s ≡ k ms s
unfolding with_super
with_super-at s j k at = ap (λ o. elim o [ none ↦ fault | some m ↦ k m s ]) at

module _ (s : Files) (p q : ℕ) (more : List ℕ) (some_p : p ≢ 0) (some_q : q ≢ 0) where
  module _ (j mode devid : ℕ) {ms : MemSuper} (at : get_elem? s.memfs_supers j ≡ some ms) where
    abbrev pub numbered : MemNode
    numbered = record (s.mem_nodes p) { ino = ms.last_ino; super = suc j }

    abbrev pub new_node : MemNode
    new_node = record numbered { mode = mode; devid = devid; bytes = 0; dentries = [] }

    abbrev pub new_super : MemSuper
    new_super = record ms { last_ino = (ms.last_ino + 1) % 2 ^ 32; nodes = ms.nodes ++ p ∷ [] }

    abbrev pub with_node : Files
    with_node = record s {
      answers = more;
      live = p ∷ s.live;
      memfs_supers = set s.memfs_supers j new_super;
      mem_nodes = update (update s.mem_nodes p numbered) p new_node;
    }

    -- The node gets the next number and goes to the end of the list of nodes.
    pub memfs_node_alloc-ok :
        s.answers ≡ p ∷ q ∷ more → memfs_node_alloc (suc j) mode devid s ≡ ok p with_node
    unfolding memfs_node_alloc number_node finish_node set_super put_node
    memfs_node_alloc-ok e =
        let p0 : (p == 0) ≡ false = ground arith in
        let s1 = record s { answers = q ∷ more; live = p ∷ s.live } in
        let counted = record ms { last_ino = (ms.last_ino + 1) % 2 ^ 32 } in
        let s2 =
          set_super (suc j) counted (record s1 { mem_nodes = update s.mem_nodes p numbered }) in
        ap
          (λ r. and_then r (λ v.
            if v == 0
            then (λ t. ok 0 t)
            else with_super (suc j) (number_node (suc j) mode devid v)))
          (kalloc-ok s p (q ∷ more) e some_p)
        ∙ rw p0 (
            with_super-at s1 j (number_node (suc j) mode devid p) at
            ∙ (ap (λ r. and_then r (finish_node (suc j) counted p new_node))
                  (list_add-ok s2 p q ms.nodes more refl some_q)
                ∙ ap
                    (λ supers. ok p (record s {
                      answers = more;
                      live = p ∷ s.live;
                      memfs_supers = supers;
                      mem_nodes = update (update s.mem_nodes p numbered) p new_node;
                    }))
                    (set-set s.memfs_supers j counted new_super)))

module _ (s : Files) (d m q : ℕ) (more : List ℕ) (some_d : d ≢ 0) (some_m : m ≢ 0) (some_q : q ≢ 0)
    (dir ino : ℕ) (name : Name) (short : length name < 5) where
  abbrev pub new_dentry : MemDentry
  new_dentry = record { ino = ino; name = m; text = name; dir = dir }

  abbrev pub with_dentry : Files
  with_dentry = record s {
    answers = more;
    live = m ∷ (d ∷ s.live);
    mem_dentries = update s.mem_dentries d new_dentry;
    mem_nodes =
        update s.mem_nodes dir
          (record (s.mem_nodes dir) { dentries = (s.mem_nodes dir).dentries ++ d ∷ [] });
  }

  -- The entry has the number and the name, and goes to the end of the directory.
  pub memfs_dentry_alloc-ok :
      s.answers ≡ d ∷ m ∷ q ∷ more → memfs_dentry_alloc dir ino name s ≡ ok d with_dentry
  unfolding memfs_dentry_alloc name_dentry finish_dentry put_dentry put_node
  memfs_dentry_alloc-ok e =
      let d0 : (d == 0) ≡ false = ground arith in
      let m0 : (m == 0) ≡ false = ground arith in
      let fits : ltb 4 (length name) ≡ false = ground arith in
      let s1 = record s { answers = m ∷ q ∷ more; live = d ∷ s.live } in
      let s2 = record s1 {
        answers = q ∷ more;
        live = m ∷ (d ∷ s.live);
        mem_dentries = update s.mem_dentries d new_dentry;
      } in
      ap
        (λ r.
          and_then r
            (λ v. if v == 0 then (λ t. ok 0 t) else (kalloc >>= name_dentry dir ino name v)))
        (kalloc-ok s d (m ∷ q ∷ more) e some_d)
      ∙ rw d0 (
          ap (λ r. and_then r (name_dentry dir ino name d)) (kalloc-ok s1 m (q ∷ more) refl some_m)
          ∙ rw m0 (
              rw fits (
                ap (λ r. and_then r (finish_dentry dir d m))
                  (list_add-ok s2 d q (s.mem_nodes dir).dentries more refl some_q))))
