-- ===== src/Vfs/Count.antt =====
-- Nodes are counted: what a node is read for, its release gives back.
use rtc_driver.Base.{
  ℕ, suc, ◌+◌, ◌≡◌, ◌≢◌, refl, ap, ◌∙◌, Bool, true, false, ◌&&◌, List, [], ◌∷◌, ◌++◌, arith, ◌==◌,
  if◌then◌else◌, get_elem?, some,
}
use rtc_driver.Base.Int.{ℤ, pos}
use rtc_driver.Base.Run.{Run, ok, Cmd, and_then}
use rtc_driver.Devices.{take_out}
use rtc_driver.Files.{
  Files, Vnode, MemSuper, kfree, list_find, without, list_find_del, update, fail,
}
use rtc_driver.Files.Fn
use rtc_driver.Files.Update.{update_self, update-ne, update-update, update-again}
use rtc_driver.Memfs.{has_ino, with_super}
use rtc_driver.Memfs.Alloc.{kalloc-ok, list_add-ok, with_super-at}
use rtc_driver.Memfs.Mknod.{All, All-both, list_find-last}
use rtc_driver.Errors.{e_nokobj}
use rtc_driver.Memfs.Sb.{
  put_vnode, vnode_of, fill_vnode, load_vnode, memfs_sb_read_vnode, memfs_sb_destroy_vnode,
}
use rtc_driver.Vfs.Node.{
  has_key, vfs_vnode_lookup, blank, put_blank, vfs_vnode_prealloc, listed, vfs_vnode_alloc,
  vfs_vnode_acquire, vfs_vnode_release, vfs_vnode_dealloc, taken_out, drop_node, drop_use,
  call_read_vnode, call_destroy_vnode, was_listed, was_read, fetch, read_node,
  vfs_vnode_get_or_read,
}

list_find-none : (cmp : ℕ → Bool) (xs : List ℕ) → All (λ x. cmp x ≡ false) xs → list_find cmp xs ≡ 0
unfolding list_find
list_find-none cmp [] a = refl
list_find-none cmp (x ∷ xs) (miss, a) = rw miss (list_find-none cmp xs a)

pub take_out-first : (p : ℕ) (ps : List ℕ) → take_out p (p ∷ ps) ≡ ps
unfolding take_out
take_out-first p ps = let self : (p == p) ≡ true = ground arith in rw self refl

pub without-last :
    (cmp : ℕ → Bool) (v : ℕ) (xs : List ℕ)
    → All (λ x. cmp x ≡ false) xs
    → cmp v ≡ true
    → without cmp (xs ++ v ∷ []) ≡ xs
unfolding without
without-last cmp v [] a h = rw h refl
without-last cmp v (x ∷ xs) (miss, a) h = rw miss (ap (λ ys. x ∷ ys) (without-last cmp v xs a h))

-- A node of a memory file system that is not in use, memory for it, and an address that no node in
-- use has.
pub record IsIdle (s : Files) (sb vno p q : ℕ) (more : List ℕ) (j : ℕ) (ms : MemSuper) (mn : ℕ)
    : Type 0 where
  pub reads : (s.sbs sb).read_vnode ≡ Fn.read_vnode
  pub destroys : (s.sbs sb).destroy_vnode ≡ Fn.destroy_vnode
  pub of_super : (s.sbs sb).private_super ≡ suc j
  pub super : get_elem? s.memfs_supers j ≡ some ms
  pub found : list_find (has_ino s vno) ms.nodes ≡ mn
  pub node : mn ≢ 0
  pub unused : All (λ x. has_key s sb vno x ≡ false) s.vfs_vnodes
  pub fresh : All (λ x. x ≢ p) s.vfs_vnodes
  pub given : s.answers ≡ p ∷ q ∷ more
  pub vnode : p ≢ 0
  pub cell : q ≢ 0

module _ (other : ℕ → List ℕ → Cmd Files ℤ) (s : Files) (sb vno p q : ℕ) (more : List ℕ) (j : ℕ)
    {ms : MemSuper} (mn : ℕ) (idle : IsIdle s sb vno p q more j ms mn) where
  abbrev keyed : Vnode
  keyed = record (blank sb (s.vnodes p)) { v_no = vno; v_sb = sb }

  abbrev read : Vnode
  read = vnode_of ms.flags mn (s.mem_nodes mn) keyed

  abbrev at_key : List ℕ → List ℕ → Vnode → Files
  at_key answers nodes v = record s {
    answers = answers;
    live = p ∷ s.live;
    vfs_vnodes = nodes;
    vnodes = update s.vnodes p v;
  }

  p0 : (p == 0) ≡ false
  p0 = ground (arith, idle.vnode)

  allocated :
      vfs_vnode_prealloc sb s ≡ ok p (at_key (q ∷ more) s.vfs_vnodes (blank sb (s.vnodes p)))
  unfolding vfs_vnode_prealloc put_blank put_vnode
  allocated =
      ap (λ r. and_then r (put_blank sb)) (kalloc-ok s p (q ∷ more) idle.given idle.vnode)
      ∙ rw p0 refl

  abbrev start : Files
  start = at_key (q ∷ more) s.vfs_vnodes keyed

  memfs_filled : memfs_sb_read_vnode sb p start ≡ ok (pos 0) (at_key (q ∷ more) s.vfs_vnodes read)
  unfolding memfs_sb_read_vnode load_vnode fill_vnode put_vnode
  memfs_filled =
      let mn0 : (mn == 0) ≡ false = ground (arith, idle.node) in
      let here = update_self s.vnodes p keyed in
      ap (λ b. with_super b (load_vnode p) start) idle.of_super
      ∙ (with_super-at start j (load_vnode p) idle.super
          ∙ (ap
                (λ (v : Vnode).
                  fill_vnode p ms.flags (list_find (has_ino start v.v_no) ms.nodes) start)
                here
              ∙ (ap (λ m. fill_vnode p ms.flags m start) idle.found
                  ∙ rw mn0 (
                      ap (λ f. ok (pos 0) (record start { vnodes = f }))
                        (update-again s.vnodes p keyed (vnode_of ms.flags mn (s.mem_nodes mn)))))))

  -- The vnode is filled in from its number.
  filled :
      call_read_vnode other (s.sbs sb).read_vnode sb p (at_key (q ∷ more) s.vfs_vnodes keyed)
      ≡ ok (pos 0) (at_key (q ∷ more) s.vfs_vnodes read)
  unfolding call_read_vnode
  filled = rw idle.reads memfs_filled

  -- In use once, behind the other nodes.
  abbrev used : Vnode
  used = record read { v_count = 1 }

  abbrev loaded : Files
  loaded = at_key more (s.vfs_vnodes ++ p ∷ []) used

  acquired : was_listed other sb p (pos 0) (at_key more (s.vfs_vnodes ++ p ∷ []) read) ≡ ok p loaded
  unfolding was_listed vfs_vnode_acquire put_vnode vnode_of blank
  acquired =
      ap
        (λ f. ok p (record s {
          answers = more;
          live = p ∷ s.live;
          vfs_vnodes = s.vfs_vnodes ++ p ∷ [];
          vnodes = f;
        }))
        (update-again s.vnodes p read (λ v. record v { v_count = v.v_count + 1 }))

  entered : was_read other sb p (pos 0) (at_key (q ∷ more) s.vfs_vnodes read) ≡ ok p loaded
  unfolding was_read vfs_vnode_alloc listed
  entered =
      ap (λ r. and_then (and_then r listed) (was_listed other sb p))
        (list_add-ok (at_key (q ∷ more) s.vfs_vnodes read) p q s.vfs_vnodes more refl idle.cell)
      ∙ acquired

  fetched :
      fetch other sb vno p (at_key (q ∷ more) s.vfs_vnodes (blank sb (s.vnodes p))) ≡ ok p loaded
  unfolding fetch put_vnode
  fetched =
      let call : Files → Run Files ℤ = λ x. call_read_vnode other (s.sbs sb).read_vnode sb p x in
      rw p0 (
        ap (λ f. and_then (call (record start { vnodes = f })) (was_read other sb p))
          (update-again s.vnodes p (blank sb (s.vnodes p))
            (λ v. record v { v_no = vno; v_sb = sb }))
        ∙ (ap (λ r. and_then r (was_read other sb p)) filled ∙ entered))

  got : vfs_vnode_get_or_read other sb vno s ≡ ok p loaded
  unfolding vfs_vnode_get_or_read vfs_vnode_lookup read_node
  got =
      let absent = list_find-none (has_key s sb vno) s.vfs_vnodes idle.unused in
      rw absent (ap (λ r. and_then r (fetch other sb vno)) allocated ∙ fetched)

  -- At the last release, from the count of 1.
  abbrev gone : Vnode
  gone = record read { v_count = 0 }

  abbrev ended : Files
  ended = at_key more (s.vfs_vnodes ++ p ∷ []) gone

  -- The vnodes that were in use have the keys that they had.
  keys_kept : (x : ℕ) → has_key s sb vno x ≡ false → x ≢ p → has_key ended sb vno x ≡ false
  keys_kept x miss ne =
      ap (λ (v : Vnode). (v.v_no == vno) && (v.v_sb == sb)) (update-ne s.vnodes p gone x ne) ∙ miss

  keys : All (λ x. has_key ended sb vno x ≡ false) s.vfs_vnodes
  keys =
      All-both (λ x. has_key s sb vno x ≡ false) (λ x. x ≢ p) (λ x. has_key ended sb vno x ≡ false)
        s.vfs_vnodes keys_kept idle.unused idle.fresh

  mine : has_key ended sb vno p ≡ true
  unfolding vnode_of blank
  mine =
      ap (λ (v : Vnode). (v.v_no == vno) && (v.v_sb == sb)) (update_self s.vnodes p gone)
      ∙ ground arith

  abbrev restored : Files
  restored = record s { answers = more; vnodes = update s.vnodes p gone }

  destroyed : vfs_vnode_dealloc p ended ≡ ok (pos 0) restored
  unfolding vfs_vnode_dealloc drop_node list_find_del vnode_of blank taken_out kfree
  destroyed =
      let ns = s.vfs_vnodes ++ p ∷ [] in
      let self : (p == p) ≡ true = ground arith in
      ap (λ v. drop_node p v ended) (update_self s.vnodes p gone)
      ∙ (ap
            (λ x.
              and_then
                (if x == 0
                  then fail e_nokobj (0, ns) ended
                  else ok (x, without (has_key ended sb vno) ns) ended)
                (taken_out p))
            (list_find-last (has_key ended sb vno) p s.vfs_vnodes keys mine)
          ∙ rw p0 (
              ap (λ xs. taken_out p (p, xs) ended)
                (without-last (has_key ended sb vno) p s.vfs_vnodes keys mine)
              ∙ rw p0 (
                  rw self (
                    ap
                      (λ l.
                        ok (pos 0)
                          (record s { answers = more; live = l; vnodes = update s.vnodes p gone }))
                      (take_out-first p s.live)))))

  released : vfs_vnode_release other p loaded ≡ ok (pos 0) restored
  unfolding vfs_vnode_release drop_use put_vnode call_destroy_vnode memfs_sb_destroy_vnode vnode_of
      blank
  released =
      ap (λ v. drop_use other p v loaded) (update_self s.vnodes p used)
      ∙ rw idle.destroys (
          ap (λ f. vfs_vnode_dealloc p (record loaded { vnodes = f }))
            (update-update s.vnodes p used gone)
          ∙ destroyed)

  -- A node that is not in use, of a memory file system with the number, where kalloc has memory and
  -- gives an address that no node in use has: the node is read with the number, the superblock, and
  -- the mode, size and device of the file system's node, to which it points, a use count of 1, and
  -- goes behind the nodes in use, where it is found under its number; and its release returns 0,
  -- takes it out of the list again and gives its memory back.
  pub vfs_vnode_release-vfs_vnode_get_or_read :
      (t u : Files) × (vfs_vnode_get_or_read other sb vno s ≡ ok p t)
      × ((t.vnodes p).v_mode ≡ (s.mem_nodes mn).mode)
      × ((t.vnodes p).v_size ≡ (s.mem_nodes mn).size)
      × ((t.vnodes p).v_dev ≡ (s.mem_nodes mn).devid)
      × ((t.vnodes p).private_node ≡ mn)
      × ((t.vnodes p).v_no ≡ vno)
      × ((t.vnodes p).v_sb ≡ sb)
      × ((t.vnodes p).v_count ≡ 1)
      × (t.vfs_vnodes ≡ s.vfs_vnodes ++ p ∷ [])
      × (vfs_vnode_lookup sb vno t ≡ p)
      × (vfs_vnode_release other p t ≡ ok (pos 0) u)
      × (u.vfs_vnodes ≡ s.vfs_vnodes)
      × (u.live ≡ s.live)
  unfolding vnode_of blank vfs_vnode_lookup
  vfs_vnode_release-vfs_vnode_get_or_read =
      let here = update_self s.vnodes p used in
      (
        loaded,
        restored,
        got,
        ap (λ (v : Vnode). v.v_mode) here,
        ap (λ (v : Vnode). v.v_size) here,
        ap (λ (v : Vnode). v.v_dev) here,
        ap (λ (v : Vnode). v.private_node) here,
        ap (λ (v : Vnode). v.v_no) here,
        ap (λ (v : Vnode). v.v_sb) here,
        ap (λ (v : Vnode). v.v_count) here,
        refl,
        list_find-last (has_key loaded sb vno) p s.vfs_vnodes
            (All-both (λ x. has_key s sb vno x ≡ false) (λ x. x ≢ p)
              (λ x. has_key loaded sb vno x ≡ false) s.vfs_vnodes
              (λ x miss ne.
                ap (λ (v : Vnode). (v.v_no == vno) && (v.v_sb == sb))
                  (update-ne s.vnodes p used x ne)
                ∙ miss)
              idle.unused idle.fresh)
            (ap (λ (v : Vnode). (v.v_no == vno) && (v.v_sb == sb)) here ∙ ground arith),
        released,
        refl,
        refl,
      )
