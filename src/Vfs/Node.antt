-- ===== src/Vfs/Node.antt =====
-- src/kernel/vfs.c: the nodes in use, which are counted and read from their file system. A function
-- that is not of memfs.c is `other`, which is given the function's address and the arguments.
use rtc_driver.Base.{
  ℕ, ◌+◌, ◌-◌, Bool, not, ◌&&◌, List, [], ◌∷◌, ◌==◌, ltb, if◌then◌else◌, Option, none, some,
}
use rtc_driver.Base.Int.{ℤ, pos, minus_one}
use rtc_driver.Base.Run.{ok, fault, Cmd, pure, and_then, ◌>>=◌, ◌>>◌}
use rtc_driver.Errors.{e_nomem, e_corrupt, e_io}
use rtc_driver.Devices.{is_minus_one}
use rtc_driver.Files.{Vnode, Dentry, Files, kalloc, kfree, fail, list_add, list_find, list_find_del}
use rtc_driver.Files.Fn
use rtc_driver.Memfs.{file_nodev}
use rtc_driver.Memfs.Sb.{put_vnode, memfs_sb_read_vnode, memfs_sb_destroy_vnode}

-- `vfs_vnodes_cmp` for a superblock and a number.
abbrev pub has_key : Files → ℕ → ℕ → ℕ → Bool
has_key s sb v_no p = ((s.vnodes p).v_no == v_no) && ((s.vnodes p).v_sb == sb)

unfoldable pub vfs_vnode_lookup : ℕ → ℕ → Files → ℕ
unfolding list_find
vfs_vnode_lookup sb v_no s = list_find (has_key s sb v_no) s.vfs_vnodes

-- The new vnode, at an address where `old` was: the member readdir of `v_fops` is not set.
unfoldable pub blank : ℕ → Vnode → Vnode
blank sb old = record old {
  v_no = 0;
  v_mode = 0;
  v_size = 0;
  v_dev = file_nodev;
  v_iops = record { lookup = 0; create = 0; mkdir = 0; mknod = 0 };
  v_fops = record old.v_fops {
    open_file = 0;
    release = 0;
    flush = 0;
    read = 0;
    write = 0;
    lseek = 0;
    ioctl = 0;
  };
  private_node = 0;
  v_sb = sb;
  v_count = 0;
}

unfoldable pub put_blank : ℕ → ℕ → Cmd Files ℕ
unfolding put_vnode blank fail
put_blank sb p s =
    if p == 0 then fail e_nomem 0 s else (put_vnode p (blank sb (s.vnodes p)) >> pure p) s

unfoldable pub vfs_vnode_prealloc : ℕ → Cmd Files ℕ
unfolding kalloc put_blank
vfs_vnode_prealloc sb = kalloc >>= put_blank sb

-- The status for what list_add answers.
unfoldable pub listed : Option (List ℕ) → Cmd Files ℤ
listed none s = ok minus_one s
listed (some ns) s = ok (pos 0) (record s { vfs_vnodes = ns })

unfoldable pub vfs_vnode_alloc : ℕ → Cmd Files ℤ
unfolding list_add listed
vfs_vnode_alloc node s = and_then (list_add node s.vfs_vnodes s) listed

-- The end of `vfs_vnode_dealloc`, with what list_find_del gives.
unfoldable pub taken_out : ℕ → ℕ × List ℕ → Cmd Files ℤ
unfolding fail kfree
taken_out node (n, ns) s =
    (if not (n == 0) && not (n == node)
        then fail e_corrupt minus_one
        else kfree node >> pure (pos 0))
      (record s { vfs_vnodes = ns })

unfoldable pub drop_node : ℕ → Vnode → Cmd Files ℤ
unfolding list_find_del taken_out
drop_node node v s =
    and_then (list_find_del (has_key s v.v_sb v.v_no) s.vfs_vnodes s) (taken_out node)

unfoldable pub vfs_vnode_dealloc : ℕ → Cmd Files ℤ
unfolding drop_node
vfs_vnode_dealloc node s = drop_node node (s.vnodes node) s

unfoldable pub vfs_vnode_acquire : ℕ → Cmd Files ℤ
unfolding put_vnode
vfs_vnode_acquire node s =
    let v = s.vnodes node in
    (put_vnode node (record v { v_count = v.v_count + 1 }) >> pure (pos 0)) s

module _ (other : ℕ → List ℕ → Cmd Files ℤ) where
  unfoldable pub call_read_vnode : ℕ → ℕ → ℕ → Cmd Files ℤ
  unfolding memfs_sb_read_vnode
  call_read_vnode f sb node =
      if f == 0
      then (λ s. fault)
      else if f == Fn.read_vnode
      then memfs_sb_read_vnode sb node
      else other f (sb ∷ node ∷ [])

  unfoldable pub call_destroy_vnode : ℕ → ℕ → ℕ → Cmd Files ℤ
  unfolding memfs_sb_destroy_vnode
  call_destroy_vnode f sb node =
      if f == 0
      then (λ s. fault)
      else if f == Fn.destroy_vnode
      then memfs_sb_destroy_vnode sb node
      else other f (sb ∷ node ∷ [])

  -- The node is destroyed below a count of one, so that a count below zero is taken for zero.
  unfoldable pub drop_use : ℕ → Vnode → Cmd Files ℤ
  unfolding put_vnode call_destroy_vnode fail vfs_vnode_dealloc
  drop_use node v s =
      (put_vnode node (record v { v_count = v.v_count - 1 })
          >> (if ltb (v.v_count - 1) 1
              then (call_destroy_vnode (s.sbs v.v_sb).destroy_vnode v.v_sb node >>= λ r.
                  if is_minus_one r then fail e_io minus_one else vfs_vnode_dealloc node)
              else pure (pos 0)))
        s

  unfoldable pub vfs_vnode_release : ℕ → Cmd Files ℤ
  unfolding drop_use
  vfs_vnode_release node s = drop_use node (s.vnodes node) s

  -- The parts of `vfs_vnode_get_or_read` for a node that is not in use: behind the registration of
  -- the node, behind its reading, and behind its allocation.
  unfoldable pub was_listed : ℕ → ℕ → ℤ → Cmd Files ℕ
  unfolding call_destroy_vnode vfs_vnode_dealloc vfs_vnode_acquire
  was_listed sb n q s =
      (if is_minus_one q
          then call_destroy_vnode (s.sbs sb).destroy_vnode sb n >> (vfs_vnode_dealloc n >> pure 0)
          else vfs_vnode_acquire n >> pure n)
        s

  unfoldable pub was_read : ℕ → ℕ → ℤ → Cmd Files ℕ
  unfolding vfs_vnode_dealloc vfs_vnode_alloc was_listed
  was_read sb n r s =
      (if is_minus_one r
          then vfs_vnode_dealloc n >> pure 0
          else vfs_vnode_alloc n >>= was_listed sb n)
        s

  unfoldable pub fetch : ℕ → ℕ → ℕ → Cmd Files ℕ
  unfolding put_vnode call_read_vnode was_read
  fetch sb vno n s =
      if n == 0
      then ok 0 s
      else (put_vnode n (record (s.vnodes n) { v_no = vno; v_sb = sb })
            >> (call_read_vnode (s.sbs sb).read_vnode sb n >>= was_read sb n))
          s

  unfoldable pub read_node : ℕ → ℕ → Cmd Files ℕ
  unfolding vfs_vnode_prealloc fetch
  read_node sb vno = vfs_vnode_prealloc sb >>= fetch sb vno

  unfoldable pub vfs_vnode_get_or_read : ℕ → ℕ → Cmd Files ℕ
  unfolding vfs_vnode_lookup read_node vfs_vnode_acquire
  vfs_vnode_get_or_read sb vno s =
      let n = vfs_vnode_lookup sb vno s in
      if n == 0 then read_node sb vno s else (vfs_vnode_acquire n >> pure n) s

  unfoldable pub vfs_node_from_dentry : Dentry → Cmd Files ℕ
  unfolding vfs_vnode_get_or_read
  vfs_node_from_dentry d s =
      if d.d_mnt_sb == 0
      then vfs_vnode_get_or_read d.d_sb d.d_vno s
      else vfs_vnode_get_or_read d.d_mnt_sb (s.sbs d.d_mnt_sb).sb_root_vno s

unfoldable pub vfs_vnode_unmount_sb : ℕ → Files → ℤ
unfolding list_find
vfs_vnode_unmount_sb sb s =
    if list_find (λ p. (s.vnodes p).v_sb == sb) s.vfs_vnodes == 0 then pos 0 else minus_one
