-- ===== src/Memfs/Sb.antt =====
-- src/kernel/fs/memfs.c: the operations on superblocks and the registration of a file system.
use rtc_driver.Base.{
  ℕ, ◌+◌, ◌^◌, ◌||◌, not, List, [], ◌∷◌, ◌==◌, leb, if◌then◌else◌, bit_and, bit_or,
}
use rtc_driver.Base.Int.{ℤ, pos, minus_one}
use rtc_driver.Base.Run.{ok, Cmd, pure, ◌>>=◌, ◌>>◌}
use rtc_driver.Errors.{e_io, e_noent}
use rtc_driver.Devices.{FileOperations, is_minus_one}
use rtc_driver.Files.{
  Name, Vnode, InodeOperations, FsType, SuperBlock, MemSuper, MemNode, Files, update, fail,
  list_find,
}
use rtc_driver.Files.Fn
use rtc_driver.Memfs.{
  memfs_root_ino, file_nodev, file_type, file_type_directory, file_type_regular, file_perm_755,
  allow_dirs, allow_files, allow_nodes, with_super, set_super, put_node, has_ino, memfs_node_lookup,
  memfs_node_alloc, memfs_get_super, memfs_init_super, memfs_clear_super,
}

unfoldable pub put_vnode : ℕ → Vnode → Cmd Files (Unit {0})
unfolding update
put_vnode p v s = ok tt (record s { vnodes = update s.vnodes p v })

unfoldable pub put_sb : ℕ → SuperBlock → Cmd Files (Unit {0})
unfolding update
put_sb p sb s = ok tt (record s { sbs = update s.sbs p sb })

abbrev pub allowed : ℕ → ℕ → ℕ → ℕ → ℕ
allowed flags bit fn old = if bit_and flags bit == 0 then old else fn

-- The operations that a node gets from its type and the flags of the file system.
unfoldable pub inode_operations : ℕ → ℕ → InodeOperations → InodeOperations
inode_operations flags mode ops =
    if file_type mode == file_type_directory
    then record {
      lookup = Fn.lookup;
      mkdir = allowed flags allow_dirs Fn.mkdir ops.mkdir;
      create = allowed flags allow_files Fn.create ops.create;
      mknod = allowed flags allow_nodes Fn.mknod ops.mknod;
    }
    else ops

unfoldable pub file_operations : ℕ → FileOperations → FileOperations
file_operations mode ops =
    let opened = record ops { open_file = Fn.open_file; release = Fn.release; flush = Fn.flush } in
    if file_type mode == file_type_directory
    then record opened { readdir = Fn.readdir }
    else if file_type mode == file_type_regular
    then record opened { read = Fn.read; write = Fn.write }
    else ops

-- The vnode, filled in from the node of the file system at `mn`.
unfoldable pub vnode_of : ℕ → ℕ → MemNode → Vnode → Vnode
unfolding inode_operations file_operations
vnode_of flags mn n v = record v {
  v_mode = n.mode;
  v_size = n.size;
  v_dev = n.devid;
  private_node = mn;
  v_iops = inode_operations flags n.mode v.v_iops;
  v_fops = file_operations n.mode v.v_fops;
}

-- The rest of `memfs_sb_read_vnode`, for the node that list_find gives.
unfoldable pub fill_vnode : ℕ → ℕ → ℕ → Cmd Files ℤ
unfolding fail put_vnode vnode_of
fill_vnode node flags mn s =
    if mn == 0
    then fail e_noent minus_one s
    else (put_vnode node (vnode_of flags mn (s.mem_nodes mn) (s.vnodes node)) >> pure (pos 0)) s

unfoldable pub load_vnode : ℕ → MemSuper → Cmd Files ℤ
unfolding list_find fill_vnode
load_vnode node ms s =
    fill_vnode node ms.flags (list_find (has_ino s (s.vnodes node).v_no) ms.nodes) s

unfoldable pub memfs_sb_read_vnode : ℕ → ℕ → Cmd Files ℤ
unfolding with_super load_vnode
memfs_sb_read_vnode sb node s = with_super (s.sbs sb).private_super (load_vnode node) s

unfoldable pub memfs_sb_destroy_vnode : ℕ → ℕ → Cmd Files ℤ
memfs_sb_destroy_vnode sb node = pure (pos 0)

unfoldable pub memfs_sb_write_vnode : ℕ → ℕ → Cmd Files ℤ
unfolding put_node
memfs_sb_write_vnode sb node s =
    let v = s.vnodes node in
    (put_node v.private_node (record (s.mem_nodes v.private_node) { mode = v.v_mode })
        >> pure (pos 0))
      s

unfoldable pub memfs_sb_delete_vnode : ℕ → ℕ → Cmd Files ℤ
memfs_sb_delete_vnode sb node = pure minus_one

-- The root gets its number once it is allocated; the next number is 2, unless it is above, as an
-- `int`.
unfoldable pub mount_root : ℕ → Cmd Files ℤ
unfolding memfs_node_alloc put_node with_super set_super fail
mount_root p = memfs_node_alloc p (bit_or file_type_directory file_perm_755) file_nodev >>= λ mn.
    if mn == 0
    then fail e_io minus_one
    else (λ s. put_node mn (record (s.mem_nodes mn) { ino = memfs_root_ino }) s)
      >> (with_super p (λ ms s. ok tt (
            if leb ms.last_ino 1 || leb (2 ^ 31) ms.last_ino
            then set_super p (record ms { last_ino = 2 }) s
            else s))
          >> pure (pos 0))

unfoldable pub memfs_sb_mount : ℕ → Cmd Files ℤ
unfolding with_super memfs_node_lookup mount_root put_sb
memfs_sb_mount sb s =
    let p = (s.sbs sb).private_super in
    (with_super p (λ ms s'.
          if memfs_node_lookup ms memfs_root_ino s' == 0 then mount_root p s' else ok (pos 0) s')
        >>= λ r s'.
            if is_minus_one r
            then ok minus_one s'
            else (put_sb sb (record (s'.sbs sb) { sb_root_vno = memfs_root_ino }) >> pure (pos 0))
                s')
      s

unfoldable pub memfs_sb_unmount : ℕ → Cmd Files ℤ
memfs_sb_unmount sb = pure (pos 0)

unfoldable pub memfs_ft_get_sb : ℕ → Cmd Files ℤ
unfolding memfs_get_super put_sb
memfs_ft_get_sb sb s =
    let b = s.sbs sb in
    let ms = memfs_get_super b.sb_devid s in
    if ms == 0
    then ok minus_one s
    else (put_sb sb (record b {
      private_super = ms;
      destroy_vnode = Fn.destroy_vnode;
      read_vnode = Fn.read_vnode;
      mount = Fn.mount;
      unmount = Fn.unmount;
    })
          >> pure (pos 0))
        s

unfoldable pub memfs_ft_kill_sb : ℕ → ℕ → Cmd Files ℤ
unfolding memfs_clear_super
memfs_ft_kill_sb fuel sb s = (memfs_clear_super fuel (s.sbs sb).private_super >> pure (pos 0)) s

unfoldable pub memfs_config_fs_type : ℕ → Cmd Files ℤ
unfolding update
memfs_config_fs_type p s =
    let t : FsType = record (s.fs_types p) { ft_get_sb = Fn.get_sb; ft_kill_sb = Fn.kill_sb } in
    ok (pos 0) (record s { fs_types = update s.fs_types p t })

-- The first free element of the array from index `i` on: the address, or NULL.
unfoldable pub free_from : ℕ → List MemSuper → ℕ
free_from i [] = 0
free_from i (ms ∷ rest) =
    let later = free_from (i + 1) rest in if ms.name == 0 then i + 1 else later

-- `register` is vfs_fs_type_register of the file system's name.
unfoldable pub memfs_create : Cmd Files ℤ → ℕ → Name → ℕ → ℕ → Cmd Files ℤ
unfolding memfs_get_super free_from memfs_init_super memfs_clear_super
memfs_create register fuel name devid flags s =
    let p = free_from 0 s.memfs_supers in
    if not (memfs_get_super devid s == 0)
    then ok minus_one s
    else if p == 0
    then ok minus_one s
    else (memfs_init_super p name devid flags >>= λ r.
          if is_minus_one r
          then pure minus_one
          else register >>= λ q.
              if is_minus_one q then memfs_clear_super fuel p >> pure minus_one else pure (pos 0))
        s
