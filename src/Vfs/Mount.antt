-- ===== src/Vfs/Mount.antt =====
-- src/kernel/vfs.c: superblocks, vfs_mount and vfs_sb_unmount. `other` is a call of a function that
-- is not of memfs.c; `fuel` is for the memory file system's clearing of one that is given up.
use rtc_driver.Base.{ℕ, Bool, not, List, [], ◌∷◌, ◌==◌, if◌then◌else◌, bit_and, Option, none, some}
use rtc_driver.Base.Int.{ℤ, pos, minus_one}
use rtc_driver.Base.Run.{ok, fault, Cmd, pure, and_then, ◌>>=◌, ◌>>◌}
use rtc_driver.Errors.{
  e_nomem, e_nokobj, e_corrupt, e_io, e_access, e_busy, e_noroot, e_invfs, e_mounted, e_notmounted,
  e_noent, e_nodir, e_notimp,
}
use rtc_driver.Devices.{is_minus_one}
use rtc_driver.Files.{
  Name, SuperBlock, Files, same_name, kalloc, kfree, fail, list_add, list_find, list_find_del,
}
use rtc_driver.Files.Fn
use rtc_driver.Memfs.{file_type, file_type_directory}
use rtc_driver.Memfs.Sb.{
  put_sb, memfs_ft_get_sb, memfs_ft_kill_sb, memfs_sb_mount, memfs_sb_unmount,
}
use rtc_driver.Vfs.{
  with_dentry, put_dentry, vfs_dentry_reset, vfs_dentry_get, vfs_dentry_unmount_sb,
}
use rtc_driver.Vfs.Node.{vfs_vnode_get_or_read, vfs_vnode_unmount_sb}
use rtc_driver.Vfs.Walk.{slash, vfs_lookup}
use rtc_driver.Vfs.Types.{vfs_fs_type_lookup}

abbrev pub sb_unused : ℕ
sb_unused = 0

abbrev pub sb_mounted : ℕ
sb_mounted = 2

abbrev pub has_devid : Files → ℕ → ℕ → Bool
has_devid s devid p = (s.sbs p).sb_devid == devid

unfoldable pub vfs_sb_lookup : ℕ → Files → ℕ
unfolding list_find
vfs_sb_lookup devid s = list_find (has_devid s devid) s.vfs_sbs

-- The new superblock, at an address where `old` was: the member destroy_vnode is not set.
unfoldable pub new_sb : ℕ → SuperBlock → SuperBlock
new_sb devid old = record {
  read_vnode = 0;
  destroy_vnode = old.destroy_vnode;
  mount = 0;
  unmount = 0;
  sb_root_vno = 0;
  sb_flags = sb_unused;
  private_super = 0;
  sb_devid = devid;
  sb_fs_type = 0;
  sb_mnt = 0;
}

-- The end of `vfs_sb_alloc`, with what list_add answers.
unfoldable pub sb_listed : ℕ → ℕ → Option (List ℕ) → Cmd Files ℕ
unfolding kfree put_sb new_sb
sb_listed devid p none s = (kfree p >> pure 0) s
sb_listed devid p (some ps) s =
    (put_sb p (new_sb devid (s.sbs p)) >> pure p) (record s { vfs_sbs = ps })

unfoldable pub list_sb : ℕ → ℕ → Cmd Files ℕ
unfolding list_add sb_listed
list_sb devid p s = if p == 0 then ok 0 s else and_then (list_add p s.vfs_sbs s) (sb_listed devid p)

unfoldable pub vfs_sb_alloc : ℕ → Cmd Files ℕ
unfolding kalloc list_sb
vfs_sb_alloc devid = kalloc >>= list_sb devid

module _ (other : ℕ → List ℕ → Cmd Files ℤ) (fuel : ℕ) where
  -- A call of a function on a superblock; `mine` is what the one of memfs.c at `fn` does.
  unfoldable pub call_sb : ℕ → (ℕ → Cmd Files ℤ) → ℕ → ℕ → Cmd Files ℤ
  call_sb fn mine f sb =
      if f == 0 then (λ s. fault) else if f == fn then mine sb else other f (sb ∷ [])

  -- The type is loaded through the superblock, which may have none.
  unfoldable pub vfs_sb_dealloc : ℕ → Cmd Files ℤ
  unfolding call_sb fail list_find_del kfree
  vfs_sb_dealloc p s =
      let b = s.sbs p in
      let kill = (s.fs_types b.sb_fs_type).ft_kill_sb in
      if b.sb_fs_type == 0
      then fault
      else ((if kill == 0 then pure (pos 0) else call_sb Fn.kill_sb (memfs_ft_kill_sb fuel) kill p)
            >>= λ r.
                if is_minus_one r
                then fail e_io minus_one
                else (λ t.
                    and_then (list_find_del (has_devid t (t.sbs p).sb_devid) t.vfs_sbs t)
                      (λ q u. ok tt (record u { vfs_sbs = q.1 })))
                  >> (kfree p >> pure (pos 0)))
          s

  -- The dentry to mount on, or NULL.
  unfoldable pub mountpoint : Name → Cmd Files ℕ
  unfolding fail same_name vfs_dentry_get with_dentry put_dentry vfs_lookup vfs_vnode_get_or_read
  mountpoint path s =
      let root = same_name path (slash ∷ []) in
      (if s.vfs_root_dentry == 0
          then (if root
              then (vfs_dentry_get 0 (slash ∷ []) >>= λ d.
                  if d == 0
                  then fail e_nomem 0
                  else with_dentry d (λ e. put_dentry d (record e { d_vno = 1 })) >> pure d)
              else fail e_noroot 0)
          else if root
          then fail e_notimp 0
          else (vfs_lookup other path >>= λ d.
              if d == 0
              then fail e_noent 0
              else with_dentry d (λ e.
                if not (e.d_mnt_sb == 0)
                then fail e_access 0
                else vfs_vnode_get_or_read other e.d_sb e.d_vno >>= λ n.
                    if n == 0 then fail e_corrupt 0 else λ t.
                    (if file_type (t.vnodes n).v_mode == file_type_directory
                        then pure d
                        else fail e_nodir 0)
                      t)))
        s

  -- `d->ro.d_mnt_sb = sb`, and the root of the tree.
  unfoldable pub link_mount : ℕ → ℕ → Cmd Files ℤ
  unfolding with_dentry put_dentry
  link_mount d sb = with_dentry d (λ e s.
      (put_dentry d (record e { d_mnt_sb = sb }) >> pure (pos 0))
        (if e.d_parent == 0 then record s { vfs_root_dentry = d } else s))

  -- The part of vfs_mount behind the probing of the file system.
  unfoldable pub probed : ℕ → ℕ → ℕ → ℤ → Cmd Files ℤ
  unfolding call_sb vfs_sb_dealloc vfs_dentry_reset fail put_sb link_mount
  probed d t sb r =
      if is_minus_one r
      then vfs_sb_dealloc sb >> (vfs_dentry_reset d >> fail e_invfs minus_one)
      else (λ u. put_sb sb (record (u.sbs sb) { sb_fs_type = t }) u)
        >> ((λ u. call_sb Fn.mount memfs_sb_mount (u.sbs sb).mount sb u) >>= λ m.
            if is_minus_one m
            then (λ u. call_sb Fn.kill_sb (memfs_ft_kill_sb fuel) (u.fs_types t).ft_kill_sb sb u)
              >> (vfs_sb_dealloc sb >> (vfs_dentry_reset d >> fail e_io minus_one))
            else link_mount d sb)

  -- From the superblock on; `t` is the type.
  unfoldable pub mount_new : ℕ → ℕ → ℕ → Cmd Files ℤ
  unfolding call_sb probed
  mount_new d t sb s =
      and_then (call_sb Fn.get_sb memfs_ft_get_sb (s.fs_types t).ft_get_sb sb s) (probed d t sb)

  unfoldable pub vfs_mount : ℕ → Name → Name → Cmd Files ℤ
  unfolding mountpoint vfs_fs_type_lookup vfs_dentry_reset fail vfs_sb_lookup vfs_sb_alloc mount_new
  vfs_mount devid path fs_type = mountpoint path >>= λ d.
      if d == 0
      then pure minus_one
      else vfs_fs_type_lookup fs_type >>= λ t.
          if t == 0 then vfs_dentry_reset d >> fail e_nokobj minus_one else λ s.
          (if not (vfs_sb_lookup devid s == 0)
              then vfs_dentry_reset d >> fail e_mounted minus_one
              else vfs_sb_alloc devid >>= λ sb.
                  if sb == 0
                  then vfs_dentry_reset d >> fail e_nomem minus_one
                  else mount_new d t sb)
            s

  unfoldable pub vfs_sb_unmount : ℕ → Cmd Files ℤ
  unfolding fail vfs_vnode_unmount_sb vfs_dentry_unmount_sb call_sb with_dentry put_dentry put_sb
  vfs_sb_unmount sb s =
      if bit_and (s.sbs sb).sb_flags sb_mounted == 0
      then fail e_notmounted minus_one s
      else if is_minus_one (vfs_vnode_unmount_sb sb s)
      then fail e_corrupt minus_one s
      else (vfs_dentry_unmount_sb sb >>= λ r.
            if is_minus_one r
            then fail e_busy minus_one
            else (λ t. call_sb Fn.unmount memfs_sb_unmount (t.sbs sb).unmount sb t) >>= λ q.
                if is_minus_one q
                then fail e_io minus_one
                else (λ t.
                    with_dentry (t.sbs sb).sb_mnt
                      (λ e. put_dentry (t.sbs sb).sb_mnt (record e { d_mnt_sb = 0 })) t)
                  >> ((λ t. put_sb sb (record (t.sbs sb) { sb_flags = sb_unused; sb_mnt = 0 }) t)
                      >> pure (pos 0)))
          s
