-- ===== src/Vfs/Open.antt =====
-- src/kernel/vfs.c: open files. `set_char` is dev_set_char_operations of devices.c for the number
-- of a device and the operations that the file has so far; `other` is a call of a function that is
-- not of memfs.c.
use rtc_driver.Base.{
  ℕ, ◌+◌, ◌-◌, ◌%◌, ◌^◌, Bool, true, false, not, ◌&&◌, ◌||◌, List, [], ◌∷◌, ◌==◌, if◌then◌else◌,
  bit_and, Option, none, some,
}
use rtc_driver.Base.Int.{ℤ, pos, minus_one}
use rtc_driver.Base.Run.{ok, fault, Cmd, pure, and_then, ◌>>=◌, ◌>>◌}
use rtc_driver.Errors.{e_nomem, e_nokobj, e_corrupt, e_access, e_badfd, e_exist, e_notimp, e_inval}
use rtc_driver.Devices.{FileOperations, is_minus_one, file_type_char_dev}
use rtc_driver.Files.{Name, File, Files, update, kalloc, kfree, fail, list_add, list_find_del}
use rtc_driver.Files.Fn
use rtc_driver.Memfs.{file_nodev, file_type, file_type_directory, file_type_regular}
use rtc_driver.Memfs.Data.{set_pos, memfs_file_read, memfs_file_write}
use rtc_driver.Vfs.{with_dentry}
use rtc_driver.Vfs.Node.{vfs_vnode_release, vfs_node_from_dentry}
use rtc_driver.Vfs.Walk.{vfs_lookup, keep_errno}
use rtc_driver.Vfs.Create.{set_file_type, vfs_create_node}

abbrev pub flag_read : ℕ
flag_read = 1

abbrev pub flag_write : ℕ
flag_write = 2

abbrev pub flag_create : ℕ
flag_create = 4

abbrev pub flag_excl : ℕ
flag_excl = 8

abbrev pub perm_usr_read : ℕ
perm_usr_read = 0x0100

abbrev pub perm_usr_write : ℕ
perm_usr_write = 0x0080

abbrev pub lacks : ℕ → ℕ → Bool
lacks word flag = bit_and word flag == 0

unfoldable pub put_file : ℕ → File → Cmd Files (Unit {0})
unfolding update
put_file p f s = ok tt (record s { files = update s.files p f })

-- Takes the file out of the list; whether it was there.
unfoldable pub unlist : ℕ → Cmd Files Bool
unfolding list_find_del
unlist p s =
    and_then (list_find_del (λ q. q == p) s.vfs_files s)
      (λ r t. ok (not (r.0 == 0)) (record t { vfs_files = r.1 }))

module _ (other : ℕ → List ℕ → Cmd Files ℤ)
    (set_char : ℕ → FileOperations → Cmd Files (ℤ × FileOperations)) where
  -- `open`, `release` and `flush` of memfs.c do nothing.
  unfoldable pub call_quiet : ℕ → ℕ → List ℕ → Cmd Files ℤ
  call_quiet mine f args =
      if f == 0 then (λ s. fault) else if f == mine then pure (pos 0) else other f args

  -- The operations for the type of the node: `none` after an error.
  unfoldable pub choose_operations : ℕ → ℕ → Cmd Files Bool
  unfolding kfree fail put_file unlist
  choose_operations node p s =
      let v = s.vnodes node in
      let f = s.files p in
      let t = file_type v.v_mode in
      if (t == file_type_directory) || (t == file_type_regular)
      then (put_file p (record f { f_ops = v.v_fops }) >> pure true) s
      else if t == file_type_char_dev
      then (set_char v.v_dev f.f_ops >>= λ r.
            if is_minus_one r.0
            then unlist p >> (kfree p >> pure false)
            else (λ s'. put_file p (record (s'.files p) { f_ops = r.1 }) s') >> pure true)
          s
      else (kfree p >> fail e_notimp false) s

  -- The call of the file's own `open`, if it has one.
  unfoldable pub open_node : ℕ → ℕ → Cmd Files ℕ
  unfolding call_quiet keep_errno unlist kfree
  open_node node p s =
      let f = (s.files p).f_ops.open_file in
      if f == 0
      then ok p s
      else (call_quiet Fn.open_file f (node ∷ p ∷ []) >>= λ r.
            if is_minus_one r then keep_errno (unlist p >> kfree p) 0 else pure p)
          s

  -- The parts of `vfs_file_open` behind the choice of the operations, behind list_add, and behind
  -- kalloc.
  unfoldable pub set_up : ℕ → ℕ → Bool → Cmd Files ℕ
  unfolding put_file open_node
  set_up node p done s =
      if done
      then (put_file p (record (s.files p) { f_count = 1; f_vnode = node }) >> open_node node p) s
      else ok 0 s

  unfoldable pub file_listed : ℕ → ℕ → ℕ → Option (List ℕ) → Cmd Files ℕ
  unfolding kfree fail put_file choose_operations set_up
  file_listed node flags p none s = (kfree p >> fail e_nomem 0) s
  file_listed node flags p (some ps) s =
      (put_file p (record (s.files p) { f_pos = 0; f_flags = flags })
          >> (choose_operations node p >>= set_up node p))
        (record s { vfs_files = ps })

  unfoldable pub new_file : ℕ → ℕ → ℕ → Cmd Files ℕ
  unfolding fail list_add file_listed
  new_file node flags p s =
      if p == 0
      then fail e_nomem 0 s
      else and_then (list_add p s.vfs_files s) (file_listed node flags p)

  -- The file's address, or NULL.
  unfoldable pub vfs_file_open : ℕ → ℕ → Cmd Files ℕ
  unfolding kalloc new_file
  vfs_file_open node flags = kalloc >>= new_file node flags

  -- The part of `vfs_file_close` behind the list.
  unfoldable pub close_file : ℕ → File → Cmd Files ℤ
  unfolding kfree vfs_vnode_release
  close_file p f =
      (if f.f_ops.flush == 0 then pure (pos 0) else call_quiet Fn.flush f.f_ops.flush (p ∷ []))
      >> ((λ t.
            let last = ((t.vnodes f.f_vnode).v_count == 1) && not (f.f_ops.release == 0) in
            (if last
                then call_quiet Fn.release f.f_ops.release (f.f_vnode ∷ p ∷ [])
                else pure (pos 0))
              t)
          >> (kfree p >> (vfs_vnode_release other f.f_vnode >> pure (pos 0))))

  unfoldable pub vfs_file_close : ℕ → Cmd Files ℤ
  unfolding unlist fail close_file
  vfs_file_close p s =
      and_then (unlist p s)
        (λ there t. if there then close_file p (t.files p) t else fail e_nokobj minus_one t)

  -- The checks of the permissions; `e_access` is what both set.
  unfoldable pub open_checked : ℕ → ℕ → Cmd Files ℕ
  unfolding vfs_vnode_release fail vfs_file_open keep_errno
  open_checked node flags s =
      let mode = (s.vnodes node).v_mode in
      if (not (lacks flags flag_read) && lacks mode perm_usr_read)
        || (not (lacks flags flag_write) && lacks mode perm_usr_write)
      then (vfs_vnode_release other node >> fail e_access 0) s
      else (vfs_file_open node flags >>= λ p.
            if p == 0 then keep_errno (vfs_vnode_release other node >> pure tt) 0 else pure p)
          s

  unfoldable pub open_entry : ℕ → ℕ → Cmd Files ℕ
  unfolding with_dentry vfs_node_from_dentry fail open_checked
  open_entry dentry flags =
      if dentry == 0
      then pure 0
      else with_dentry dentry (vfs_node_from_dentry other) >>= λ node.
          if node == 0 then fail e_corrupt 0 else open_checked node flags

  unfoldable pub vfs_open : ℕ → Name → ℕ → ℕ → Cmd Files ℕ
  unfolding vfs_lookup fail vfs_create_node open_entry
  vfs_open fuel path flags mode = vfs_lookup other path >>= λ dentry.
      if not (dentry == 0) && (not (lacks flags flag_create) && not (lacks flags flag_excl))
      then fail e_exist 0
      else if (dentry == 0) && not (lacks flags flag_create)
      then (vfs_create_node other fuel path (set_file_type mode file_type_regular) file_nodev
          >>= λ r.
              if is_minus_one r
              then pure 0
              else vfs_lookup other path >>= λ again. open_entry again flags)
      else open_entry dentry flags

  unfoldable pub vfs_write : ℕ → ℕ → ℕ → Cmd Files ℤ
  unfolding fail
  vfs_write p buf count s =
      let f = s.files p in
      if lacks f.f_flags flag_write
      then fail e_badfd minus_one s
      else if f.f_ops.write == 0
      then fault
      else if f.f_ops.write == Fn.write
      then memfs_file_write p buf count s
      else other f.f_ops.write (p ∷ buf ∷ count ∷ []) s

  unfoldable pub vfs_read : ℕ → ℕ → ℕ → Cmd Files ℤ
  unfolding fail
  vfs_read p buf count s =
      let f = s.files p in
      if lacks f.f_flags flag_read
      then fail e_badfd minus_one s
      else if f.f_ops.read == 0
      then fault
      else if f.f_ops.read == Fn.read
      then memfs_file_read p buf count s
      else other f.f_ops.read (p ∷ buf ∷ count ∷ []) s

  -- An offset, `whence` and the result are 32 bit patterns; -1 is 2^32 - 1. `call` is a call of the
  -- file's own `lseek`, which no file of memfs.c has.
  unfoldable pub vfs_lseek : (ℕ → List ℕ → Cmd Files ℕ) → ℕ → ℕ → ℕ → Cmd Files ℕ
  unfolding fail
  vfs_lseek call p off whence s =
      let f = s.files p in
      let to =
        if whence == 0
        then off
        else if whence == 1
        then (f.f_pos + off) % 2 ^ 32
        else ((s.vnodes f.f_vnode).v_size + off) % 2 ^ 32 in
      if not ((whence == 0) || ((whence == 1) || (whence == 2)))
      then fail e_inval (2 ^ 32 - 1) s
      else if f.f_ops.lseek == 0
      then ok to (set_pos p to s)
      else call f.f_ops.lseek (p ∷ off ∷ whence ∷ []) s

  unfoldable pub vfs_close : ℕ → Cmd Files ℤ
  unfolding vfs_file_close
  vfs_close p = vfs_file_close p
