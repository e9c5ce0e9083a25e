-- ===== src/Vfs/Create.antt =====
-- src/kernel/vfs.c: vfs_create_node, which vfs_mkdir, vfs_mknod and vfs_open call, and vfs_stat.
use rtc_driver.Base.{
  ℕ, Bool, not, ◌||◌, List, [], ◌∷◌, ◌==◌, if◌then◌else◌, Option, none, some, bit_and, bit_or,
}
use rtc_driver.Base.Int.{ℤ, pos, minus_one}
use rtc_driver.Base.Run.{fault, Cmd, pure, ◌>>=◌, ◌>>◌}
use rtc_driver.Errors.{e_nomem, e_access, e_exist, e_nodir, e_notimp, e_inval}
use rtc_driver.Devices.{is_minus_one, file_type_char_dev}
use rtc_driver.Files.{Name, Dentry, Files, kalloc, kfree, fail, same_name}
use rtc_driver.Files.Fn
use rtc_driver.Memfs.{
  file_nodev, file_type, file_type_directory, file_type_regular, memfs_ino_create, memfs_ino_mkdir,
  memfs_ino_mknod,
}
use rtc_driver.Vfs.{with_dentry, put_dentry, vfs_dentry_reset, vfs_dentry_get}
use rtc_driver.Vfs.Node.{vfs_vnode_release, vfs_node_from_dentry}
use rtc_driver.Vfs.Walk.{slash, vfs_lookup, keep_errno}

abbrev pub set_file_type : ℕ → ℕ → ℕ
set_file_type m t = bit_or (bit_and m 0x0fff) (bit_and t 0xf000)

-- The parts of a path before and behind its last slash, if it has one.
unfoldable pub split_last : Name → Option (Name × Name)
split_last [] = none
split_last (c ∷ cs) = elim (split_last cs) [
  | some p ↦ some (c ∷ p.0, p.1)
  | none ↦ if c == slash then some ([], cs) else none
]

abbrev pub is_device : ℕ → Bool
is_device t = (t == file_type_char_dev) || ((t == 0x6000) || ((t == 0xc000) || (t == 0x1000)))

module _ (other : ℕ → List ℕ → Cmd Files ℤ) (fuel : ℕ) where
  -- A call of a function of memfs.c on the entry at an address.
  abbrev pub on_dentry : ℕ → (Dentry → Cmd Files (ℤ × Dentry)) → Cmd Files ℤ
  on_dentry p k = with_dentry p (λ d. k d >>= λ r. put_dentry p r.1 >> pure r.0)

  unfoldable pub call_mkdir : ℕ → ℕ → ℕ → ℕ → Cmd Files ℤ
  unfolding with_dentry put_dentry memfs_ino_mkdir
  call_mkdir f dir p mode =
      if f == 0
      then (λ s. fault)
      else if f == Fn.mkdir
      then on_dentry p (λ d. memfs_ino_mkdir fuel dir d mode)
      else other f (dir ∷ p ∷ mode ∷ [])

  unfoldable pub call_create : ℕ → ℕ → ℕ → ℕ → Cmd Files ℤ
  unfolding with_dentry put_dentry memfs_ino_create
  call_create f dir p mode =
      if f == 0
      then (λ s. fault)
      else if f == Fn.create
      then on_dentry p (λ d. memfs_ino_create fuel dir d mode)
      else other f (dir ∷ p ∷ mode ∷ [])

  unfoldable pub call_mknod : ℕ → ℕ → ℕ → ℕ → ℕ → Cmd Files ℤ
  unfolding with_dentry put_dentry memfs_ino_mknod
  call_mknod f dir p mode devid =
      if f == 0
      then (λ s. fault)
      else if f == Fn.mknod
      then on_dentry p (λ d. memfs_ino_mknod fuel dir d mode devid)
      else other f (dir ∷ p ∷ mode ∷ devid ∷ [])

  -- The switch on the type of the new node.
  unfoldable pub make : ℕ → ℕ → ℕ → ℕ → Cmd Files ℤ
  unfolding call_mkdir call_create call_mknod fail
  make node p mode devid s =
      let t = file_type mode in
      let ops = (s.vnodes node).v_iops in
      (if t == file_type_directory
          then call_mkdir ops.mkdir node p mode
          else if t == file_type_regular
          then call_create ops.create node p mode
          else if is_device t
          then call_mknod ops.mknod node p mode devid
          else if t == 0xa000
          then fail e_notimp minus_one
          else fail e_inval minus_one)
        s

  -- From the node of the parent on; `q` is the copy of the path.
  unfoldable pub make_below : ℕ → ℕ → ℕ → ℕ → ℕ → Cmd Files ℤ
  unfolding with_dentry vfs_node_from_dentry vfs_dentry_reset kfree vfs_vnode_release fail make
      keep_errno
  make_below q parent p mode devid = with_dentry parent (vfs_node_from_dentry other) >>= λ node.
      if node == 0 then vfs_dentry_reset p >> (kfree q >> pure minus_one) else λ s.
      (if not (file_type (s.vnodes node).v_mode == file_type_directory)
          then vfs_vnode_release other node
            >> (vfs_dentry_reset p >> (kfree q >> fail e_nodir minus_one))
          else make node p mode devid >>= λ r.
              if is_minus_one r
              then keep_errno (vfs_vnode_release other node >> (vfs_dentry_reset p >> kfree q))
                  minus_one
              else vfs_vnode_release other node >> (kfree q >> pure (pos 0)))
        s

  -- The entry of the new node below the parent that was found.
  unfoldable pub create_in : ℕ → ℕ → Name → ℕ → ℕ → Cmd Files ℤ
  unfolding vfs_dentry_get kfree fail with_dentry make_below
  create_in q parent name mode devid =
      if parent == 0
      then kfree q >> pure minus_one
      else vfs_dentry_get parent name >>= λ p.
          if p == 0
          then kfree q >> fail e_nomem minus_one
          else with_dentry p (λ d.
            if d.d_vno == 0
            then make_below q parent p mode devid
            else kfree q >> fail e_exist minus_one)

  -- A path without a slash makes the store through strrchr's NULL.
  unfoldable pub vfs_create_node : Name → ℕ → ℕ → Cmd Files ℤ
  unfolding fail kalloc split_last vfs_lookup create_in same_name
  vfs_create_node path mode devid =
      if same_name path (slash ∷ [])
      then fail e_access minus_one
      else kalloc >>= λ q. if q == 0 then fail e_nomem minus_one else elim (split_last path) [
        | none ↦ λ s. fault
        | some (up, name) ↦ λ s.
            ((elim up [ [] ↦ pure s.vfs_root_dentry | c ∷ cs ↦ vfs_lookup other (c ∷ cs) ])
                >>= λ parent. create_in q parent name mode devid)
              s
      ]

  unfoldable pub vfs_mkdir : Name → ℕ → Cmd Files ℤ
  unfolding vfs_create_node
  vfs_mkdir path mode = vfs_create_node path (set_file_type mode file_type_directory) file_nodev

  unfoldable pub vfs_mknod : Name → ℕ → ℕ → Cmd Files ℤ
  unfolding vfs_create_node fail
  vfs_mknod path mode dev =
      let t = file_type mode in
      if (t == file_type_directory) || ((t == file_type_regular) || (t == 0xa000))
      then fail e_inval minus_one
      else vfs_create_node path mode dev

-- `struct stat`
pub record Stat : Type 0 where
  pub ino : ℕ
  pub size : ℕ
  pub mode : ℕ
  pub dev : ℕ

-- The status, and what is filled in.
unfoldable pub vfs_stat : (ℕ → List ℕ → Cmd Files ℤ) → Name → Stat → Cmd Files (ℤ × Stat)
unfolding vfs_lookup with_dentry vfs_node_from_dentry vfs_vnode_release
vfs_stat other path st = vfs_lookup other path >>= λ p.
    if p == 0
    then pure (minus_one, st)
    else with_dentry p (vfs_node_from_dentry other) >>= λ n.
        if n == 0 then pure (minus_one, st) else λ s.
        let v = s.vnodes n in
        let st' : Stat = record { ino = v.v_no; size = v.v_size; mode = v.v_mode; dev = v.v_dev } in
        (vfs_vnode_release other n >> pure (pos 0, st')) s
