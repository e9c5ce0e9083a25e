-- ===== src/Devices.antt =====
-- src/kernel/devices.c: the tables of block and character devices, two lists of KList whose values
-- are the addresses of the devices. `ids` is the member devid of the device at an address. What
-- kalloc answers to the calls is passed as arguments, `live` are the addresses that it has given
-- and not got back, nodes of the lists aside; `mknod` is what vfs_mknod answers to a path, a mode
-- and a number. dev_init, which mounts /dev, is in Mounts.
pub mod Table
pub mod Undo
mod Tests
use rtc_driver.Base.{ℕ, ◌+◌, Bool, false, not, List, [], ◌∷◌, ◌++◌, ◌==◌, if◌then◌else◌, bit_or}
use rtc_driver.Base.Int.{ℤ, pos, negsuc, minus_one}
use rtc_driver.Base.Run.{Run, ok, fault, hang, panic, Cmd, pure, and_then, ◌>>=◌, ◌>>◌}
use rtc_driver.Errors.{e_nodev}
use rtc_driver.KList.{Store, KList, list_find, list_add, list_find_del, fail}

-- `dev_blk_list_cmp` and `dev_chr_list_cmp` for a number.
abbrev pub has_id : (ℕ → ℕ) → ℕ → ℕ → Bool
has_id ids devid dev = ids dev == devid

module _ (ids : ℕ → ℕ) (fuel : ℕ) where
  -- `fresh` is the address of the node. The status, and the list.
  unfoldable pub dev_register_block_device : ℕ → KList → ℕ → Cmd Store (ℤ × KList)
  dev_register_block_device fresh blk_devs dev =
      list_find fuel blk_devs (has_id ids (ids dev)) >>= λ d.
      if d == 0 then list_add fuel fresh blk_devs dev else pure (pos 0, blk_devs)

  unfoldable pub dev_remove_block_device : KList → ℕ → Cmd Store (ℤ × KList)
  dev_remove_block_device blk_devs devid = list_find_del fuel blk_devs (has_id ids devid) >>= λ r.
      pure (if r.0 == 0 then minus_one else pos 0, r.1)

  unfoldable pub dev_get_block_device : KList → ℕ → Cmd Store ℕ
  dev_get_block_device blk_devs devid = list_find fuel blk_devs (has_id ids devid)

  unfoldable pub dev_register_char_device : ℕ → KList → ℕ → Cmd Store (ℤ × KList)
  dev_register_char_device fresh chr_devs dev =
      list_find fuel chr_devs (has_id ids (ids dev)) >>= λ d.
      if d == 0 then list_add fuel fresh chr_devs dev else pure (pos 0, chr_devs)

  unfoldable pub dev_remove_char_device : KList → ℕ → Cmd Store (ℤ × KList)
  dev_remove_char_device chr_devs devid = list_find_del fuel chr_devs (has_id ids devid) >>= λ r.
      pure (if r.0 == 0 then minus_one else pos 0, r.1)

  unfoldable pub dev_get_char_device : KList → ℕ → Cmd Store ℕ
  dev_get_char_device chr_devs devid = list_find fuel chr_devs (has_id ids devid)

  unfoldable pub dev_char_lookup : KList → ℕ → Cmd Store ℕ
  dev_char_lookup chr_devs devid = list_find fuel chr_devs (has_id ids devid)

-- `vfs_file_operations_t`: addresses of functions, 0 is NULL.
pub record FileOperations : Type 0 where
  pub open_file : ℕ
  pub release : ℕ
  pub flush : ℕ
  pub read : ℕ
  pub write : ℕ
  pub lseek : ℕ
  pub ioctl : ℕ
  pub readdir : ℕ

-- `dev_char_device_t`
pub record CharDevice : Type 0 where
  pub devid : ℕ
  pub name : ℕ
  pub fops : FileOperations

pub record Devices : Type 0 where
  pub store : Store
  pub chr_devs : KList
  pub chars : ℕ → CharDevice
  pub live : List ℕ

-- A command of list.c on the list of character devices.
abbrev pub listed : {A : Type 0} → Run Store (A × KList) → Cmd Devices A
listed (ok (a, l) st) s = ok a (record s { store = st; chr_devs = l })
listed fault s = fault
listed hang s = hang
listed panic s = panic

-- A search of it, which returns no list.
abbrev pub looked : {A : Type 0} → Run Store A → Cmd Devices A
looked (ok a st) s = ok a (record s { store = st })
looked fault s = fault
looked hang s = hang
looked panic s = panic

-- `kalloc`, which answers `p`.
unfoldable pub alloc : ℕ → Cmd Devices ℕ
alloc p s = ok p (if p == 0 then s else record s { live = p ∷ s.live })

unfoldable pub take_out : ℕ → List ℕ → List ℕ
take_out p [] = []
take_out p (q ∷ qs) = let rest = take_out p qs in if q == p then qs else q ∷ rest

unfoldable pub free : ℕ → Cmd Devices (Unit {0})
free p s = ok tt (record s { live = take_out p s.live })

unfoldable pub put_char : ℕ → CharDevice → Cmd Devices (Unit {0})
put_char p c s = ok tt (record s { chars = λ q. if q == p then c else s.chars q })

abbrev pub char_ids : Devices → ℕ → ℕ
char_ids s p = (s.chars p).devid

-- `dev_char_lookup(devid)` and the removal of the number from the list.
unfoldable pub lookup : ℕ → ℕ → Cmd Devices ℕ
lookup fuel devid s = looked (dev_char_lookup (char_ids s) fuel s.chr_devs devid s.store) s

unfoldable pub add_char : ℕ → ℕ → ℕ → Cmd Devices ℤ
add_char fuel fresh chr s = listed (list_add fuel fresh s.chr_devs chr s.store) s

unfoldable pub forget : ℕ → ℕ → Cmd Devices ℕ
forget fuel devid s = listed (list_find_del fuel s.chr_devs (has_id (char_ids s) devid) s.store) s

abbrev pub is_minus_one : ℤ → Bool
is_minus_one (pos n) = false
is_minus_one (negsuc n) = n == 0

abbrev pub file_type_char_dev : ℕ
file_type_char_dev = 0x2000

abbrev pub file_perm_usr_read : ℕ
file_perm_usr_read = 0x0100

abbrev pub file_perm_usr_write : ℕ
file_perm_usr_write = 0x0080

-- The mode of the node, from the operations that are not NULL.
unfoldable pub char_mode : FileOperations → ℕ
char_mode ops =
    let mode =
      if ops.read == 0 then file_type_char_dev else bit_or file_type_char_dev file_perm_usr_read in
    if ops.write == 0 then mode else bit_or mode file_perm_usr_write

-- "/dev/" and the name.
abbrev pub device_path : List ℕ → List ℕ
device_path name = 47 ∷ 100 ∷ 101 ∷ 118 ∷ 47 ∷ name

-- What kalloc answers for the device, its name, the node of the list and the path.
pub record Fresh : Type 0 where
  pub chr : ℕ
  pub name : ℕ
  pub node : ℕ
  pub path : ℕ

module _ (mknod : List ℕ → ℕ → ℕ → ℤ) (fuel : ℕ) (at : Fresh) where
  -- The end of `dev_register_char_dev`, from the path on.
  unfoldable pub publish : ℕ → List ℕ → FileOperations → Cmd Devices ℤ
  publish devid name ops = alloc at.path >>= λ path.
      if path == 0
      then forget fuel devid >> (free at.name >> (free at.chr >> pure minus_one))
      else if is_minus_one (mknod (device_path name) (char_mode ops) devid)
      then forget fuel devid >> (free at.name >> (free at.chr >> (free path >> pure minus_one)))
      else free path >> pure (pos 0)

  -- The part from the name on.
  unfoldable pub register_named : ℕ → List ℕ → FileOperations → Cmd Devices ℤ
  register_named devid name ops = alloc at.name >>= λ p.
      if p == 0
      then free at.chr >> pure minus_one
      else put_char at.chr (record { devid = devid; name = p; fops = ops })
        >> (add_char fuel at.node at.chr >>= λ r.
            if is_minus_one r
            then free p >> (free at.chr >> pure minus_one)
            else publish devid name ops)

  unfoldable pub dev_register_char_dev : ℕ → List ℕ → FileOperations → Cmd Devices ℤ
  dev_register_char_dev devid name ops = lookup fuel devid >>= λ d.
      if not (d == 0)
      then pure minus_one
      else alloc at.chr >>= λ chr.
          if chr == 0
          then pure minus_one
          else put_char chr (record { devid = devid; name = 0; fops = ops })
            >> register_named devid name ops

unfoldable pub dev_unregister_char_dev : Cmd Devices ℤ
dev_unregister_char_dev = pure minus_one

-- `set_errno(E_NODEV); return -1` with the operations that the file has.
unfoldable pub no_device : {A : Type 0} → A → Cmd Devices (ℤ × A)
no_device a s = looked (fail e_nodev (minus_one, a) s.store) s

-- The status, and the operations of the opened file.
unfoldable pub dev_set_char_operations : ℕ → ℕ → FileOperations → Cmd Devices (ℤ × FileOperations)
dev_set_char_operations fuel v_dev f_ops = lookup fuel v_dev >>= λ chr s.
    if chr == 0 then no_device f_ops s else ok (pos 0, (s.chars chr).fops) s
