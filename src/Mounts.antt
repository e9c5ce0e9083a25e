-- ===== src/Mounts.antt =====
-- src/kernel/fs/rootfs.c, dev_init of src/kernel/devices.c and the calls of kernel.c that mount the
-- root: the file systems that the kernel starts with. The lists of devices that dev_init clears are
-- those of Devices. `text_at` is the text that is read at an address, as in Vfs/Types.
mod Tests
use rtc_driver.Base.{ℕ, List, [], ◌∷◌, if◌then◌else◌, bit_or}
use rtc_driver.Base.Int.{ℤ, pos, minus_one}
use rtc_driver.Base.Run.{Cmd, pure, ◌>>=◌, ◌>>◌}
use rtc_driver.Devices.{is_minus_one}
use rtc_driver.Files.{Name, Files}
use rtc_driver.Memfs.{allow_dirs, allow_files, allow_nodes}
use rtc_driver.Memfs.Sb.{memfs_config_fs_type, memfs_create}
use rtc_driver.Vfs.{vfs_init}
use rtc_driver.Vfs.Walk.{slash}
use rtc_driver.Vfs.Types.{vfs_fs_type_register}
use rtc_driver.Vfs.Create.{vfs_mkdir}
use rtc_driver.Vfs.Mount.{vfs_mount}

-- DEV_MAKE_DEV(DEV_UNNAMED_MAJOR, 1) and with the minor 2.
abbrev pub rootfs_devid : ℕ
rootfs_devid = 1

abbrev pub dev_fs_devid : ℕ
dev_fs_devid = 2

-- "rootfs"
abbrev pub rootfs_name : Name
rootfs_name = 114 ∷ 111 ∷ 111 ∷ 116 ∷ 102 ∷ 115 ∷ []

-- "devfs"
abbrev pub dev_fs_name : Name
dev_fs_name = 100 ∷ 101 ∷ 118 ∷ 102 ∷ 115 ∷ []

-- "/dev"
abbrev pub dev_path : Name
dev_path = slash ∷ 100 ∷ 101 ∷ 118 ∷ []

module _ (other : ℕ → List ℕ → Cmd Files ℤ) (text_at : Files → ℕ → Name) (fuel : ℕ) where
  -- memfs_create with all kinds of files allowed.
  unfoldable pub create_all : Name → ℕ → Cmd Files ℤ
  unfolding memfs_create vfs_fs_type_register memfs_config_fs_type
  create_all name devid =
      memfs_create (vfs_fs_type_register text_at memfs_config_fs_type name) fuel name devid
        (bit_or allow_files (bit_or allow_dirs allow_nodes))

  unfoldable pub rootfs_init : Cmd Files ℤ
  unfolding create_all
  rootfs_init = create_all rootfs_name rootfs_devid

  unfoldable pub dev_init : Cmd Files ℤ
  unfolding create_all vfs_mkdir vfs_mount
  dev_init = create_all dev_fs_name dev_fs_devid >>= λ a.
      if is_minus_one a
      then pure minus_one
      else vfs_mkdir other fuel dev_path 493 >>= λ b.
          if is_minus_one b
          then pure minus_one
          else vfs_mount other fuel dev_fs_devid dev_path dev_fs_name >>= λ c.
              if is_minus_one c then pure minus_one else pure (pos 0)

  -- The part of kmain2 that sets the file systems up; the results are not looked at.
  unfoldable pub mount_all : Cmd Files ℤ
  unfolding vfs_init rootfs_init vfs_mount dev_init
  mount_all =
      vfs_init
      >> (rootfs_init >> (vfs_mount other fuel rootfs_devid (slash ∷ []) rootfs_name >> dev_init))
