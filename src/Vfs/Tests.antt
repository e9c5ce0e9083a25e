-- ===== src/Vfs/Tests.antt =====
-- Runs of the virtual file system on a small state.
use rtc_driver.Base.{
  ℕ, zero, suc, ◌+◌, ◌<◌, ◌≡◌, ◌⊎◌, inl, inr, refl, arith, List, [], ◌∷◌, get_elem?, some, ◌==◌,
  if◌then◌else◌, map, set, false,
}
use rtc_driver.Base.Int.{ℤ, pos, minus_one}
use rtc_driver.Base.Run.{Run, ok, fault, Cmd, and_then}
use rtc_driver.Errors.{e_limit}
use rtc_driver.Devices.{FileOperations}
use rtc_driver.Files.{Files, Dentry, list_find, same_name}
use rtc_driver.Files.Fn
use rtc_driver.Files.Fail.{with_errno}
use rtc_driver.Files.Sample.{sample, mem_super, root_entry, a_entry, file_calls}
use rtc_driver.Memfs.{memfs_get_super, super_from}
use rtc_driver.Memfs.Data.{signed, memfs_file_write}
use rtc_driver.Vfs.{vfs_dentry_get, vfs_dentry_unmount_sb}
use rtc_driver.Vfs.Search.{All, IsMount, IsVictim, is_entry}
use rtc_driver.Vfs.Cache.{IsNew, entry, below, vfs_dentry_get-new}
use rtc_driver.Vfs.Unmount.{IsHeld, cleared, vfs_dentry_unmount_sb_lem}
use rtc_driver.Vfs.Node.{vfs_vnode_get_or_read, vfs_vnode_lookup, vfs_vnode_release}
use rtc_driver.Vfs.Count.{IsIdle, vfs_vnode_release-vfs_vnode_get_or_read}
use rtc_driver.Vfs.Open.{vfs_file_open, vfs_file_close, vfs_write, vfs_read, vfs_lseek}
use rtc_driver.Vfs.Opened.{vfs_file_close-vfs_file_open}
use rtc_driver.Vfs.Bytes.{vfs_read-vfs_write, vfs_lseek-stale}
use rtc_driver.Vfs.Walk.{vfs_lookup}
use rtc_driver.Vfs.Paths.{render}
use rtc_driver.Vfs.Cached.{uncounted, Leads, here, down, vfs_lookup-render}
use rtc_driver.Vfs.Mount.{vfs_sb_alloc, mount_new}
use rtc_driver.Vfs.Refused.{mount_new-refused}

-- No function but those of memfs.c is called.
abbrev none : ℕ → List ℕ → Cmd Files ℤ
none f args s = fault

abbrev no_device : ℕ → FileOperations → Cmd Files (ℤ × FileOperations)
no_device dev ops s = fault

abbrev no_seek : ℕ → List ℕ → Cmd Files ℕ
no_seek f args s = fault

-- "b" below "/", in a cache of two entries of which the one that is no mountpoint is given up.
b-IsNew : All (IsNew 1 (98 ∷ [])) sample.vfs_dentries
unfolding same_name
b-IsNew = (refl, (refl, tt))

new_example :
    (All IsMount sample.vfs_dentries
      × (vfs_dentry_get 1 (98 ∷ []) sample ≡ ok 0 (with_errno e_limit sample)))
    ⊎ ((k : ℕ) × (d : Dentry) × (s' : Files) × (get_elem? sample.vfs_dentries k ≡ some d)
        × IsVictim sample.vfs_dentries d
        × (vfs_dentry_get 1 (98 ∷ []) sample ≡ ok (suc k) s')
        × (s'.vfs_dentries
            ≡ set sample.vfs_dentries k
                (entry 200 (98 ∷ []) 1 (if 1 == suc k then 0 else below sample.vfs_dentries 1))))
new_example =
    vfs_dentry_get-new sample 1 200 (201 ∷ 202 ∷ 203 ∷ 204 ∷ []) (98 ∷ []) refl refl (omega arith)
      (inr (0, root_entry, refl, refl)) b-IsNew

unmount_example :
    ((k : ℕ) × (d : Dentry) × (get_elem? sample.vfs_dentries k ≡ some d)
      × IsHeld 50 d
      × (vfs_dentry_unmount_sb 50 sample ≡ ok minus_one sample))
    ⊎ (All (λ d. ¬ IsHeld 50 d) sample.vfs_dentries
        × (s' : Files) × (vfs_dentry_unmount_sb 50 sample ≡ ok (pos 0) s')
        × (s'.vfs_dentries ≡ map (cleared 50) sample.vfs_dentries))
unmount_example = vfs_dentry_unmount_sb_lem sample 50

found_file : list_find (λ p. (sample.mem_nodes p).ino == 2) (60 ∷ 61 ∷ []) ≡ 61
unfolding list_find
found_file = refl

idle : IsIdle sample 50 2 200 201 (202 ∷ 203 ∷ 204 ∷ []) 0 mem_super 61
idle = record {
  reads = refl;
  destroys = refl;
  of_super = refl;
  super = refl;
  found = found_file;
  node = omega arith;
  unused = tt;
  fresh = tt;
  given = refl;
  vnode = omega arith;
  cell = omega arith;
}

node_example :
    (t u : Files) × (vfs_vnode_get_or_read none 50 2 sample ≡ ok 200 t)
    × ((t.vnodes 200).v_mode ≡ 0x81ed)
    × ((t.vnodes 200).v_size ≡ 4)
    × ((t.vnodes 200).v_dev ≡ 0)
    × ((t.vnodes 200).private_node ≡ 61)
    × ((t.vnodes 200).v_no ≡ 2)
    × ((t.vnodes 200).v_sb ≡ 50)
    × ((t.vnodes 200).v_count ≡ 1)
    × (t.vfs_vnodes ≡ 200 ∷ [])
    × (vfs_vnode_lookup 50 2 t ≡ 200)
    × (vfs_vnode_release none 200 t ≡ ok (pos 0) u)
    × (u.vfs_vnodes ≡ [])
    × (u.live ≡ [])
node_example =
    vfs_vnode_release-vfs_vnode_get_or_read none sample 50 2 200 201 (202 ∷ 203 ∷ 204 ∷ []) 0 61
      idle

open_example :
    (t : Files) × (u : Files) × (vfs_file_open none no_device 90 3 sample ≡ ok 200 t)
    × (t.files 200
        ≡ record { f_pos = 0; f_ops = file_calls; f_flags = 3; f_count = 1; f_vnode = 90 })
    × (t.vfs_files ≡ 80 ∷ 200 ∷ [])
    × (vfs_file_close none no_device 200 t
        ≡ and_then (vfs_vnode_release none 90 u) (λ _ w. ok (pos 0) w))
    × (u.vfs_files ≡ 80 ∷ [])
    × (u.live ≡ [])
    × (u.vnodes ≡ sample.vnodes)
open_example =
    vfs_file_close-vfs_file_open none no_device sample 90 3 200 201 (202 ∷ 203 ∷ 204 ∷ []) refl
      (omega arith) (omega arith) file_calls refl refl refl refl (inr refl) (refl, tt)

-- The state behind a write of 5 bytes from 300 at position 2 of the file of 4 bytes, which takes
-- the block at 200.
abbrev state_of : Run Files ℤ → Files
state_of (ok r s) = s
state_of fault = sample
state_of Run.hang = sample
state_of Run.panic = sample

after : Files
unfolding vfs_write memfs_file_write
after = state_of (vfs_write none no_device 80 300 5 sample)

wrote : vfs_write none no_device 80 300 5 sample ≡ ok (signed 5) after
unfolding after vfs_write memfs_file_write
wrote = refl

block : (after.mem_nodes 61).bytes ≡ 200
unfolding after
block = refl

vfs_read_example :
    (t : Files) × (signed 5 ≡ signed 5)
    × (and_then
          (vfs_lseek none no_device no_seek 80 2 0 after)
          (λ _. vfs_read none no_device 80 400 5)
        ≡ ok (signed 5) t)
    × ((i : ℕ) → i < 5 → t.mem (400 + i) ≡ sample.mem (300 + i))
vfs_read_example =
    vfs_read-vfs_write none no_device no_seek sample 80 300 5 refl refl refl refl refl (omega arith)
      (omega arith)
      (inr (
        omega arith,
        200,
        201 ∷ 202 ∷ 203 ∷ 204 ∷ [],
        refl,
        omega arith,
        inl (omega arith),
        inl (omega arith),
      ))
      after (signed 5) 400 wrote (inr (omega (arith, block)))

stale_example :
    (t : Files) × (vfs_lseek none no_device no_seek 80 0 2 after ≡ ok 4 t)
    × ((t.files 80).f_pos ≡ 4)
    × (4 < (t.mem_nodes 61).size)
stale_example =
    vfs_lseek-stale none no_device no_seek sample 80 300 5 refl refl refl refl refl (omega arith)
      (omega arith)
      (inr (
        omega arith,
        200,
        201 ∷ 202 ∷ 203 ∷ 204 ∷ [],
        refl,
        omega arith,
        inl (omega arith),
        inl (omega arith),
      ))
      after (signed 5) wrote refl (omega arith)

a_at : Leads (map uncounted sample.vfs_dentries) 1 ((97 ∷ []) ∷ []) 2
unfolding same_name
a_at =
    down 1 1 (97 ∷ []) [] 2 (record a_entry { d_count = 0 }, refl, refl, omega arith, earlier)
      (here 2)
  where
    earlier :
        (j : ℕ) (e : Dentry)
        → j < 1
        → get_elem? (map uncounted sample.vfs_dentries) j ≡ some e
        → is_entry 1 (97 ∷ []) e ≡ false
    earlier zero e lt at = ground (arith, at)
    earlier (suc j) e lt at = absurd (omega arith)

-- "/a"
lookup_example :
    (t : Files) × (vfs_lookup none (render ((97 ∷ []) ∷ [])) sample ≡ ok 2 t)
    × (map uncounted t.vfs_dentries ≡ map uncounted sample.vfs_dentries)
    × (t.live ≡ 200 ∷ [])
    × (t.answers ≡ 201 ∷ 202 ∷ 203 ∷ 204 ∷ [])
    × (t.vnodes ≡ sample.vnodes)
    × (t.errors ≡ sample.errors)
lookup_example =
    vfs_lookup-render none sample ((97 ∷ []) ∷ []) 2 200 (201 ∷ 202 ∷ 203 ∷ 204 ∷ []) (omega arith)
      refl (omega arith) ((λ e. cc), (omega arith, tt), tt) a_at

-- Device 9 has no memory file system.
abbrev typed : Files
typed = record sample {
  fs_types = λ p. record {
    ft_name = 6;
    ft_text = 114 ∷ [];
    ft_get_sb = Fn.get_sb;
    ft_kill_sb = Fn.kill_sb;
  };
}

strange : memfs_get_super 9 typed ≡ 0
unfolding memfs_get_super super_from
strange = refl

refused_example : and_then (vfs_sb_alloc 9 typed) (mount_new none 9 1 40) ≡ fault
refused_example =
    mount_new-refused none 9 typed 9 1 40 200 201 (202 ∷ 203 ∷ 204 ∷ []) refl (omega arith)
      (omega arith) refl strange
