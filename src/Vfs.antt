-- ===== src/Vfs.antt =====
-- src/kernel/vfs.c: the virtual file system, over Files. The cache of directory entries is here;
-- Vfs/Node has the nodes, Vfs/Walk the lookup of paths, Vfs/Create the creation of nodes and
-- Vfs/Open the open files.
pub mod Node
pub mod Walk
pub mod Create
pub mod Open
pub mod Bytes
pub mod Search
pub mod Cache
pub mod Types
pub mod Mount
pub mod Count
pub mod Unmount
pub mod Opened
pub mod Paths
pub mod Cached
pub mod Refused
mod Tests
use rtc_driver.Base.{
  ℕ, zero, suc, ◌+◌, Bool, true, false, not, ◌&&◌, ◌||◌, Option, none, some, List, [], ◌∷◌, ◌==◌,
  ltb, if◌then◌else◌, set, get_elem?, replicate, replicate,
}
use rtc_driver.Base.Int.{ℤ, pos, minus_one}
use rtc_driver.Base.Run.{Run, ok, fault, Cmd, pure, and_then, ◌>>=◌, ◌>>◌}
use rtc_driver.Errors.{e_nomem, e_limit}
use rtc_driver.Files.{Name, Dentry, Files, same_name, kalloc, kfree, fail}

abbrev pub vfs_max_dentries : ℕ
vfs_max_dentries = 100

abbrev pub no_dentry : Dentry
no_dentry = record {
  d_name = 0;
  d_text = [];
  d_vno = 0;
  d_parent = 0;
  d_sb = 0;
  d_mnt_sb = 0;
  d_count = 0;
}

unfoldable pub vfs_init : Cmd Files ℤ
vfs_init s = ok (pos 0) (record s {
  vfs_fs_types = [];
  vfs_sbs = [];
  vfs_vnodes = [];
  vfs_files = [];
  vfs_dentries = replicate vfs_max_dentries no_dentry;
  vfs_root_dentry = 0;
})

-- The entry at an address, which is its index plus one.
unfoldable pub dentry_at : ℕ → List Dentry → Option Dentry
dentry_at zero ds = none
dentry_at (suc i) ds = get_elem? ds i

unfoldable pub with_dentry : {A : Type 0} → ℕ → (Dentry → Cmd Files A) → Cmd Files A
unfolding dentry_at
with_dentry p k s = elim (dentry_at p s.vfs_dentries) [ none ↦ fault | some d ↦ k d s ]

abbrev pub set_at : ℕ → Dentry → List Dentry → List Dentry
set_at zero d ds = ds
set_at (suc i) d ds = set ds i d

-- `*p = d` for an entry.
unfoldable pub put_dentry : ℕ → Dentry → Cmd Files (Unit {0})
put_dentry p d s = ok tt (record s { vfs_dentries = set_at p d s.vfs_dentries })

unfoldable pub reset_entry : ℕ → Dentry → Cmd Files (Unit {0})
unfolding put_dentry kfree
reset_entry p d = (if d.d_name == 0 then pure tt else kfree d.d_name) >> put_dentry p no_dentry

unfoldable pub vfs_dentry_reset : ℕ → Cmd Files (Unit {0})
unfolding with_dentry reset_entry
vfs_dentry_reset p = with_dentry p (reset_entry p)

-- What the search ends with: the entry that was wanted, or the place of a new one, NULL if none.
pub data Place : Type 0 where
  found : ℕ → Place
  room : ℕ → Place

-- The search from the entry with address `i` on. `low` is the place that has been chosen so far,
-- and `count` how often the entry there was used.
unfoldable pub search : ℕ → Name → ℕ → ℕ → ℕ → List Dentry → Place
search parent name i low count [] = room low
search parent name i low count (d ∷ ds) =
    let free = d.d_name == 0 in
    let better = (low == 0) || ltb d.d_count count in
    let taken = not free && (not (d.d_mnt_sb == 0) || not better) in
    let rest =
      search parent name (i + 1) (if taken then low else i)
        (if free then 0 else if taken then count else d.d_count) ds in
    if not free && (d.d_parent == parent && same_name d.d_text name) then found i else rest

-- The superblock of a new entry, from its parent.
unfoldable pub sb_below : Dentry → ℕ
sb_below parent = if parent.d_mnt_sb == 0 then parent.d_sb else parent.d_mnt_sb

unfoldable pub parent_sb : ℕ → Cmd Files ℕ
unfolding with_dentry sb_below
parent_sb parent = if parent == 0 then pure 0 else with_dentry parent (λ up. pure (sb_below up))

unfoldable pub put_used : ℕ → Dentry → ℕ → Cmd Files ℕ
unfolding put_dentry
put_used p d sb = put_dentry p (record d { d_sb = sb; d_count = 1 }) >> pure p

-- A new entry with the name at `q`. Its parent is read when its own name and parent are written.
unfoldable pub fill : ℕ → ℕ → Name → ℕ → Cmd Files ℕ
unfolding put_dentry fail parent_sb put_used
fill p parent name q =
    if q == 0
    then fail e_nomem 0
    else let d = record no_dentry { d_name = q; d_text = name; d_parent = parent } in
      put_dentry p d >> (parent_sb parent >>= put_used p d)

unfoldable pub new_dentry : ℕ → ℕ → Name → Cmd Files ℕ
unfolding vfs_dentry_reset kalloc fill
new_dentry p parent name = vfs_dentry_reset p >> (kalloc >>= fill p parent name)

unfoldable pub use_again : ℕ → Dentry → Cmd Files ℕ
unfolding put_dentry
use_again p d = put_dentry p (record d { d_count = d.d_count + 1 }) >> pure p

-- The result of the search, made an entry.
unfoldable pub settle : ℕ → Name → Place → Cmd Files ℕ
unfolding with_dentry use_again new_dentry fail
settle parent name (found p) = with_dentry p (use_again p)
settle parent name (room p) = if p == 0 then fail e_limit 0 else new_dentry p parent name

unfoldable pub vfs_dentry_get : ℕ → Name → Cmd Files ℕ
unfolding search settle
vfs_dentry_get parent name s = settle parent name (search parent name 1 0 0 s.vfs_dentries) s

-- Whether an entry of the superblock is a mountpoint.
unfoldable pub busy : ℕ → List Dentry → Bool
busy sb [] = false
busy sb (d ∷ ds) =
    let rest = busy sb ds in
    if not (d.d_name == 0) && (not (d.d_mnt_sb == 0) && (d.d_sb == sb)) then true else rest

-- The second loop of `vfs_dentry_unmount_sb`, over the entries from address `i` on.
unfoldable pub drop_entries : ℕ → ℕ → List Dentry → Cmd Files (Unit {0})
unfolding vfs_dentry_reset
drop_entries sb i [] = pure tt
drop_entries sb i (d ∷ ds) =
    (if not (d.d_name == 0) && (d.d_sb == sb) then vfs_dentry_reset i else pure tt)
    >> drop_entries sb (i + 1) ds

unfoldable pub vfs_dentry_unmount_sb : ℕ → Cmd Files ℤ
unfolding busy drop_entries
vfs_dentry_unmount_sb sb s =
    if busy sb s.vfs_dentries
    then ok minus_one s
    else (drop_entries sb 1 s.vfs_dentries >> pure (pos 0)) s
