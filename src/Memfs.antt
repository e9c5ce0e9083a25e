-- ===== src/Memfs.antt =====
-- src/kernel/fs/memfs.c: a file system in memory. The operations on nodes, directory entries and
-- whole file systems; Memfs/Data has those on an open file. `memfs_node_alloc` and the rest leave a
-- member that they do not set as the memory at its address was.
pub mod Data
pub mod Sb
pub mod Content
pub mod Write
pub mod Read
pub mod Alloc
pub mod Mknod
mod Tests
use rtc_driver.Base.{
  ℕ, zero, suc, ◌+◌, ◌-◌, ◌%◌, ◌^◌, Bool, true, false, not, ◌&&◌, Option, none, some, List, [], ◌∷◌,
  ◌++◌, ◌==◌, ltb, leb, if◌then◌else◌, bit_and, bit_or, set, get_elem?, length,
}
use rtc_driver.Base.Int.{ℤ, pos, negsuc, minus_one}
use rtc_driver.Base.Run.{Run, ok, fault, hang, panic, Cmd, pure, and_then, ◌>>=◌, ◌>>◌}
use rtc_driver.Errors.{e_io, e_noent}
use rtc_driver.Devices.{FileOperations}
use rtc_driver.Files.{
  Name, Vnode, InodeOperations, Dentry, File, SuperBlock, MemSuper, MemNode, MemDentry, Files,
  same_name, update, kalloc, kfree, fail, list_add, list_find, list_find_del,
}

abbrev pub memfs_root_ino : ℕ
memfs_root_ino = 1

abbrev pub memfs_max_fs : ℕ
memfs_max_fs = 5

abbrev pub file_nodev : ℕ
file_nodev = 0

abbrev pub file_type : ℕ → ℕ
file_type mode = bit_and mode 0xf000

abbrev pub file_type_directory : ℕ
file_type_directory = 0x4000

abbrev pub file_type_regular : ℕ
file_type_regular = 0x8000

abbrev pub file_perm_755 : ℕ
file_perm_755 = 0x01ed

-- The flags of a file system.
abbrev pub allow_dirs : ℕ
allow_dirs = 1

abbrev pub allow_files : ℕ
allow_files = 2

abbrev pub allow_nodes : ℕ
allow_nodes = 4

-- `memfs_supers[i]` for the address i + 1.
unfoldable pub super_at : ℕ → Files → Option MemSuper
super_at zero s = none
super_at (suc i) s = get_elem? s.memfs_supers i

abbrev pub set_at : ℕ → MemSuper → List MemSuper → List MemSuper
set_at zero ms supers = supers
set_at (suc i) ms supers = set supers i ms

unfoldable pub set_super : ℕ → MemSuper → Files → Files
set_super p ms s = record s { memfs_supers = set_at p ms s.memfs_supers }

unfoldable pub with_super : {A : Type 0} → ℕ → (MemSuper → Cmd Files A) → Cmd Files A
unfolding super_at
with_super p k s = elim (super_at p s) [ none ↦ fault | some ms ↦ k ms s ]

-- `memfs_dentry_cmp` and `memfs_node_cmp` for a name and a number.
abbrev pub has_name : Files → Name → ℕ → Bool
has_name s name p = same_name (s.mem_dentries p).text name

abbrev pub has_ino : Files → ℕ → ℕ → Bool
has_ino s ino p = (s.mem_nodes p).ino == ino

unfoldable pub put_node : ℕ → MemNode → Cmd Files (Unit {0})
unfolding update
put_node p n s = ok tt (record s { mem_nodes = update s.mem_nodes p n })

unfoldable pub put_dentry : ℕ → MemDentry → Cmd Files (Unit {0})
unfolding update
put_dentry p d s = ok tt (record s { mem_dentries = update s.mem_dentries p d })

-- The end of `memfs_dentry_alloc`, with what list_add answers; `q` is the address of the name.
unfoldable pub finish_dentry : ℕ → ℕ → ℕ → Option (List ℕ) → Cmd Files ℕ
unfolding kfree put_node
finish_dentry dir d q none s = (kfree q >> (kfree d >> pure 0)) s
finish_dentry dir d q (some ds) s =
    (put_node dir (record (s.mem_nodes dir) { dentries = ds }) >> pure d) s

-- The name at `q` has a block of `sizeof(name) + 1` bytes: five, with the null. A longer name is
-- written past it.
unfoldable pub name_dentry : ℕ → ℕ → Name → ℕ → ℕ → Cmd Files ℕ
unfolding kfree put_dentry list_add finish_dentry
name_dentry dir ino name d q =
    if q == 0
    then kfree d >> pure 0
    else if ltb 4 (length name)
    then (λ s. fault)
    else put_dentry d (record { ino = ino; name = q; text = name; dir = dir }) >> λ s.
        and_then (list_add d (s.mem_nodes dir).dentries s) (finish_dentry dir d q)

-- The entry's address, or NULL.
unfoldable pub memfs_dentry_alloc : ℕ → ℕ → Name → Cmd Files ℕ
unfolding kalloc name_dentry
memfs_dentry_alloc dir ino name =
    kalloc >>= λ d. if d == 0 then pure 0 else kalloc >>= name_dentry dir ino name d

unfoldable pub memfs_dentry_dealloc : ℕ → Cmd Files (Unit {0})
unfolding kfree put_node list_find_del
memfs_dentry_dealloc p s =
    let d = s.mem_dentries p in
    let n = s.mem_nodes d.dir in
    (list_find_del (has_name s d.text) n.dentries >>= λ r.
    put_node d.dir (record n { dentries = r.1 }) >> (kfree d.name >> kfree p))
      s

unfoldable pub memfs_node_lookup : MemSuper → ℕ → Files → ℕ
unfolding list_find
memfs_node_lookup ms ino s = list_find (has_ino s ino) ms.nodes

-- The end of `memfs_node_alloc`, with what list_add answers.
unfoldable pub finish_node : ℕ → MemSuper → ℕ → MemNode → Option (List ℕ) → Cmd Files ℕ
unfolding kfree put_node set_super
finish_node sp ms p n none s = (kfree p >> pure 0) s
finish_node sp ms p n (some ps) s =
    (put_node p n >> pure p) (set_super sp (record ms { nodes = ps }) s)

-- Numbers of nodes are the 32 bits of an `int`.
unfoldable pub number_node : ℕ → ℕ → ℕ → ℕ → MemSuper → Cmd Files ℕ
unfolding list_add set_super update finish_node
number_node sp mode devid p ms s =
    let counted = record ms { last_ino = (ms.last_ino + 1) % 2 ^ 32 } in
    let n = record (s.mem_nodes p) { ino = ms.last_ino; super = sp } in
    and_then
      (list_add p ms.nodes (set_super sp counted (record s { mem_nodes = update s.mem_nodes p n })))
      (finish_node sp counted p (record n { mode = mode; devid = devid; bytes = 0; dentries = [] }))

-- The node's address, or NULL. The number of the node is used up even where the list has no room.
unfoldable pub memfs_node_alloc : ℕ → ℕ → ℕ → Cmd Files ℕ
unfolding kalloc with_super number_node
memfs_node_alloc sp mode devid =
    kalloc >>= λ p. if p == 0 then pure 0 else with_super sp (number_node sp mode devid p)

-- `while (node->dentries.count > 0)`
unfoldable pub dealloc_dentries : ℕ → ℕ → Cmd Files (Unit {0})
unfolding memfs_dentry_dealloc
dealloc_dentries zero p s = hang
dealloc_dentries (suc k) p s = elim (s.mem_nodes p).dentries [
  | [] ↦ ok tt s
  | d ∷ ds ↦ and_then (memfs_dentry_dealloc d s) (λ _. dealloc_dentries k p)
]

unfoldable pub memfs_node_dealloc : ℕ → ℕ → Cmd Files (Unit {0})
unfolding with_super set_super kfree dealloc_dentries list_find_del
memfs_node_dealloc fuel p s =
    let n = s.mem_nodes p in
    (with_super n.super (λ ms. list_find_del (has_ino s n.ino) ms.nodes >>= λ r s'.
    ok tt (set_super n.super (record ms { nodes = r.1 }) s'))
        >> ((if n.bytes == 0 then pure tt else kfree n.bytes)
            >> (dealloc_dentries fuel p >> kfree p)))
      s

-- `memfs_get_super` from index `i` on: the address, or NULL.
unfoldable pub super_from : ℕ → ℕ → List MemSuper → ℕ
super_from devid i [] = 0
super_from devid i (ms ∷ rest) =
    let later = super_from devid (i + 1) rest in
    if ms.name == 0 then later else if ms.devid == devid then i + 1 else later

unfoldable pub memfs_get_super : ℕ → Files → ℕ
unfolding super_from
memfs_get_super devid s = super_from devid 0 s.memfs_supers

unfoldable pub memfs_init_super : ℕ → Name → ℕ → ℕ → Cmd Files ℤ
unfolding kalloc with_super set_super
memfs_init_super p name devid flags = kalloc >>= λ q. with_super p (λ ms s.
    if q == 0
    then ok minus_one (set_super p (record ms { name = 0 }) s)
    else ok (pos 0) (
        set_super p
          (record { name = q; text = name; devid = devid; flags = flags; nodes = []; last_ino = 0 })
          s))

-- `while (ms->nodes.count > 0)`
unfoldable pub clear_nodes : ℕ → ℕ → Cmd Files (Unit {0})
unfolding with_super memfs_node_dealloc
clear_nodes zero p s = hang
clear_nodes (suc k) p s =
    with_super p
      (λ ms s'. elim ms.nodes [
        | [] ↦ ok tt s'
        | n ∷ ns ↦ and_then (memfs_node_dealloc k n s') (λ _. clear_nodes k p)
      ])
      s

unfoldable pub memfs_clear_super : ℕ → ℕ → Cmd Files (Unit {0})
unfolding with_super set_super kfree clear_nodes
memfs_clear_super fuel p =
    with_super p (λ ms.
      kfree ms.name
      >> (λ s. ok tt (set_super p (record ms { name = 0; devid = 0; flags = 0; last_ino = 0 }) s)))
    >> clear_nodes fuel p

-- The node of the directory, which the vnode points to.
abbrev pub node_of : ℕ → Files → ℕ
node_of v s = (s.vnodes v).private_node

-- The end of `memfs_ino_lookup`, for the entry that list_find gives.
unfoldable pub looked_up : Dentry → ℕ → Cmd Files (ℤ × Dentry)
unfolding fail
looked_up dentry md s =
    if md == 0
    then fail e_noent (minus_one, dentry) s
    else ok (pos 0, record dentry { d_vno = (s.mem_dentries md).ino }) s

-- The status, and the entry.
unfoldable pub memfs_ino_lookup : ℕ → Dentry → Cmd Files (ℤ × Dentry)
unfolding looked_up list_find
memfs_ino_lookup dir dentry s =
    looked_up dentry (list_find (has_name s dentry.d_text) (s.mem_nodes (node_of dir s)).dentries) s

-- The parts of `memfs_ino_mknod` behind its two allocations.
unfoldable pub entered : ℕ → Dentry → ℕ → ℕ → Cmd Files (ℤ × Dentry)
unfolding memfs_node_dealloc fail
entered fuel dentry mn md s =
    if md == 0
    then (memfs_node_dealloc fuel mn >> fail e_io (minus_one, dentry)) s
    else ok (pos 0, record dentry { d_vno = (s.mem_nodes mn).ino }) s

unfoldable pub enter : ℕ → ℕ → Dentry → ℕ → Cmd Files (ℤ × Dentry)
unfolding fail memfs_dentry_alloc entered
enter fuel mdir dentry mn s =
    if mn == 0
    then fail e_io (minus_one, dentry) s
    else and_then (memfs_dentry_alloc mdir (s.mem_nodes mn).ino dentry.d_text s)
        (entered fuel dentry mn)

unfoldable pub memfs_ino_mknod : ℕ → ℕ → Dentry → ℕ → ℕ → Cmd Files (ℤ × Dentry)
unfolding memfs_node_alloc enter
memfs_ino_mknod fuel dir dentry mode devid s =
    let mdir = node_of dir s in
    and_then (memfs_node_alloc (s.mem_nodes mdir).super mode devid s) (enter fuel mdir dentry)

unfoldable pub memfs_ino_create : ℕ → ℕ → Dentry → ℕ → Cmd Files (ℤ × Dentry)
memfs_ino_create fuel dir dentry mode = memfs_ino_mknod fuel dir dentry mode file_nodev

unfoldable pub memfs_ino_mkdir : ℕ → ℕ → Dentry → ℕ → Cmd Files (ℤ × Dentry)
memfs_ino_mkdir fuel dir dentry mode = memfs_ino_mknod fuel dir dentry mode file_nodev
