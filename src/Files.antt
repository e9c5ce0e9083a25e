-- ===== src/Files.antt =====
-- The structures of src/kernel/include/vfs.h and of src/kernel/fs/memfs.c, and the state that the
-- virtual file system and the memory file system share. A structure that kalloc gives lives at its
-- address; an element of one of the two static arrays, `vfs_dentries` and `memfs_supers`, has the
-- address of its index plus one; 0 is NULL. A `list_t` is the list of its values, which is what the
-- theorems of KList say an operation of list.c makes of it; a name is the list of its characters
-- without the null. A function pointer is a number, 0 is NULL. A counter of uses is not wrapped.
pub mod Fn
pub mod Update
pub mod Fail
pub mod Sample
use rtc_driver.Base.{
  ℕ, ◌+◌, ◌-◌, ◌^◌, Bool, true, false, ◌&&◌, Option, none, some, List, [], ◌∷◌, ◌++◌, ◌==◌, ltb,
  if◌then◌else◌,
}
use rtc_driver.Base.Int.{ℤ, pos, negsuc, minus_one}
use rtc_driver.Base.Run.{Run, ok, fault, hang, panic, Cmd, pure, and_then, ◌>>=◌, ◌>>◌}
use rtc_driver.Errors.{Errors, set_errno, e_nomem, e_nokobj}
use rtc_driver.Strings.{Memory}
use rtc_driver.Devices.{FileOperations, take_out}

abbrev pub Name : Type 0
Name = List ℕ

-- `vfs_vnode_operations_t`
pub record InodeOperations : Type 0 where
  pub lookup : ℕ
  pub create : ℕ
  pub mkdir : ℕ
  pub mknod : ℕ

-- `vfs_vnode_t`
pub record Vnode : Type 0 where
  pub v_no : ℕ
  pub v_mode : ℕ
  pub v_size : ℕ
  pub v_dev : ℕ
  pub v_iops : InodeOperations
  pub v_fops : FileOperations
  pub private_node : ℕ
  pub v_sb : ℕ
  pub v_count : ℕ

-- `vfs_dentry_t`; `d_text` is the string at `d_name`, where that is not NULL.
pub record Dentry : Type 0 where
  pub d_name : ℕ
  pub d_text : Name
  pub d_vno : ℕ
  pub d_parent : ℕ
  pub d_sb : ℕ
  pub d_mnt_sb : ℕ
  pub d_count : ℕ

-- `vfs_file_t`, without its private data, which no code here uses.
pub record File : Type 0 where
  pub f_pos : ℕ
  pub f_ops : FileOperations
  pub f_flags : ℕ
  pub f_count : ℕ
  pub f_vnode : ℕ

-- `vfs_fs_type_t`; `ft_text` is the string at `ft_name`, where that is not NULL.
pub record FsType : Type 0 where
  pub ft_name : ℕ
  pub ft_text : Name
  pub ft_get_sb : ℕ
  pub ft_kill_sb : ℕ

-- `vfs_sb_t`, without the sizes of its blocks, which no code here uses.
pub record SuperBlock : Type 0 where
  pub read_vnode : ℕ
  pub destroy_vnode : ℕ
  pub mount : ℕ
  pub unmount : ℕ
  pub sb_root_vno : ℕ
  pub sb_flags : ℕ
  pub private_super : ℕ
  pub sb_devid : ℕ
  pub sb_fs_type : ℕ
  pub sb_mnt : ℕ

-- `memfs_super_t`
pub record MemSuper : Type 0 where
  pub name : ℕ
  pub text : Name
  pub devid : ℕ
  pub flags : ℕ
  pub nodes : List ℕ
  pub last_ino : ℕ

-- `memfs_node_t`
pub record MemNode : Type 0 where
  pub ino : ℕ
  pub mode : ℕ
  pub size : ℕ
  pub devid : ℕ
  pub bytes : ℕ
  pub dentries : List ℕ
  pub super : ℕ

-- `memfs_dentry_t`
pub record MemDentry : Type 0 where
  pub ino : ℕ
  pub name : ℕ
  pub text : Name
  pub dir : ℕ

-- `answers` is what kalloc will answer, NULL once the list is at its end; `live` are the addresses
-- that it has given and not got back, nodes of lists aside.
pub record Files : Type 0 where
  pub mem : Memory
  pub errors : Errors
  pub answers : List ℕ
  pub live : List ℕ
  pub vnodes : ℕ → Vnode
  pub files : ℕ → File
  pub sbs : ℕ → SuperBlock
  pub fs_types : ℕ → FsType
  pub vfs_fs_types : List ℕ
  pub vfs_sbs : List ℕ
  pub vfs_vnodes : List ℕ
  pub vfs_files : List ℕ
  pub vfs_dentries : List Dentry
  pub vfs_root_dentry : ℕ
  pub memfs_supers : List MemSuper
  pub mem_nodes : ℕ → MemNode
  pub mem_dentries : ℕ → MemDentry

-- `strcmp(a, b) == 0`
unfoldable pub same_name : Name → Name → Bool
same_name [] [] = true
same_name [] (y ∷ ys) = false
same_name (x ∷ xs) [] = false
same_name (x ∷ xs) (y ∷ ys) = (x == y) && same_name xs ys

-- `*p = v` for a structure.
unfoldable pub update : {A : Type 0} → (ℕ → A) → ℕ → A → ℕ → A
update f p v q = if q == p then v else f q

unfoldable pub kalloc : Cmd Files ℕ
kalloc s = elim s.answers [
  | [] ↦ ok 0 s
  | p ∷ ps ↦ ok p (record s { answers = ps; live = if p == 0 then s.live else p ∷ s.live })
]

unfoldable pub kfree : ℕ → Cmd Files (Unit {0})
kfree p s = ok tt (record s { live = take_out p s.live })

-- `set_errno(e)` and the result that follows it.
unfoldable pub fail : ℕ → {A : Type 0} → A → Cmd Files A
fail e a s = elim (set_errno e s.errors) [
  | ok _ r ↦ ok a (record s { errors = r })
  | fault ↦ fault
  | hang ↦ hang
  | panic ↦ panic
]

-- `list_add`: the list with the value behind it, or `none` where kalloc gives no node.
unfoldable pub list_add : ℕ → List ℕ → Cmd Files (Option (List ℕ))
unfolding fail
list_add p xs s = elim s.answers [
  | [] ↦ fail e_nomem none s
  | q ∷ qs ↦
      let s' = record s { answers = qs } in
      if q == 0 then fail e_nomem none s' else ok (some (xs ++ p ∷ [])) s'
]

-- `list_find`: 0 where the comparison accepts no value.
unfoldable pub list_find : (ℕ → Bool) → List ℕ → ℕ
list_find cmp [] = 0
list_find cmp (p ∷ ps) = let rest = list_find cmp ps in if cmp p then p else rest

-- The list without the first value that is accepted.
unfoldable pub without : (ℕ → Bool) → List ℕ → List ℕ
without cmp [] = []
without cmp (p ∷ ps) = let rest = without cmp ps in if cmp p then ps else p ∷ rest

-- The value that is taken out, or NULL, and the list.
unfoldable pub list_find_del : (ℕ → Bool) → List ℕ → Cmd Files (ℕ × List ℕ)
unfolding list_find without fail
list_find_del cmp ps s =
    let p = list_find cmp ps in if p == 0 then fail e_nokobj (0, ps) s else ok (p, without cmp ps) s
