-- ===== src/Vfs/Types.antt =====
-- src/kernel/vfs.c: the types of file systems. `text_at` is the string that the bytes at an address
-- make. A comparison with a name that is NULL is a fault.
use rtc_driver.Base.{ℕ, ◌+◌, not, List, [], ◌∷◌, ◌==◌, if◌then◌else◌, none, some}
use rtc_driver.Base.Int.{ℤ, pos, minus_one}
use rtc_driver.Base.Run.{ok, fault, Cmd, pure, and_then, ◌>>=◌, ◌>>◌}
use rtc_driver.Errors.{e_nomem, e_nokobj, e_io, e_exist}
use rtc_driver.Devices.{is_minus_one}
use rtc_driver.Files.{
  Name, FsType, Files, same_name, update, kalloc, kfree, fail, list_add, without,
}

-- list_find with `vfs_fs_types_cmp`.
unfoldable pub find_type : Name → List ℕ → Cmd Files ℕ
unfolding same_name
find_type name [] s = ok 0 s
find_type name (p ∷ ps) s =
    let t = s.fs_types p in
    let rest = find_type name ps s in
    if t.ft_name == 0 then fault else if same_name t.ft_text name then ok p s else rest

unfoldable pub vfs_fs_type_lookup : Name → Cmd Files ℕ
unfolding find_type
vfs_fs_type_lookup name s = find_type name s.vfs_fs_types s

-- list_find_del with it; its error number is the one of list.c.
unfoldable pub forget_type : Name → Cmd Files (Unit {0})
unfolding find_type without fail
forget_type name s = and_then (find_type name s.vfs_fs_types s) (λ p s'.
    if p == 0
    then fail e_nokobj tt s'
    else ok tt (record s' { vfs_fs_types = without (λ q. q == p) s'.vfs_fs_types }))

unfoldable pub put_type : ℕ → FsType → Cmd Files (Unit {0})
unfolding update
put_type p t s = ok tt (record s { fs_types = update s.fs_types p t })

-- `&(ft->ro.ft_name)`: the member follows the two operations.
abbrev pub name_field : ℕ → ℕ
name_field p = p + 8

module _ (text_at : Files → ℕ → Name) where
  -- The type's address, or NULL. The type is in the list before it has a name.
  unfoldable pub vfs_fs_type_alloc : Name → Cmd Files ℕ
  unfolding kalloc list_add kfree fail forget_type put_type
  vfs_fs_type_alloc name = kalloc >>= λ p. if p == 0 then pure 0 else λ s.
      and_then (list_add p s.vfs_fs_types s) (λ r s'. elim r [
        | none ↦ (kfree p >> fail e_nomem 0) s'
        | some ps ↦
            (kalloc >>= λ q.
            if q == 0
            then put_type p (record (s'.fs_types p) { ft_name = 0 })
              >> ((λ t. forget_type (text_at t (name_field p)) t) >> (kfree p >> fail e_nomem 0))
            else put_type p (record { ft_name = q; ft_text = name; ft_get_sb = 0; ft_kill_sb = 0 })
              >> pure p)
              (record s' { vfs_fs_types = ps })
      ])

  unfoldable pub vfs_fs_type_dealloc : ℕ → Cmd Files ℤ
  unfolding forget_type kfree
  vfs_fs_type_dealloc p s =
      let t = s.fs_types p in
      ((λ t'. forget_type (text_at t' (name_field p)) t')
          >> ((if t.ft_name == 0 then pure tt else kfree t.ft_name) >> (kfree p >> pure (pos 0))))
        s

  -- `config` fills in the operations.
  unfoldable pub vfs_fs_type_register : (ℕ → Cmd Files ℤ) → Name → Cmd Files ℤ
  unfolding vfs_fs_type_lookup fail vfs_fs_type_alloc vfs_fs_type_dealloc
  vfs_fs_type_register config name = vfs_fs_type_lookup name >>= λ t.
      if not (t == 0)
      then fail e_exist minus_one
      else vfs_fs_type_alloc name >>= λ p.
          if p == 0
          then pure minus_one
          else config p >>= λ r.
              if is_minus_one r then vfs_fs_type_dealloc p >> fail e_io minus_one else pure (pos 0)
