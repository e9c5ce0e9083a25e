-- ===== src/Vfs/Walk.antt =====
-- src/kernel/vfs.c: the lookup of a path, component by component. The words that strtok cuts from
-- the copy of the path, with '/' for the delimiter, are a function of the path (Strings/Tokens).
use rtc_driver.Base.{ℕ, not, List, [], ◌∷◌, ◌==◌, if◌then◌else◌}
use rtc_driver.Base.Int.{ℤ}
use rtc_driver.Base.Run.{fault, Cmd, pure, ◌>>=◌, ◌>>◌}
use rtc_driver.Errors.{e_nomem, e_corrupt, e_noent, e_nodir, e_limit}
use rtc_driver.Errors
use rtc_driver.Devices.{is_minus_one}
use rtc_driver.Files.{Name, Dentry, Files, kalloc, kfree, fail}
use rtc_driver.Files.Fn
use rtc_driver.Memfs.{file_type, file_type_directory, memfs_ino_lookup}
use rtc_driver.Vfs.{with_dentry, put_dentry, vfs_dentry_reset, vfs_dentry_get}
use rtc_driver.Vfs.Node.{vfs_vnode_release, vfs_node_from_dentry}

abbrev pub slash : ℕ
slash = 47

-- The words of a path. `words` has the first word, which may be empty, and the later ones.
unfoldable pub add_word : Name → List Name → List Name
add_word [] ws = ws
add_word (c ∷ w) ws = (c ∷ w) ∷ ws

unfoldable pub words : Name → Name × List Name
unfolding add_word
words [] = ([], [])
words (c ∷ cs) =
    let later = words cs in
    if c == slash then ([], add_word later.0 later.1) else (c ∷ later.0, later.1)

unfoldable pub components : Name → List Name
unfolding words add_word
components path = add_word (words path).0 (words path).1

-- `set_errno` with the number that `get_errno` gave before the code in between.
unfoldable pub keep_errno : {A : Type 0} → Cmd Files (Unit {0}) → A → Cmd Files A
unfolding fail
keep_errno undo a s = let err = Errors.get_errno s.errors in (undo >> fail err a) s

module _ (other : ℕ → List ℕ → Cmd Files ℤ) where
  -- The call of `lookup` for the entry at an address.
  unfoldable pub call_lookup : ℕ → ℕ → ℕ → Cmd Files ℤ
  unfolding with_dentry put_dentry memfs_ino_lookup
  call_lookup f dir p =
      if f == 0
      then (λ s. fault)
      else if f == Fn.lookup
      then with_dentry p (λ d. memfs_ino_lookup dir d >>= λ r. put_dentry p r.1 >> pure r.0)
      else other f (dir ∷ p ∷ [])

  -- The number of a new entry, from the node of its parent; NULL on failure.
  unfoldable pub load_entry : ℕ → ℕ → Cmd Files ℕ
  unfolding with_dentry vfs_node_from_dentry vfs_dentry_reset fail vfs_vnode_release call_lookup
      keep_errno
  load_entry parent p = with_dentry parent (vfs_node_from_dentry other) >>= λ node.
      if node == 0 then vfs_dentry_reset p >> fail e_corrupt 0 else λ s.
      (if not (file_type (s.vnodes node).v_mode == file_type_directory)
          then vfs_dentry_reset p >> (vfs_vnode_release other node >> fail e_nodir 0)
          else call_lookup (s.vnodes node).v_iops.lookup node p >>= λ r.
              if is_minus_one r
              then keep_errno (vfs_dentry_reset p >> (vfs_vnode_release other node >> pure tt)) 0
              else vfs_vnode_release other node >> pure p)
        s

  -- The part of the loop behind `vfs_dentry_get`: a new entry has no number and is loaded.
  unfoldable pub known : ℕ → ℕ → Dentry → Cmd Files ℕ
  unfolding load_entry
  known parent p d = if d.d_vno == 0 then load_entry parent p else pure p

  unfoldable pub arrive : ℕ → ℕ → Cmd Files ℕ
  unfolding fail with_dentry known
  arrive parent p = if p == 0 then fail e_limit 0 else with_dentry p (known parent p)

  -- The entry of a name below another; NULL on failure.
  unfoldable pub descend : ℕ → Name → Cmd Files ℕ
  unfolding vfs_dentry_get arrive
  descend parent name = vfs_dentry_get parent name >>= arrive parent

  unfoldable pub walk : ℕ → List Name → Cmd Files ℕ
  unfolding descend
  walk p [] = pure p
  walk p (w ∷ ws) = descend p w >>= λ q. let rest = walk q ws in if q == 0 then pure 0 else rest

  -- The end of vfs_lookup, where the walk along the copy of the path at `t` has ended at `p`.
  unfoldable pub finish_walk : ℕ → ℕ → Cmd Files ℕ
  unfolding kfree
  finish_walk t p = if p == 0 then kfree t >> pure 0 else pure p

  -- The walk from the root along the copy of the path at `t`.
  unfoldable pub walk_copy : Name → ℕ → Cmd Files ℕ
  unfolding fail components walk finish_walk
  walk_copy path t s =
      if t == 0
      then fail e_nomem 0 s
      else (walk s.vfs_root_dentry (components path) >>= finish_walk t) s

  unfoldable pub vfs_lookup : Name → Cmd Files ℕ
  unfolding fail kalloc walk_copy
  vfs_lookup path s =
      if s.vfs_root_dentry == 0 then fail e_noent 0 s else (kalloc >>= walk_copy path) s
