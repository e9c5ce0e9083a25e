-- ===== src/Vfs/Opened.antt =====
-- What opening a file makes, and what closing it gives back.
use rtc_driver.Base.{
  ℕ, ◌≡◌, ◌≢◌, ◌⊎◌, refl, ap, ◌∙◌, true, false, not, ◌&&◌, ◌||◌, List, [], ◌∷◌, ◌++◌, arith, ◌==◌,
  if◌then◌else◌, inl, inr, Bool-cases,
}
use rtc_driver.Base.Int.{ℤ, pos, minus_one}
use rtc_driver.Base.Run.{Run, ok, Cmd, and_then}
use rtc_driver.Errors.{e_notimp, e_nokobj}
use rtc_driver.Devices.{FileOperations, take_out, file_type_char_dev}
use rtc_driver.Files.{Files, File, kfree, fail, list_find_del, update}
use rtc_driver.Files.Fn
use rtc_driver.Files.Fail.{IsCalm, with_errno, fail-ok}
use rtc_driver.Files.Update.{update_self, update-again}
use rtc_driver.Memfs.{file_type, file_type_directory, file_type_regular}
use rtc_driver.Memfs.Alloc.{kalloc-ok, list_add-ok}
use rtc_driver.Memfs.Mknod.{All, list_find-last}
use rtc_driver.Vfs.Node.{vfs_vnode_release}
use rtc_driver.Vfs.Count.{take_out-first, without-last}
use rtc_driver.Vfs.Open.{
  put_file, unlist, call_quiet, choose_operations, open_node, set_up, file_listed, new_file,
  vfs_file_open, close_file, vfs_file_close,
}

module _ (other : ℕ → List ℕ → Cmd Files ℤ)
    (set_char : ℕ → FileOperations → Cmd Files (ℤ × FileOperations)) (s : Files)
    (node flags p q : ℕ) (more : List ℕ) (given : s.answers ≡ p ∷ q ∷ more) (some_p : p ≢ 0)
    (some_q : q ≢ 0) where
  abbrev fresh : File
  fresh = record (s.files p) { f_pos = 0; f_flags = flags }

  abbrev at_file : File → Files
  at_file f = record s {
    answers = more;
    live = p ∷ s.live;
    vfs_files = s.vfs_files ++ p ∷ [];
    files = update s.files p f;
  }

  -- The run up to the choice of the operations.
  started :
      vfs_file_open other set_char node flags s
      ≡ and_then
          (choose_operations other set_char node p (at_file fresh))
          (set_up other set_char node p)
  unfolding vfs_file_open new_file file_listed put_file
  started =
      let p0 : (p == 0) ≡ false = ground arith in
      let s1 = record s { answers = q ∷ more; live = p ∷ s.live } in
      ap (λ r. and_then r (new_file other set_char node flags))
        (kalloc-ok s p (q ∷ more) given some_p)
      ∙ rw p0 (
          ap (λ r. and_then r (file_listed other set_char node flags p))
            (list_add-ok s1 p q s.vfs_files more refl some_q))

  -- At a panic level at which set_errno returns, a node that is neither a regular file, a directory
  -- nor a character device can not be opened: the result is NULL with E_NOTIMP, and the file's memory
  -- is given back, but the file stays in the list of open files.
  pub vfs_file_open-unknown :
      IsCalm s
      → ((t : ℕ) × (file_type (s.vnodes node).v_mode ≡ t)
          × (t ≢ file_type_directory)
          × (t ≢ file_type_regular)
          × (t ≢ file_type_char_dev))
      → (s' : Files) × (vfs_file_open other set_char node flags s ≡ ok 0 s')
        × (s'.errors.errno ≡ e_notimp)
        × (s'.live ≡ s.live)
        × (s'.vfs_files ≡ s.vfs_files ++ p ∷ [])
  unfolding choose_operations set_up kfree
  vfs_file_open-unknown calm (t, e, no_dir, no_file, no_dev) =
      let plain : (file_type (s.vnodes node).v_mode == file_type_directory
            || file_type (s.vnodes node).v_mode == file_type_regular)
          ≡ false =
        rw e (ground arith) in
      let dev : (file_type (s.vnodes node).v_mode == file_type_char_dev) ≡ false =
        rw e (ground arith) in
      let freed = record (at_file fresh) { live = take_out p (p ∷ s.live) } in
      (
        with_errno e_notimp freed,
        started
            ∙ rw plain (
                rw dev (
                  ap (λ r. and_then r (set_up other set_char node p))
                    (fail-ok e_notimp false freed calm))),
        refl,
        take_out-first p s.live,
        refl,
      )

  -- A file of the memory file system.
  module _ (calls : FileOperations) (ops : (s.vnodes node).v_fops ≡ calls)
      (opens : calls.open_file ≡ Fn.open_file) (flushes : calls.flush ≡ Fn.flush)
      (releases : calls.release ≡ Fn.release)
      (kind : (file_type (s.vnodes node).v_mode ≡ file_type_directory)
        ⊎ (file_type (s.vnodes node).v_mode ≡ file_type_regular))
      (unlisted : All (λ x. (x == p) ≡ false) s.vfs_files) where
    abbrev pub opened : File
    opened = record { f_pos = 0; f_ops = calls; f_flags = flags; f_count = 1; f_vnode = node }

    chosen :
        choose_operations other set_char node p (at_file fresh)
        ≡ ok true (at_file (record fresh { f_ops = (s.vnodes node).v_fops }))
    unfolding choose_operations put_file
    chosen =
        let known : (file_type (s.vnodes node).v_mode == file_type_directory
              || file_type (s.vnodes node).v_mode == file_type_regular)
            ≡ true =
          elim kind [ inl d ↦ rw d refl | inr r ↦ rw r refl ] in
        rw known (
          ap (λ f. ok true (record (at_file fresh) { files = f }))
            (update-again s.files p fresh (λ f. record f { f_ops = (s.vnodes node).v_fops })))

    ready : open_node other set_char node p (at_file opened) ≡ ok p (at_file opened)
    unfolding open_node call_quiet
    ready =
        let here : ((at_file opened).files p).f_ops.open_file ≡ Fn.open_file =
          ap (λ (f : File). f.f_ops.open_file) (update_self s.files p opened) ∙ opens in
        rw here refl

    run_open : vfs_file_open other set_char node flags s ≡ ok p (at_file opened)
    unfolding set_up put_file
    run_open =
        started
        ∙ (ap (λ r. and_then r (set_up other set_char node p)) chosen
            ∙ (ap (λ f. open_node other set_char node p (record (at_file fresh) { files = f }))
                  (update-again s.files p (record fresh { f_ops = (s.vnodes node).v_fops })
                    (λ f. record f { f_count = 1; f_vnode = node }))
                ∙ (ap
                      (λ c. open_node other set_char node p (
                        at_file (record {
                          f_pos = 0;
                          f_ops = c;
                          f_flags = flags;
                          f_count = 1;
                          f_vnode = node;
                        })))
                      ops
                    ∙ ready)))

    abbrev off_list : Files
    off_list = record (at_file opened) { vfs_files = s.vfs_files }

    taken : unlist p (at_file opened) ≡ ok true off_list
    unfolding unlist list_find_del
    taken =
        let p0 : (p == 0) ≡ false = ground arith in
        let self : (p == p) ≡ true = ground arith in
        let here = list_find-last (λ x. x == p) p s.vfs_files unlisted self in
        rw here (
          rw p0 (
            rw p0 (
              ap (λ ps. ok true (record (at_file opened) { vfs_files = ps }))
                (without-last (λ x. x == p) p s.vfs_files unlisted self))))

    abbrev pub closed : Files
    closed = record off_list { live = s.live }

    flush_quiet : call_quiet other set_char Fn.flush calls.flush (p ∷ []) ≡ (λ t. ok (pos 0) t)
    unfolding call_quiet
    flush_quiet = rw flushes refl

    release_quiet :
        call_quiet other set_char Fn.release calls.release (node ∷ p ∷ []) ≡ (λ t. ok (pos 0) t)
    unfolding call_quiet
    release_quiet = rw releases refl

    shut :
        close_file other set_char p opened off_list
        ≡ and_then (vfs_vnode_release other node closed) (λ _ t. ok (pos 0) t)
    unfolding close_file kfree
    shut =
        let rest : List ℕ → Run Files ℤ = λ l.
          and_then (vfs_vnode_release other node (record off_list { live = l }))
            (λ _ t. ok (pos 0) t) in
        let freed = ap rest (take_out-first p s.live) in
        let f0 : (calls.flush == 0) ≡ false = rw flushes refl in
        rw f0 (
          rw flush_quiet
            (elim (Bool-cases (((s.vnodes node).v_count == 1) && not (calls.release == 0))) [
              | inl once ↦ rw once (rw release_quiet freed)
              | inr more_uses ↦ rw more_uses freed
            ]))

    -- A directory or regular file of the memory file system, with memory for the open file at an
    -- address that is in no list: it is opened, from position 0, with the flags that were asked
    -- for, the operations of its node and one use; and closing it takes it out of the list of open
    -- files and gives its memory back, and then releases its node and returns 0, whatever that
    -- release returns.
    pub vfs_file_close-vfs_file_open :
        (t : Files) × (u : Files) × (vfs_file_open other set_char node flags s ≡ ok p t)
        × (t.files p ≡ opened)
        × (t.vfs_files ≡ s.vfs_files ++ p ∷ [])
        × (vfs_file_close other set_char p t
            ≡ and_then (vfs_vnode_release other node u) (λ _ w. ok (pos 0) w))
        × (u.vfs_files ≡ s.vfs_files)
        × (u.live ≡ s.live)
        × (u.vnodes ≡ s.vnodes)
    unfolding vfs_file_close
    vfs_file_close-vfs_file_open = (
      at_file opened,
      closed,
      run_open,
      update_self s.files p opened,
      refl,
      ap
            (λ r. and_then r (λ there t.
              if there
              then close_file other set_char p (t.files p) t
              else fail e_nokobj minus_one t))
            taken
          ∙ (ap (λ f. close_file other set_char p f off_list) (update_self s.files p opened)
              ∙ shut),
      refl,
      refl,
      refl,
    )
