-- ===== src/Vfs/Refused.antt =====
-- A mount that the type of the file system refuses.
use rtc_driver.Base.{ℕ, ◌≡◌, ◌≢◌, refl, ap, ◌∙◌, true, false, List, [], ◌∷◌, ◌++◌, arith, ◌==◌}
use rtc_driver.Base.Int.{ℤ, minus_one}
use rtc_driver.Base.Run.{Cmd, ok, fault, ◌>>◌, and_then}
use rtc_driver.Files.{Files, SuperBlock, update, fail}
use rtc_driver.Files.Fn
use rtc_driver.Files.Update.{update_self}
use rtc_driver.Memfs.{memfs_get_super}
use rtc_driver.Memfs.Sb.{put_sb, memfs_ft_get_sb}
use rtc_driver.Memfs.Alloc.{kalloc-ok, list_add-ok}
use rtc_driver.Vfs.{vfs_dentry_reset}
use rtc_driver.Errors.{e_invfs}
use rtc_driver.Vfs.Mount.{
  new_sb, sb_listed, list_sb, vfs_sb_alloc, call_sb, vfs_sb_dealloc, probed, mount_new,
}

module _ (other : ℕ → List ℕ → Cmd Files ℤ) (fuel : ℕ) (s : Files) (devid d t p q : ℕ)
    (more : List ℕ) (given : s.answers ≡ p ∷ q ∷ more) (some_p : p ≢ 0) (some_q : q ≢ 0)
    (gets : (s.fs_types t).ft_get_sb ≡ Fn.get_sb) (strange : memfs_get_super devid s ≡ 0) where
  abbrev block : SuperBlock
  block = new_sb devid (s.sbs p)

  abbrev made : Files
  made = record s {
    answers = more;
    live = p ∷ s.live;
    vfs_sbs = s.vfs_sbs ++ p ∷ [];
    sbs = update s.sbs p block;
  }

  allocated : vfs_sb_alloc devid s ≡ ok p made
  unfolding vfs_sb_alloc list_sb sb_listed put_sb
  allocated =
      let p0 : (p == 0) ≡ false = ground arith in
      let s1 = record s { answers = q ∷ more; live = p ∷ s.live } in
      ap (λ r. and_then r (list_sb devid)) (kalloc-ok s p (q ∷ more) given some_p)
      ∙ rw p0
          (ap (λ r. and_then r (sb_listed devid p)) (list_add-ok s1 p q s.vfs_sbs more refl some_q))

  refused : memfs_ft_get_sb p made ≡ ok minus_one made
  unfolding memfs_ft_get_sb new_sb memfs_get_super
  refused =
      let none : (memfs_get_super (update s.sbs p block p).sb_devid made == 0) ≡ true =
        ap (λ (b : SuperBlock). memfs_get_super b.sb_devid s == 0) (update_self s.sbs p block)
        ∙ (ap (λ n. n == 0) strange) in
      rw none refl

  untyped : vfs_sb_dealloc other fuel p made ≡ fault
  unfolding vfs_sb_dealloc new_sb
  untyped =
      let none : ((update s.sbs p block p).sb_fs_type == 0) ≡ true =
        ap (λ (b : SuperBlock). b.sb_fs_type == 0) (update_self s.sbs p block) in
      rw none refl

  -- Where there is memory for the superblock, and its file system type is the memory file system's
  -- and refuses a device, since no memory file system has its number: mounting the device, from the
  -- superblock on, ends in a fault, since the superblock is given up through the type that it does
  -- not have yet.
  pub mount_new-refused : and_then (vfs_sb_alloc devid s) (mount_new other fuel d t) ≡ fault
  unfolding mount_new call_sb probed
  mount_new-refused =
      ap (λ r. and_then r (mount_new other fuel d t)) allocated
      ∙ rw gets (
          ap (λ r. and_then r (probed other fuel d t p)) refused
          ∙ ap (λ r. and_then r (λ _. vfs_dentry_reset d >> fail e_invfs minus_one)) untyped)
