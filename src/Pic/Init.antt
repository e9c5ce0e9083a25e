-- ===== src/Pic/Init.antt =====
-- Setting the controllers up.
use rtc_driver.Base.{
  ℕ, ◌<◌, ◌≡◌, refl, ap, ◌∙◌, Bool, true, false, not, ◌&&◌, ◌||◌, List, [], ◌∷◌, arith, ◌==◌, leb,
  ltb, all_below, all_below-apply, if◌then◌else◌,
}
use rtc_driver.Cpu.{Ports}
use rtc_driver.Pic.{pic_remap, mask_all, devices, pic_mask_dev, pic_init}
use rtc_driver.Pic.Chips.{Chip, Chips, IsPics, Ready, masked}
use rtc_driver.Pic.Mask.{IsLine, Ready-same, pic_mask_dev_lem}

-- The chip set up for a base vector, with the mask that it had.
abbrev pub configured : ℕ → ℕ → Chip → Chip
configured base line c = record {
  mask = c.mask;
  vector = base;
  cascade = line;
  mode = 1;
  pending = 0;
}

abbrev member : ℕ → List ℕ → Bool
member e [] = false
member e (d ∷ ds) = (e == d) || member e ds

abbrev are_lines : List ℕ → Bool
are_lines [] = true
are_lines (d ∷ ds) = (leb 0x20 d && ltb d 0x30) && are_lines ds

first-IsLine : (d : ℕ) (b : Bool) → ((leb 0x20 d && ltb d 0x30) && b) ≡ true → IsLine d × (b ≡ true)
first-IsLine d b h = ((ground arith, ground arith), ground arith)

device_lines : are_lines devices ≡ true
unfolding devices
device_lines = refl

device_table :
    all_below 0x30
      (λ e. if leb 0x20 e then (if member e devices then not (e == 0x22) else e == 0x22) else true)
    ≡ true
unfolding all_below devices
device_table = refl

covered : (e : ℕ) → IsLine e → (if member e devices then not (e == 0x22) else e == 0x22) ≡ true
covered e (lo, hi) =
    let at = all_below-apply 0x30 _ e device_table hi in
    let low : leb 0x20 e ≡ true = ground arith in rw low at at

or_cases : (a b c : Bool) → (if a then not b else b) ≡ true → (a || c) ≡ (not b || c)
or_cases a b c h = ground arith

or_swap : (a b c : Bool) → (a || (b || c)) ≡ ((b || a) || c)
or_swap a b c = ground arith

module _ {M : Type 0} (io : Ports M) (view : M → Chips) (pics : IsPics io view) where
  -- From any state of the two controllers, remapping leaves both set up: the master from
  -- interrupt 0x20 on, with the slave on its line 2, the slave from 0x28 on, both in 8086 mode,
  -- and both with the masks that they had.
  pub pic_remap_lem :
      (m : M)
      → view (pic_remap io m) ≡ record {
        master = configured 0x20 4 (view m).master;
        slave = configured 0x28 2 (view m).slave;
      }
  unfolding pic_remap
  pic_remap_lem m =
      simp (pics.out20, pics.outa0, pics.out21, pics.outa1, pics.in21, pics.ina1, pics.in21-view)
        refl

  mask_all_lem :
      (ds : List ℕ) (e : ℕ) (m : M)
      → Ready (view m)
      → are_lines ds ≡ true
      → IsLine e
      → masked (view (mask_all io ds m)) e ≡ (member e ds || masked (view m) e)
  unfolding mask_all
  mask_all_lem [] e m ready lines line = refl
  mask_all_lem (d ∷ ds) e m ready lines line =
      let (first, others) = first-IsLine d (are_lines ds) lines in
      let (bit, ready') = pic_mask_dev_lem io view pics d e m ready first line in
      mask_all_lem ds e (pic_mask_dev io d m) ready' others line
      ∙ (ap (λ b. member e ds || b) bit ∙ or_swap (member e ds) (e == d) (masked (view m) e))

  -- On two controllers whose masks are bytes, after `pic_init` every line from 0x20 to 0x2f but
  -- the cascade, 0x22, is silenced, and the cascade is as it was before.
  pub pic_init_lem :
      (e : ℕ) (m : M)
      → (view m).master.mask < 256
      → (view m).slave.mask < 256
      → IsLine e
      → masked (view (pic_init io m)) e ≡ (not (e == 0x22) || masked (view m) e)
  unfolding pic_init
  pic_init_lem e m small small' line =
      let ready : Ready (view (pic_remap io m)) = Ready-same (pic_remap_lem m) (record {
        master_done = refl;
        slave_done = refl;
        master_byte = small;
        slave_byte = small';
      }) in
      mask_all_lem devices e (pic_remap io m) ready device_lines line
      ∙ (ap (λ c. member e devices || masked c e) (pic_remap_lem m)
          ∙ or_cases (member e devices) (e == 0x22) _ (covered e line))
