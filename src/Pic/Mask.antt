-- ===== src/Pic/Mask.antt =====
-- Silencing and waking single lines.
use rtc_driver.Base.{
  ℕ, ◌-◌, ◌^◌, ◌≤◌, ◌<◌, ◌≡◌, refl, sym, ap, ◌∙◌, leb, ltb→lt, Bool, true, false, not, ◌&&◌, ◌||◌,
  inl, inr, Bool-cases, bit_and, bit_or, ◌==◌, ltb, arith, if◌then◌else◌, all_below,
  all_below-apply,
}
use rtc_driver.Cpu.{Ports}
use rtc_driver.Pic.{change_mask, pic_mask_dev, pic_unmask_dev}
use rtc_driver.Pic.Chips.{Chips, IsPics, Ready, bit_is_set, masked}

-- Equality of truth values.
abbrev same : Bool → Bool → Bool
same true b = b
same false b = not b

abbrev set_ok : ℕ → ℕ → ℕ → Bool
set_ok w k j =
    ltb (bit_or w (2 ^ k)) 256
    && same (bit_is_set (bit_or w (2 ^ k)) j) ((j == k) || bit_is_set w j)

abbrev clear_ok : ℕ → ℕ → ℕ → Bool
clear_ok w k j =
    ltb (bit_and w (255 - 2 ^ k)) 256
    && same (bit_is_set (bit_and w (255 - 2 ^ k)) j) (not (j == k) && bit_is_set w j)

set_table : all_below 256 (λ w. all_below 8 (λ k. all_below 8 (λ j. set_ok w k j))) ≡ true
unfolding all_below
set_table = refl

clear_table : all_below 256 (λ w. all_below 8 (λ k. all_below 8 (λ j. clear_ok w k j))) ≡ true
unfolding all_below
clear_table = refl

same→≡ : (a b : Bool) → same a b ≡ true → a ≡ b
same→≡ a b h = ground arith

module _ (w k j : ℕ) (hw : w < 256) (hk : k < 8) (hj : j < 8) where
  set_holds : set_ok w k j ≡ true
  set_holds =
      all_below-apply 8 _ j (all_below-apply 8 _ k (all_below-apply 256 _ w set_table hw) hk) hj

  clear_holds : clear_ok w k j ≡ true
  clear_holds =
      all_below-apply 8 _ j (all_below-apply 8 _ k (all_below-apply 256 _ w clear_table hw) hk) hj

  set-lt : bit_or w (2 ^ k) < 256
  set-lt = ground (arith, set_holds)

  set_bit : bit_is_set (bit_or w (2 ^ k)) j ≡ ((j == k) || bit_is_set w j)
  set_bit = same→≡ _ _ (ground (arith, set_holds))

  clear-lt : bit_and w (255 - 2 ^ k) < 256
  clear-lt = ground (arith, clear_holds)

  clear_bit : bit_is_set (bit_and w (255 - 2 ^ k)) j ≡ (not (j == k) && bit_is_set w j)
  clear_bit = same→≡ _ _ (ground (arith, clear_holds))

-- The lines that the controllers are remapped to.
abbrev pub IsLine : ℕ → Type 0
IsLine dev = (0x20 ≤ dev) × (dev < 0x30)

abbrev with_master : Chips → ℕ → Chips
with_master c w = record c { master = record (c.master) { mask = w } }

abbrev with_slave : Chips → ℕ → Chips
with_slave c w = record c { slave = record (c.slave) { mask = w } }

shift : (b e d : ℕ) → b ≤ e → b ≤ d → (e - b == d - b) ≡ (e == d)
shift b e d he hd = ground arith

apart : (e d : ℕ) → d < 0x28 → 0x28 ≤ e → (e == d) ≡ false
apart e d hd he = ground arith

apart' : (e d : ℕ) → e < 0x28 → 0x28 ≤ d → (e == d) ≡ false
apart' e d hd he = ground arith

-- A changed mask of one chip, as all lines see it: `g` is what happens to the bit of the line.
module _ (c : Chips) (w dev e : ℕ) (g : Bool → Bool → Bool) (keep : (b : Bool) → g false b ≡ b)
    (line : IsLine e) where
  master_line :
      0x20 ≤ dev
      → dev < 0x28
      → ((j : ℕ) → j < 8 → bit_is_set w j ≡ g (j == dev - 0x20) (bit_is_set c.master.mask j))
      → masked (with_master c w) e ≡ g (e == dev) (masked c e)
  master_line lo hi bits = elim (Bool-cases (ltb e 0x28)) [
    | inl low ↦
        rw low (bits (e - 0x20) (ground (arith, line)) ∙ rw (shift 0x20 e dev (line.0) lo) refl)
    | inr high ↦ rw high (rw (apart e dev hi (ground arith)) (sym (keep _)))
  ]

  slave_line :
      0x28 ≤ dev
      → ((j : ℕ) → j < 8 → bit_is_set w j ≡ g (j == dev - 0x28) (bit_is_set c.slave.mask j))
      → masked (with_slave c w) e ≡ g (e == dev) (masked c e)
  slave_line lo bits = elim (Bool-cases (ltb e 0x28)) [
    | inl low ↦ rw low (rw (apart' e dev (ground arith) lo) (sym (keep _)))
    | inr high ↦
        rw high
          (bits (e - 0x28) (ground (arith, line)) ∙ rw (shift 0x28 e dev (ground arith) lo) refl)
  ]

on_master : (dev : ℕ) → 0x20 ≤ dev → dev < 0x28 → (leb 0x20 dev && leb dev 0x27) ≡ true
on_master dev lo hi = ground arith

on_slave :
    (dev : ℕ)
    → 0x28 ≤ dev
    → dev < 0x30
    → ((leb 0x20 dev && leb dev 0x27) ≡ false) × ((leb 0x28 dev && leb dev 0x2f) ≡ true)
on_slave dev lo hi = (ground arith, ground arith)

ltb→ge : (a b : ℕ) → ltb a b ≡ false → b ≤ a
ltb→ge a b h = ground arith

pub Ready-same : {c d : Chips} → c ≡ d → Ready d → Ready c
Ready-same p r = record {
  master_done = ap (λ x. x.master.pending) p ∙ r.master_done;
  slave_done = ap (λ x. x.slave.pending) p ∙ r.slave_done;
  master_byte = omega (arith, ap (λ x. x.master.mask) p, r.master_byte);
  slave_byte = omega (arith, ap (λ x. x.slave.mask) p, r.slave_byte);
}

module _ {M : Type 0} (io : Ports M) (view : M → Chips) (pics : IsPics io view) where
  change_master :
      (f : ℕ → ℕ) (m : M)
      → Ready (view m)
      → view (change_mask io 0x21 f m) ≡ with_master (view m) (f (view m).master.mask)
  change_master f m ready = simp (pics.out21, pics.in21, pics.in21-view, ready.master_done) refl

  change_slave :
      (f : ℕ → ℕ) (m : M)
      → Ready (view m)
      → view (change_mask io 0xa1 f m) ≡ with_slave (view m) (f (view m).slave.mask)
  change_slave f m ready = simp (pics.outa1, pics.ina1, pics.ina1-view, ready.slave_done) refl

  -- The shape that both operations share: `f` makes the new mask from the old one and the bit.
  abbrev at_line : (ℕ → ℕ → ℕ) → ℕ → M → M
  at_line f dev m =
      if leb 0x20 dev && leb dev 0x27
      then change_mask io 0x21 (λ k. f k (dev - 0x20)) m
      else if leb 0x28 dev && leb dev 0x2f
      then change_mask io 0xa1 (λ k. f k (dev - 0x28)) m
      else m

  module _ (f : ℕ → ℕ → ℕ) (g : Bool → Bool → Bool) (keep : (b : Bool) → g false b ≡ b)
      (bits : (w k j : ℕ)
        → w < 256
        → k < 8
        → j < 8
        → bit_is_set (f w k) j ≡ g (j == k) (bit_is_set w j))
      (small : (w k : ℕ) → w < 256 → k < 8 → f w k < 256) where
    at_line-master :
        (dev : ℕ) (m : M)
        → Ready (view m)
        → 0x20 ≤ dev
        → dev < 0x28
        → view (at_line f dev m) ≡ with_master (view m) (f (view m).master.mask (dev - 0x20))
    at_line-master dev m ready lo hi =
        rw (on_master dev lo hi) (change_master (λ k. f k (dev - 0x20)) m ready)

    at_line-slave :
        (dev : ℕ) (m : M)
        → Ready (view m)
        → 0x28 ≤ dev
        → dev < 0x30
        → view (at_line f dev m) ≡ with_slave (view m) (f (view m).slave.mask (dev - 0x28))
    at_line-slave dev m ready lo hi =
        let (past, here) = on_slave dev lo hi in
        rw (past, here) (change_slave (λ k. f k (dev - 0x28)) m ready)

    at_line_lem :
        (dev e : ℕ) (m : M)
        → Ready (view m)
        → IsLine dev
        → IsLine e
        → (masked (view (at_line f dev m)) e ≡ g (e == dev) (masked (view m) e))
          × Ready (view (at_line f dev m))
    at_line_lem dev e m ready (lo, hi) line = elim (Bool-cases (ltb dev 0x28)) [
      | inl low ↦
          let low' = ltb→lt dev 0x28 low in
          let v = at_line-master dev m ready lo low' in
          (
            ap (λ c. masked c e) v
                ∙ master_line (view m) _ dev e g keep line lo low' (λ j h.
                  bits (view m).master.mask (dev - 0x20) j ready.master_byte
                    (omega (arith, lo, low')) h),
            Ready-same v (record {
              master_done = ready.master_done;
              slave_done = ready.slave_done;
              master_byte =
                  small (view m).master.mask (dev - 0x20) ready.master_byte
                    (omega (arith, lo, low'));
              slave_byte = ready.slave_byte;
            }),
          )
      | inr high ↦
          let high' = ltb→ge dev 0x28 high in
          let v = at_line-slave dev m ready high' hi in
          (
            ap (λ c. masked c e) v
                ∙ slave_line (view m) _ dev e g keep line high' (λ j h.
                  bits (view m).slave.mask (dev - 0x28) j ready.slave_byte
                    (omega (arith, hi, high')) h),
            Ready-same v (record {
              master_done = ready.master_done;
              slave_done = ready.slave_done;
              master_byte = ready.master_byte;
              slave_byte =
                  small (view m).slave.mask (dev - 0x28) ready.slave_byte
                    (omega (arith, hi, high'));
            }),
          )
    ]

  -- On two controllers that are set up and whose masks are bytes, silencing a line from 0x20 to
  -- 0x2f silences it and leaves every other such line as it was, and the controllers set up.
  pub pic_mask_dev_lem :
      (dev e : ℕ) (m : M)
      → Ready (view m)
      → IsLine dev
      → IsLine e
      → (masked (view (pic_mask_dev io dev m)) e ≡ ((e == dev) || masked (view m) e))
        × Ready (view (pic_mask_dev io dev m))
  unfolding pic_mask_dev
  pic_mask_dev_lem =
      at_line_lem (λ w k. bit_or w (2 ^ k)) (λ a b. a || b) (λ b. refl) set_bit
        (λ w k hw hk. set-lt w k 0 hw hk (omega arith))

  -- On two controllers that are set up and whose masks are bytes, waking a line from 0x20 to 0x2f
  -- wakes it and leaves every other such line as it was, and the controllers set up.
  pub pic_unmask_dev_lem :
      (dev e : ℕ) (m : M)
      → Ready (view m)
      → IsLine dev
      → IsLine e
      → (masked (view (pic_unmask_dev io dev m)) e ≡ (not (e == dev) && masked (view m) e))
        × Ready (view (pic_unmask_dev io dev m))
  unfolding pic_unmask_dev
  pic_unmask_dev_lem =
      at_line_lem (λ w k. bit_and w (255 - 2 ^ k)) (λ a b. not a && b) (λ b. refl) clear_bit
        (λ w k hw hk. clear-lt w k 0 hw hk (omega arith))
