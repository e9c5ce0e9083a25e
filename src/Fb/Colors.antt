-- ===== src/Fb/Colors.antt =====
-- Colors and coordinates are packed without loss.
use rtc_driver.Base.{
  ℕ, ◌<◌, ◌≡◌, refl, inl, inr, Bool-cases, true, false, ◌&&◌, arith, ltb, ltb→lt, ◌==◌, all_below,
  all_below-apply, if◌then◌else◌,
}
use rtc_driver.Cpu.{Ports}
use rtc_driver.Fb.{
  Fb, pack_colors, bg_color, fg_color, fb_fg_color, fb_bg_color, fb_set_fg_color, fb_set_bg_color,
  coords, row, column, fb_set_pos, fb_row, fb_col,
}

colors_table :
    all_below 16 (λ fg.
      all_below 16
        (λ bg. (fg_color (pack_colors fg bg) == fg) && (bg_color (pack_colors fg bg) == bg)))
    ≡ true
unfolding all_below pack_colors fg_color bg_color
colors_table = refl

fg_table : all_below 256 (λ c. ltb (fg_color c) 16) ≡ true
unfolding all_below fg_color
fg_table = refl

fg-lt : (c : ℕ) → c < 256 → fg_color c < 16
fg-lt c h = ltb→lt _ _ (all_below-apply 256 _ c fg_table h)

bg-lt : (c : ℕ) → c < 256 → bg_color c < 16
unfolding bg_color
bg-lt c h = omega arith

unpack :
    (fg bg : ℕ)
    → fg < 16
    → bg < 16
    → (fg_color (pack_colors fg bg) ≡ fg) × (bg_color (pack_colors fg bg) ≡ bg)
unpack fg bg hf hb =
    let at = all_below-apply 16 _ bg (all_below-apply 16 _ fg colors_table hf) hb in
    (ground (arith, at), ground (arith, at))

in_palette : (c : ℕ) → ltb c 16 ≡ true → (ltb 15 c ≡ false) × (c < 16)
in_palette c h = (ground arith, ground arith)

off_palette : (c : ℕ) → ltb c 16 ≡ false → ltb 15 c ≡ true
off_palette c h = ground arith

on_screen : (r c : ℕ) → (ltb r 25 && ltb c 80) ≡ true → (r < 25) × (c < 80)
on_screen r c h = (ground arith, ground arith)

module _ {M : Type 0} (io : Ports M) where
  -- With packed colors in a byte, setting one of the two colors to one of the 16 sets it, any
  -- other number leaves it, and the other color stays as it was, for either of the two.
  pub set_color_lem :
      (c : ℕ) (s : Fb M)
      → s.col < 256
      → ((fb_fg_color io (fb_set_fg_color io c s) ≡ (if ltb c 16 then c else fb_fg_color io s))
          × (fb_bg_color io (fb_set_fg_color io c s) ≡ fb_bg_color io s))
        × ((fb_bg_color io (fb_set_bg_color io c s) ≡ (if ltb c 16 then c else fb_bg_color io s))
            × (fb_fg_color io (fb_set_bg_color io c s) ≡ fb_fg_color io s))
  unfolding fb_fg_color fb_bg_color fb_set_fg_color fb_set_bg_color
  set_color_lem c s byte = elim (Bool-cases (ltb c 16)) [
    | inl color ↦
        let (known, h) = in_palette c color in
        let (f1, b1) = unpack c (bg_color s.col) h (bg-lt s.col byte) in
        let (f2, b2) = unpack (fg_color s.col) c (fg-lt s.col byte) h in
        rw (known, color) ((f1, b1), (b2, f2))
    | inr other ↦ rw (off_palette c other, other) ((refl, refl), (refl, refl))
  ]

  -- The row and the column of a position on the screen are read back as they were set; setting
  -- one outside leaves the row and the column as they were.
  pub set_pos_lem :
      (r c : ℕ) (s : Fb M)
      → (fb_row io (fb_set_pos io r c s) ≡ (if ltb r 25 && ltb c 80 then r else fb_row io s))
        × (fb_col io (fb_set_pos io r c s) ≡ (if ltb r 25 && ltb c 80 then c else fb_col io s))
  unfolding fb_row fb_col fb_set_pos row column coords
  set_pos_lem r c s = elim (Bool-cases (ltb r 25 && ltb c 80)) [
    | inl inside ↦
        let (hr, hc) = on_screen r c inside in
        rw inside (omega (arith, hr, hc), omega (arith, hr, hc))
    | inr outside ↦ rw outside (refl, refl)
  ]
