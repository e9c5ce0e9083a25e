-- ===== src/Time/Bcd.antt =====
-- The BCD code of time.c and rtc.h, at the values that a date has.
use rtc_driver.Base.{
  ℕ, ◌<◌, ◌≡◌, refl, ◌==◌, ==_iff, bit_and, all_below, all_below-apply, ltb, ltb→lt, true,
}
use rtc_driver.Time.{
  bin_to_bcd_char, bin_to_bcd_u8, bcd_to_binary_u8, bcd_to_binary_u32, bcd_to_binary_hours,
  sign_extend,
}

u8_table : all_below 100 (λ x. bcd_to_binary_u8 (bin_to_bcd_char x) == x) ≡ true
unfolding all_below bcd_to_binary_u8 bin_to_bcd_char
u8_table = refl

pub bcd_to_binary_u8-bin_to_bcd_char : (x : ℕ) → x < 100 → bcd_to_binary_u8 (bin_to_bcd_char x) ≡ x
bcd_to_binary_u8-bin_to_bcd_char x h = (==_iff _ x).0 (all_below-apply 100 _ x u8_table h)

century_table : all_below 100 (λ x. bcd_to_binary_u8 (bin_to_bcd_u8 x) == x) ≡ true
unfolding all_below bcd_to_binary_u8 bin_to_bcd_u8
century_table = refl

pub bcd_to_binary_u8-bin_to_bcd_u8 : (x : ℕ) → x < 100 → bcd_to_binary_u8 (bin_to_bcd_u8 x) ≡ x
bcd_to_binary_u8-bin_to_bcd_u8 x h = (==_iff _ x).0 (all_below-apply 100 _ x century_table h)

hours_table : all_below 24 (λ x. bcd_to_binary_hours (bin_to_bcd_char x) == x) ≡ true
unfolding all_below bcd_to_binary_hours bin_to_bcd_char
hours_table = refl

pub bcd_to_binary_hours-bin_to_bcd_char :
    (x : ℕ) → x < 24 → bcd_to_binary_hours (bin_to_bcd_char x) ≡ x
bcd_to_binary_hours-bin_to_bcd_char x h = (==_iff _ x).0 (all_below-apply 24 _ x hours_table h)

morning_table : all_below 24 (λ x. bit_and x 0x80 == 0) ≡ true
unfolding all_below
morning_table = refl

pub no_pm_bit : (x : ℕ) → x < 24 → bit_and x 0x80 ≡ 0
no_pm_bit x h = (==_iff _ 0).0 (all_below-apply 24 _ x morning_table h)

year_table : all_below 80 (λ y. bcd_to_binary_u32 (sign_extend (bin_to_bcd_char y)) == y) ≡ true
unfolding all_below bcd_to_binary_u32 bin_to_bcd_char
year_table = refl

pub bcd_to_binary_u32-bin_to_bcd_char :
    (y : ℕ) → y < 80 → bcd_to_binary_u32 (sign_extend (bin_to_bcd_char y)) ≡ y
bcd_to_binary_u32-bin_to_bcd_char y h = (==_iff _ y).0 (all_below-apply 80 _ y year_table h)

small_table : all_below 80 (λ y. ltb (bin_to_bcd_char y) 128) ≡ true
unfolding all_below bin_to_bcd_char
small_table = refl

-- Years below 80 have a BCD byte with no sign bit.
pub bin_to_bcd_char-lt : (y : ℕ) → y < 80 → bin_to_bcd_char y < 128
bin_to_bcd_char-lt y h = ltb→lt _ _ (all_below-apply 80 _ y small_table h)
