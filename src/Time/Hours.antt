-- ===== src/Time/Hours.antt =====
-- The 12 hour clock in time.c.
use rtc_driver.Base.{
  ℕ, ◌+◌, ◌%◌, ◌≤◌, ◌≡◌, ◌≢◌, ◌↔◌, refl, Bool, true, false, ◌&&◌, not, arith, bit_and, ◌==◌,
  all_below, all_below-apply, if◌then◌else◌, ==_iff,
}
use native.Mathlib.Nat.{add-zero}
use rtc_driver.Time.{to_24_hours}

-- The hour of the day that the chip means by `h` o'clock: it counts 12, 1, ... 11 before noon,
-- and the same with bit 7 set after noon.
abbrev pub hour_of_day : ℕ → Bool → ℕ
hour_of_day h pm = h % 12 + (if pm then 12 else 0)

-- The hours register with the mark of the afternoon.
abbrev pub hours_byte : ℕ → Bool → ℕ
hours_byte h pm = h + (if pm then 128 else 0)

morning_table : all_below 13 (λ h. bit_and h 0x80 == 0) ≡ true
unfolding all_below
morning_table = refl

afternoon_table :
    all_below 13 (λ h. not (bit_and (h + 128) 0x80 == 0) && (bit_and (h + 128) 0x7F == h)) ≡ true
unfolding all_below
afternoon_table = refl

am_value : (b h : ℕ) → h ≤ 12 → to_24_hours b (hours_byte h false) ≡ h
unfolding to_24_hours
am_value b h hi =
    let zero_bit = (==_iff _ 0).0 (all_below-apply 13 _ h morning_table (omega arith)) in
    rw (add-zero h) (ground (arith, zero_bit))

pm_value :
    (b h : ℕ) → bit_and b 0x02 ≡ 0 → h ≤ 12 → to_24_hours b (hours_byte h true) ≡ (h + 12) % 24
unfolding to_24_hours
pm_value b h mode hi =
    let bits = all_below-apply 13 _ h afternoon_table (omega arith) in ground (arith, bits)

-- In 12 hour mode the hour of the day is right at every hour from 1 to 11, before and after noon,
-- and wrong at 12, both at midnight and at noon.
pub to_24_hours_lem :
    (b h : ℕ) (pm : Bool)
    → bit_and b 0x02 ≡ 0
    → 1 ≤ h
    → h ≤ 12
    → (to_24_hours b (hours_byte h pm) ≡ hour_of_day h pm) ↔ (h ≢ 12)
to_24_hours_lem b h false mode lo hi =
    let v = am_value b h hi in (λ p e. omega arith, λ ne. omega arith)
to_24_hours_lem b h true mode lo hi =
    let v = pm_value b h mode hi in (λ p e. omega arith, λ ne. omega arith)
