-- ===== src/Time/Sleep.antt =====
-- Seconds and sleeping in time.c.
use rtc_driver.Base.{
  ℕ, zero, suc, ◌+◌, ◌%◌, ◌^◌, ◌≤◌, ◌<◌, ◌≡◌, ◌≢◌, true, arith, ltb, lt→ltb, if◌then◌else◌,
}
use rtc_driver.Base.Run.{Run, ok, fault, hang, panic, and_then}
use rtc_driver.Cpu.{Ports}
use rtc_driver.Rtc.{Sys}
use rtc_driver.Time.{Tm, get_seconds, time_get, sleep_loop}

get_seconds-lt : (t : Tm) → get_seconds t < 2 ^ 32
unfolding get_seconds
get_seconds-lt t = omega arith

-- Seconds are counted as if every month had 30 days: in any year the count at the start of 1
-- February is, in u32 arithmetic, 86399 less than at the last second of 31 January.
pub get_seconds-february :
    (y : ℕ)
    → (get_seconds (record { seconds = 0; minutes = 0; hours = 0; day = 1; month = 2; year = y })
          + 86399)
        % 2 ^ 32
      ≡ get_seconds
          (record { seconds = 59; minutes = 59; hours = 23; day = 31; month = 1; year = y })
unfolding get_seconds
get_seconds-february y = omega arith

not_done :
    {M : Type 0} (e : ℕ) (rest : Sys M → Run (Sys M) (Unit {0})) (r : Sys M)
    → 2 ^ 32 ≤ e
    → ((s : Sys M) → rest s ≢ ok tt r)
    → (x : Run (Sys M) Tm)
    → and_then x (λ t s. if ltb (get_seconds t) e then rest s else ok tt s) ≢ ok tt r
not_done e rest r h more (ok t s) p =
    let early : ltb (get_seconds t) e ≡ true = lt→ltb _ _ (omega (arith, get_seconds-lt t)) in
    more s (rw early at p)
not_done e rest r h more fault p = cc
not_done e rest r h more hang p = cc
not_done e rest r h more panic p = cc

module _ {M : Type 0} (io : Ports M) where
  -- A sleep whose end is 2^32 or more, beyond the wrap of the u32 count of seconds, does not
  -- return, whatever the clock answers and whatever the fuel.
  pub sleep_loop-ne-ok :
      (wait fuel rounds seconds_end : ℕ) (s : Sys M)
      → 2 ^ 32 ≤ seconds_end
      → (r : Sys M) → sleep_loop io wait fuel rounds seconds_end s ≢ ok tt r
  unfolding sleep_loop
  sleep_loop-ne-ok wait fuel zero e s h r p = cc
  sleep_loop-ne-ok wait fuel (suc k) e s h r p =
      not_done e (sleep_loop io wait fuel k e) r h (λ s'. sleep_loop-ne-ok wait fuel k e s' h r)
        (time_get io wait fuel s) p
