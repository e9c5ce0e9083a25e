-- ===== src/Time.antt =====
-- src/kernel/time.c and src/kernel/include/time.h: reading, setting and waiting on the clock.
-- `fdrtc->f_ops.read` and `.write` are the functions of rtc.c that `rtc_init` installs, and are
-- called as such. The loops run on fuel: `wait` rounds for a pending update of the clock, `fuel`
-- rounds for two equal readings or for the end of a sleep.
pub mod Bcd
pub mod Load
pub mod RoundTrip
pub mod Hours
pub mod Sleep
mod Tests
use rtc_driver.Base.{
  ℕ, zero, suc, ◌+◌, ◌-◌, ◌*◌, ◌/◌, ◌%◌, ◌^◌, Bool, not, ◌&&◌, List, [], ◌∷◌, bit_and, bit_or, ltb,
  ◌==◌, if◌then◌else◌, get_or,
}
use rtc_driver.Base.Run.{ok, hang, Cmd, and_then, ◌>>=◌}
use rtc_driver.Cpu.{Ports}
use rtc_driver.Rtc.{
  Sys, register_count, reg_century, regb_status, get_rtc_register, set_rtc_register,
  get_update_in_progress_flag, on_machine, rtc_read, rtc_write,
}

-- `struct tm`: five u8 and a u32.
pub record Tm : Type 0 where
  pub seconds : ℕ
  pub minutes : ℕ
  pub hours : ℕ
  pub day : ℕ
  pub month : ℕ
  pub year : ℕ

-- A `char` assigned to a u32: `char` is signed.
abbrev pub sign_extend : ℕ → ℕ
sign_extend b = if ltb b 128 then b else b + (2 ^ 32 - 256)

-- `(x & 0x0F) + ((x / 16) * 10)`, at a u8 and at the u32 year.
unfoldable pub bcd_to_binary_u8 : ℕ → ℕ
bcd_to_binary_u8 x = (bit_and x 0x0F + (x / 16) * 10) % 256

unfoldable pub bcd_to_binary_u32 : ℕ → ℕ
bcd_to_binary_u32 x = (bit_and x 0x0F + (x / 16) * 10) % 2 ^ 32

-- The hours keep bit 7, which marks the afternoon on a 12 hour clock.
unfoldable pub bcd_to_binary_hours : ℕ → ℕ
bcd_to_binary_hours x = bit_or (bit_and x 0x0F + (bit_and x 0x70 / 16) * 10) (bit_and x 0x80) % 256

-- BIN_TO_BCD at a u8, and at a `char`, whose negative values divide towards 0.
unfoldable pub bin_to_bcd_u8 : ℕ → ℕ
bin_to_bcd_u8 b = bit_or (b / 10 * 16) (bit_and (b % 10) 0x0f) % 256

unfoldable pub bin_to_bcd_char : ℕ → ℕ
unfolding bin_to_bcd_u8
bin_to_bcd_char b =
    if ltb b 128
    then bin_to_bcd_u8 b
    else bit_or ((2 ^ 32 - (256 - b) / 10 * 16) % 2 ^ 32)
        (bit_and ((2 ^ 32 - (256 - b) % 10) % 2 ^ 32) 0x0f)
      % 256

-- `!(registerB & BINARY_MODE)`; the function of this name in time.c tests the same bit.
unfoldable pub bcd_mode : ℕ → Bool
bcd_mode register_b = bit_and register_b 0x04 == 0

-- The part of `time_get` after its loop: from the raw fields, the century register and register B
-- to the time and the new value of the global `century`.
unfoldable pub to_binary : ℕ → Tm → ℕ → Tm × ℕ
unfolding bcd_mode
to_binary register_b t century =
    if bcd_mode register_b
    then (
      record {
        seconds = bcd_to_binary_u8 t.seconds;
        minutes = bcd_to_binary_u8 t.minutes;
        hours = bcd_to_binary_hours t.hours;
        day = bcd_to_binary_u8 t.day;
        month = bcd_to_binary_u8 t.month;
        year = bcd_to_binary_u32 t.year;
      },
      bcd_to_binary_u8 century,
    )
    else (t, century)

-- 12 hour clock to 24 hour clock.
unfoldable pub to_24_hours : ℕ → ℕ → ℕ
to_24_hours register_b hours =
    if (bit_and register_b 0x02 == 0) && not (bit_and hours 0x80 == 0)
    then (bit_and hours 0x7F + 12) % 24
    else hours

unfoldable pub full_year : ℕ → ℕ → ℕ
full_year year century = (year + century * 100) % 2 ^ 32

unfoldable pub decode : ℕ → Tm → ℕ → Tm × ℕ
unfolding to_binary to_24_hours full_year
decode register_b t century =
    let (u, c) = to_binary register_b t century in
    (record u { hours = to_24_hours register_b u.hours; year = full_year u.year c }, c)

-- The six bytes that `time_load` stores. Bytes go to u8 unchanged, and to the u32 year by sign.
unfoldable pub from_bytes : List ℕ → Tm
from_bytes buf = record {
  seconds = get_or buf 0 0;
  minutes = get_or buf 1 0;
  hours = get_or buf 2 0;
  day = get_or buf 3 0;
  month = get_or buf 4 0;
  year = sign_extend (get_or buf 5 0);
}

-- The loop's test, negated: the last reading, cut to u8, is the new one.
unfoldable pub same_reading : Tm → ℕ → Tm → ℕ → Bool
same_reading last last_century t century =
    (last.seconds == t.seconds)
    && (last.minutes == t.minutes)
    && (last.hours == t.hours)
    && (last.day == t.day)
    && (last.month == t.month)
    && (last.year % 256 == t.year)
    && (last_century == century)

-- The bytes of `time_set`, in the mode of register B, and the century.
unfoldable pub encode : ℕ → Tm → List ℕ × ℕ
unfolding bcd_mode
encode register_b t =
    if bcd_mode register_b
    then (
      bin_to_bcd_char t.seconds
          ∷ bin_to_bcd_char t.minutes
          ∷ bin_to_bcd_char t.hours
          ∷ bin_to_bcd_char t.day
          ∷ bin_to_bcd_char t.month
          ∷ bin_to_bcd_char (t.year % 100)
          ∷ [],
      bin_to_bcd_u8 (t.year / 100 % 256),
    )
    else (
      t.seconds ∷ t.minutes ∷ t.hours ∷ t.day ∷ t.month ∷ (t.year % 100) ∷ [],
      t.year / 100 % 256,
    )

-- The sum is of `int`s that do not overflow, up to the year, which is a u32.
unfoldable pub get_seconds : Tm → ℕ
get_seconds t =
    (t.seconds
      + t.minutes * 60
      + t.hours * 60 * 60
      + t.day * 24 * 60 * 60
      + t.month * 30 * 24 * 60 * 60
      + t.year * 365 * 24 * 60 * 60)
    % 2 ^ 32

module _ {M : Type 0} (io : Ports M) where
  unfoldable pub wait_update : ℕ → Cmd M (Unit {0})
  wait_update zero m = hang
  wait_update (suc f) m =
      let (flag, m') = get_update_in_progress_flag io m in
      let rest = wait_update f m' in if flag == 0 then ok tt m' else rest

  unfoldable pub time_load : ℕ → Cmd (Sys M) Tm
  unfolding wait_update
  time_load wait s =
      and_then
        (on_machine (wait_update wait >>= λ _. rtc_read io s.register_values register_count) s)
        λ (_, buf) s'.
          let (c, m) = get_rtc_register io reg_century s'.machine in
          ok (from_bytes buf) (record s' { machine = m; century = c })

  -- The do loop of `time_get`: reads again until a reading is like the one before.
  unfoldable pub reload : ℕ → ℕ → Tm → Cmd (Sys M) Tm
  reload wait zero last s = hang
  reload wait (suc f) last s = and_then (time_load wait s) λ t s'.
      let rest = reload wait f t s' in
      if same_reading last s.century t s'.century then ok t s' else rest

  unfoldable pub time_get : ℕ → ℕ → Cmd (Sys M) Tm
  time_get wait fuel s = and_then ((time_load wait >>= reload wait fuel) s) λ t s'.
      let (register_b, m) = get_rtc_register io regb_status s'.machine in
      let (t', c) = decode register_b t s'.century in ok t' (record s' { machine = m; century = c })

  unfoldable pub time_set : Tm → Cmd (Sys M) (Unit {0})
  time_set t s =
      let (register_b, m) = get_rtc_register io regb_status s.machine in
      let (buf, c) = encode register_b t in
      and_then
        (on_machine (rtc_write io s.register_values buf register_count) (record s { machine = m }))
        λ _ s'.
          ok tt
            (record s' { machine = io.sti (set_rtc_register io reg_century c (io.cli s'.machine)) })

  -- `fuel` rounds for each call of `time_get`.
  unfoldable pub sleep_loop : ℕ → ℕ → ℕ → ℕ → Cmd (Sys M) (Unit {0})
  sleep_loop wait fuel zero seconds_end s = hang
  sleep_loop wait fuel (suc f) seconds_end s = and_then (time_get wait fuel s) λ t s'.
      let rest = sleep_loop wait fuel f seconds_end s' in
      if ltb (get_seconds t) seconds_end then rest else ok tt s'

  -- `int s` is its bit pattern, widened by sign when it is added to a u64.
  unfoldable pub time_sleep : ℕ → ℕ → ℕ → ℕ → Cmd (Sys M) (Unit {0})
  unfolding sleep_loop
  time_sleep wait fuel rounds n s = and_then (time_get wait fuel s) λ t s'.
      sleep_loop wait fuel rounds
        ((get_seconds t + (if ltb n (2 ^ 31) then n else n + (2 ^ 64 - 2 ^ 32))) % 2 ^ 64) s'
