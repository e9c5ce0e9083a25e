-- ===== src/Time/Tests.antt =====
-- A concrete clock chip, and runs of src/kernel/time.c on it.
use rtc_driver.Base.{ℕ, ◌%◌, ◌^◌, ◌≡◌, ◌≢◌, refl, arith, ◌==◌, if◌then◌else◌}
use rtc_driver.Base.Run.{ok, hang, ◌>>=◌}
use rtc_driver.Cpu.{Ports}
use rtc_driver.Rtc.{Sys, register_table}
use rtc_driver.Rtc.Cmos.{IsCmos, update}
use rtc_driver.Time.{Tm, decode, sleep_loop, time_get, time_set}
use rtc_driver.Time.Load.{Holds, raw, time_get_lem, time_get-hang}
use rtc_driver.Time.Sleep.{sleep_loop-ne-ok}
use rtc_driver.Time.RoundTrip.{IsDate, get-set}

record Chip : Type 0 where
  index : ℕ
  file : ℕ → ℕ

abbrev chip_out : ℕ → ℕ → Chip → Chip
chip_out port v m =
    if port == 0x70
    then record m { index = v % 128 }
    else record m { file = update m.file m.index v }

abbrev chip_ports : Ports Chip
chip_ports = record {
  inb = λ port m. (m.file m.index, m);
  outb = chip_out;
  cli = λ m. m;
  sti = λ m. m;
}

chip-IsCmos : IsCmos chip_ports (λ m. m.index) (λ m. m.file)
chip-IsCmos = record {
  select = λ v m. refl;
  select-reg = λ v m q. refl;
  read = λ m. refl;
  read-reg = λ m q. refl;
  write-reg = λ v m q. refl;
  cli-reg = λ m q. refl;
  sti-reg = λ m q. refl;
}

-- 16:45:30 on 26 December 2019 in BCD, 24 hours.
abbrev bytes : ℕ → ℕ
bytes q =
    if q == 0
    then 0x30
    else if q == 2
    then 0x45
    else if q == 4
    then 0x16
    else if q == 7
    then 0x26
    else if q == 8
    then 0x12
    else if q == 9
    then 0x19
    else if q == 0x0B
    then 0x02
    else if q == 0x32
    then 0x20
    else 0

abbrev late_bytes : ℕ → ℕ
late_bytes q = if q == 9 then 0x80 else bytes q

abbrev sys : (ℕ → ℕ) → Sys Chip
sys f = record {
  machine = record { index = 0; file = f };
  register_values = register_table;
  century = 0;
}

abbrev new_year : Tm
new_year = record { seconds = 5; minutes = 4; hours = 3; day = 1; month = 1; year = 2020 }

new_year-IsDate : IsDate new_year
new_year-IsDate = record {
  seconds = omega arith;
  minutes = omega arith;
  hours = omega arith;
  day = omega arith;
  month = omega arith;
  year = omega arith;
}

holds : (f : ℕ → ℕ) → Holds (λ m. m.file) f (sys f)
holds f = record { table = refl; file = refl }

get-set_example :
    (s' : Sys Chip) × ((time_set chip_ports new_year >>= λ _. time_get chip_ports 1 1) (sys bytes)
      ≡ ok new_year s')
get-set_example =
    get-set chip_ports (λ m. m.index) (λ m. m.file) chip-IsCmos 0 0 new_year bytes (sys bytes) refl
      (holds bytes) new_year-IsDate (omega arith)

time_get_example :
    (s' : Sys Chip) × (time_get chip_ports 1 1 (sys bytes) ≡ ok (decode 2 (raw bytes) 0x20).0 s')
    × Holds (λ m. m.file) bytes s'
time_get_example =
    time_get_lem chip_ports (λ m. m.index) (λ m. m.file) chip-IsCmos bytes refl 0 0 (sys bytes)
      (holds bytes) (omega arith)

time_get-hang_example : time_get chip_ports 9 9 (sys late_bytes) ≡ hang
time_get-hang_example =
    time_get-hang chip_ports (λ m. m.index) (λ m. m.file) chip-IsCmos late_bytes refl 9 9
      (sys late_bytes) (holds late_bytes) (omega arith) (omega arith)

abbrev eleven : ℕ
eleven = 11

sleep_loop_example : sleep_loop chip_ports 1 1 5 (2 ^ 32) (sys bytes) ≢ ok tt (sys bytes)
sleep_loop_example =
    sleep_loop-ne-ok chip_ports 1 1 5 (2 ^ 32) (sys bytes) (omega arith) (sys bytes)
