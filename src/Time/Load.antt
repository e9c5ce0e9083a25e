-- ===== src/Time/Load.antt =====
-- What the functions of time.c read off a clock that does not tick while they run.
use rtc_driver.Base.{
  ℕ, List, zero, suc, ◌≤◌, ◌<◌, ◌≡◌, refl, sym, ap, ◌∙◌, fun_ext, true, false, map, arith, bit_and,
}
use rtc_driver.Base.Run.{ok, hang, ◌>>=◌}
use rtc_driver.Cpu.{Ports}
use rtc_driver.Rtc.{
  Sys, register_table, register_count, get_rtc_register, get_update_in_progress_flag, rtc_read,
  on_machine-ok,
}
use rtc_driver.Rtc.Cmos.{
  IsCmos, Slice, get_rtc_register_lem, get_rtc_register-reg, get_update_in_progress_flag_lem,
  read_loop_lem,
}
use rtc_driver.Time.{
  Tm, sign_extend, from_bytes, same_reading, decode, wait_update, time_load, reload, time_get,
}

-- The raw fields of a register file.
unfoldable pub raw : (ℕ → ℕ) → Tm
raw f = record {
  seconds = f 0;
  minutes = f 2;
  hours = f 4;
  day = f 7;
  month = f 8;
  year = sign_extend (f 9);
}

-- The clock's registers hold `f`, and `rtc_init` has filled the register table.
pub record Holds {M : Type 0} (reg : M → ℕ → ℕ) (f : ℕ → ℕ) (s : Sys M) : Type 0 where
  pub table : s.register_values ≡ register_table
  pub file : reg s.machine ≡ f

-- No update is under way.
abbrev pub Quiet : (ℕ → ℕ) → Type 0
Quiet f = bit_and (f 0x0A) 0x80 ≡ 0

table-Slice : Slice register_table 0 register_table
table-Slice = (
  refl,
  omega arith,
  (
    refl,
    omega arith,
    (refl, omega arith, (refl, omega arith, (refl, omega arith, (refl, omega arith, tt)))),
  ),
)

module _ {M : Type 0} (io : Ports M) (sel : M → ℕ) (reg : M → ℕ → ℕ)
    (cmos : IsCmos io sel reg) where
  wait_update_lem :
      (w : ℕ) (m : M)
      → bit_and (reg m 0x0A) 0x80 ≡ 0
      → (m' : M) × (wait_update io (suc w) m ≡ ok tt m') × (reg m' ≡ reg m)
  unfolding wait_update
  wait_update_lem w m quiet =
      let (flag, same) = get_update_in_progress_flag_lem io sel reg cmos m in
      ((get_update_in_progress_flag io m).1, rw (flag, quiet), same)

  rtc_read_lem :
      (m : M)
      → (m' : M) × (rtc_read io register_table register_count m
          ≡ ok (6, map (reg m) register_table) m')
        × (reg m' ≡ reg m)
  unfolding rtc_read
  rtc_read_lem m =
      let (m', e, same) =
        read_loop_lem io sel reg cmos register_table register_table 0 (io.cli m) table-Slice in
      let cli : reg (io.cli m) ≡ reg m = fun_ext (cmos.cli-reg m) in
      (
        io.sti m',
        rw e (ap (λ f. ok (6, map f register_table) (io.sti m')) cli),
        fun_ext (cmos.sti-reg m') ∙ same ∙ cli,
      )

  fetch :
      (w : ℕ) (regs : List ℕ) (m : M)
      → regs ≡ register_table
      → bit_and (reg m 0x0A) 0x80 ≡ 0
      → (m' : M) × ((wait_update io (suc w) >>= λ _. rtc_read io regs register_count) m
          ≡ ok (6, map (reg m) register_table) m')
        × (reg m' ≡ reg m)
  fetch w regs m table quiet =
      let (m1, e1, s1) = wait_update_lem w m quiet in
      let (m2, e2, s2) = rtc_read_lem m1 in
      (m2, rw (e1, table) (e2 ∙ ap (λ f. ok (6, map f register_table) m2) s1), s2 ∙ s1)

  module _ (f : ℕ → ℕ) (quiet : Quiet f) where
    -- One load gives the raw fields and the century, and leaves the registers as they are.
    time_load_lem :
        (w : ℕ) (s : Sys M)
        → Holds reg f s
        → (s' : Sys M) × (time_load io (suc w) s ≡ ok (raw f) s')
          × Holds reg f s'
          × (s'.century ≡ f 0x32)
    unfolding time_load raw from_bytes
    time_load_lem w s holds =
        let (m, e, k) = fetch w s.register_values s.machine holds.table (rw holds.file quiet) in
        let (c, m') = get_rtc_register io 0x32 m in
        let same : reg m ≡ f = k ∙ holds.file in
        (
          record s { machine = m'; century = c },
          rw (on_machine-ok _ s e) (rw holds.file),
          record { table = holds.table; file = get_rtc_register-reg io sel reg cmos 0x32 m ∙ same },
          get_rtc_register_lem io sel reg cmos 0x32 m (omega arith) ∙ ap (λ g. g 0x32) same,
        )

    same_lem : (c d : ℕ) → c ≡ d → f 9 < 128 → same_reading (raw f) c (raw f) d ≡ true
    unfolding same_reading raw
    same_lem c d e h = ground arith

    differ_lem : (c d : ℕ) → 128 ≤ f 9 → f 9 < 256 → same_reading (raw f) c (raw f) d ≡ false
    unfolding same_reading raw
    differ_lem c d h k = ground arith

    -- A second load right after the first is like it, unless the year's byte has its sign bit.
    reload_lem :
        (w k : ℕ) (s : Sys M)
        → Holds reg f s
        → s.century ≡ f 0x32
        → f 9 < 128
        → (s' : Sys M) × (reload io (suc w) (suc k) (raw f) s ≡ ok (raw f) s')
          × Holds reg f s'
          × (s'.century ≡ f 0x32)
    unfolding reload
    reload_lem w k s holds c small =
        let (s', e, holds', c') = time_load_lem w s holds in
        (s', rw e (rw (same_lem s.century s'.century (c ∙ sym c') small)), holds', c')

    reload-hang :
        (w k : ℕ) (s : Sys M)
        → Holds reg f s
        → 128 ≤ f 9
        → f 9 < 256
        → reload io (suc w) k (raw f) s ≡ hang
    unfolding reload
    reload-hang w zero s holds lo hi = refl
    reload-hang w (suc k) s holds lo hi =
        let (s', e, holds', c') = time_load_lem w s holds in
        rw e (rw (differ_lem s.century s'.century lo hi) (reload-hang w k s' holds' lo hi))

    -- On a clock chip at rest, with no update under way and a year's byte below 0x80, `time_get`
    -- returns, after two loads, what the registers hold, decoded, and changes no register.
    pub time_get_lem :
        (w k : ℕ) (s : Sys M)
        → Holds reg f s
        → f 9 < 128
        → (s' : Sys M) × (time_get io (suc w) (suc k) s
            ≡ ok (decode (f 0x0B) (raw f) (f 0x32)).0 s')
          × Holds reg f s'
    unfolding time_get
    time_get_lem w k s holds small =
        let (s1, e1, holds1, c1) = time_load_lem w s holds in
        let (s2, e2, holds2, c2) = reload_lem w k s1 holds1 c1 small in
        let b : (get_rtc_register io 0x0B s2.machine).0 ≡ f 0x0B =
          get_rtc_register_lem io sel reg cmos 0x0B s2.machine (omega arith)
          ∙ ap (λ g. g 0x0B) holds2.file in
        let m = (get_rtc_register io 0x0B s2.machine).1 in
        let c = (decode (get_rtc_register io 0x0B s2.machine).0 (raw f) s2.century).1 in
        (
          record s2 { machine = m; century = c },
          rw e1 (rw e2 (rw (b, c2))),
          record {
            table = holds2.table;
            file = get_rtc_register-reg io sel reg cmos 0x0B s2.machine ∙ holds2.file;
          },
        )

    -- On a clock chip at rest with no update under way, whose year's byte is 0x80 or more,
    -- `time_get` is still in its loop whatever the fuel.
    pub time_get-hang :
        (w k : ℕ) (s : Sys M) → Holds reg f s → 128 ≤ f 9 → f 9 < 256 → time_get io w k s ≡ hang
    unfolding time_get time_load wait_update
    time_get-hang zero k s holds lo hi = refl
    time_get-hang (suc w) k s holds lo hi =
        let (s1, e1, holds1, c1) = time_load_lem w s holds in
        rw e1 (rw (reload-hang w k s1 holds1 lo hi))
