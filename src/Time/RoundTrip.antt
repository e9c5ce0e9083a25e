-- ===== src/Time/RoundTrip.antt =====
-- `time_set` and then `time_get`, on a clock that does not tick in between.
use rtc_driver.Base.{
  ℕ, List, suc, ◌%◌, ◌/◌, ◌<◌, ◌≡◌, refl, ap, ◌∙◌, fun_ext, true, false, inl, inr, Bool-cases, [],
  ◌∷◌, arith,
}
use rtc_driver.Base.Run.{ok, ◌>>=◌}
use rtc_driver.Cpu.{Ports}
use rtc_driver.Rtc.{
  Sys, register_table, register_count, get_rtc_register, set_rtc_register, rtc_write, on_machine-ok,
}
use rtc_driver.Rtc.Cmos.{
  IsCmos, Slices, store_all, update, get_rtc_register_lem, get_rtc_register-reg,
  set_rtc_register-reg, write_loop_lem,
}
use rtc_driver.Time.{
  Tm, sign_extend, to_24_hours, full_year, bcd_mode, bin_to_bcd_char, bin_to_bcd_u8, encode, decode,
  time_set, time_get,
}
use rtc_driver.Time.Bcd
use rtc_driver.Time.Load.{raw, Holds, Quiet, time_get_lem}

-- What the kernel's clients pass to `time_set`: a date of the years 0 to 9999.
pub record IsDate (t : Tm) : Type 0 where
  pub seconds : t.seconds < 60
  pub minutes : t.minutes < 60
  pub hours : t.hours < 24
  pub day : t.day < 32
  pub month : t.month < 13
  pub year : t.year < 10000

-- The pairs that `rtc_write` stores, and then the century.
abbrev pub writes : ℕ → ℕ → ℕ → ℕ → ℕ → ℕ → List (ℕ × ℕ)
writes b0 b1 b2 b3 b4 b5 = (0, b0) ∷ (2, b1) ∷ (4, b2) ∷ (7, b3) ∷ (8, b4) ∷ (9, b5) ∷ []

to_24_hours-morning : (b h : ℕ) → h < 24 → to_24_hours b h ≡ h
unfolding to_24_hours
to_24_hours-morning b h small = ground (arith, Bcd.no_pm_bit h small)

full_year_lem : (y : ℕ) → y < 10000 → full_year (y % 100) (y / 100 % 256) ≡ y
unfolding full_year
full_year_lem y h = omega arith

decode-encode_binary :
    (b : ℕ) (t : Tm)
    → IsDate t
    → bcd_mode b ≡ false
    → (decode b (record t { year = sign_extend (t.year % 100) }) (t.year / 100 % 256)).0 ≡ t
unfolding decode
decode-encode_binary b t d mode =
    let y : sign_extend (t.year % 100) ≡ t.year % 100 = ground arith in
    rw (mode, y, to_24_hours-morning b t.hours d.hours, full_year_lem t.year d.year)

decode-encode_bcd :
    (b : ℕ) (t : Tm)
    → IsDate t
    → bcd_mode b ≡ true
    → t.year % 100 < 80
    → (decode b
        (record {
          seconds = bin_to_bcd_char t.seconds;
          minutes = bin_to_bcd_char t.minutes;
          hours = bin_to_bcd_char t.hours;
          day = bin_to_bcd_char t.day;
          month = bin_to_bcd_char t.month;
          year = sign_extend (bin_to_bcd_char (t.year % 100));
        })
        (bin_to_bcd_u8 (t.year / 100 % 256))).0
      ≡ t
unfolding decode
decode-encode_bcd b t d mode y = rw mode (
    rw (
      Bcd.bcd_to_binary_u8-bin_to_bcd_char t.seconds (omega arith),
      Bcd.bcd_to_binary_u8-bin_to_bcd_char t.minutes (omega arith),
      Bcd.bcd_to_binary_hours-bin_to_bcd_char t.hours d.hours,
      Bcd.bcd_to_binary_u8-bin_to_bcd_char t.day (omega arith),
      Bcd.bcd_to_binary_u8-bin_to_bcd_char t.month (omega arith),
      Bcd.bcd_to_binary_u32-bin_to_bcd_char (t.year % 100) y,
      Bcd.bcd_to_binary_u8-bin_to_bcd_u8 (t.year / 100 % 256) (omega arith),
      to_24_hours-morning b t.hours d.hours,
      full_year_lem t.year d.year,
    ))

module _ {M : Type 0} (io : Ports M) (sel : M → ℕ) (reg : M → ℕ → ℕ)
    (cmos : IsCmos io sel reg) where
  rtc_write_lem :
      (b0 b1 b2 b3 b4 b5 : ℕ) (regs : List ℕ) (m : M)
      → regs ≡ register_table
      → (m' : M) × (rtc_write io regs (b0 ∷ b1 ∷ b2 ∷ b3 ∷ b4 ∷ b5 ∷ []) register_count m ≡ ok 6 m')
        × (reg m' ≡ store_all (reg m) (writes b0 b1 b2 b3 b4 b5))
  unfolding rtc_write
  rtc_write_lem b0 b1 b2 b3 b4 b5 regs m table =
      let buf = b0 ∷ b1 ∷ b2 ∷ b3 ∷ b4 ∷ b5 ∷ [] in
      let ws = writes b0 b1 b2 b3 b4 b5 in
      let slices : Slices register_table buf 0 ws = (
        refl,
        refl,
        omega arith,
        (
          refl,
          refl,
          omega arith,
          (
            refl,
            refl,
            omega arith,
            (refl, refl, omega arith, (refl, refl, omega arith, (refl, refl, omega arith, tt))),
          ),
        ),
      ) in
      let (m', e, same) =
        write_loop_lem io sel reg cmos register_table buf ws 0 (io.cli m) slices in
      (
        io.sti m',
        rw table (rw e),
        fun_ext (cmos.sti-reg m') ∙ same ∙ ap (λ g. store_all g ws) (fun_ext (cmos.cli-reg m)),
      )

  -- The register file after `time_set` of six bytes and a century.
  abbrev written : (ℕ → ℕ) → List ℕ × ℕ → ℕ → ℕ
  written f (b0 ∷ b1 ∷ b2 ∷ b3 ∷ b4 ∷ b5 ∷ [], c) =
      store_all f ((0, b0) ∷ (2, b1) ∷ (4, b2) ∷ (7, b3) ∷ (8, b4) ∷ (9, b5) ∷ (0x32, c) ∷ [])
  written f _ = f

  time_set_lem :
      (b0 b1 b2 b3 b4 b5 c : ℕ) (t : Tm) (f : ℕ → ℕ) (s : Sys M)
      → Holds reg f s
      → encode (f 0x0B) t ≡ (b0 ∷ b1 ∷ b2 ∷ b3 ∷ b4 ∷ b5 ∷ [], c)
      → (s' : Sys M) × (time_set io t s ≡ ok tt s')
        × Holds reg (written f (b0 ∷ b1 ∷ b2 ∷ b3 ∷ b4 ∷ b5 ∷ [], c)) s'
  unfolding time_set
  time_set_lem b0 b1 b2 b3 b4 b5 c t f s holds code =
      let (v, m) = get_rtc_register io 0x0B s.machine in
      let b : v ≡ f 0x0B =
        get_rtc_register_lem io sel reg cmos 0x0B s.machine (omega arith)
        ∙ ap (λ g. g 0x0B) holds.file in
      let same : reg m ≡ f = get_rtc_register-reg io sel reg cmos 0x0B s.machine ∙ holds.file in
      let (m', e, k) = rtc_write_lem b0 b1 b2 b3 b4 b5 s.register_values m holds.table in
      let m'' = set_rtc_register io 0x32 c (io.cli m') in
      (
        record s { machine = io.sti m'' },
        rw (b, code) (rw (on_machine-ok _ (record s { machine = m }) e)),
        record {
          table = holds.table;
          file =
              fun_ext (cmos.sti-reg m'')
              ∙ set_rtc_register-reg io sel reg cmos 0x32 c (io.cli m') (omega arith)
              ∙ ap (λ g. update g 0x32 c)
                  (fun_ext (cmos.cli-reg m')
                    ∙ k
                    ∙ ap (λ g. store_all g (writes b0 b1 b2 b3 b4 b5)) same);
        },
      )

  then_get :
      (w k b0 b1 b2 b3 b4 b5 c : ℕ) (t : Tm) (f : ℕ → ℕ) (s : Sys M)
      → Quiet f
      → Holds reg f s
      → encode (f 0x0B) t ≡ (b0 ∷ b1 ∷ b2 ∷ b3 ∷ b4 ∷ b5 ∷ [], c)
      → b5 < 128
      → (decode
          (f 0x0B)
          (record {
            seconds = b0;
            minutes = b1;
            hours = b2;
            day = b3;
            month = b4;
            year = sign_extend b5;
          })
          c).0
        ≡ t
      → (s' : Sys M) × ((time_set io t >>= λ _. time_get io (suc w) (suc k)) s ≡ ok t s')
  unfolding raw
  then_get w k b0 b1 b2 b3 b4 b5 c t f s quiet holds code small back =
      let (s1, e1, h1) = time_set_lem b0 b1 b2 b3 b4 b5 c t f s holds code in
      let (s2, e2, h2) =
        time_get_lem io sel reg cmos (written f (b0 ∷ b1 ∷ b2 ∷ b3 ∷ b4 ∷ b5 ∷ [], c)) quiet w k s1
          h1 small in
      (s2, rw e1 (e2 ∙ ap (λ x. ok x s2) back))

  -- On a clock that does not tick in between, and with no update under way, `time_get` returns the
  -- date that `time_set` was given, whether register B selects BCD or binary and a 12 or a 24 hour
  -- clock, for a date of a year 0 to 9999 whose last two digits are below 80.
  pub get-set :
      (w k : ℕ) (t : Tm) (f : ℕ → ℕ) (s : Sys M)
      → Quiet f
      → Holds reg f s
      → IsDate t
      → t.year % 100 < 80
      → (s' : Sys M) × ((time_set io t >>= λ _. time_get io (suc w) (suc k)) s ≡ ok t s')
  unfolding encode
  get-set w k t f s quiet holds d y = elim (Bool-cases (bcd_mode (f 0x0B))) [
    | inl mode ↦
        then_get w k _ _ _ _ _ _ _ t f s quiet holds (rw mode)
          (Bcd.bin_to_bcd_char-lt (t.year % 100) y) (decode-encode_bcd (f 0x0B) t d mode y)
    | inr mode ↦
        then_get w k t.seconds t.minutes t.hours t.day t.month (t.year % 100) (t.year / 100 % 256) t
          f s quiet holds (rw mode) (omega arith) (decode-encode_binary (f 0x0B) t d mode)
  ]
