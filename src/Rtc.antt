-- ===== src/Rtc.antt =====
-- src/kernel/drivers/rtc.c and src/kernel/include/rtc.h: the driver of the real time clock.
-- A `char` is its byte. `register_values` is the global REGISTER_VALUES and `century` the global of
-- time.c; a read or write past the end of an array is `fault`. The registration of /dev/rtc by
-- `rtc_init` belongs to the device table and is not modelled: `init_registers` is its first part.
pub mod Cmos
use rtc_driver.Base.{
  ℕ, zero, suc, ◌+◌, ◌≡◌, List, [], ◌∷◌, none, some, bit_and, bit_or, ◌==◌, if◌then◌else◌,
  get_elem?,
}
use rtc_driver.Base.Int.{ℤ, pos, minus_one}
use rtc_driver.Base.Run.{ok, fault, hang, panic, Cmd, pure, ◌>>=◌}
use rtc_driver.Cpu.{Ports}

abbrev pub cmos_address : ℕ
cmos_address = 0x70

abbrev pub cmos_data : ℕ
cmos_data = 0x71

abbrev pub rega_status : ℕ
rega_status = 0x0A

abbrev pub regb_status : ℕ
regb_status = 0x0B

abbrev pub reg_century : ℕ
reg_century = 0x32

abbrev pub register_count : ℕ
register_count = 6

-- Seconds, minutes, hours, day, month, year.
abbrev pub register_table : List ℕ
register_table = 0x00 ∷ 0x02 ∷ 0x04 ∷ 0x07 ∷ 0x08 ∷ 0x09 ∷ []

pub record Sys (M : Type 0) : Type 0 where
  pub machine : M
  pub register_values : List ℕ
  pub century : ℕ

abbrev pub file_o_rw : ℕ
file_o_rw = 3

unfoldable pub rtc_open : ℕ → ℤ
rtc_open f_flags = if f_flags == file_o_rw then pos 0 else minus_one

unfoldable pub init_registers : {M : Type 0} → Sys M → Sys M
init_registers s = record s { register_values = register_table }

-- A command of the driver, which changes the machine only.
abbrev pub on_machine : {M A : Type 0} → Cmd M A → Cmd (Sys M) A
on_machine c s = elim (c s.machine) [
  | ok a m ↦ ok a (record s { machine = m })
  | fault ↦ fault
  | hang ↦ hang
  | panic ↦ panic
]

pub on_machine-ok :
    {M A : Type 0} (c : Cmd M A) (s : Sys M) {a : A} {m : M}
    → c s.machine ≡ ok a m
    → on_machine c s ≡ ok a (record s { machine = m })
on_machine-ok c s e = rw (e, on_machine)

module _ {M : Type 0} (io : Ports M) where
  unfoldable pub get_rtc_register : ℕ → M → ℕ × M
  get_rtc_register reg m = io.inb cmos_data (io.outb cmos_address reg m)

  unfoldable pub set_rtc_register : ℕ → ℕ → M → M
  set_rtc_register reg v m = io.outb cmos_data v (io.outb cmos_address reg m)

  unfoldable pub get_update_in_progress_flag : M → ℕ × M
  get_update_in_progress_flag m =
      let (v, m') = io.inb cmos_data (io.outb cmos_address rega_status m) in (bit_and v 0x80, m')

  unfoldable pub nmi_enable : M → M
  nmi_enable m = let (v, m') = io.inb cmos_address m in io.outb cmos_address (bit_and v 0x7F) m'

  unfoldable pub nmi_disable : M → M
  nmi_disable m = let (v, m') = io.inb cmos_address m in io.outb cmos_address (bit_or v 0x80) m'

  -- The loop of `rtc_read` with `n` rounds left, at index `i`; the bytes that it puts into `buf`.
  unfoldable pub read_loop : List ℕ → ℕ → ℕ → Cmd M (List ℕ)
  read_loop regs zero i m = ok [] m
  read_loop regs (suc n) i m = elim (get_elem? regs i) [
    | none ↦ fault
    | some r ↦
        let (b, m') = get_rtc_register r m in (read_loop regs n (i + 1) >>= λ bs. pure (b ∷ bs)) m'
  ]

  unfoldable pub write_loop : List ℕ → List ℕ → ℕ → ℕ → Cmd M (Unit {0})
  write_loop regs buf zero i m = ok tt m
  write_loop regs buf (suc n) i m = elim (get_elem? regs i) [
    | none ↦ fault
    | some r ↦ elim (get_elem? buf i) [
      | none ↦ fault
      | some b ↦ write_loop regs buf n (i + 1) (set_rtc_register r b m)
    ]
  ]

  -- The count that the function returns, and the bytes in `buf`.
  unfoldable pub rtc_read : List ℕ → ℕ → Cmd M (ℕ × List ℕ)
  rtc_read regs count m =
      (read_loop regs count 0 >>= λ bs m'. ok (count, bs) (io.sti m')) (io.cli m)

  unfoldable pub rtc_write : List ℕ → List ℕ → ℕ → Cmd M ℕ
  rtc_write regs buf count m =
      (write_loop regs buf count 0 >>= λ _ m'. ok count (io.sti m')) (io.cli m)
