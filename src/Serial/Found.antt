-- ===== src/Serial/Found.antt =====
-- What `serial_init` makes of the table of devices.
use rtc_driver.Base.{ℕ, ◌+◌, ◌≡◌, not, ◌||◌, ltb, true, false, List, [], ◌∷◌, ◌==◌, if◌then◌else◌}
use rtc_driver.Cpu.{Ports}
use rtc_driver.Serial.{Device, has_bits, type_8250, type_16450, type_16550, type_16550a, type_16750}
use rtc_driver.Serial.Probe.{Kernel, init_device}
use rtc_driver.Serial.Queue.{queue, IsBuffer}

-- The type by what the identification register answers when the FIFO is asked for, and by what the
-- scratch register holds.
abbrev pub type_of : ℕ → ℕ → ℕ
type_of r8 scratch =
    if not (has_bits r8 0x40)
    then if scratch == 0x2a then type_16450 else type_8250
    else if not (has_bits r8 0x80)
    then type_16550
    else if has_bits r8 0x20
    then type_16750
    else type_16550a

-- The device `d` after it has been found with a type, as `e`: with no byte waiting, the divisor 3,
-- all three interrupts, and a FIFO only where the type has one.
pub record Ready (kind : ℕ) (d e : Device) : Type 0 where
  pub is_kind : e.kind ≡ kind
  pub divisor : e.config.divisor ≡ 3
  pub line_ctl : e.config.line_ctl ≡ 7
  pub interrupts : e.config.interrupts ≡ 7
  pub fifo :
      e.config.fifo_ctl
      ≡ (if ltb kind type_16550 then 0 else if kind == type_16750 then 0x27 else 0x47)
  pub empty : queue e.read_buf ≡ []
  pub buffer : IsBuffer d.read_buf → IsBuffer e.read_buf
  pub number : e.devid ≡ d.devid
  pub line : e.irq ≡ d.irq
  pub status : e.flags ≡ d.flags

module _ {M : Type 0} (io : Ports M) (kernel : Kernel M) where
  -- What becomes of a device: it is found exactly where no reserved bit is set in what the registers
  -- for interrupts, identification and the modem answer.
  abbrev pub Found : M → Device → Device → Type 0
  Found m d e =
      let (ier, m1) = io.inb (d.base + 1) m in
      let (iir, m2) = io.inb (d.base + 2) m1 in
      let (mcr, m3) = io.inb (d.base + 4) m2 in
      let (r8, m4) = io.inb (d.base + 2) (io.outb (d.base + 2) 0xe7 m3) in
      let scratch = (io.inb (d.base + 7) (io.outb (d.base + 7) 0x2a m4)).0 in
      let reserved =
        has_bits ier 0x40
        || (has_bits ier 0x80 || (has_bits iir 0x40 || (has_bits mcr 0x40 || has_bits mcr 0x80))) in
      (reserved ≡ false → Ready (type_of r8 scratch) d e) × (reserved ≡ true → e ≡ d)

  -- One device after the other, each from the machine that the one before leaves.
  abbrev pub AllFound : M → List Device → List Device → Type 0
  AllFound m [] [] = Unit
  AllFound m [] (e ∷ es) = ⊥
  AllFound m (d ∷ ds) [] = ⊥
  AllFound m (d ∷ ds) (e ∷ es) = Found m d e × AllFound (init_device io kernel d m).1 ds es
