-- ===== src/Serial/Probe.antt =====
-- `serial_init`: which ports have a chip, of what type, and how it is set up.
use rtc_driver.Base.{ℕ, Bool, true, false, ◌||◌, ◌&&◌, not, List, [], ◌∷◌, ◌==◌, if◌then◌else◌, ◌+◌}
use rtc_driver.Base.Int.{ℤ, pos}
use rtc_driver.Cpu.{Ports}
use rtc_driver.Serial.{
  Device, has_bits, type_unknown, type_8250, type_16450, type_16550, type_16550a, type_16750,
  pic_serial_1_irq, pic_serial_2_irq, serial_set_config,
}

-- What serial.c asks of devices.c and interrupts.c: `dev_register_char_dev` with the number and the
-- name, and `itr_set_interrupt_handler` for the handler of serial.c, with the line and the flags.
pub record Kernel (M : Type 0) : Type 0 where
  pub register : ℕ → List ℕ → M → M
  pub set_handler : ℕ → ℕ → M → M

-- IDT_PRESENT | IDT_DPL_RING_0 | IDT_GATE_INTR
abbrev pub handler_flags : ℕ
handler_flags = 0x8e00

-- The first guards of the probe: whether no reserved bit is set. Later ports are read only if the
-- earlier ones passed.
unfoldable pub responds : {M : Type 0} → Ports M → Device → M → Bool × M
responds io d m =
    let (ier, m1) = io.inb (d.base + 1) m in
    let (iir, m2) = io.inb (d.base + 2) m1 in
    let (mcr, m3) = io.inb (d.base + 4) m2 in
    if has_bits ier 0x40 || has_bits ier 0x80
    then (false, m1)
    else if has_bits iir 0x40
    then (false, m2)
    else if has_bits mcr 0x40 || has_bits mcr 0x80
    then (false, m3)
    else (true, m3)

-- The type of a chip that responds.
unfoldable pub detect : {M : Type 0} → Ports M → Device → M → ℕ × M
detect io d m =
    let (r8, m1) = io.inb (d.base + 2) (io.outb (d.base + 2) 0xe7 m) in
    let (scratch, m2) = io.inb (d.base + 7) (io.outb (d.base + 7) 0x2a m1) in
    if has_bits r8 0x40
    then (
      if has_bits r8 0x80
          then (if has_bits r8 0x20 then type_16750 else type_16550a)
          else type_16550,
      m1,
    )
    else (if scratch == 0x2a then type_16450 else type_8250, m2)

unfoldable pub fifo_for : ℕ → ℕ
fifo_for kind =
    if (kind == type_8250) || (kind == type_16450)
    then 0
    else if (kind == type_16550) || (kind == type_16550a)
    then 0x47
    else 0x27

-- The members of a device of the type, before it is configured.
unfoldable pub set_up : ℕ → Device → Device
set_up kind d = record d {
  kind = kind;
  config = record d.config {
    divisor = 3;
    line_ctl = 0x07;
    interrupts = 0x07;
    fifo_ctl = fifo_for kind;
  };
  read_buf = record d.read_buf { read_head = 0; write_head = 0 };
}

module _ {M : Type 0} (io : Ports M) (kernel : Kernel M) where
  -- A round of the first loop.
  unfoldable pub init_device : Device → M → Device × M
  init_device d m =
      let (present, m1) = responds io d m in
      let (kind, m2) = detect io d m1 in
      let d' = set_up kind d in
      if present then (d', kernel.register d.devid d.name (serial_set_config io d' m2)) else (d, m1)

  unfoldable pub init_all : List Device → M → List Device × M
  init_all [] m = ([], m)
  init_all (d ∷ ds) m =
      let (d', m1) = init_device d m in let (ds', m2) = init_all ds m1 in (d' ∷ ds', m2)

  -- The second loop stops at the first device of the line.
  unfoldable pub first_handler : List Device → M → M
  first_handler [] m = m
  first_handler (d ∷ ds) m =
      let rest = first_handler ds m in
      if not (d.kind == type_unknown) && (d.irq == pic_serial_1_irq)
      then kernel.set_handler pic_serial_1_irq handler_flags m
      else rest

  unfoldable pub second_handlers : List Device → M → M
  second_handlers [] m = m
  second_handlers (d ∷ ds) m = second_handlers ds (
      if not (d.kind == type_unknown) && (d.irq == pic_serial_2_irq)
      then kernel.set_handler pic_serial_2_irq handler_flags m
      else m)

  unfoldable pub serial_init : List Device → M → ℤ × (List Device × M)
  serial_init ds m =
      let (ds', m') = init_all ds m in (pos 0, (ds', second_handlers ds' (first_handler ds' m')))
