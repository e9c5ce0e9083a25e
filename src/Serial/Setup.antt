-- ===== src/Serial/Setup.antt =====
-- How a device is found and configured. The chip is stated by its data sheet: bit 7 of the line
-- control register makes the first two ports the divisor.
use rtc_driver.Base.{
  ℕ, ◌+◌, ◌*◌, ◌/◌, ◌%◌, ◌^◌, ◌<◌, ◌≡◌, refl, ap, ◌∙◌, Bool, true, false, arith, ◌==◌, ltb,
  if◌then◌else◌,
}
use rtc_driver.Cpu.{Ports}
use rtc_driver.Serial.{Device, Config, type_unknown, type_8250, serial_set_config}

-- The registers that can be written.
pub record Uart : Type 0 where
  pub divisor_low : ℕ
  pub divisor_high : ℕ
  pub interrupt_enable : ℕ
  pub fifo_control : ℕ
  pub line_control : ℕ
  pub modem_control : ℕ

abbrev pub dlab : Uart → Bool
dlab u = if ltb u.line_control 0x80 then false else true

pub record IsUart {M : Type 0} (io : Ports M) (base : ℕ) (chip : M → Uart) : Type 0 where
  pub low :
      (v : ℕ) (m : M)
      → dlab (chip m) ≡ true
      → chip (io.outb base v m) ≡ record (chip m) { divisor_low = v }
  pub high :
      (v : ℕ) (m : M)
      → dlab (chip m) ≡ true
      → chip (io.outb (base + 1) v m) ≡ record (chip m) { divisor_high = v }
  pub enable :
      (v : ℕ) (m : M)
      → dlab (chip m) ≡ false
      → chip (io.outb (base + 1) v m) ≡ record (chip m) { interrupt_enable = v }
  pub fifo : (v : ℕ) (m : M) → chip (io.outb (base + 2) v m) ≡ record (chip m) { fifo_control = v }
  pub line : (v : ℕ) (m : M) → chip (io.outb (base + 3) v m) ≡ record (chip m) { line_control = v }
  pub modem :
      (v : ℕ) (m : M) → chip (io.outb (base + 4) v m) ≡ record (chip m) { modem_control = v }

latched : (v : ℕ) → (if ltb (v % 2 ^ 7) 0x80 then false else true) ≡ false
latched v = let h : ltb (v % 2 ^ 7) 0x80 ≡ true = ground arith in rw h refl

-- The registers of a chip that is configured.
abbrev pub configured : Config → ℕ → Uart
configured c fifo = record {
  divisor_low = c.divisor % 2 ^ 8;
  divisor_high = c.divisor / 2 ^ 8 % 2 ^ 8;
  interrupt_enable = c.interrupts;
  fifo_control = fifo;
  line_control = c.line_ctl % 2 ^ 7;
  modem_control = c.modem_ctl;
}

both_halves : (v : ℕ) → v < 2 ^ 16 → 2 ^ 8 * (v / 2 ^ 8 % 2 ^ 8) + v % 2 ^ 8 ≡ v
both_halves v h = omega arith

module _ {M : Type 0} (io : Ports M) (d : Device) (chip : M → Uart)
    (uart : IsUart io d.base chip) where
  fifo_written :
      (is_8250 : Bool) (v : ℕ) (m : M)
      → chip (if is_8250 then m else io.outb (d.base + 2) v m)
        ≡ record (chip m) { fifo_control = if is_8250 then (chip m).fifo_control else v }
  fifo_written true v m = refl
  fifo_written false v m = uart.fifo v m

  -- On a chip with the registers of a UART, for a device that is present and whose divisor has 16
  -- bits, `serial_set_config` gives the chip the members of the configuration, whatever its
  -- registers held: the two halves of the divisor, the line control with the divisor's latch shut,
  -- the FIFO control unless the chip is an 8250, the modem control and the interrupts.
  pub serial_set_config_lem :
      (m : M)
      → (d.kind == type_unknown) ≡ false
      → d.config.divisor < 2 ^ 16
      → (chip (serial_set_config io d m)
          ≡ configured d.config
              (if d.kind == type_8250 then (chip m).fifo_control else d.config.fifo_ctl))
        × (2 ^ 8 * (chip (serial_set_config io d m)).divisor_high
              + (chip (serial_set_config io d m)).divisor_low
            ≡ d.config.divisor)
        × (dlab (chip (serial_set_config io d m)) ≡ false)
  unfolding serial_set_config
  serial_set_config_lem m present small =
      let lo = d.config.divisor % 2 ^ 8 in
      let hi = d.config.divisor / 2 ^ 8 % 2 ^ 8 in
      let old = d.kind == type_8250 in
      let m1 = io.outb (d.base + 3) 0x80 m in
      let m2 = io.outb d.base lo m1 in
      let m3 = io.outb (d.base + 1) hi m2 in
      let m4 = io.outb (d.base + 3) (d.config.line_ctl % 2 ^ 7) m3 in
      let m5 = if old then m4 else io.outb (d.base + 2) d.config.fifo_ctl m4 in
      let m6 = io.outb (d.base + 4) d.config.modem_ctl m5 in
      let e1 = uart.line 0x80 m in
      let e2 = uart.low lo m1 (ap dlab e1) ∙ ap (λ (u : Uart). record u { divisor_low = lo }) e1 in
      let e3 =
        uart.high hi m2 (ap dlab e2) ∙ ap (λ (u : Uart). record u { divisor_high = hi }) e2 in
      let e4 =
        uart.line _ m3
        ∙ ap (λ (u : Uart). record u { line_control = d.config.line_ctl % 2 ^ 7 }) e3 in
      let e5 =
        fifo_written old d.config.fifo_ctl m4
        ∙ ap
            (λ (u : Uart). record u {
              fifo_control = if old then u.fifo_control else d.config.fifo_ctl;
            })
            e4 in
      let e6 =
        uart.modem _ m5 ∙ ap (λ (u : Uart). record u { modem_control = d.config.modem_ctl }) e5 in
      let shut = ap dlab e6 ∙ latched d.config.line_ctl in
      let e7 =
        uart.enable _ m6 shut
        ∙ ap (λ (u : Uart). record u { interrupt_enable = d.config.interrupts }) e6 in
      rw present (
        e7,
        ap (λ (u : Uart). 2 ^ 8 * u.divisor_high + u.divisor_low) e7
            ∙ both_halves d.config.divisor small,
        ap dlab e7 ∙ latched d.config.line_ctl,
      )
