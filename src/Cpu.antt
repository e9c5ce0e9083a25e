-- ===== src/Cpu.antt =====
-- What the drivers ask of the processor and the port bus: src/kernel/io.asm (`inb`, `outb`) and
-- src/kernel/hw.asm (`hw_cli`, `hw_sti`). The devices behind the ports are no code of this
-- repository, so they are a parameter: any type of machine states with these operations.
use rtc_driver.Base.{ℕ}

pub record Ports (M : Type 0) : Type 0 where
  pub inb : ℕ → M → ℕ × M
  pub outb : ℕ → ℕ → M → M
  pub cli : M → M
  pub sti : M → M
