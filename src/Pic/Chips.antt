-- ===== src/Pic/Chips.antt =====
-- The two controllers behind their ports, as the data sheet of the 8259A has them: command 0x11
-- clears the mask and makes the chip take the next three bytes at its data port as the base vector,
-- the cascade and the mode; any other byte there is the mask, which can be read back.
use rtc_driver.Base.{ℕ, ◌-◌, ◌^◌, ◌<◌, ◌≡◌, Bool, not, bit_and, ◌==◌, ltb, if◌then◌else◌}
use rtc_driver.Cpu.{Ports}

pub record Chip : Type 0 where
  pub mask : ℕ
  pub vector : ℕ
  pub cascade : ℕ
  pub mode : ℕ
  pub pending : ℕ

pub record Chips : Type 0 where
  pub master : Chip
  pub slave : Chip

abbrev pub command : ℕ → Chip → Chip
command v c = if v == 0x11 then record c { mask = 0; pending = 3 } else c

abbrev pub data_byte : ℕ → Chip → Chip
data_byte v c =
    if c.pending == 3
    then record c { vector = v; pending = 2 }
    else if c.pending == 2
    then record c { cascade = v; pending = 1 }
    else if c.pending == 1
    then record c { mode = v; pending = 0 }
    else record c { mask = v }

pub record IsPics {M : Type 0} (io : Ports M) (view : M → Chips) : Type 0 where
  pub out20 :
      (v : ℕ) (m : M)
      → view (io.outb 0x20 v m) ≡ record (view m) { master = command v (view m).master }
  pub outa0 :
      (v : ℕ) (m : M)
      → view (io.outb 0xa0 v m) ≡ record (view m) { slave = command v (view m).slave }
  pub out21 :
      (v : ℕ) (m : M)
      → view (io.outb 0x21 v m) ≡ record (view m) { master = data_byte v (view m).master }
  pub outa1 :
      (v : ℕ) (m : M)
      → view (io.outb 0xa1 v m) ≡ record (view m) { slave = data_byte v (view m).slave }
  pub in21 : (m : M) → (io.inb 0x21 m).0 ≡ (view m).master.mask
  pub ina1 : (m : M) → (io.inb 0xa1 m).0 ≡ (view m).slave.mask
  pub in21-view : (m : M) → view (io.inb 0x21 m).1 ≡ view m
  pub ina1-view : (m : M) → view (io.inb 0xa1 m).1 ≡ view m

-- Both chips are set up and hold a byte as their mask.
pub record Ready (c : Chips) : Type 0 where
  pub master_done : c.master.pending ≡ 0
  pub slave_done : c.slave.pending ≡ 0
  pub master_byte : c.master.mask < 256
  pub slave_byte : c.slave.mask < 256

abbrev pub bit_is_set : ℕ → ℕ → Bool
bit_is_set w k = not (bit_and w (2 ^ k) == 0)

-- Whether the line of a device is silenced.
abbrev pub masked : Chips → ℕ → Bool
masked c dev =
    if ltb dev 0x28
    then bit_is_set c.master.mask (dev - 0x20)
    else bit_is_set c.slave.mask (dev - 0x28)
