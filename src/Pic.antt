-- ===== src/Pic.antt =====
-- src/kernel/drivers/pic.c and src/kernel/include/pic.h: the driver of the two interrupt
-- controllers. A line is named by the interrupt it is remapped to.
pub mod Chips
pub mod Mask
pub mod Init
mod Tests
use rtc_driver.Base.{ℕ, ◌+◌, ◌-◌, ◌^◌, List, [], ◌∷◌, ◌&&◌, bit_and, bit_or, leb, if◌then◌else◌}
use rtc_driver.Cpu.{Ports}

abbrev pub master_cmd_port : ℕ
master_cmd_port = 0x20

abbrev pub master_data_port : ℕ
master_data_port = 0x21

abbrev pub slave_cmd_port : ℕ
slave_cmd_port = 0xa0

abbrev pub slave_data_port : ℕ
slave_data_port = 0xa1

abbrev pub eoi : ℕ
eoi = 0x20

-- PIC_ICW1_INIT | PIC_ICW1_ICW4
abbrev pub icw1 : ℕ
icw1 = 0x11

abbrev pub icw4_8086 : ℕ
icw4_8086 = 0x01

abbrev pub master_base_irq : ℕ
master_base_irq = 0x20

abbrev pub slave_base_irq : ℕ
slave_base_irq = 0x28

-- The devices that `pic_init` silences, in its order; line 0x22 is the slave controller.
unfoldable pub devices : List ℕ
devices =
    0x20 ∷ 0x21 ∷ 0x23 ∷ 0x24 ∷ 0x25 ∷ 0x26 ∷ 0x27 ∷ 0x28 ∷ 0x29 ∷ 0x2a ∷ 0x2b ∷ 0x2c ∷ 0x2d ∷ 0x2e
    ∷ 0x2f ∷ []

module _ {M : Type 0} (io : Ports M) where
  unfoldable pub pic_send_eoi : ℕ → M → M
  pic_send_eoi irq m =
      if leb master_base_irq irq && leb irq (master_base_irq + 7)
      then io.outb master_cmd_port eoi m
      else if leb slave_base_irq irq && leb irq (slave_base_irq + 7)
      then io.outb master_cmd_port eoi (io.outb slave_cmd_port eoi m)
      else m

  unfoldable pub pic_io_wait : M → M
  pic_io_wait m = io.outb 0x80 0 m

  unfoldable pub pic_remap : M → M
  pic_remap m =
      let (master_mask, m1) = io.inb master_data_port m in
      let (slave_mask, m2) = io.inb slave_data_port m1 in
      let m3 = io.outb master_cmd_port icw1 m2 in
      let m4 = io.outb slave_cmd_port icw1 m3 in
      let m5 = io.outb master_data_port master_base_irq m4 in
      let m6 = io.outb slave_data_port slave_base_irq m5 in
      let m7 = io.outb master_data_port 0x04 m6 in
      let m8 = io.outb slave_data_port 0x02 m7 in
      let m9 = io.outb master_data_port icw4_8086 m8 in
      let m10 = io.outb slave_data_port icw4_8086 m9 in
      let m11 = io.outb master_data_port master_mask m10 in io.outb slave_data_port slave_mask m11

  -- A new mask for the port, from the one that it holds.
  abbrev pub change_mask : ℕ → (ℕ → ℕ) → M → M
  change_mask port f m = let (mask, m') = io.inb port m in io.outb port (f mask) m'

  unfoldable pub pic_mask_dev : ℕ → M → M
  pic_mask_dev dev m =
      if leb master_base_irq dev && leb dev (master_base_irq + 7)
      then change_mask master_data_port (λ k. bit_or k (2 ^ (dev - master_base_irq))) m
      else if leb slave_base_irq dev && leb dev (slave_base_irq + 7)
      then change_mask slave_data_port (λ k. bit_or k (2 ^ (dev - slave_base_irq))) m
      else m

  -- `~(1 << k)` on a byte is `255 - 2 ^ k`.
  unfoldable pub pic_unmask_dev : ℕ → M → M
  pic_unmask_dev dev m =
      if leb master_base_irq dev && leb dev (master_base_irq + 7)
      then change_mask master_data_port (λ k. bit_and k (255 - 2 ^ (dev - master_base_irq))) m
      else if leb slave_base_irq dev && leb dev (slave_base_irq + 7)
      then change_mask slave_data_port (λ k. bit_and k (255 - 2 ^ (dev - slave_base_irq))) m
      else m

  -- The calls of `pic_mask_dev`, in order.
  unfoldable pub mask_all : List ℕ → M → M
  mask_all [] m = m
  mask_all (d ∷ ds) m = mask_all ds (pic_mask_dev d m)

  unfoldable pub pic_init : M → M
  pic_init m = mask_all devices (pic_remap m)
