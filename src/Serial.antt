-- ===== src/Serial.antt =====
-- src/kernel/drivers/serial.c: the driver of the four serial ports. `devices` is a list of records;
-- the buffer of a device is a list of 64 bytes with its two heads. `register` and `set_handler` are
-- what `serial_init` calls in devices.c and interrupts.c. What `serial_check_line_condition` prints
-- is not part of the state. `private_data`, a pointer into `devices`, is an index. The operations
-- on an open file are in Serial/File, `serial_init` is in Serial/Probe.
pub mod File
pub mod Probe
pub mod Queue
pub mod Found
pub mod Handler
pub mod Open
pub mod Read
pub mod Write
pub mod Setup
mod Tests
use rtc_driver.Base.{
  ℕ, zero, suc, ◌+◌, ◌*◌, ◌/◌, ◌%◌, ◌^◌, Bool, ◌||◌, Option, none, some, List, [], ◌∷◌, bit_and,
  not, ltb, ◌==◌, if◌then◌else◌, get_or, get_elem?, set, replicate, length,
}
use rtc_driver.Base.Int.{ℤ, pos, minus_one}
use rtc_driver.Base.Run.{ok, fault, hang, panic, Run, Cmd}
use rtc_driver.Cpu.{Ports}
pub use rtc_driver.Errors.{e_nodev, e_busy}
use rtc_driver.Lock.{itr_status_not_in}
use rtc_driver.Errors.{Errors, set_errno}
use rtc_driver.Pic.{pic_send_eoi}

abbrev pub serial_buffer_len : ℕ
serial_buffer_len = 64

-- PIC_SERIAL_1_IRQ and PIC_SERIAL_2_IRQ
abbrev pub pic_serial_1_irq : ℕ
pic_serial_1_irq = 0x24

abbrev pub pic_serial_2_irq : ℕ
pic_serial_2_irq = 0x23

abbrev pub type_unknown : ℕ
type_unknown = 0

abbrev pub type_8250 : ℕ
type_8250 = 1

abbrev pub type_16450 : ℕ
type_16450 = 2

abbrev pub type_16550 : ℕ
type_16550 = 3

abbrev pub type_16550a : ℕ
type_16550a = 4

abbrev pub type_16750 : ℕ
type_16750 = 5

abbrev pub flag_unused : ℕ
flag_unused = 0

abbrev pub flag_in_use : ℕ
flag_in_use = 1

abbrev pub e_noseek : ℕ
e_noseek = 21

-- `serial_buffer_t`
pub record Buffer : Type 0 where
  pub write_head : ℕ
  pub read_head : ℕ
  pub buffer : List ℕ

pub record Config : Type 0 where
  pub divisor : ℕ
  pub interrupts : ℕ
  pub line_ctl : ℕ
  pub fifo_ctl : ℕ
  pub modem_ctl : ℕ

-- `serial_device_t`; `kind` is its `type`.
pub record Device : Type 0 where
  pub devid : ℕ
  pub base : ℕ
  pub irq : ℕ
  pub kind : ℕ
  pub name : List ℕ
  pub flags : ℕ
  pub config : Config
  pub read_buf : Buffer

-- DEV_MAKE_DEV
abbrev pub make_dev : ℕ → ℕ → ℕ
make_dev major minor = (major % 2 ^ 8) * 2 ^ 8 + minor % 2 ^ 8

-- A device of the table, whose other members are zero; the names end in a NUL.
abbrev device : ℕ → ℕ → ℕ → ℕ → Device
device minor base irq digit = record {
  devid = make_dev 4 minor;
  base = base;
  irq = irq;
  kind = type_unknown;
  name = 116 ∷ 116 ∷ 121 ∷ 83 ∷ digit ∷ 0 ∷ [];
  flags = flag_unused;
  config = record { divisor = 0; interrupts = 0; line_ctl = 0; fifo_ctl = 0; modem_ctl = 0 };
  read_buf = record { write_head = 0; read_head = 0; buffer = replicate serial_buffer_len 0 };
}

unfoldable pub serial_devices : List Device
serial_devices =
    device 64 0x03f8 pic_serial_1_irq 48
    ∷ device 65 0x02f8 pic_serial_2_irq 49
    ∷ device 66 0x03e8 pic_serial_1_irq 50
    ∷ device 67 0x02e8 pic_serial_2_irq 51
    ∷ []

-- Whether `w & mask` is not 0.
abbrev pub has_bits : ℕ → ℕ → Bool
has_bits w mask = not (bit_and w mask == 0)

-- The buffer's part of `serial_read_byte`.
unfoldable pub store_byte : ℕ → Buffer → Buffer
store_byte b r = record r {
  buffer = set r.buffer r.write_head b;
  write_head = (r.write_head + 1) % serial_buffer_len;
}

-- The second loop of `serial_read`, with `n` bytes of room left: the bytes that it copies.
unfoldable pub drain : ℕ → Buffer → List ℕ × Buffer
drain zero r = ([], r)
drain (suc n) r =
    let rest = drain n (record r { read_head = (r.read_head + 1) % serial_buffer_len }) in
    if r.read_head == r.write_head
    then ([], r)
    else (get_or r.buffer r.read_head 0 ∷ rest.0, rest.1)

-- `unlock` with the processor behind `io`.
abbrev pub unlock_ports : {M : Type 0} → Ports M → ℕ → M → M
unlock_ports io status m = if status == itr_status_not_in then io.sti m else m

module _ {M : Type 0} (io : Ports M) where
  unfoldable pub serial_set_config : Device → M → M
  serial_set_config d m =
      let m1 = io.outb (d.base + 3) 0x80 m in
      let m2 = io.outb d.base (d.config.divisor % 2 ^ 8) m1 in
      let m3 = io.outb (d.base + 1) (d.config.divisor / 2 ^ 8 % 2 ^ 8) m2 in
      let m4 = io.outb (d.base + 3) (d.config.line_ctl % 2 ^ 7) m3 in
      let m5 = if d.kind == type_8250 then m4 else io.outb (d.base + 2) d.config.fifo_ctl m4 in
      let m6 = io.outb (d.base + 4) d.config.modem_ctl m5 in
      let m7 = io.outb (d.base + 1) d.config.interrupts m6 in
      if d.kind == type_unknown then m else m7

  -- `status` is `itr_status`.
  unfoldable pub serial_read_byte : ℕ → Device → M → Device × M
  serial_read_byte status d m =
      let (b, m') = io.inb d.base (io.cli m) in
      (record d { read_buf = store_byte b d.read_buf }, unlock_ports io status m')

  unfoldable pub serial_write_byte : Device → ℕ → M → M
  serial_write_byte d c m = io.outb d.base c m

  unfoldable pub serial_check_line_condition : Device → M → M
  serial_check_line_condition d m = (io.inb (d.base + 5) m).1

  -- What the handler does for a device that identifies its interrupt by `iir`.
  unfoldable pub dispatch : ℕ → ℕ → Device → M → Device × M
  dispatch status iir d m =
      let cause = bit_and iir 0x0e in
      if cause == 0x04
      then serial_read_byte status d m
      else if cause == 0x02
      then (d, (io.inb (d.base + 2) m).1)
      else if cause == 0x06
      then (d, serial_check_line_condition d m)
      else if cause == 0x0c
      then serial_read_byte status d m
      else (d, m)

  -- A round of the loop of the handler.
  unfoldable pub service : ℕ → ℕ → Device → M → Device × M
  service status irq d m =
      let (iir, m') = io.inb (d.base + 2) m in
      if d.kind == type_unknown
      then (d, m)
      else if not (d.irq == irq)
      then (d, m)
      else if has_bits iir 0x01
      then (d, m')
      else dispatch status iir d m'

  unfoldable pub service_all : ℕ → ℕ → List Device → M → List Device × M
  service_all status irq [] m = ([], m)
  service_all status irq (d ∷ ds) m =
      let (d', m1) = service status irq d m in
      let (ds', m2) = service_all status irq ds m1 in (d' ∷ ds', m2)

  unfoldable pub serial_interrupt_handler : ℕ → ℕ → List Device → M → List Device × M
  serial_interrupt_handler status irq ds m =
      let (ds', m') = service_all status irq ds m in (ds', pic_send_eoi io irq m')
