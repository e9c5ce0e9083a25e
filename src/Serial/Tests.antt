-- ===== src/Serial/Tests.antt =====
-- Runs of serial.c, on a line that is always ready.
use rtc_driver.Base.{
  ℕ, ◌≤◌, ◌<◌, ◌≡◌, refl, true, false, arith, List, [], ◌∷◌, ◌++◌, replicate, take, drop, length,
  none, some, ◌==◌, if◌then◌else◌, suc,
}
use rtc_driver.Base.Int.{pos, minus_one}
use rtc_driver.Base.Run.{ok}
use rtc_driver.Cpu.{Ports}
use rtc_driver.Serial.{
  Device, Buffer, Config, store_byte, drain, serial_interrupt_handler, flag_in_use, e_busy, e_nodev,
}
use rtc_driver.Serial.File.{
  Line, find_device, serial_open, serial_release, serial_read, serial_write,
}
use rtc_driver.Serial.Probe.{Kernel}
use rtc_driver.Serial.Queue.{queue, IsBuffer, store_byte_lem, drain_lem}
use rtc_driver.Serial.Open.{files, flagged, serial_open-serial_release, serial_open-none}
use rtc_driver.Serial.Read.{halts, is_empty, serial_read_lem}
use rtc_driver.Serial.Write.{line, IsTransmitter, serial_write_lem}
use rtc_driver.Serial.Handler.{AllServed, AllBuffers, serial_interrupt_handler_lem}
use rtc_driver.Serial.Setup.{Uart, dlab, IsUart}

-- A buffer with two bytes, around its end.
abbrev two_bytes : Buffer
two_bytes = record { write_head = 1; read_head = 63; buffer = 66 ∷ replicate 62 0 ++ 65 ∷ [] }

two_bytes-IsBuffer : IsBuffer two_bytes
two_bytes-IsBuffer = record { size = refl; write = omega arith; read = omega arith }

-- A buffer with 63 bytes.
abbrev full : Buffer
full = record { write_head = 63; read_head = 0; buffer = replicate 64 7 }

full-IsBuffer : IsBuffer full
full-IsBuffer = record { size = refl; write = omega arith; read = omega arith }

store_byte_example :
    (queue (store_byte 9 full) ≡ (if length (queue full) == 63 then [] else queue full ++ 9 ∷ []))
    × IsBuffer (store_byte 9 full)
store_byte_example = store_byte_lem 9 full full-IsBuffer

drain_example :
    ((drain 1 two_bytes).0 ≡ take 1 (queue two_bytes))
    × (queue (drain 1 two_bytes).1 ≡ drop 1 (queue two_bytes))
    × IsBuffer (drain 1 two_bytes).1
drain_example = drain_lem 1 two_bytes two_bytes-IsBuffer

abbrev config : Config
config = record { divisor = 3; interrupts = 7; line_ctl = 7; fifo_ctl = 0x47; modem_ctl = 0 }

abbrev com1 : Device
com1 = record {
  devid = 1088;
  base = 0x3f8;
  irq = 0x24;
  kind = 4;
  name = [];
  flags = 0;
  config = config;
  read_buf = two_bytes;
}

serial_open_example :
    (serial_open 1088 (files (com1 ∷ []) 0 255)
      ≡ ok (pos 0, some 0) (files (flagged com1 flag_in_use ∷ []) 0 255))
    × (serial_open 1088 (files (flagged com1 flag_in_use ∷ []) 0 255)
        ≡ ok (minus_one, none) (files (flagged com1 flag_in_use ∷ []) e_busy 255))
    × (serial_release 0 (files (flagged com1 flag_in_use ∷ []) e_busy 255)
        ≡ ok (pos 0) (files (com1 ∷ []) e_busy 255))
unfolding find_device
serial_open_example = serial_open-serial_release 1088 [] com1 [] 0 255 refl refl refl refl

serial_open-none_example :
    serial_open 1 (files (com1 ∷ []) 0 255) ≡ ok (minus_one, none) (files (com1 ∷ []) e_nodev 255)
unfolding find_device
serial_open-none_example = serial_open-none 1 (com1 ∷ []) 0 255 refl refl

-- The bytes sent are the state; the line status always reads as ready.
abbrev ready_line : Ports (List ℕ)
ready_line = record {
  inb = λ port m. (0x60, m);
  outb = λ port v m. if port == 0x3f8 then m ++ v ∷ [] else m;
  cli = λ m. m;
  sti = λ m. m;
}

never_busy : (m : List ℕ) (k : ℕ) {A : Type 0} → 0 ≡ suc k → A
never_busy m k e = absurd (omega arith)

ready_line-IsTransmitter : IsTransmitter ready_line 0x3f8 1 (λ _. 0) (λ m. m)
ready_line-IsTransmitter = record {
  ready = λ m e. refl;
  stays = λ m e. refl;
  busy = λ m k e. never_busy m k e;
  nearer = λ m k e. never_busy m k e;
  keeps = λ m. refl;
  takes = λ m b e. refl;
  bounded = λ m. omega arith;
}

serial_write_example :
    (s' : Line (List ℕ)) × (serial_write ready_line 1 (72 ∷ 105 ∷ []) 2 (line com1 0 []) ≡ ok 2 s')
    × (s'.machine ≡ [] ++ take 2 (72 ∷ 105 ∷ []))
serial_write_example =
    serial_write_lem ready_line com1 1 (λ _. 0) (λ m. m) ready_line-IsTransmitter (72 ∷ 105 ∷ []) 2
      0 [] (omega arith)

abbrev reading : Line (List ℕ)
reading = line (record com1 { read_buf = record two_bytes { read_head = 1 } }) 0 []

-- A halt that brings a byte.
abbrev arrival : Line (List ℕ) → Line (List ℕ)
arrival s = record s { dev = record s.dev { read_buf = store_byte 72 s.dev.read_buf } }

no_bytes-IsBuffer : IsBuffer reading.dev.read_buf
no_bytes-IsBuffer = record { size = refl; write = omega arith; read = omega arith }

serial_read_example :
    (j : ℕ) × (s' : Line (List ℕ)) × (j ≤ 1)
    × ((i : ℕ) → i < j → is_empty (halts arrival i reading) ≡ true)
    × (is_empty (halts arrival j reading) ≡ false)
    × (let bytes = take 4 (queue (halts arrival j reading).dev.read_buf) in
        serial_read ready_line arrival 2 0 4 reading ≡ ok (length bytes, bytes) s')
    × (queue s'.dev.read_buf ≡ drop 4 (queue (halts arrival j reading).dev.read_buf))
    × IsBuffer s'.dev.read_buf
unfolding halts store_byte
serial_read_example =
    serial_read_lem arrival (λ s is. (store_byte_lem 72 s.dev.read_buf is).1) ready_line 2 0 4 1
      reading no_bytes-IsBuffer (omega arith) refl

-- A chip that interrupts because the byte 65 is there.
abbrev byte_line : Ports (List ℕ)
byte_line = record ready_line { inb = λ port m. (if port == 0x3fa then 0x04 else 65, m) }

handler_example :
    AllServed byte_line 1 0x24 []
      (com1 ∷ [])
      (serial_interrupt_handler byte_line 1 0x24 (com1 ∷ []) []).0
    × AllBuffers (serial_interrupt_handler byte_line 1 0x24 (com1 ∷ []) []).0
handler_example =
    serial_interrupt_handler_lem byte_line 1 0x24 (com1 ∷ []) [] (two_bytes-IsBuffer, tt)

-- A chip that has a FIFO of 64 bytes once it is asked for one.
abbrev fifo_line : Ports (List ℕ)
fifo_line = record {
  inb = λ port m. (if port == 0x3fa then (if length m == 0 then 1 else 0xe1) else 0, m);
  outb = λ port v m. m ++ v ∷ [];
  cli = λ m. m;
  sti = λ m. m;
}

abbrev kernel : Kernel (List ℕ)
kernel = record { register = λ devid name m. m; set_handler = λ irq flags m. m }

-- The registers of a chip at 0x3f8.
abbrev chip_out : ℕ → ℕ → Uart → Uart
chip_out port v u =
    if port == 0x3f8
    then (if dlab u then record u { divisor_low = v } else u)
    else if port == 0x3f9
    then (if dlab u then record u { divisor_high = v } else record u { interrupt_enable = v })
    else if port == 0x3fa
    then record u { fifo_control = v }
    else if port == 0x3fb
    then record u { line_control = v }
    else if port == 0x3fc
    then record u { modem_control = v }
    else u

abbrev chip_ports : Ports Uart
chip_ports = record { inb = λ port u. (0, u); outb = chip_out; cli = λ u. u; sti = λ u. u }

chip_ports-IsUart : IsUart chip_ports 0x3f8 (λ u. u)
chip_ports-IsUart = record {
  low = λ v u e. rw e refl;
  high = λ v u e. rw e refl;
  enable = λ v u e. rw e refl;
  fifo = λ v u. refl;
  line = λ v u. refl;
  modem = λ v u. refl;
}

abbrev reset : Uart
reset = record {
  divisor_low = 1;
  divisor_high = 0;
  interrupt_enable = 0;
  fifo_control = 0;
  line_control = 3;
  modem_control = 8;
}
