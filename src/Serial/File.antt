-- ===== src/Serial/File.antt =====
-- The file operations of serial.c.
use rtc_driver.Base.{
  ℕ, zero, suc, ◌+◌, ◌%◌, ◌^◌, Option, none, some, List, [], ◌∷◌, ◌==◌, if◌then◌else◌, get_elem?,
  set, length,
}
use rtc_driver.Base.Int.{ℤ, pos, minus_one}
use rtc_driver.Base.Run.{ok, fault, hang, panic, Run, Cmd, and_then}
use rtc_driver.Cpu.{Ports}
use rtc_driver.Errors.{Errors, set_errno}
use rtc_driver.Serial.{
  Device, flag_unused, flag_in_use, e_nodev, e_busy, e_noseek, drain, has_bits, unlock_ports,
  serial_write_byte,
}

pub record Files : Type 0 where
  pub devices : List Device
  pub errors : Errors

-- The rest of a function behind `set_errno`.
abbrev pub after_errno : {A : Type 0} → Run Errors (Unit {0}) → A → Cmd Files A
after_errno (ok _ r) a s = ok a (record s { errors = r })
after_errno fault a s = fault
after_errno hang a s = hang
after_errno panic a s = panic

-- `set_errno(e); return -1`, which leaves `private_data` alone.
unfoldable pub fail : {A : Type 0} → ℕ → A → Cmd Files A
fail e a s = after_errno (set_errno e s.errors) a s

abbrev pub one_later : Option (ℕ × Device) → Option (ℕ × Device)
one_later none = none
one_later (some (i, e)) = some (suc i, e)

-- The first device of the number, with its index.
unfoldable pub find_device : ℕ → List Device → Option (ℕ × Device)
find_device v_dev [] = none
find_device v_dev (d ∷ ds) =
    let rest = find_device v_dev ds in if v_dev == d.devid then some (0, d) else one_later rest

-- `serial_open` with the device that it has found.
unfoldable pub open_found : Option (ℕ × Device) → Cmd Files (ℤ × Option ℕ)
open_found none s = fail e_nodev (minus_one, none) s
open_found (some (i, d)) s =
    if d.flags == flag_in_use
    then fail e_busy (minus_one, none) s
    else ok (pos 0, some i)
        (record s { devices = set s.devices i (record d { flags = flag_in_use }) })

-- The status, and what `private_data` is set to, if it is.
unfoldable pub serial_open : ℕ → Cmd Files (ℤ × Option ℕ)
serial_open v_dev s = open_found (find_device v_dev s.devices) s

unfoldable pub release_found : ℕ → Option Device → Cmd Files ℤ
release_found i none s = fault
release_found i (some d) s =
    ok (pos 0) (record s { devices = set s.devices i (record d { flags = flag_unused }) })

unfoldable pub serial_release : ℕ → Cmd Files ℤ
serial_release private_data s = release_found private_data (get_elem? s.devices private_data) s

unfoldable pub serial_lseek : Cmd Files ℤ
serial_lseek s = fail e_noseek minus_one s

unfoldable pub serial_ioctl : Cmd Files ℤ
serial_ioctl s = ok (pos 0) s

-- An open file with its device and the machine.
pub record Line (M : Type 0) : Type 0 where
  pub dev : Device
  pub f_pos : ℕ
  pub machine : M

-- `hlt` is what has happened when `hw_hlt` returns: the interrupts in between may have put bytes
-- into the buffer.
unfoldable pub wait_data : {M : Type 0} → (Line M → Line M) → ℕ → Cmd (Line M) (Unit {0})
wait_data hlt zero s = hang
wait_data hlt (suc fuel) s =
    let rest = wait_data hlt fuel (hlt s) in
    if s.dev.read_buf.read_head == s.dev.read_buf.write_head then rest else ok tt s

module _ {M : Type 0} (io : Ports M) where
  -- What `serial_read` does once a byte is waiting; its result and the bytes in `buf`.
  unfoldable pub read_waiting : ℕ → ℕ → Line M → (ℕ × List ℕ) × Line M
  read_waiting status count s =
      let (bytes, r) = drain count s.dev.read_buf in
      (
        (length bytes, bytes),
        record {
          dev = record s.dev { read_buf = r };
          f_pos = (s.f_pos + length bytes) % 2 ^ 32;
          machine = unlock_ports io status (io.cli s.machine);
        },
      )

  unfoldable pub serial_read : (Line M → Line M) → ℕ → ℕ → ℕ → Cmd (Line M) (ℕ × List ℕ)
  serial_read hlt fuel status count s =
      and_then (wait_data hlt fuel s)
        (λ _ s'. let (result, s'') = read_waiting status count s' in ok result s'')

  -- The loop that waits for the line, on `fuel`.
  unfoldable pub wait_line : ℕ → Device → Cmd M (Unit {0})
  wait_line zero d m = hang
  wait_line (suc fuel) d m =
      let (status, m') = io.inb (d.base + 5) m in
      let rest = wait_line fuel d m' in if has_bits status 0x40 then ok tt m' else rest

  -- The loop of `serial_write` with `n` rounds left, at index `i`; each wait has `fuel`.
  unfoldable pub write_loop : ℕ → Device → List ℕ → ℕ → ℕ → Cmd M (Unit {0})
  write_loop fuel d buf zero i m = ok tt m
  write_loop fuel d buf (suc n) i m = and_then (wait_line fuel d m) (λ _ m'.
      elim (get_elem? buf i) [
        | none ↦ fault
        | some b ↦ write_loop fuel d buf n (suc i) (serial_write_byte io d b m')
      ])

  -- The end of `serial_write`.
  abbrev pub finish_write : ℕ → Run M (Unit {0}) → Cmd (Line M) ℕ
  finish_write count (ok _ m) s =
      ok count (record s { f_pos = (s.f_pos + count) % 2 ^ 32; machine = m })
  finish_write count fault s = fault
  finish_write count hang s = hang
  finish_write count panic s = panic

  unfoldable pub serial_write : ℕ → List ℕ → ℕ → Cmd (Line M) ℕ
  serial_write fuel buf count s = finish_write count (write_loop fuel s.dev buf count 0 s.machine) s
