-- ===== src/Kb/Tests.antt =====
-- Runs of kb.c.
use rtc_driver.Base.{ℕ, refl, arith, inr, [], ◌∷◌, ◌++◌, replicate}
use rtc_driver.Cpu.{Ports}
use rtc_driver.Interrupts.{Itr}
use rtc_driver.Kb.Init.{Keyboard}
use rtc_driver.Kb.{Ring, Kb, take_byte}
use rtc_driver.Kb.Queue.{slice, IsRing}
use rtc_driver.Kb.Refine.{IsKb, Taken, waits, take_byte_lem}

-- A ring with one byte at its end, 0xe0, and the next about to wrap.
abbrev ring : Ring
ring = record { buffer = replicate 31 0x1e ++ 0xe0 ∷ []; head = 31; count = 1 }

abbrev keyboard : Kb (Unit {0})
keyboard = record { ring = ring; partial = 0xe0 ∷ 0 ∷ 0 ∷ 0 ∷ 0 ∷ 0 ∷ []; len = 1; machine = tt }

ring-IsRing : IsRing ring
ring-IsRing = record { size = refl; head = omega arith; count = omega arith }

keyboard-IsKb : IsKb keyboard
unfolding waits slice
keyboard-IsKb = record {
  ring = ring-IsRing;
  partial = omega arith;
  len = omega arith;
  begun = inr refl;
}

take_byte_example : Taken 0x48 keyboard (take_byte 0x48 keyboard) × IsKb (take_byte 0x48 keyboard)
take_byte_example = take_byte_lem 0x48 keyboard keyboard-IsKb

abbrev call : ℕ → ℕ → ℕ → Itr (Unit {0}) → Itr (Unit {0})
call handler irq err s = s

abbrev ports : Ports (Unit {0})
ports = record { inb = λ port m. (0, m); outb = λ port v m. m; cli = λ m. m; sti = λ m. m }

abbrev before : Keyboard (Unit {0})
before = record {
  ring = record { buffer = []; head = 3; count = 4 };
  itr = record {
    itr_status = 0;
    handlers = replicate 256 0;
    idt = [];
    counter = 0;
    errors = record { errno = 0; panic_level = 2 };
    machine = tt;
  };
}
