-- ===== src/Fb/Tests.antt =====
-- Runs of fb.c on an empty screen, where nothing answers at the ports.
use rtc_driver.Base.{ℕ, refl, arith, ◌==◌, if◌then◌else◌}
use rtc_driver.Cpu.{Ports}
use rtc_driver.Fb.{Fb, fb_write}
use rtc_driver.Fb.Cells.{Shown, Written, fb_write_lem}

abbrev no_ports : Ports (Unit {0})
no_ports = record { inb = λ p m. (0, m); outb = λ p v m. m; cli = λ m. m; sti = λ m. m }

-- Light grey on blue, in the last cell but one.
abbrev screen : Fb (Unit {0})
screen = record { pos = 1998; cur = 0; col = 0x17; vram = λ i. 0; machine = tt }

-- "abc"
abbrev abc : ℕ → ℕ
abc k = if k == 0 then 0x61 else if k == 1 then 0x62 else if k == 2 then 0x63 else 0

abc-Shown : Shown abc 0 10 3
abc-Shown = record { most = omega arith; chars = λ k lt e. ground arith; stop = λ lt. refl }

fb_write_example : Written no_ports abc 0 3 screen (fb_write no_ports abc 10 screen)
fb_write_example = fb_write_lem no_ports abc 10 3 screen (omega arith) (omega arith) abc-Shown
