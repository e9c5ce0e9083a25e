-- ===== src/Interrupts/Tests.antt =====
-- Runs of interrupts.c, on a machine that is its interrupt flag.
use rtc_driver.Base.{ℕ, ◌≡◌, refl, Bool, true, false, [], ◌∷◌, if◌then◌else◌}
use rtc_driver.Base.Run.{ok, hang, Cmd}
use rtc_driver.Cpu.{Ports}
use rtc_driver.Interrupts.{Itr, on_machine, itr_interrupt_handler}
use rtc_driver.Interrupts.Safety.{
  IsFlag, unlock_machine, lock, unlock, Steps, stop, next, itr_interrupt_handler_lem,
}

abbrev flag_ports : Ports Bool
flag_ports = record {
  inb = λ port m. (0, m);
  outb = λ port v m. m;
  cli = λ m. false;
  sti = λ m. true;
}

abbrev flag_hlt : Cmd Bool (Unit {0})
flag_hlt m = if m then ok tt m else hang

flag_ports-IsFlag : IsFlag flag_ports (λ m. m)
flag_ports-IsFlag = record {
  cli = λ m. refl;
  sti = λ m. refl;
  inb = λ port m. refl;
  outb = λ port v m. refl;
}

-- Every handler takes the lock and gives it back.
abbrev critical : ℕ → ℕ → ℕ → Itr Bool → Itr Bool
critical ih irq err s =
    on_machine (unlock_machine flag_ports s.itr_status) (on_machine flag_ports.cli s)

critical-Steps : (ih irq err : ℕ) (s : Itr Bool) → Steps flag_ports s (critical ih irq err s)
critical-Steps ih irq err s =
    next _ _ _ (lock s) (next _ _ _ (unlock (on_machine flag_ports.cli s)) (stop _))

abbrev kernel : ℕ → Itr Bool
kernel status = record {
  itr_status = status;
  handlers = 0 ∷ 77 ∷ [];
  idt = [];
  counter = 0;
  errors = record { errno = 0; panic_level = 0 };
  machine = false;
}

dispatch_example :
    (t : Itr Bool) × (itr_interrupt_handler flag_ports flag_hlt critical 1 0 (kernel 0) ≡ ok tt t)
    × (t.itr_status ≡ 0)
    × (t.machine ≡ false)
dispatch_example =
    itr_interrupt_handler_lem flag_ports flag_hlt (λ m. m) flag_ports-IsFlag critical 1 0 77
      (kernel 0) refl refl refl (λ t. critical-Steps 77 1 0 t)
