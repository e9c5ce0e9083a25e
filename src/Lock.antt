-- ===== src/Lock.antt =====
-- `lock` and `unlock` of src/kernel/interrupts.c: the interrupt flag of the processor is cleared by
-- `hw_cli` and set by `hw_sti`, and `itr_status` says whether an interrupt handler is running.
use rtc_driver.Base.{ℕ, Bool, true, false, ◌==◌, if◌then◌else◌}

abbrev pub itr_status_not_in : ℕ
itr_status_not_in = 0

pub record Lock : Type 0 where
  pub itr_status : ℕ
  pub interrupts : Bool

unfoldable pub lock : Lock → Lock
lock s = record s { interrupts = false }

unfoldable pub unlock : Lock → Lock
unlock s = if s.itr_status == itr_status_not_in then record s { interrupts = true } else s
