-- ===== src/Kb/Init.antt =====
-- `kb_init` of kb.c, over the interrupt table.
use rtc_driver.Base.{ℕ, ◌<◌, ◌≡◌, refl, false, List, [], arith, ◌==◌, if◌then◌else◌, length}
use rtc_driver.Base.Int.{ℤ, pos}
use rtc_driver.Base.Run.{Run, ok, fault, hang, panic, Cmd}
use rtc_driver.Cpu.{Ports}
use rtc_driver.Errors.{e_nomem, set_errno}
use rtc_driver.Interrupts.{
  Itr, gate_flags, itr_status_in, itr_set_interrupt_handler, itr_interrupt_handler, no_memory,
}
use rtc_driver.Interrupts.Safety.{itr_interrupt_handler-set}
use rtc_driver.Lock.{itr_status_not_in}
use rtc_driver.Kb.{Ring}
use rtc_driver.Kb.Queue.{queue, IsRing, contents}

abbrev pub pic_keyboard_irq : ℕ
pic_keyboard_irq = 0x21

pub record Keyboard (M : Type 0) : Type 0 where
  pub ring : Ring
  pub itr : Itr M

-- The rest of `kb_init` behind an error.
abbrev pub failed : {M : Type 0} → Ring → Run (Itr M) ℤ → Run (Keyboard M) ℤ
failed r (ok a s) = ok a (record { ring = r; itr = s })
failed r fault = fault
failed r hang = hang
failed r panic = panic

-- `p` is what kalloc answers, `raw` the bytes there (at NULL there are none), `handler` the address
-- of `kb_interrupt_handler`.
unfoldable pub kb_init : {M : Type 0} → ℕ → List ℕ → ℕ → Cmd (Keyboard M) ℤ
kb_init p raw handler s =
    let r : Ring = record { buffer = if p == 0 then [] else raw; head = 0; count = 0 } in
    if p == 0
    then failed r (no_memory (set_errno e_nomem s.itr.errors) s.itr)
    else ok (pos 0) (record {
      ring = r;
      itr = itr_set_interrupt_handler pic_keyboard_irq handler gate_flags s.itr;
    })

-- With 32 bytes from kalloc and a table that has the line, `kb_init` returns 0, the ring is empty
-- and well-formed, and the dispatcher calls the handler of the keyboard for its interrupt.
pub kb_init_lem :
    {M : Type 0} (hlt : Cmd M (Unit {0})) (call : ℕ → ℕ → ℕ → Itr M → Itr M) (io : Ports M)
    (p handler err : ℕ) (raw : List ℕ) (s : Keyboard M)
    → (p == 0) ≡ false
    → (handler == 0) ≡ false
    → length raw ≡ 32
    → 0x21 < length s.itr.handlers
    → (s' : Keyboard M) × (kb_init p raw handler s ≡ ok (pos 0) s')
      × IsRing s'.ring
      × (queue s'.ring ≡ [])
      × (itr_interrupt_handler io hlt call 0x21 err s'.itr
          ≡ ok tt (record (call handler 0x21 err (record s'.itr { itr_status = itr_status_in })) {
            itr_status = itr_status_not_in;
          }))
unfolding kb_init queue contents
kb_init_lem hlt call io p handler err raw s got there size line = (
  record {
    ring = record { buffer = raw; head = 0; count = 0 };
    itr = itr_set_interrupt_handler pic_keyboard_irq handler gate_flags s.itr;
  },
  rw got refl,
  record { size = size; head = omega arith; count = omega arith },
  refl,
  (itr_interrupt_handler-set io hlt call 0x21 err handler gate_flags s.itr line there).0,
)
