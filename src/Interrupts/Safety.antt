-- ===== src/Interrupts/Safety.antt =====
-- The lock inside a handler: interrupts stay disabled until the dispatcher is left.
use rtc_driver.Base.{
  ℕ, ◌<◌, ◌≡◌, ◌≢◌, refl, ◌∙◌, Bool, true, false, some, ◌==◌, if◌then◌else◌, get_elem?, length,
  get_elem?-set_self, get_elem?-set_ne,
}
use rtc_driver.Base.Run.{ok, Cmd}
use rtc_driver.Cpu.{Ports}
use rtc_driver.Lock.{itr_status_not_in}
use rtc_driver.Interrupts.{
  Itr, itr_status_in, on_machine, itr_set_interrupt_handler, run_entry, itr_interrupt_handler,
}

-- The interrupt flag of the processor: only `cli` and `sti` change it.
pub record IsFlag {M : Type 0} (io : Ports M) (enabled : M → Bool) : Type 0 where
  pub cli : (m : M) → enabled (io.cli m) ≡ false
  pub sti : (m : M) → enabled (io.sti m) ≡ true
  pub inb : (port : ℕ) (m : M) → enabled (io.inb port m).1 ≡ enabled m
  pub outb : (port v : ℕ) (m : M) → enabled (io.outb port v m) ≡ enabled m

-- `unlock` of interrupts.c with the processor behind `io`.
unfoldable pub unlock_machine : {M : Type 0} → Ports M → ℕ → M → M
unlock_machine io status m = if status == itr_status_not_in then io.sti m else m

-- What a handler of the kernel is made of.
pub data Step {M : Type 0} (io : Ports M) : Itr M → Itr M → Type 0 where
  lock : (s : Itr M) → Step io s (on_machine io.cli s)
  unlock : (s : Itr M) → Step io s (on_machine (unlock_machine io s.itr_status) s)
  read : (port : ℕ) (s : Itr M) → Step io s (on_machine (λ m. (io.inb port m).1) s)
  write : (port v : ℕ) (s : Itr M) → Step io s (on_machine (io.outb port v) s)
  hook :
      (irq handler flags : ℕ) (s : Itr M)
      → Step io s (itr_set_interrupt_handler irq handler flags s)
  count : (n : ℕ) (s : Itr M) → Step io s (record s { counter = n })

pub data Steps {M : Type 0} (io : Ports M) : Itr M → Itr M → Type 0 where
  stop : (s : Itr M) → Steps io s s
  next : (s t u : Itr M) → Step io s t → Steps io t u → Steps io s u

-- In a handler, with the interrupts disabled.
pub record Inside {M : Type 0} (enabled : M → Bool) (s : Itr M) : Type 0 where
  pub status : s.itr_status ≡ itr_status_in
  pub disabled : enabled s.machine ≡ false

module _ {M : Type 0} (io : Ports M) (hlt : Cmd M (Unit {0})) (enabled : M → Bool)
    (flag : IsFlag io enabled) where
  step-Inside : (s t : Itr M) → Step io s t → Inside enabled s → Inside enabled t
  unfolding unlock_machine itr_set_interrupt_handler
  step-Inside _ _ (lock s) is = record { status = is.status; disabled = flag.cli s.machine }
  step-Inside _ _ (unlock s) is = record { status = is.status; disabled = rw is.status is.disabled }
  step-Inside _ _ (read port s) is = record {
    status = is.status;
    disabled = flag.inb port s.machine ∙ is.disabled;
  }
  step-Inside _ _ (write port v s) is = record {
    status = is.status;
    disabled = flag.outb port v s.machine ∙ is.disabled;
  }
  step-Inside _ _ (hook irq handler flags s) is = record {
    status = is.status;
    disabled = is.disabled;
  }
  step-Inside _ _ (count n s) is = record { status = is.status; disabled = is.disabled }

  -- Inside a handler with interrupts disabled, any sequence of locks, unlocks, port reads and
  -- writes, new handlers and counting stays inside the handler and never enables interrupts.
  pub steps-Inside : (s t : Itr M) → Steps io s t → Inside enabled s → Inside enabled t
  steps-Inside _ _ (stop s) is = is
  steps-Inside _ _ (next s t u step rest) is = steps-Inside t u rest (step-Inside s t step is)

  -- With the processor's interrupt flag clear on entry, and a handler in the table that is made of
  -- such steps: the dispatcher returns, it has left interrupt mode, and interrupts have stayed
  -- disabled.
  pub itr_interrupt_handler_lem :
      (call : ℕ → ℕ → ℕ → Itr M → Itr M) (irq err ih : ℕ) (s : Itr M)
      → enabled s.machine ≡ false
      → get_elem? s.handlers irq ≡ some ih
      → (ih == 0) ≡ false
      → ((t : Itr M) → Steps io t (call ih irq err t))
      → (t : Itr M) × (itr_interrupt_handler io hlt call irq err s ≡ ok tt t)
        × (t.itr_status ≡ itr_status_not_in)
        × (enabled t.machine ≡ false)
  unfolding itr_interrupt_handler run_entry
  itr_interrupt_handler_lem call irq err ih s off entry there made =
      let s' : Itr M = record s { itr_status = itr_status_in } in
      let t = call ih irq err s' in
      let inside = steps-Inside s' t (made s') (record { status = refl; disabled = off }) in
      (record t { itr_status = itr_status_not_in }, rw entry (rw there refl), refl, inside.disabled)

-- A handler that is set for a line of the table, and is not NULL, is what the dispatcher calls
-- for an interrupt on the line, and the entries of the other lines are as they were.
pub itr_interrupt_handler-set :
    {M : Type 0} (io : Ports M) (hlt : Cmd M (Unit {0})) (call : ℕ → ℕ → ℕ → Itr M → Itr M)
    (irq err ih flags : ℕ) (s : Itr M)
    → irq < length s.handlers
    → (ih == 0) ≡ false
    → let t = itr_set_interrupt_handler irq ih flags s in
      (itr_interrupt_handler io hlt call irq err t
        ≡ ok tt (record (call ih irq err (record t { itr_status = itr_status_in })) {
          itr_status = itr_status_not_in;
        }))
      × ((other : ℕ) → irq ≢ other → get_elem? t.handlers other ≡ get_elem? s.handlers other)
unfolding itr_interrupt_handler run_entry itr_set_interrupt_handler
itr_interrupt_handler-set io hlt call irq err ih flags s inside there = (
  rw (get_elem?-set_self s.handlers irq ih inside) (rw there refl),
  λ other ne. get_elem?-set_ne s.handlers ih ne,
)
