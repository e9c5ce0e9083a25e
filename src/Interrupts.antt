-- ===== src/Interrupts.antt =====
-- src/kernel/interrupts.c and src/kernel/drivers/pit.c: the table of handlers, the dispatcher that
-- the assembly calls, and the interval timer. A handler is its address, 0 is NULL; `call` is what a
-- handler does, with the number of the interrupt and the error code. `hlt`, `offsets` and `load` are
-- `hw_hlt`, `itr_set_idt_entries_offsets` and `itr_load_idt`. What is printed is not in the state.
pub mod Safety
mod Tests
use rtc_driver.Base.{
  ℕ, ◌+◌, ◌*◌, ◌-◌, ◌%◌, ◌/◌, ◌^◌, Option, none, some, List, [], ◌∷◌, map, ◌==◌, if◌then◌else◌,
  get_elem?, set, replicate,
}
use rtc_driver.Base.Int.{ℤ, pos, minus_one}
use rtc_driver.Base.Run.{ok, fault, hang, panic, Run, Cmd, and_then}
use rtc_driver.Cpu.{Ports}
use rtc_driver.Lock.{itr_status_not_in}
use rtc_driver.Errors.{Errors, set_errno, e_nomem}
use rtc_driver.Pic.{pic_send_eoi}

abbrev pub itr_status_in : ℕ
itr_status_in = 1

abbrev pub idt_entries : ℕ
idt_entries = 256

-- IDT_PRESENT | IDT_GATE_INTR | IDT_DPL_RING_0
abbrev pub gate_flags : ℕ
gate_flags = 0x8e00

-- IDT_NOT_PRESENT | IDT_DPL_RING_0 | IDT_GATE_INTR
abbrev pub absent_flags : ℕ
absent_flags = 0x0e00

-- GDT_KERNEL_CODE_SEGMENT
abbrev pub kernel_code_segment : ℕ
kernel_code_segment = 0x08

abbrev pub pic_timer_irq : ℕ
pic_timer_irq = 0x20

abbrev pub pit_channel_0_port : ℕ
pit_channel_0_port = 0x40

abbrev pub pit_cmd_port : ℕ
pit_cmd_port = 0x43

abbrev pub oscillator_frequency : ℕ
oscillator_frequency = 1193182

abbrev pub output_frequency : ℕ
output_frequency = 100

-- `itr_idt_entry_t`
pub record Gate : Type 0 where
  pub off_low : ℕ
  pub segment : ℕ
  pub flags : ℕ
  pub off_high : ℕ

-- The globals of interrupts.c and the counter of pit.c.
pub record Itr (M : Type 0) : Type 0 where
  pub itr_status : ℕ
  pub handlers : List ℕ
  pub idt : List Gate
  pub counter : ℕ
  pub errors : Errors
  pub machine : M

abbrev pub with_flags : ℕ → Gate → Gate
with_flags flags g = record g { flags = flags }

abbrev pub gate_at : List Gate → ℕ → (Gate → Gate) → List Gate
gate_at idt irq f = elim (get_elem? idt irq) [ none ↦ idt | some g ↦ set idt irq (f g) ]

-- `irq` is a u8 and both tables have 256 entries.
unfoldable pub itr_set_interrupt_handler : {M : Type 0} → ℕ → ℕ → ℕ → Itr M → Itr M
itr_set_interrupt_handler irq handler flags s = record s {
  handlers = set s.handlers irq handler;
  idt = gate_at s.idt irq (with_flags flags);
}

-- A command of the machine within the kernel's state.
abbrev pub resumed : {M : Type 0} → Run M (Unit {0}) → Cmd (Itr M) (Unit {0})
resumed (ok _ m) s = ok tt (record s { machine = m })
resumed fault s = fault
resumed hang s = hang
resumed panic s = panic

abbrev pub leave : {M : Type 0} → Cmd (Itr M) (Unit {0})
leave s = ok tt (record s { itr_status = itr_status_not_in })

abbrev pub on_machine : {M : Type 0} → (M → M) → Itr M → Itr M
on_machine f s = record s { machine = f s.machine }

module _ {M : Type 0} (io : Ports M) (hlt : Cmd M (Unit {0}))
    (call : ℕ → ℕ → ℕ → Itr M → Itr M) where
  -- What the dispatcher does with the entry of the table.
  unfoldable pub run_entry : ℕ → ℕ → Option ℕ → Cmd (Itr M) (Unit {0})
  run_entry irq err none s = fault
  run_entry irq err (some ih) s =
      if ih == 0
      then and_then (resumed (hlt s.machine) s)
          (λ _ s'. ok tt (on_machine (pic_send_eoi io irq) s'))
      else ok tt (call ih irq err s)

  unfoldable pub itr_interrupt_handler : ℕ → ℕ → Cmd (Itr M) (Unit {0})
  itr_interrupt_handler irq err s =
      let s' = record s { itr_status = itr_status_in } in
      and_then (run_entry irq err (get_elem? s'.handlers irq) s') (λ _. leave)

-- The gate of the second loop of `itr_set_up`.
abbrev pub kernel_gate : Gate → Gate
kernel_gate g = record g { segment = kernel_code_segment; flags = gate_flags }

-- The rest of a function behind `set_errno`.
abbrev pub no_memory : {M : Type 0} → Run Errors (Unit {0}) → Cmd (Itr M) ℤ
no_memory (ok _ e) s = ok minus_one (record s { errors = e })
no_memory fault s = fault
no_memory hang s = hang
no_memory panic s = panic

module _ {M : Type 0} (offsets : List Gate → List Gate) (load : ℕ → ℕ → M → M) where
  -- `p` and `q` are what `kalloc` answers to the two calls, and `raw` are the gates at `q`.
  unfoldable pub itr_set_up : ℕ → ℕ → List Gate → Cmd (Itr M) ℤ
  itr_set_up p q raw s =
      let s' = record s {
        handlers = replicate idt_entries 0;
        idt = map kernel_gate (offsets raw);
        machine = load q (idt_entries * 8 - 1) s.machine;
      } in
      if p == 0
      then no_memory (set_errno e_nomem s.errors) s
      else if q == 0
      then no_memory (set_errno e_nomem s.errors) s
      else ok (pos 0) s'

module _ {M : Type 0} (io : Ports M) where
  -- `handler` is the address of `pit_interrupt_handler`. PIT_RELOAD_VALUE is a quotient without
  -- parentheses, so that the cast to a byte takes its first number only.
  unfoldable pub pit_init : ℕ → Itr M → Itr M
  pit_init handler s =
      let s' =
        itr_set_interrupt_handler pic_timer_irq handler gate_flags (record s { counter = 0 }) in
      let low = oscillator_frequency % 2 ^ 8 / output_frequency in
      let m1 = io.outb pit_cmd_port 0x36 s'.machine in
      let m2 = io.outb pit_channel_0_port low m1 in
      record s' { machine = io.outb pit_channel_0_port (low / 2 ^ 8) m2 }

  unfoldable pub pit_interrupt_handler : ℕ → Itr M → Itr M
  pit_interrupt_handler irq s =
      on_machine (pic_send_eoi io irq) (record s { counter = (s.counter + 1) % 2 ^ 64 })

  unfoldable pub pit_interrupt_disabled : ℕ → Itr M → Itr M
  pit_interrupt_disabled handler s = itr_set_interrupt_handler pic_timer_irq handler absent_flags s
