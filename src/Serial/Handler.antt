-- ===== src/Serial/Handler.antt =====
-- What an interrupt does to the devices.
use rtc_driver.Base.{
  ℕ, ◌+◌, ◌≡◌, refl, Bool, true, false, not, ◌&&◌, ◌||◌, inl, inr, Bool-cases, List, [], ◌∷◌, ◌++◌,
  ◌==◌, bit_and, arith, length, if◌then◌else◌,
}
use rtc_driver.Cpu.{Ports}
use rtc_driver.Serial.{
  Device, Buffer, has_bits, type_unknown, store_byte, serial_read_byte, dispatch, service,
  service_all, serial_interrupt_handler,
}
use rtc_driver.Serial.Queue.{queue, IsBuffer, store_byte_lem}

-- The device with another buffer.
abbrev pub buffered : Device → Buffer → Device
buffered d r = record d { read_buf = r }

-- The byte has come in: it is queued behind those that wait, or the 64 bytes are lost.
pub record Took (b : ℕ) (d e : Device) : Type 0 where
  pub rest : e ≡ buffered d e.read_buf
  pub queued :
      queue e.read_buf
      ≡ (if length (queue d.read_buf) == 63 then [] else queue d.read_buf ++ b ∷ [])
  pub buffer : IsBuffer e.read_buf

-- A device that is present and on the line, whose answer says that it interrupts because a byte is
-- there, or has waited there.
abbrev pub brings_byte : ℕ → ℕ → Device → Bool
brings_byte irq iir d =
    not (d.kind == type_unknown)
    && ((d.irq == irq)
        && (not (has_bits iir 0x01) && ((bit_and iir 0x0e == 0x04) || (bit_and iir 0x0e == 0x0c))))

abbrev pub AllBuffers : List Device → Type 0
AllBuffers [] = Unit
AllBuffers (d ∷ ds) = IsBuffer d.read_buf × AllBuffers ds

module _ {M : Type 0} (io : Ports M) (status irq : ℕ) where
  -- What becomes of a device, by the answer of its identification register and then of its data
  -- register, with interrupts off.
  abbrev pub Served : M → Device → Device → Type 0
  Served m d e =
      let (iir, m1) = io.inb (d.base + 2) m in
      let b = (io.inb d.base (io.cli m1)).0 in
      (brings_byte irq iir d ≡ true → Took b d e) × (brings_byte irq iir d ≡ false → e ≡ d)

  -- One device after the other, each from the machine that the one before leaves.
  abbrev pub AllServed : M → List Device → List Device → Type 0
  AllServed m [] [] = Unit
  AllServed m [] (e ∷ es) = ⊥
  AllServed m (d ∷ ds) [] = ⊥
  AllServed m (d ∷ ds) (e ∷ es) = Served m d e × AllServed (service io status irq d m).1 ds es

  took :
      (d : Device) (b : ℕ) → IsBuffer d.read_buf → Took b d (buffered d (store_byte b d.read_buf))
  took d b is =
      let (queued', is') = store_byte_lem b d.read_buf is in
      record { rest = refl; queued = queued'; buffer = is' }

  service_lem :
      (d : Device) (m : M) → IsBuffer d.read_buf → Served m d (service io status irq d m).0
  unfolding service dispatch serial_read_byte
  service_lem d m is =
      let iir = (io.inb (d.base + 2) m).0 in
      let cause = bit_and iir 0x0e in
      let got = took d (io.inb d.base (io.cli (io.inb (d.base + 2) m).1)).0 is in
      elim (Bool-cases (d.kind == type_unknown)) [
        | inl e ↦ rw e ((λ h. cc), (λ _. refl))
        | inr present ↦ rw present (elim (Bool-cases (d.irq == irq)) [
          | inr e ↦ rw e ((λ h. cc), (λ _. refl))
          | inl line ↦ rw line (elim (Bool-cases (has_bits iir 0x01)) [
            | inl e ↦ rw e ((λ h. cc), (λ _. refl))
            | inr e ↦ rw e (elim (Bool-cases (cause == 0x04)) [
              | inl e1 ↦ rw e1 ((λ _. got), (λ h. cc))
              | inr e1 ↦ rw e1 (elim (Bool-cases (cause == 0x0c)) [
                | inl e4 ↦
                    let e2 : (cause == 0x02) ≡ false = ground arith in
                    let e3 : (cause == 0x06) ≡ false = ground arith in
                    rw e2 (rw e3 (rw e4 ((λ _. got), (λ h. cc))))
                | inr e4 ↦ rw e4 (elim (Bool-cases (cause == 0x02)) [
                  | inl e2 ↦ rw e2 ((λ h. cc), (λ _. refl))
                  | inr e2 ↦ rw e2 (elim (Bool-cases (cause == 0x06)) [
                    | inl e3 ↦ rw e3 ((λ h. cc), (λ _. refl))
                    | inr e3 ↦ rw e3 ((λ h. cc), (λ _. refl))
                  ])
                ])
              ])
            ])
          ])
        ])
      ]

  service_all_lem :
      (ds : List Device) (m : M) → AllBuffers ds → AllServed m ds (service_all io status irq ds m).0
  unfolding service_all
  service_all_lem [] m all = tt
  service_all_lem (d ∷ ds) m all =
      (service_lem d m all.0, service_all_lem ds (service io status irq d m).1 all.1)

  Served-IsBuffer :
      (m : M) (d e : Device) → Served m d e → IsBuffer d.read_buf → IsBuffer e.read_buf
  Served-IsBuffer m d e (yes_byte, no_byte) is =
      elim (Bool-cases (brings_byte irq (io.inb (d.base + 2) m).0 d)) [
        | inl t ↦ (yes_byte t).buffer
        | inr f ↦ rw (no_byte f) is
      ]

  AllServed-AllBuffers :
      (m : M) (ds es : List Device) → AllServed m ds es → AllBuffers ds → AllBuffers es
  AllServed-AllBuffers m [] [] s all = tt
  AllServed-AllBuffers m [] (e ∷ es) s all = elim s [ ]
  AllServed-AllBuffers m (d ∷ ds) [] s all = elim s [ ]
  AllServed-AllBuffers m (d ∷ ds) (e ∷ es) s all = (
    Served-IsBuffer m d e s.0 all.0,
    AllServed-AllBuffers (service io status irq d m).1 ds es s.1 all.1,
  )

  -- With well-formed buffers, and whatever the ports answer: a device that is present and on the
  -- line that interrupts, and whose identification register answers that an interrupt is pending
  -- because a byte is there or has waited there, takes the byte of its data register: it is queued
  -- behind those that wait, or with 63 waiting all 64 are lost; nothing else of the device changes.
  -- Every other device is left as it was. The devices are served one after the other, and every
  -- buffer stays well-formed.
  pub serial_interrupt_handler_lem :
      (ds : List Device) (m : M)
      → AllBuffers ds
      → AllServed m ds (serial_interrupt_handler io status irq ds m).0
        × AllBuffers (serial_interrupt_handler io status irq ds m).0
  unfolding serial_interrupt_handler
  serial_interrupt_handler_lem ds m all =
      let served = service_all_lem ds m all in (served, AllServed-AllBuffers m ds _ served all)
