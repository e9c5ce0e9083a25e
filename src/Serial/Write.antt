-- ===== src/Serial/Write.antt =====
-- A write sends its bytes in order.
use rtc_driver.Base.{
  ℕ, zero, suc, ◌+◌, ◌%◌, ◌^◌, ◌≤◌, ◌<◌, ◌≡◌, refl, ap, ◌∙◌, sym, true, false, some, List, [], ◌∷◌,
  ◌++◌, arith, get_elem?, get_or, length, take, drop,
}
use rtc_driver.Base.Run.{ok}
use rtc_driver.Cpu.{Ports}
use rtc_driver.Serial.{Device, has_bits, serial_write_byte}
use rtc_driver.Serial.File.{Line, wait_line, write_loop, serial_write}

-- The transmitter of the chip at `base`: `polls` is the number of times that the line status will
-- still be read as busy, `sent` are the bytes that it has taken. A byte is taken when it is ready.
pub record IsTransmitter {M : Type 0} (io : Ports M) (base bound : ℕ) (polls : M → ℕ)
    (sent : M → List ℕ) : Type 0 where
  pub ready : (m : M) → polls m ≡ 0 → has_bits (io.inb (base + 5) m).0 0x40 ≡ true
  pub stays : (m : M) → polls m ≡ 0 → polls (io.inb (base + 5) m).1 ≡ 0
  pub busy : (m : M) (k : ℕ) → polls m ≡ suc k → has_bits (io.inb (base + 5) m).0 0x40 ≡ false
  pub nearer : (m : M) (k : ℕ) → polls m ≡ suc k → polls (io.inb (base + 5) m).1 ≡ k
  pub keeps : (m : M) → sent (io.inb (base + 5) m).1 ≡ sent m
  pub takes : (m : M) (b : ℕ) → polls m ≡ 0 → sent (io.outb base b m) ≡ sent m ++ b ∷ []
  pub bounded : (m : M) → polls m < bound

abbrev pub line : {M : Type 0} → Device → ℕ → M → Line M
line d f_pos m = record { dev = d; f_pos = f_pos; machine = m }

append-one : (xs : List ℕ) (b : ℕ) (zs : List ℕ) → (xs ++ b ∷ []) ++ zs ≡ xs ++ (b ∷ zs)
append-one [] b zs = refl
append-one (x ∷ xs) b zs = ap (λ t. x ∷ t) (append-one xs b zs)

append-nil : (xs : List ℕ) → xs ++ [] ≡ xs
append-nil [] = refl
append-nil (x ∷ xs) = ap (λ t. x ∷ t) (append-nil xs)

next_byte :
    (buf : List ℕ) (i : ℕ)
    → i < length buf
    → (get_elem? buf i ≡ some (get_or buf i 0)) × (drop i buf ≡ get_or buf i 0 ∷ drop (suc i) buf)
next_byte [] i h = absurd (omega arith)
next_byte (x ∷ xs) zero h = (refl, refl)
next_byte (x ∷ xs) (suc i) h = next_byte xs i (omega arith)

module _ {M : Type 0} (io : Ports M) (d : Device) (bound : ℕ) (polls : M → ℕ) (sent : M → List ℕ)
    (chip : IsTransmitter io d.base bound polls sent) where
  wait_line_lem :
      (k fuel : ℕ) (m : M)
      → polls m ≡ k
      → k < fuel
      → (m' : M) × (wait_line io fuel d m ≡ ok tt m') × (polls m' ≡ 0) × (sent m' ≡ sent m)
  unfolding wait_line
  wait_line_lem k zero m e h = absurd (omega arith)
  wait_line_lem zero (suc fuel) m e h =
      ((io.inb (d.base + 5) m).1, rw (chip.ready m e) refl, chip.stays m e, chip.keeps m)
  wait_line_lem (suc k) (suc fuel) m e h =
      let (m', w, p, s) =
        wait_line_lem k fuel (io.inb (d.base + 5) m).1 (chip.nearer m k e) (omega arith) in
      (m', rw (chip.busy m k e) w, p, s ∙ chip.keeps m)

  write_loop_lem :
      (buf : List ℕ) (n i : ℕ) (m : M)
      → n + i ≤ length buf
      → (m' : M) × (write_loop io bound d buf n i m ≡ ok tt m')
        × (sent m' ≡ sent m ++ take n (drop i buf))
  unfolding write_loop serial_write_byte
  write_loop_lem buf zero i m h = (m, refl, sym (append-nil (sent m)))
  write_loop_lem buf (suc n) i m h =
      let (m1, w, p, s) = wait_line_lem (polls m) bound m refl (chip.bounded m) in
      let (at, more) = next_byte buf i (omega arith) in
      let b = get_or buf i 0 in
      let (m', rest, e) = write_loop_lem buf n (suc i) (io.outb d.base b m1) (omega arith) in
      (
        m',
        rw w (rw at rest),
        e
            ∙ ap (λ q. q ++ take n (drop (suc i) buf)) (chip.takes m1 b p ∙ ap (λ q. q ++ b ∷ []) s)
            ∙ append-one (sent m) b (take n (drop (suc i) buf))
            ∙ ap (λ q. sent m ++ take (suc n) q) (sym more),
      )

  -- With a chip that is busy for less than `bound` polls at a time, and `count` bytes in the
  -- buffer, `serial_write` returns `count` when each wait has `bound` rounds, and the line has
  -- been given the first `count` bytes of the buffer, in order, none while it was busy.
  pub serial_write_lem :
      (buf : List ℕ) (count f_pos : ℕ) (m : M)
      → count ≤ length buf
      → (s' : Line M) × (serial_write io bound buf count (line d f_pos m) ≡ ok count s')
        × (sent s'.machine ≡ sent m ++ take count buf)
  unfolding serial_write
  serial_write_lem buf count f_pos m h =
      let (m', w, e) = write_loop_lem buf count 0 m (omega arith) in
      (line d ((f_pos + count) % 2 ^ 32) m', rw w refl, e)
