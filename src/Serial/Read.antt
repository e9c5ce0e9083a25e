-- ===== src/Serial/Read.antt =====
-- A read returns once a byte is there.
use rtc_driver.Base.{
  ℕ, zero, suc, ◌≤◌, ◌<◌, ◌≡◌, refl, ap, Bool, true, false, inl, inr, Bool-cases, arith, ◌==◌,
  if◌then◌else◌, length, take, drop,
}
use rtc_driver.Base.Run.{ok}
use rtc_driver.Cpu.{Ports}
use rtc_driver.Serial.File.{Line, wait_data, read_waiting, serial_read}
use rtc_driver.Serial.Queue.{queue, IsBuffer, drain_lem}

-- After `k` halts.
unfoldable pub halts : {M : Type 0} → (Line M → Line M) → ℕ → Line M → Line M
halts hlt zero s = s
halts hlt (suc k) s = halts hlt k (hlt s)

abbrev pub is_empty : {M : Type 0} → Line M → Bool
is_empty s = s.dev.read_buf.read_head == s.dev.read_buf.write_head

module _ {M : Type 0} (hlt : Line M → Line M)
    (keeps : (s : Line M) → IsBuffer s.dev.read_buf → IsBuffer (hlt s).dev.read_buf) where
  halts-IsBuffer :
      (k : ℕ) (s : Line M) → IsBuffer s.dev.read_buf → IsBuffer (halts hlt k s).dev.read_buf
  unfolding halts
  halts-IsBuffer zero s is = is
  halts-IsBuffer (suc k) s is = halts-IsBuffer k (hlt s) (keeps s is)

  halts-before :
      (j : ℕ) (s : Line M)
      → is_empty s ≡ true
      → ((i : ℕ) → i < j → is_empty (halts hlt i (hlt s)) ≡ true)
      → (i : ℕ) → i < suc j
      → is_empty (halts hlt i s) ≡ true
  unfolding halts
  halts-before j s empty all zero lt = empty
  halts-before j s empty all (suc i) lt = all i (omega arith)

  -- The wait ends after the first halts behind which a byte is there.
  wait_data_lem :
      (fuel k : ℕ) (s : Line M)
      → k < fuel
      → is_empty (halts hlt k s) ≡ false
      → (j : ℕ) × (j ≤ k)
        × ((i : ℕ) → i < j → is_empty (halts hlt i s) ≡ true)
        × (is_empty (halts hlt j s) ≡ false)
        × (wait_data hlt fuel s ≡ ok tt (halts hlt j s))
  unfolding halts wait_data
  wait_data_lem zero k s h arrived = absurd (omega arith)
  wait_data_lem (suc fuel) k s h arrived = elim (Bool-cases (is_empty s)) [
    | inr some_byte ↦ (0, omega arith, (λ i lt. absurd (omega arith)), some_byte, rw some_byte refl)
    | inl empty ↦
        elim k
            as (λ k.
              k < suc fuel
              → is_empty (halts hlt k s) ≡ false
              → (j : ℕ) × (j ≤ k)
                × ((i : ℕ) → i < j → is_empty (halts hlt i s) ≡ true)
                × (is_empty (halts hlt j s) ≡ false)
                × ((if is_empty s then wait_data hlt fuel (hlt s) else ok tt s)
                    ≡ ok tt (halts hlt j s))) [
                      | zero ↦ λ _ d. absurd (grind arith)
                      | suc k' ↦ λ l d.
                          let (j, le, all, there, e) =
                            wait_data_lem fuel k' (hlt s) (omega arith) d in
                          (suc j, omega arith, halts-before j s empty all, there, rw empty e)
                    ]
          h arrived
  ]

  -- Where what happens while the processor is halted keeps the buffer well-formed, and a byte is
  -- waiting after at most `k` halts, with fuel above `k`: `serial_read` halts until a byte is
  -- waiting, and no longer, and returns the first `count` waiting bytes, or all if there are fewer,
  -- with their number, and leaves the others waiting in a well-formed buffer.
  pub serial_read_lem :
      (io : Ports M) (fuel status count k : ℕ) (s : Line M)
      → IsBuffer s.dev.read_buf
      → k < fuel
      → is_empty (halts hlt k s) ≡ false
      → (j : ℕ) × (s' : Line M) × (j ≤ k)
        × ((i : ℕ) → i < j → is_empty (halts hlt i s) ≡ true)
        × (is_empty (halts hlt j s) ≡ false)
        × (let bytes = take count (queue (halts hlt j s).dev.read_buf) in
            serial_read io hlt fuel status count s ≡ ok (length bytes, bytes) s')
        × (queue s'.dev.read_buf ≡ drop count (queue (halts hlt j s).dev.read_buf))
        × IsBuffer s'.dev.read_buf
  unfolding serial_read read_waiting
  serial_read_lem io fuel status count k s is h arrived =
      let (j, le, all, there, e) = wait_data_lem fuel k s h arrived in
      let t = halts hlt j s in
      let (bytes, left, is') = drain_lem count t.dev.read_buf (halts-IsBuffer j s is) in
      (
        j,
        (read_waiting io status count t).1,
        le,
        all,
        there,
        rw e (ap (λ b. ok (length b, b) (read_waiting io status count t).1) bytes),
        left,
        is',
      )
