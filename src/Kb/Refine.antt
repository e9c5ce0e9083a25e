-- ===== src/Kb/Refine.antt =====
-- What the keyboard driver makes of a queue of bytes that is filled by whole scan codes.
use rtc_driver.Base.{
  ℕ, zero, suc, ◌+◌, ◌-◌, ◌%◌, ◌≤◌, ◌<◌, ◌≡◌, refl, ap, ◌∙◌, Bool, true, false, ◌&&◌, ◌||◌, ◌⊎◌,
  inl, inr, ltb, Bool-cases, List, [], ◌∷◌, ◌++◌, arith, leb, leb→le, ◌==◌, if◌then◌else◌, get_or,
  length, take, drop,
}
use rtc_driver.Kb.{
  Ring, Kb, char_is, push_all, incomplete, take_byte, pull, scan_size, kb_scan_code,
}
use rtc_driver.Kb.Queue.{contents, queue, IsRing, slice, queue-push_all}

length-contents : (n h : ℕ) (buf : List ℕ) → length (contents n h buf) ≡ n
unfolding contents
length-contents zero h buf = refl
length-contents (suc n) h buf = ap suc (length-contents n ((h + 1) % 32) buf)

length-queue : (r : Ring) → length (queue r) ≡ r.count
unfolding queue
length-queue r = length-contents r.count r.head r.buffer

-- The size of a scan code by its first bytes, as the driver names them: PAUSE, PRNTSCR, a code with
-- the prefix 0xe0, and the others.
unfoldable pub code_size : List ℕ → ℕ
code_size [] = 1
code_size (x ∷ []) = if x == 0xe1 then 6 else if x == 0xe0 then 2 else 1
code_size (x ∷ y ∷ _) =
    if x == 0xe1
    then 6
    else if (x == 0xe0) && ((y == 0x2a) || (y == 0xb7))
    then 4
    else if x == 0xe0
    then 2
    else 1

-- More bytes of the scan code are to come.
unfoldable pub waits : List ℕ → Bool
unfolding code_size
waits code = ltb (length code) (code_size code)

-- The abstract keyboard: the bytes to be read and the bytes of the scan code that is coming in.
pub record Keys : Type 0 where
  pub waiting : List ℕ
  pub pending : List ℕ

abbrev pub keys : List ℕ → List ℕ → Keys
keys q p = record { waiting = q; pending = p }

-- The queue with a code behind it, if all of it has room.
abbrev pub offered : List ℕ → List ℕ → List ℕ
offered q code = if leb (length q + length code) 32 then q ++ code else q

-- A byte is kept until the scan code has all its bytes, and the code is then offered as a whole.
unfoldable pub receive : ℕ → Keys → Keys
unfolding waits
receive b k =
    let code = k.pending ++ b ∷ [] in
    if waits code then keys k.waiting code else keys (offered k.waiting code) []

unfoldable pub view : {M : Type 0} → Kb M → Keys
view s = keys (queue s.ring) (slice s.len s.partial 0)

-- At most two bytes are kept, and of a code that has more.
pub record IsKb {M : Type 0} (s : Kb M) : Type 0 where
  pub ring : IsRing s.ring
  pub partial : 6 ≤ length s.partial
  pub len : s.len < 3
  pub begun : (s.len ≡ 0) ⊎ (waits (slice s.len s.partial 0) ≡ true)

store_lem :
    (n : ℕ) (bytes : List ℕ) (r : Ring)
    → IsRing r
    → (queue (if leb (r.count + n) 32 then push_all n bytes 0 r else r)
        ≡ (if leb (length (queue r) + n) 32 then queue r ++ slice n bytes 0 else queue r))
      × IsRing (if leb (r.count + n) 32 then push_all n bytes 0 r else r)
store_lem n bytes r ring = rw (length-queue r) (elim (Bool-cases (leb (r.count + n) 32)) [
  | inl room ↦ rw room (queue-push_all n bytes 0 r ring (leb→le _ _ room))
  | inr full ↦ rw full (refl, ring)
])

abbrev kb : {M : Type 0} → Ring → List ℕ → ℕ → M → Kb M
kb r xs n m = record { ring = r; partial = xs; len = n; machine = m }

-- The tests of the handler agree with the sizes for one and two bytes, and a third byte is never
-- the last.
waits-one : (b : ℕ) → waits (b ∷ []) ≡ ((b == 0xe0) || (b == 0xe1))
unfolding waits code_size
waits-one b = ground arith

waits-two :
    (x b : ℕ)
    → waits (x ∷ []) ≡ true
    → waits (x ∷ b ∷ []) ≡ ((x == 0xe1) || (b == 0x2a) || (b == 0xb7))
unfolding waits code_size
waits-two x b more = ground arith

waits-three : (x y b : ℕ) → waits (x ∷ y ∷ []) ≡ true → waits (x ∷ y ∷ b ∷ []) ≡ true
unfolding waits code_size
waits-three x y b more = ground arith

-- What the handler does with a byte, by the number of those before it.
abbrev pub Taken : {M : Type 0} → ℕ → Kb M → Kb M → Type 0
Taken b s s' =
    (s.len < 2 → view s' ≡ receive b (view s))
    × (s.len ≡ 2
        → (let code = slice s.len s.partial 0 ++ b ∷ [] in
            (waits code ≡ true) × (view s' ≡ keys (offered (queue s.ring) code) [])))

module _ {M : Type 0} (b : ℕ) (r : Ring) (m : M) (ring : IsRing r) where
  first_byte :
      (x y z : ℕ) (xs : List ℕ)
      → 6 ≤ length (x ∷ y ∷ z ∷ xs)
      → (view (take_byte b (kb r (x ∷ y ∷ z ∷ xs) 0 m)) ≡ receive b (keys (queue r) []))
        × IsKb (take_byte b (kb r (x ∷ y ∷ z ∷ xs) 0 m))
  unfolding take_byte view receive incomplete slice
  first_byte x y z xs h = elim (Bool-cases ((b == 0xe0) || (b == 0xe1))) [
    | inl more ↦
        let w : waits (b ∷ []) ≡ true = waits-one b ∙ more in
        rw more (rw w (refl, record { ring = ring; partial = h; len = omega arith; begun = inr w }))
    | inr whole ↦
        let w : waits (b ∷ []) ≡ false = waits-one b ∙ whole in
        let (q, ring') = store_lem 1 (b ∷ y ∷ z ∷ xs) r ring in
        rw whole (
          rw w (
            ap (λ t. keys t []) q,
            record { ring = ring'; partial = h; len = omega arith; begun = inl refl },
          ))
  ]

  second_byte :
      (x y z : ℕ) (xs : List ℕ)
      → 6 ≤ length (x ∷ y ∷ z ∷ xs)
      → waits (x ∷ []) ≡ true
      → (view (take_byte b (kb r (x ∷ y ∷ z ∷ xs) 1 m)) ≡ receive b (keys (queue r) (x ∷ [])))
        × IsKb (take_byte b (kb r (x ∷ y ∷ z ∷ xs) 1 m))
  unfolding take_byte view receive incomplete slice
  second_byte x y z xs h begun = elim (Bool-cases ((x == 0xe1) || (b == 0x2a) || (b == 0xb7))) [
    | inl more ↦
        let w : waits (x ∷ b ∷ []) ≡ true = waits-two x b begun ∙ more in
        rw more (rw w (refl, record { ring = ring; partial = h; len = omega arith; begun = inr w }))
    | inr whole ↦
        let w : waits (x ∷ b ∷ []) ≡ false = waits-two x b begun ∙ whole in
        let (q, ring') = store_lem 2 (x ∷ b ∷ z ∷ xs) r ring in
        rw whole (
          rw w (
            ap (λ t. keys t []) q,
            record { ring = ring'; partial = h; len = omega arith; begun = inl refl },
          ))
  ]

  third_byte :
      (x y z : ℕ) (xs : List ℕ)
      → 6 ≤ length (x ∷ y ∷ z ∷ xs)
      → (view (take_byte b (kb r (x ∷ y ∷ z ∷ xs) 2 m))
          ≡ keys (offered (queue r) (x ∷ y ∷ b ∷ [])) [])
        × IsKb (take_byte b (kb r (x ∷ y ∷ z ∷ xs) 2 m))
  unfolding take_byte view incomplete slice
  third_byte x y z xs h =
      let (q, ring') = store_lem 3 (x ∷ y ∷ b ∷ xs) r ring in
      (
        ap (λ t. keys t []) q,
        record { ring = ring'; partial = h; len = omega arith; begun = inl refl },
      )

  any_byte :
      (xs : List ℕ) (n : ℕ)
      → 6 ≤ length xs
      → n < 3
      → (n ≡ 0) ⊎ (waits (slice n xs 0) ≡ true)
      → Taken b (kb r xs n m) (take_byte b (kb r xs n m)) × IsKb (take_byte b (kb r xs n m))
  unfolding view slice
  any_byte [] n h k w = absurd (omega arith)
  any_byte (x ∷ []) n h k w = absurd (omega arith)
  any_byte (x ∷ y ∷ []) n h k w = absurd (omega arith)
  any_byte (x ∷ y ∷ z ∷ xs) zero h k w =
      let (e, is) = first_byte x y z xs h in (((λ _. e), (λ two. absurd (omega arith))), is)
  any_byte (x ∷ y ∷ z ∷ xs) (suc zero) h k (inl none) = absurd (omega arith)
  any_byte (x ∷ y ∷ z ∷ xs) (suc zero) h k (inr w) =
      let (e, is) = second_byte x y z xs h w in (((λ _. e), (λ two. absurd (omega arith))), is)
  any_byte (x ∷ y ∷ z ∷ xs) (suc (suc zero)) h k (inl none) = absurd (omega arith)
  any_byte (x ∷ y ∷ z ∷ xs) (suc (suc zero)) h k (inr w) =
      let (e, is) = third_byte x y z xs h in
      (((λ few. absurd (omega arith)), (λ _. (waits-three x y b w, e))), is)
  any_byte (x ∷ y ∷ z ∷ xs) (suc (suc (suc n))) h k w = absurd (omega arith)

-- With a well-formed ring, and no byte of a scan code so far or one or two of a code that has more:
-- a first or second byte is taken as by the abstract keyboard, which keeps the bytes until the code
-- has all of its own (six from 0xe1, four from 0xe0 followed by 0x2a or 0xb7, two from 0xe0, else
-- one) and then queues it whole, or drops it where it has no room. A third byte is never the last
-- of its code, but it ends it: the three bytes are queued or dropped, and what follows is taken for
-- a new code. The state stays well-formed.
pub take_byte_lem :
    {M : Type 0} (b : ℕ) (s : Kb M) → IsKb s → Taken b s (take_byte b s) × IsKb (take_byte b s)
take_byte_lem b s is =
    any_byte b s.ring s.machine is.ring s.partial s.len is.partial is.len is.begun

never : (c k : ℕ) → 128 ≤ k → char_is c k ≡ false
unfolding char_is
never c k h = ground arith

scan_size-one : (r : Ring) → scan_size r ≡ (if r.count == 0 then 0 else 1)
unfolding scan_size
scan_size-one r =
    let first = get_or r.buffer r.head 0 in
    let pause : char_is first 0xe1 ≡ false = never first 0xe1 (omega arith) in
    let two : char_is first 0xe0 ≡ false = never first 0xe0 (omega arith) in rw pause (rw two refl)

front :
    (n h : ℕ) (buf : List ℕ)
    → (n == 0) ≡ false
    → (get_or buf h 0 ∷ [] ≡ take 1 (contents n h buf))
      × (contents (n - 1) ((h + 1) % 32) buf ≡ drop 1 (contents n h buf))
unfolding contents
front zero h buf e = cc
front (suc n) h buf e = (refl, ap (λ k. contents k ((h + 1) % 32) buf) (omega arith))

nothing :
    (n h : ℕ) (buf : List ℕ)
    → (n == 0) ≡ true
    → ([] ≡ take 1 (contents n h buf)) × (contents (n - 0) h buf ≡ drop 1 (contents n h buf))
unfolding contents
nothing zero h buf e = (refl, refl)
nothing (suc n) h buf e = absurd (ground arith)

-- On a well-formed ring, `kb_scan_code` takes the first waiting byte, if there is one, and never
-- more than one, whatever scan code the queue begins with, and keeps the ring well-formed.
pub kb_scan_code_lem :
    (r : Ring)
    → IsRing r
    → ((kb_scan_code r).0 ≡ take 1 (queue r))
      × (queue (kb_scan_code r).1 ≡ drop 1 (queue r))
      × IsRing (kb_scan_code r).1
unfolding kb_scan_code queue pull
kb_scan_code_lem r ring = elim (Bool-cases (r.count == 0)) [
  | inl empty ↦ rw (scan_size-one r) (
      rw empty (
        let (a, b) = nothing r.count r.head r.buffer empty in
        (a, b, record { size = ring.size; head = ring.head; count = omega (arith, ring.count) })))
  | inr some_byte ↦ rw (scan_size-one r) (
      rw some_byte (
        let (a, b) = front r.count r.head r.buffer some_byte in
        (a, b, record { size = ring.size; head = omega arith; count = omega (arith, ring.count) })))
]
