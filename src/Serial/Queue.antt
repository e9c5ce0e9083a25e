-- ===== src/Serial/Queue.antt =====
-- The buffer of a device as a queue: what a byte that comes in and a read do to it.
use rtc_driver.Base.{
  ℕ, zero, suc, ◌+◌, ◌-◌, ◌%◌, ◌<◌, ◌≡◌, ◌≢◌, refl, sym, ap, ◌∙◌, inl, inr, Bool-cases, List, [],
  ◌∷◌, ◌++◌, arith, ◌==◌, ==_iff, if◌then◌else◌, get_or, length, length-set, take, drop, set,
}
use rtc_driver.Base.Cyclic.{cyclic, IsSize, length-cyclic, cyclic-set}
use rtc_driver.Serial.{Buffer, store_byte, drain}

-- The number of bytes between the heads.
unfoldable pub waiting : ℕ → ℕ → ℕ
waiting w r = (w + 64 - r) % 64

unfoldable pub queue : Buffer → List ℕ
queue r = cyclic 64 (waiting r.write_head r.read_head) r.read_head r.buffer

pub record IsBuffer (r : Buffer) : Type 0 where
  pub size : length r.buffer ≡ 64
  pub write : r.write_head < 64
  pub read : r.read_head < 64

IsSize-64 : IsSize 64
IsSize-64 = record {
  apart = λ h n hh hn e. omega arith;
  around = λ h n. omega arith;
  within = λ h. omega arith;
  start = λ h hh. omega arith;
}

pub length-queue : (r : Buffer) → length (queue r) ≡ waiting r.write_head r.read_head
unfolding queue
length-queue r = length-cyclic 64 _ r.read_head r.buffer

write_place : (w r : ℕ) → w < 64 → r < 64 → (r + waiting w r) % 64 ≡ w
unfolding waiting
write_place w r hw hr = omega arith

one_more :
    (w r : ℕ)
    → w < 64
    → r < 64
    → waiting w r ≢ 63
    → (waiting ((w + 1) % 64) r ≡ suc (waiting w r)) × (suc (waiting w r) < 64)
unfolding waiting
one_more w r hw hr h = (omega arith, omega arith)

wrapped : (w r : ℕ) → w < 64 → r < 64 → waiting w r ≡ 63 → waiting ((w + 1) % 64) r ≡ 0
unfolding waiting
wrapped w r hw hr h = omega arith

store_byte-IsBuffer : (b : ℕ) (r : Buffer) → IsBuffer r → IsBuffer (store_byte b r)
unfolding store_byte
store_byte-IsBuffer b r is = record {
  size = length-set r.buffer _ b ∙ is.size;
  write = omega arith;
  read = is.read;
}

store_room :
    (b : ℕ) (r : Buffer)
    → IsBuffer r
    → waiting r.write_head r.read_head ≢ 63
    → queue (store_byte b r) ≡ queue r ++ b ∷ []
unfolding queue store_byte
store_room b r is h =
    let n = waiting r.write_head r.read_head in
    let (more, below) = one_more r.write_head r.read_head is.write is.read h in
    let at = write_place r.write_head r.read_head is.write is.read in
    rw more (
      ap (λ p. cyclic 64 (suc n) r.read_head (set r.buffer p b)) (sym at)
      ∙ cyclic-set 64 IsSize-64 n r.read_head b r.buffer is.size is.read (omega arith))

lost :
    (b : ℕ) (r : Buffer)
    → waiting ((r.write_head + 1) % 64) r.read_head ≡ 0
    → queue (store_byte b r) ≡ []
unfolding queue store_byte cyclic
lost b r h = rw h refl

-- On a well-formed buffer, a byte that comes in is queued behind the others while fewer than 63
-- are waiting; with 63 waiting, all 64 are lost: the queue becomes empty. The buffer stays
-- well-formed.
pub store_byte_lem :
    (b : ℕ) (r : Buffer)
    → IsBuffer r
    → (queue (store_byte b r) ≡ (if length (queue r) == 63 then [] else queue r ++ b ∷ []))
      × IsBuffer (store_byte b r)
store_byte_lem b r is = (
  rw (length-queue r) (elim (Bool-cases (waiting r.write_head r.read_head == 63)) [
    | inl full ↦
        rw full (lost b r (wrapped r.write_head r.read_head is.write is.read ((==_iff _ _).0 full)))
    | inr room ↦ rw room (store_room b r is (λ e. ground arith))
  ]),
  store_byte-IsBuffer b r is,
)

no_bytes : (w r : ℕ) → r ≡ w → w < 64 → waiting w r ≡ 0
unfolding waiting
no_bytes w r e h = omega arith

one_less : (w r : ℕ) → w < 64 → r < 64 → r ≢ w → waiting w r ≡ suc (waiting w ((r + 1) % 64))
unfolding waiting
one_less w r hw hr h = omega arith

queue-same : (r : Buffer) → r.read_head ≡ r.write_head → IsBuffer r → queue r ≡ []
unfolding queue cyclic
queue-same r e is = rw (no_bytes r.write_head r.read_head e is.write) refl

-- The queue without its first byte.
rest : Buffer → Buffer
rest r = record r { read_head = (r.read_head + 1) % 64 }

rest-IsBuffer : (r : Buffer) → IsBuffer r → IsBuffer (rest r)
unfolding rest
rest-IsBuffer r is = record { size = is.size; write = is.write; read = omega arith }

queue-rest :
    (r : Buffer)
    → r.read_head ≢ r.write_head
    → IsBuffer r
    → queue r ≡ get_or r.buffer r.read_head 0 ∷ queue (rest r)
unfolding queue cyclic rest
queue-rest r e is = rw (one_less r.write_head r.read_head is.write is.read e) refl

-- On a well-formed buffer, the copying loop of a read with room for `n` bytes takes the first `n`
-- waiting bytes, or all if there are fewer, leaves the others, and keeps the buffer well-formed.
pub drain_lem :
    (n : ℕ) (r : Buffer)
    → IsBuffer r
    → ((drain n r).0 ≡ take n (queue r))
      × (queue (drain n r).1 ≡ drop n (queue r))
      × IsBuffer (drain n r).1
unfolding drain rest
drain_lem zero r is = (refl, refl, is)
drain_lem (suc n) r is = elim (Bool-cases (r.read_head == r.write_head)) [
  | inl same ↦
      let q : queue r ≡ [] = queue-same r ((==_iff _ _).0 same) is in
      rw same (rw q (refl, refl, is))
  | inr more ↦
      let q = queue-rest r (λ e. ground arith) is in
      let (bytes, left, is') = drain_lem n (rest r) (rest-IsBuffer r is) in
      rw more (rw q (ap (λ t. get_or r.buffer r.read_head 0 ∷ t) bytes, left, is'))
]
