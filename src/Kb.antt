-- ===== src/Kb.antt =====
-- src/kernel/drivers/kb.c: the driver of the keyboard. `kb_buffer` is a ring of 32 bytes, of which
-- `kb_buf_count` from `kb_buf_head` on are waiting; `partial` and `len` are the static variables of
-- the interrupt handler. A `char` is its byte, and its comparison with a number is that of the
-- signed value. `kb_init` is in Kb/Init.
pub mod Queue
pub mod Init
pub mod Refine
mod Tests
use rtc_driver.Base.{
  ℕ, zero, suc, ◌+◌, ◌-◌, ◌%◌, Bool, false, ◌&&◌, ◌||◌, List, [], ◌∷◌, ltb, leb, ◌==◌,
  if◌then◌else◌, get_or, set, length,
}
use rtc_driver.Cpu.{Ports}
use rtc_driver.Pic.{pic_send_eoi}

abbrev pub kb_encoder_buf : ℕ
kb_encoder_buf = 0x60

abbrev pub kb_buf_len : ℕ
kb_buf_len = 32

pub record Ring : Type 0 where
  pub buffer : List ℕ
  pub head : ℕ
  pub count : ℕ

pub record Kb (M : Type 0) : Type 0 where
  pub ring : Ring
  pub partial : List ℕ
  pub len : ℕ
  pub machine : M

-- `c == k` for a signed `char` and a number from 0 to 255.
unfoldable pub char_is : ℕ → ℕ → Bool
char_is c k = if ltb c 128 then c == k else false

unfoldable pub push : ℕ → Ring → Ring
push b r = record r {
  buffer = set r.buffer ((r.head + r.count) % kb_buf_len) b;
  count = r.count + 1;
}

-- `n` is `len - i`.
unfoldable pub push_all : ℕ → List ℕ → ℕ → Ring → Ring
unfolding push
push_all zero bytes i r = r
push_all (suc n) bytes i r = push_all n bytes (i + 1) (push (get_or bytes i 0) r)

-- Whether the handler waits for more bytes of a scan code.
unfoldable pub incomplete : List ℕ → ℕ → Bool
incomplete bytes len =
    if len == 1
    then (get_or bytes 0 0 == 0xe0) || (get_or bytes 0 0 == 0xe1)
    else if len == 2
    then (get_or bytes 0 0 == 0xe1) || (get_or bytes 1 0 == 0x2a) || (get_or bytes 1 0 == 0xb7)
    else if len == 4
    then get_or bytes 0 0 == 0xe1
    else false

-- The handler with the byte that it has read.
unfoldable pub take_byte : {M : Type 0} → ℕ → Kb M → Kb M
unfolding incomplete push_all
take_byte b s =
    let bytes = set s.partial s.len b in
    let n = s.len + 1 in
    if incomplete bytes n then record s { partial = bytes; len = n } else record s {
      partial = bytes;
      len = 0;
      ring = if leb (s.ring.count + n) kb_buf_len then push_all n bytes 0 s.ring else s.ring;
    }

unfoldable pub kb_interrupt_handler : {M : Type 0} → Ports M → ℕ → Kb M → Kb M
unfolding take_byte
kb_interrupt_handler io irq s =
    let (b, m) = io.inb kb_encoder_buf s.machine in
    let s' = take_byte b (record s { machine = m }) in
    record s' { machine = pic_send_eoi io irq s'.machine }

-- The `n` bytes that a loop of `kb_scan_code` copies to `buf`.
unfoldable pub pull : ℕ → Ring → List ℕ × Ring
pull zero r = ([], r)
pull (suc n) r =
    let (bytes, r') = pull n (record r { head = (r.head + 1) % kb_buf_len }) in
    (get_or r.buffer r.head 0 ∷ bytes, r')

-- The size of the scan code that the buffer begins with.
unfoldable pub scan_size : Ring → ℕ
unfolding char_is
scan_size r =
    let first = get_or r.buffer r.head 0 in
    let second = get_or r.buffer ((r.head + 1) % kb_buf_len) 0 in
    if r.count == 0
    then 0
    else if char_is first 0xe1
    then 6
    else if char_is first 0xe0 && (char_is second 0x2a || char_is second 0xb7)
    then 4
    else if char_is first 0xe0
    then 2
    else 1

-- The bytes put into `buf`; their number is the result.
unfoldable pub kb_scan_code : Ring → List ℕ × Ring
unfolding scan_size pull
kb_scan_code r =
    let (bytes, r') = pull (scan_size r) r in (bytes, record r' { count = r'.count - length bytes })
