-- ===== src/Frames.antt =====
-- The physical allocator of src/kernel/drivers/mem.c: a bitmap with two bits for each page frame.
-- `bitmap i` is the byte at MEM_BITMAP_ADDR + i, and `total_frames` is the u64 mem_total_frames. A
-- loop over frames recurs on the frames that are left.
pub mod Pack
pub mod Mark
pub mod Search
pub mod Alloc
mod Tests
use rtc_driver.Base.{
  ℕ, zero, suc, ◌+◌, ◌-◌, ◌*◌, ◌/◌, ◌%◌, ◌^◌, Bool, Option, none, some, bit_and, bit_or, ltb, leb,
  ◌==◌, ◌||◌, if◌then◌else◌,
}
use rtc_driver.Lock.{Lock, lock, unlock}

abbrev pub frame_size : ℕ
frame_size = 4096

abbrev pub entry_free : ℕ
entry_free = 0

abbrev pub entry_used : ℕ
entry_used = 1

abbrev pub Bitmap : Type 0
Bitmap = ℕ → ℕ

pub record Mem : Type 0 where
  pub bitmap : Bitmap
  pub total_frames : ℕ
  pub lock_state : Lock

-- `pack & ~(0x03 << (k * 2)) | (status << (k * 2))` on a byte.
unfoldable pub set_pack : ℕ → ℕ → ℕ → ℕ
set_pack pack k status =
    bit_or (bit_and pack (0xff - 0x03 * 2 ^ (k * 2))) (bit_and status 0x03 * 2 ^ (k * 2))

unfoldable pub get_pack : ℕ → ℕ → ℕ
get_pack pack k = bit_and (pack / 2 ^ (k * 2)) 0x03

unfoldable pub mem_bitmap_set_entry : ℕ → ℕ → Bitmap → Bitmap
mem_bitmap_set_entry frame status bm i =
    if i == frame / 4 then set_pack (bm (frame / 4)) (frame % 4) status else bm i

unfoldable pub mem_bitmap_get_entry : ℕ → Bitmap → ℕ
mem_bitmap_get_entry frame bm = get_pack (bm (frame / 4)) (frame % 4)

-- The inner loop: marks the last `free_f` frames up to `f` as used.
unfoldable pub mark : ℕ → ℕ → Bitmap → Bitmap
mark zero f bm = bm
mark (suc k) f bm = mark k f (mem_bitmap_set_entry (f + 1 - suc k) entry_used bm)

-- The outer loop with `n` frames left, at frame `f`, behind `free_f` free ones; the first frame of
-- the run that it found, and the bitmap.
unfoldable pub search : ℕ → ℕ → ℕ → ℕ → Bitmap → Option ℕ × Bitmap
unfolding mark
search count zero f free_f bm = (none, bm)
search count (suc n) f free_f bm =
    let free' = if mem_bitmap_get_entry f bm == entry_free then free_f + 1 else 0 in
    let rest = search count n (f + 1) free' bm in
    if free' == count then (some (f + 1 - count), mark free' f bm) else rest

-- The end of the frames to look at, a u32.
unfoldable pub last_frame : ℕ → ℕ → ℕ
last_frame last total = if (last == 0) || ltb total last then total % 2 ^ 32 else last

-- The address of a run, NULL if there is none.
abbrev pub address : Option ℕ → ℕ
address none = 0
address (some k) = k * frame_size % 2 ^ 32

unfoldable pub mem_allocate_frames : ℕ → ℕ → ℕ → Mem → ℕ × Mem
unfolding search last_frame
mem_allocate_frames count first last s =
    let (r, bm) = search count (last_frame last s.total_frames - first) first 0 s.bitmap in
    (address r, record s { bitmap = bm; lock_state = unlock (lock s.lock_state) })

unfoldable pub release : ℕ → ℕ → Bitmap → Bitmap
release zero f bm = bm
release (suc n) f bm =
    release n (f + 1)
      (if mem_bitmap_get_entry f bm == entry_used then mem_bitmap_set_entry f entry_free bm else bm)

unfoldable pub mem_release_frames : ℕ → ℕ → Mem → Mem
unfolding release
mem_release_frames addr count s =
    let f = addr / frame_size in
    let last = (f + count) % 2 ^ 32 in
    let last' = if ltb s.total_frames last then s.total_frames % 2 ^ 32 else last in
    if leb s.total_frames f then s else record s {
      bitmap = release (last' - f) f s.bitmap;
      lock_state = unlock (lock s.lock_state);
    }
