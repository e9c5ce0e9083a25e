-- ===== src/Frames/Pack.antt =====
-- The two-bit entries of the bitmap.
use rtc_driver.Base.{
  ℕ, ◌/◌, ◌%◌, ◌<◌, ◌≡◌, refl, Bool, true, ◌&&◌, arith, ltb, ◌==◌, if◌then◌else◌, all_below,
  all_below-apply,
}
use rtc_driver.Frames.{Bitmap, set_pack, get_pack, mem_bitmap_set_entry, mem_bitmap_get_entry}

-- At every byte, slot and status: the byte stays a byte, the slot gets the status, and the other
-- slots keep theirs.
abbrev pack_ok : ℕ → ℕ → ℕ → ℕ → Bool
pack_ok pack k status j =
    ltb (set_pack pack k status) 256
    && (get_pack (set_pack pack k status) j == (if j == k then status else get_pack pack j))

pack_table :
    all_below 256 (λ p. all_below 4 (λ k. all_below 4 (λ st. all_below 4 (λ j. pack_ok p k st j))))
    ≡ true
unfolding all_below set_pack get_pack
pack_table = refl

pack_holds : (p k st j : ℕ) → p < 256 → k < 4 → st < 4 → j < 4 → pack_ok p k st j ≡ true
pack_holds p k st j hp hk hs hj =
    all_below-apply 4 _ j
      (all_below-apply 4 _ st (all_below-apply 4 _ k (all_below-apply 256 _ p pack_table hp) hk) hs)
      hj

pub set_pack-lt : (p k st : ℕ) → p < 256 → k < 4 → st < 4 → set_pack p k st < 256
set_pack-lt p k st hp hk hs = ground (arith, pack_holds p k st 0 hp hk hs)

get_pack-set_pack :
    (p k st j : ℕ)
    → p < 256
    → k < 4
    → st < 4
    → j < 4
    → get_pack (set_pack p k st) j ≡ (if j == k then st else get_pack p j)
get_pack-set_pack p k st j hp hk hs hj = ground (arith, pack_holds p k st j hp hk hs hj)

get_table : all_below 256 (λ p. all_below 4 (λ j. ltb (get_pack p j) 4)) ≡ true
unfolding all_below get_pack
get_table = refl

-- The bitmap holds bytes.
abbrev pub AreBytes : Bitmap → Type 0
AreBytes bm = (i : ℕ) → bm i < 256

pub set_entry-AreBytes :
    (f st : ℕ) (bm : Bitmap) → st < 4 → AreBytes bm → AreBytes (mem_bitmap_set_entry f st bm)
unfolding mem_bitmap_set_entry
set_entry-AreBytes f st bm hs bytes i =
    ground (arith, bytes i, set_pack-lt (bm (f / 4)) (f % 4) st (bytes (f / 4)) (omega arith) hs)

-- Setting the entry of a frame gives it the status, and every other frame keeps its own.
pub get_entry-set_entry :
    (f g st : ℕ) (bm : Bitmap)
    → st < 4
    → AreBytes bm
    → mem_bitmap_get_entry g (mem_bitmap_set_entry f st bm)
      ≡ (if g == f then st else mem_bitmap_get_entry g bm)
unfolding mem_bitmap_set_entry mem_bitmap_get_entry
get_entry-set_entry f g st bm hs bytes = ground (
  arith,
  get_pack-set_pack (bm (f / 4)) (f % 4) st (g % 4) (bytes (f / 4)) (omega arith) hs (omega arith),
)
