-- ===== src/Frames/Mark.antt =====
-- The loops that write runs of entries.
use rtc_driver.Base.{
  ℕ, zero, suc, ◌+◌, ◌-◌, ◌≤◌, ◌<◌, ◌≡◌, Bool, inl, inr, Bool-cases, ◌&&◌, arith, ltb, leb, ◌==◌,
  if◌then◌else◌,
}
use rtc_driver.Frames.{
  Bitmap, entry_free, entry_used, mark, release, mem_bitmap_set_entry, mem_bitmap_get_entry,
}
use rtc_driver.Frames.Pack.{AreBytes, set_entry-AreBytes, get_entry-set_entry}

-- `lo <= g < hi`
abbrev pub within : ℕ → ℕ → ℕ → Bool
within lo hi g = leb lo g && ltb g hi

pub mark-AreBytes : (n f : ℕ) (bm : Bitmap) → AreBytes bm → AreBytes (mark n f bm)
unfolding mark
mark-AreBytes zero f bm bytes = bytes
mark-AreBytes (suc n) f bm bytes =
    mark-AreBytes n f _ (set_entry-AreBytes (f + 1 - suc n) entry_used bm (omega arith) bytes)

-- The last `n` frames up to `f` are used, and no other entry changes.
pub mark_lem :
    (n f g : ℕ) (bm : Bitmap)
    → AreBytes bm
    → n ≤ f + 1
    → mem_bitmap_get_entry g (mark n f bm)
      ≡ (if within (f + 1 - n) (f + 1) g then entry_used else mem_bitmap_get_entry g bm)
unfolding mark
mark_lem zero f g bm bytes h = ground arith
mark_lem (suc n) f g bm bytes h =
    let used = mem_bitmap_set_entry (f + 1 - suc n) entry_used bm in
    ground (
      arith,
      mark_lem n f g used (set_entry-AreBytes (f + 1 - suc n) entry_used bm (omega arith) bytes)
          (omega arith),
      get_entry-set_entry (f + 1 - suc n) g entry_used bm (omega arith) bytes,
    )

-- The same, with the run given by its first frame.
pub mark_run :
    (count k g : ℕ) (bm : Bitmap)
    → AreBytes bm
    → 0 < count
    → mem_bitmap_get_entry g (mark count (k + count - 1) bm)
      ≡ (if within k (k + count) g then entry_used else mem_bitmap_get_entry g bm)
mark_run count k g bm bytes h =
    ground (arith, mark_lem count (k + count - 1) g bm bytes (omega (arith, h)))

-- Used frames of the run become free, and no other entry changes.
pub release_lem :
    (n f g : ℕ) (bm : Bitmap)
    → AreBytes bm
    → mem_bitmap_get_entry g (release n f bm) ≡ (
        if within f (f + n) g && (mem_bitmap_get_entry g bm == entry_used)
        then entry_free
        else mem_bitmap_get_entry g bm)
unfolding release
release_lem zero f g bm bytes = ground arith
release_lem (suc n) f g bm bytes =
    let freed = mem_bitmap_set_entry f entry_free bm in
    elim (Bool-cases (mem_bitmap_get_entry f bm == entry_used)) [
      | inl used ↦ ground (
        arith,
        release_lem n (f + 1) g freed (set_entry-AreBytes f entry_free bm (omega arith) bytes),
        get_entry-set_entry f g entry_free bm (omega arith) bytes,
      )
      | inr kept ↦ ground (arith, release_lem n (f + 1) g bm bytes)
    ]
