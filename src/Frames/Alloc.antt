-- ===== src/Frames/Alloc.antt =====
-- What `mem_allocate_frames` and `mem_release_frames` promise.
use rtc_driver.Base.{
  ℕ, ◌+◌, ◌-◌, ◌*◌, ◌/◌, ◌%◌, ◌^◌, ◌≤◌, ◌<◌, ◌≡◌, ◌≢◌, refl, sym, ap, ◌∙◌, Bool, true, false, inl,
  inr, ◌⊎◌, Option, none, some, arith, ltb, leb, ◌==◌, ◌&&◌, if◌then◌else◌,
}
use rtc_driver.Frames.{
  Mem, Bitmap, entry_free, entry_used, search, release, last_frame, address, mem_bitmap_get_entry,
  mem_allocate_frames, mem_release_frames,
}
use rtc_driver.Lock.{lock, unlock}
use rtc_driver.Frames.Pack.{AreBytes}
use rtc_driver.Frames.Mark.{within, mark_run, mark-AreBytes, release_lem}
use rtc_driver.Frames.Search.{FreeRun, Outcome, search-Outcome}

-- The memory that a u32 addresses, 4 GiB.
abbrev pub max_frames : ℕ
max_frames = 2 ^ 20

-- A run of `count` free frames has been found between the bounds, and its entries alone have
-- changed.
pub record Taken (s : Mem) (count first last k : ℕ) (a : ℕ) (s' : Mem) : Type 0 where
  pub address_is : a ≡ k * 4096
  pub above : first ≤ k
  pub below : k + count ≤ last_frame last s.total_frames
  pub was_free : FreeRun s.bitmap k count
  pub earliest : (j : ℕ) → first ≤ j → j < k → ¬ FreeRun s.bitmap j count
  pub entries :
      (g : ℕ)
      → mem_bitmap_get_entry g s'.bitmap
        ≡ (if within k (k + count) g then entry_used else mem_bitmap_get_entry g s.bitmap)
  pub same_total : s'.total_frames ≡ s.total_frames
  pub bytes : AreBytes s'.bitmap

-- There is no such run, and no entry has changed.
abbrev pub Full : Mem → ℕ → ℕ → ℕ → ℕ → Mem → Type 0
Full s count first last a s' =
    (a ≡ 0)
    × ((s'.bitmap ≡ s.bitmap)
        × ((k : ℕ)
            → first ≤ k
            → k + count ≤ last_frame last s.total_frames
            → ¬ FreeRun s.bitmap k count))

abbrev pub Allocation : Mem → ℕ → ℕ → ℕ → ℕ × Mem → Type 0
Allocation s count first last (a, s') =
    ((k : ℕ) × Taken s count first last k a s') ⊎ Full s count first last a s'

last_frame-le : (last total : ℕ) → total < 2 ^ 20 → last_frame last total ≤ total
unfolding last_frame
last_frame-le last total h = ground arith

small_address : (k : ℕ) → k < 2 ^ 20 → k * 4096 % 2 ^ 32 ≡ k * 4096
small_address k h = omega arith

module _ (s : Mem) (count first last : ℕ) (bytes : AreBytes s.bitmap) (pos_count : 0 < count)
    (fits : s.total_frames < 2 ^ 20) where
  abbrev finish : Option ℕ × Bitmap → ℕ × Mem
  finish (r, bm) = (address r, record s { bitmap = bm; lock_state = unlock (lock s.lock_state) })

  outcome_lem :
      (out : Option ℕ × Bitmap)
      → Outcome s.bitmap count first (first + (last_frame last s.total_frames - first)) out
      → Allocation s count first last (finish out)
  outcome_lem (some k, bm') found =
      let top = last_frame-le last s.total_frames fits in
      inl (
        k,
        record {
          address_is = small_address k (omega (arith, found.below, top));
          above = found.above;
          below = omega (arith, found.below, found.above, pos_count);
          was_free = found.free;
          earliest = found.earliest;
          entries = λ g.
              ap (λ b. mem_bitmap_get_entry g b) found.marked
              ∙ mark_run count k g s.bitmap bytes pos_count;
          same_total = refl;
          bytes = λ i. omega (
            arith,
            ap (λ b. b i) found.marked,
            mark-AreBytes count (k + count - 1) s.bitmap bytes i,
          );
        },
      )
  outcome_lem (none, bm') (same, absent) = inr (refl, (same, λ k lo hi. absent k lo (omega arith)))

-- With a bitmap of bytes, at least one frame asked for and less than 2^20 frames of memory:
-- either the result is the address of the first run of `count` frames between the bounds that
-- were free, which become used while no other entry changes, or it is NULL, the bitmap is as it
-- was, and no such run exists.
pub allocate_lem :
    (s : Mem) (count first last : ℕ)
    → AreBytes s.bitmap
    → 0 < count
    → s.total_frames < 2 ^ 20
    → Allocation s count first last (mem_allocate_frames count first last s)
unfolding mem_allocate_frames
allocate_lem s count first last bytes pos_count fits =
    let top = last_frame last s.total_frames in
    outcome_lem s count first last bytes pos_count fits
      (search count (top - first) first 0 s.bitmap)
      (search-Outcome count s.bitmap (top - first) first pos_count)

-- A run that was free, marked and then released, is as it was.
undo :
    (b : Bool) (before now : ℕ)
    → (b ≡ true → before ≡ entry_free)
    → now ≡ (if b then entry_used else before)
    → (if b && (now == entry_used) then entry_free else now) ≡ before
undo true before now free e = rw e (sym (free refl))
undo false before now free e = e

-- Released frames that lie in the memory are all looked at.
release_run :
    (s : Mem) (k count a : ℕ)
    → a ≡ k * 4096
    → 0 < count
    → k + count ≤ s.total_frames
    → s.total_frames < 2 ^ 20
    → (mem_release_frames a count s).bitmap ≡ release count k s.bitmap
unfolding mem_release_frames
release_run s k count a e pos_count inside fits =
    let frame : a / 4096 ≡ k = omega (arith, e) in
    let below : leb s.total_frames k ≡ false = ground arith in
    let end : (k + count) % 4294967296 ≡ k + count = omega arith in
    let all : ltb s.total_frames (k + count) ≡ false = ground arith in
    let left : k + count - k ≡ count = omega arith in
    rw frame (rw below (rw end (rw all (rw left refl))))

release-Taken :
    (s : Mem) (count first last k a : ℕ) (s' : Mem)
    → Taken s count first last k a s'
    → 0 < count
    → s.total_frames < 2 ^ 20
    → (g : ℕ)
    → mem_bitmap_get_entry g (mem_release_frames a count s').bitmap
      ≡ mem_bitmap_get_entry g s.bitmap
release-Taken s count first last k a s' taken pos_count fits g =
    let top = last_frame-le last s.total_frames fits in
    ap (λ b. mem_bitmap_get_entry g b)
      (release_run s' k count a taken.address_is pos_count
        (omega (arith, taken.below, top, taken.same_total)) (omega (arith, fits, taken.same_total)))
    ∙ (release_lem count k g s'.bitmap taken.bytes
        ∙ undo (within k (k + count) g) _ _ (λ e. taken.was_free g (ground arith) (ground arith))
            (taken.entries g))

-- With a bitmap of bytes, at least one frame asked for and less than 2^20 frames of memory:
-- releasing what an allocation returned, if that is not NULL, gives every frame the entry that it
-- had before.
pub release-allocate :
    (s : Mem) (count first last : ℕ)
    → AreBytes s.bitmap
    → 0 < count
    → s.total_frames < 2 ^ 20
    → (mem_allocate_frames count first last s).0 ≢ 0
    → (g : ℕ)
    → mem_bitmap_get_entry g
        (mem_release_frames
          (mem_allocate_frames count first last s).0
          count
          (mem_allocate_frames count first last s).1).bitmap
      ≡ mem_bitmap_get_entry g s.bitmap
release-allocate s count first last bytes pos_count fits some_run g =
    elim (allocate_lem s count first last bytes pos_count fits) [
      | inl (k, taken) ↦ release-Taken s count first last k _ _ taken pos_count fits g
      | inr (null, _) ↦ absurd (some_run null)
    ]
