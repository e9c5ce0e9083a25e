-- ===== src/Frames/Search.antt =====
-- The search for a run of free frames: sound and complete.
use rtc_driver.Base.{
  ℕ, zero, suc, ◌+◌, ◌-◌, ◌≤◌, ◌<◌, ◌≡◌, refl, ltb, ap, ◌∙◌, false, inl, inr, Bool-cases, Option,
  none, some, arith, ◌==◌,
}
use rtc_driver.Frames.{Bitmap, entry_free, search, mark, mem_bitmap_get_entry}

abbrev pub IsFree : Bitmap → ℕ → Type 0
IsFree bm g = mem_bitmap_get_entry g bm ≡ entry_free

-- All of `count` frames from `k` on are free.
abbrev pub FreeRun : Bitmap → ℕ → ℕ → Type 0
FreeRun bm k count = (g : ℕ) → k ≤ g → g < k + count → IsFree bm g

-- A run that the search finds.
pub record Found (bm : Bitmap) (count lo hi k : ℕ) (bm' : Bitmap) : Type 0 where
  pub above : lo ≤ k
  pub below : k + count ≤ hi
  pub free : FreeRun bm k count
  pub earliest : (j : ℕ) → lo ≤ j → j < k → ¬ FreeRun bm j count
  pub marked : bm' ≡ mark count (k + count - 1) bm

-- What a search of the frames from `lo` to `hi` promises.
abbrev pub Outcome : Bitmap → ℕ → ℕ → ℕ → Option ℕ × Bitmap → Type 0
Outcome bm count lo hi (some k, bm') = Found bm count lo hi k bm'
Outcome bm count lo hi (none, bm') =
    (bm' ≡ bm) × ((k : ℕ) → lo ≤ k → k + count ≤ hi → ¬ FreeRun bm k count)

-- A run grows by the frame behind it.
FreeRun-grow :
    (bm : Bitmap) (k r f : ℕ) → FreeRun bm k r → k + r ≡ f → IsFree bm f → FreeRun bm k (r + 1)
FreeRun-grow bm k r f run e free g lo up = elim (Bool-cases (g == f)) [
  | inl same ↦ ap (λ x. mem_bitmap_get_entry x bm) (ground arith) ∙ free
  | inr other ↦ run g lo (ground arith)
]

-- A window that holds a frame which is not free is no run.
not_run :
    (bm : Bitmap) (k count f : ℕ) → k ≤ f → f < k + count → ¬ IsFree bm f → ¬ FreeRun bm k count
not_run bm k count f lo up full run = full (run f lo up)

zero_ne : (n r : ℕ) → r < n → (0 == n) ≡ false
zero_ne n r h = ground arith

Run-same : (bm : Bitmap) {k k' : ℕ} (r : ℕ) → k ≡ k' → FreeRun bm k r → FreeRun bm k' r
Run-same bm r e run g lo up = run g (omega (arith, e, lo)) (omega (arith, e, up))

FreeRun-zero : (bm : Bitmap) (k : ℕ) → FreeRun bm k 0
FreeRun-zero bm k g lo up = absurd (omega arith)

-- The outcome of the rest of a search, with more frames before it that hold no run.
module _ (count : ℕ) (bm : Bitmap) where
  later :
      (lo lo' hi hi' : ℕ)
      → lo ≤ lo'
      → hi' ≡ hi
      → ((k : ℕ) → lo ≤ k → k < lo' → ¬ FreeRun bm k count)
      → (out : Option ℕ × Bitmap) → Outcome bm count lo' hi' out
      → Outcome bm count lo hi out
  later lo lo' hi hi' h e before (some k, bm') found = record {
    above = omega (arith, h, found.above);
    below = omega (arith, e, found.below);
    free = found.free;
    earliest = λ j low up. elim (Bool-cases (ltb j lo')) [
      | inl early ↦ before j low (ground arith)
      | inr late ↦ found.earliest j (ground arith) up
    ];
    marked = found.marked;
  }
  later lo lo' hi hi' h e before (none, bm') (same, absent) = (
    same,
    λ k low up. elim (Bool-cases (ltb k lo')) [
      | inl early ↦ before k low (ground arith)
      | inr late ↦ absent k (ground arith) (omega (arith, e, up))
    ],
  )

  hit :
      (f r hi : ℕ)
      → FreeRun bm (f - r) (r + 1)
      → r ≤ f
      → r + 1 ≡ count
      → f < hi
      → Found bm count (f - r) hi (f + 1 - count) (mark (r + 1) f bm)
  hit f r hi run small e h = record {
    above = omega arith;
    below = omega arith;
    free = λ g lo up. run g (omega arith) (omega arith);
    earliest = λ j lo up. absurd (omega arith);
    marked = ap (λ c. mark c f bm) e ∙ ap (λ x. mark count x bm) (omega arith);
  }

  search_lem :
      (n f r : ℕ)
      → FreeRun bm (f - r) r
      → r ≤ f
      → r < count
      → Outcome bm count (f - r) (f + n) (search count n f r bm)
  unfolding search
  search_lem zero f r run small less = (refl, λ k lo hi all. absurd (omega arith))
  search_lem (suc n) f r run small less =
      elim (Bool-cases (mem_bitmap_get_entry f bm == entry_free)) [
        | inl free ↦ elim (Bool-cases (r + 1 == count)) [
          | inl full ↦ rw free (
              rw full (
                hit f r (f + suc n) (FreeRun-grow bm (f - r) r f run (omega arith) (ground arith))
                  small (ground arith) (omega arith)))
          | inr more ↦ rw free (
              rw more (
                later (f - r) (f + 1 - (r + 1)) (f + suc n) (f + 1 + n) (omega arith) (omega arith)
                  (λ k lo up. absurd (omega arith)) _
                  (search_lem n (f + 1) (r + 1)
                    (Run-same bm (r + 1) (omega arith)
                      (FreeRun-grow bm (f - r) r f run (omega arith) (ground arith)))
                    (omega arith) (ground arith))))
        ]
        | inr used ↦ rw used (
            rw (zero_ne count r less) (
              later (f - r) (f + 1 - 0) (f + suc n) (f + 1 + n) (omega arith) (omega arith)
                (λ k lo up. not_run bm k count f (omega arith) (omega arith) (λ e. ground arith)) _
                (search_lem n (f + 1) 0 (FreeRun-zero bm (f + 1 - 0)) (omega arith) (omega arith))))
      ]

  pub search-Outcome : (n f : ℕ) → 0 < count → Outcome bm count f (f + n) (search count n f 0 bm)
  search-Outcome n f pos_count =
      later f (f - 0) (f + n) (f + n) (omega arith) refl (λ k lo up. absurd (omega arith)) _
        (search_lem n f 0 (FreeRun-zero bm (f - 0)) (omega arith) pos_count)
