-- ===== src/Kalloc/Fit.antt =====
-- kalloc as first fit over the blocks.
use rtc_driver.Base.{
  ℕ, ◌+◌, ◌-◌, ◌*◌, ◌%◌, ◌^◌, ◌<◌, ◌≤◌, ◌≡◌, refl, ap, Bool, true, false, not, ◌&&◌, ◌||◌, inl, inr,
  Bool-cases, List, [], ◌∷◌, arith, ltb, leb, ◌==◌, if◌then◌else◌,
}
use rtc_driver.Kalloc.{
  entry, put, cut_at, cut_block, block_free, block_used, Heap, heap, done, kalloc_step,
}
use rtc_driver.Kalloc.Blocks.{Block, block, after, link, Seg, put_self, put-ne, Seg-same}
use rtc_driver.Kalloc.Cut.{cut_at_lem}

-- Whether the block is free and large enough.
unfoldable pub fits : ℕ → Block → Bool
fits units b = not b.used && leb units b.size

-- A block of `size` units that gives `units`, in front of the others: a rest of at most one unit,
-- which would be an entry without memory, stays with the block.
unfoldable pub carve : ℕ → ℕ → List Block → List Block
carve units size xs =
    if (size == units) || (size == units + 1)
    then block size true ∷ xs
    else block units true ∷ block (size - units - 1) false ∷ xs

-- What kalloc promises: the pointer, the blocks and the end of the used frames.
pub record Answer : Type 0 where
  pub ptr : ℕ
  pub blocks : List Block
  pub brk : ℕ

abbrev pub answer : ℕ → List Block → ℕ → Answer
answer p xs brk = record { ptr = p; blocks = xs; brk = brk }

-- The first block from `a` on that fits; behind the last, `count` new frames are one more block, if
-- they are there.
unfoldable pub first_fit : ℕ → ℕ → ℕ → ℕ → ℕ → List Block → Answer
first_fit units count brk limit a [] =
    if leb (brk + count) limit
    then answer (a + 16) (carve units (count * 256 - 1) []) (brk + count)
    else answer 0 [] brk
first_fit units count brk limit a (b ∷ xs) =
    let rest = first_fit units count brk limit (after a b) xs in
    if fits units b
    then answer (a + 16) (carve units b.size xs) brk
    else answer rest.ptr (b ∷ rest.blocks) rest.brk

-- The round at `a` is the last, the blocks from `a` on are now `ys`, and no entry in front of them
-- has changed.
pub record Carved (units a prev : ℕ) (s : Heap) (ys : List Block) (s' : Heap) : Type 0 where
  pub step : kalloc_step units a s ≡ done (a + 16) s'
  pub now : Seg s'.entries prev a ys
  pub before : (q : ℕ) → q < a → s'.entries q ≡ s.entries q
  pub frames : s'.frames ≡ s.frames

-- A block that fits is used at once.
module _ (units a size prev : ℕ) (xs : List Block) (s : Heap)
    (here : s.entries a ≡ entry (link (a + (size + 1) * 16) xs) prev size block_free)
    (low : a + (size + 1) * 16 ≤ 768 * 4096) (large : units ≤ size)
    (seg : Seg s.entries a (a + (size + 1) * 16) xs) where
  pointer : (a + 16) % 2 ^ 32 ≡ a + 16
  pointer = omega arith

  whole_lem :
      ((size == units) || (size == units + 1)) ≡ true
      → (s' : Heap) × Carved units a prev s (block size true ∷ xs) s'
  unfolding kalloc_step
  whole_lem exact =
      let e = entry (link (a + (size + 1) * 16) xs) prev size block_used in
      let m' = put a e s.entries in
      (
        heap m' s.frames,
        record {
          step = rw here (rw exact (ap (λ r. done r (heap m' s.frames)) pointer));
          now = (
            put_self a e s.entries,
            Seg-same s.entries m' a (a + (size + 1) * 16) xs
                (λ q h. put-ne a q e s.entries (λ k. omega arith)) seg,
          );
          before = λ q h. put-ne a q e s.entries (λ k. omega arith);
          frames = refl;
        },
      )

  new_place : (a + (units + 1) * 16) % 2 ^ 32 ≡ a + (units + 1) * 16
  new_place = omega arith

  cut_lem :
      ((size == units) || (size == units + 1)) ≡ false
      → (s' : Heap) × Carved units a prev s
          (block units true ∷ block (size - units - 1) false ∷ xs)
          s'
  unfolding kalloc_step cut_block
  cut_lem inexact =
      let n = a + (units + 1) * 16 in
      let m' = cut_at n units a s.entries in
      let more : ltb (units + 1) size ≡ true = ground arith in
      let next : n + (size - units - 1 + 1) * 16 ≡ a + (size + 1) * 16 = ground arith in
      let (first, second, others, same) =
        cut_at_lem s.entries a n units size prev (a + (size + 1) * 16) xs here (omega arith)
          (ground arith) seg in
      (
        heap m' s.frames,
        record {
          step =
              rw here
                (rw inexact (rw more (rw new_place (ap (λ r. done r (heap m' s.frames)) pointer))));
          now = (first, rw next (second, others));
          before = same;
          frames = refl;
        },
      )

  pub carve_lem : (s' : Heap) × Carved units a prev s (carve units size xs) s'
  unfolding carve
  carve_lem = elim (Bool-cases ((size == units) || (size == units + 1))) [
    | inl exact ↦ rw exact (whole_lem exact)
    | inr inexact ↦ rw inexact (cut_lem inexact)
  ]
