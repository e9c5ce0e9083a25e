-- ===== src/Kalloc/Pass.antt =====
-- The rounds of a walk, and what it comes to.
use rtc_driver.Base.{
  ℕ, suc, ◌+◌, ◌*◌, ◌^◌, ◌<◌, ◌≤◌, ◌≡◌, ◌≢◌, refl, ap, Bool, false, ◌&&◌, ◌||◌, inl, inr,
  Bool-cases, List, [], arith, ltb, leb, ◌==◌,
}
use rtc_driver.Base.Run.{ok}
use rtc_driver.Kalloc.{
  entry, block_free, Heap, done, again, frames_for, grow, kalloc_step, kalloc_loop,
}
use rtc_driver.Kalloc.Grow.{IsStretch}
use rtc_driver.Kalloc.Blocks.{Block, end_of, link, Seg}
use rtc_driver.Kalloc.Fit.{carve, Answer}

-- What a walk from the entry at `prev`, in front of blocks from `a` on, has come to.
pub record Walked (fuel units limit prev pv size flags a : ℕ) (s : Heap) (ans : Answer) (s' : Heap)
    : Type 0 where
  pub run : kalloc_loop fuel units prev s ≡ ok ans.ptr s'
  pub linked : s'.entries prev ≡ entry (link a ans.blocks) pv size flags
  pub now : Seg s'.entries prev a ans.blocks
  pub before : (q : ℕ) → q < a → q ≢ prev → s'.entries q ≡ s.entries q
  pub stretch : IsStretch ans.brk limit s'.frames
  pub ends : end_of a ans.blocks ≡ ans.brk * 4096

pub frames_for_lem :
    (units : ℕ) → units + 1 < 2 ^ 28 → (0 < frames_for units) × (units + 1 ≤ frames_for units * 256)
unfolding frames_for
frames_for_lem units h = ground arith

module _ (fuel units e : ℕ) (s : Heap) where
  pub loop_again :
      {e' : ℕ} {s' : Heap}
      → kalloc_step units e s ≡ again e' s'
      → kalloc_loop (suc fuel) units e s ≡ kalloc_loop fuel units e' s'
  unfolding kalloc_loop
  loop_again h = rw h refl

  pub loop_done :
      {p : ℕ} {s' : Heap}
      → kalloc_step units e s ≡ done p s'
      → kalloc_loop (suc fuel) units e s ≡ ok p s'
  unfolding kalloc_loop
  loop_done h = rw h refl

-- An entry that does not fit is passed.
no_exact :
    (free : Bool) (units size : ℕ)
    → (free && leb units size) ≡ false
    → (free && ((size == units) || (size == units + 1))) ≡ false
no_exact free units size h = ground arith

no_larger :
    (free : Bool) (units size : ℕ)
    → (free && leb units size) ≡ false
    → (free && ltb (units + 1) size) ≡ false
no_larger free units size h = ground arith

module _ (units e next prev size flags : ℕ) (s : Heap)
    (here : s.entries e ≡ entry next prev size flags)
    (small : ((flags == block_free) && leb units size) ≡ false) where
  pub pass_lem : 0 < next → kalloc_step units e s ≡ again next s
  unfolding kalloc_step
  pass_lem h =
      let some_next : (next == 0) ≡ false = ground arith in
      rw here
        (rw (no_exact _ units size small) (rw (no_larger _ units size small) (rw some_next refl)))

  pub last_lem : next ≡ 0 → kalloc_step units e s ≡ grow units e s
  unfolding kalloc_step
  last_lem h =
      rw here (rw (no_exact _ units size small) (rw (no_larger _ units size small) (rw h refl)))

-- The end of a carved block is that of the block.
pub end_of-carve :
    (units size a : ℕ) (xs : List Block)
    → units ≤ size
    → end_of a (carve units size xs) ≡ end_of (a + (size + 1) * 16) xs
unfolding carve end_of
end_of-carve units size a xs h = elim (Bool-cases ((size == units) || (size == units + 1))) [
  | inl exact ↦ rw exact refl
  | inr inexact ↦ rw inexact (ap (λ p. end_of p xs) (ground arith))
]

pub end_of-nil : (a : ℕ) → end_of a [] ≡ a
unfolding end_of
end_of-nil a = refl

pub link-carve : (units size a : ℕ) (xs : List Block) → link a (carve units size xs) ≡ a
unfolding carve
link-carve units size a xs = elim (Bool-cases ((size == units) || (size == units + 1))) [
  | inl exact ↦ rw exact refl
  | inr inexact ↦ rw inexact refl
]
