-- ===== src/Kalloc/Release.antt =====
-- kfree does what giving a block back does to the list of blocks.
use rtc_driver.Base.{
  ℕ, suc, ◌+◌, ◌*◌, ◌%◌, ◌^◌, ◌<◌, ◌≤◌, ◌≡◌, ◌≢◌, refl, true, false, List, [], ◌∷◌, arith, ◌==◌,
  if◌then◌else◌,
}
use rtc_driver.Base.Run.{ok}
use rtc_driver.Kalloc.{
  Entries, block_free, block_used, join_next, join_prev, free_next, Heap, heap, done, again,
  kfree_step, kfree_loop,
}
use rtc_driver.Kalloc.Blocks.{Block, block, after}
use rtc_driver.Kalloc.Join.{joined}
use rtc_driver.Kalloc.Free.{freed, cleared}

-- A block in front of a freed one.
unfoldable pub absorb : Block → Block × List Block → List Block
absorb b (c, xs) = if b.used then b ∷ c ∷ xs else block (b.size + c.size + 1) false ∷ xs

-- The block at `e` and those behind it, after the pointer has been given back.
unfoldable pub free_behind : ℕ → ℕ → Block → List Block → List Block
free_behind ptr e pb [] = pb ∷ []
free_behind ptr e pb (b ∷ xs) =
    let rest = free_behind ptr (after e pb) b xs in
    if after e pb + 16 == ptr
    then (if b.used then absorb pb (freed b.size xs) else pb ∷ b ∷ xs)
    else pb ∷ rest

unfoldable pub free_blocks : ℕ → ℕ → List Block → List Block
free_blocks ptr a [] = []
free_blocks ptr a (b ∷ xs) =
    let (c, ys) = freed b.size xs in
    if a + 16 == ptr then (if b.used then c ∷ ys else b ∷ xs) else free_behind ptr a b xs

pub join_prev-used : (e f : ℕ) (m : Entries) → (m e).flags ≢ block_free → join_prev e f m ≡ m
unfolding join_prev
join_prev-used e f m h =
    let other : ((m e).flags == block_free) ≡ false = ground arith in rw other refl

pub join_prev-free :
    (e f : ℕ) (m : Entries) → (m e).flags ≡ block_free → join_prev e f m ≡ joined e f m
unfolding join_prev
join_prev-free e f m h =
    let same : ((m e).flags == block_free) ≡ true = ground arith in rw same refl

pub free_next-used :
    (e a : ℕ) (m : Entries)
    → (m e).next ≡ a
    → (m a).flags ≡ block_used
    → free_next e m ≡ join_prev e a (join_next a (cleared a m))
unfolding free_next
free_next-used e a m at flag = rw at (rw flag refl)

pub free_next-free :
    (e a : ℕ) (m : Entries) → (m e).next ≡ a → (m a).flags ≡ block_free → free_next e m ≡ m
unfolding free_next
free_next-free e a m at flag = rw at (rw flag refl)

module _ (ptr e a : ℕ) (s : Heap) (at : (s.entries e).next ≡ a) where
  pub step_stop : a ≡ 0 → kfree_step ptr e s ≡ done tt s
  unfolding kfree_step
  step_stop none = rw at (rw none refl)

  pub step_hit :
      0 < a
      → a ≤ 768 * 4096
      → (a + 16 == ptr) ≡ true
      → kfree_step ptr e s ≡ done tt (heap (free_next e s.entries) s.frames)
  unfolding kfree_step
  step_hit pos_a low found =
      let some_next : (a == 0) ≡ false = ground arith in
      let small : (a + 16) % 2 ^ 32 ≡ a + 16 = omega arith in
      rw at (rw some_next (rw small (rw found refl)))

  pub step_pass : 0 < a → a ≤ 768 * 4096 → (a + 16 == ptr) ≡ false → kfree_step ptr e s ≡ again a s
  unfolding kfree_step
  step_pass pos_a low found =
      let some_next : (a == 0) ≡ false = ground arith in
      let small : (a + 16) % 2 ^ 32 ≡ a + 16 = omega arith in
      rw at (rw some_next (rw small (rw found refl)))

module _ (fuel ptr e : ℕ) (s : Heap) where
  pub loop_again :
      {e' : ℕ} {s' : Heap}
      → kfree_step ptr e s ≡ again e' s'
      → kfree_loop (suc fuel) ptr e s ≡ kfree_loop fuel ptr e' s'
  unfolding kfree_loop
  loop_again h = rw h refl

  pub loop_done :
      {s' : Heap} → kfree_step ptr e s ≡ done tt s' → kfree_loop (suc fuel) ptr e s ≡ ok tt s'
  unfolding kfree_loop
  loop_done h = rw h refl
