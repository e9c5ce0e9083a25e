-- ===== src/Kalloc/Kfree.antt =====
-- What kfree promises of the heap.
use rtc_driver.Base.{
  ℕ, zero, suc, ◌+◌, ◌*◌, ◌<◌, ◌≤◌, ◌≡◌, ◌≢◌, refl, ap, ◌∙◌, sym, true, false, inl, inr, Bool-cases,
  List, [], ◌∷◌, arith, ◌==◌, if◌then◌else◌, length,
}
use mathlib.Core.Path.{subst}
use rtc_driver.Base.Run.{ok}
use rtc_driver.Kalloc.{entry, join_next, Heap, heap, kfree_loop, kfree}
use rtc_driver.Kalloc.Grow.{IsStretch}
use rtc_driver.Kalloc.Blocks.{Block, flag_of, after, end_of, IsHeap, end_of-le}
use rtc_driver.Kalloc.Free.{freed, end_of-freed, cleared, if_true, if_false}
use rtc_driver.Kalloc.Release.{
  free_behind, free_blocks, join_prev-used, free_next-used, free_next-free, step_stop, step_hit,
  step_pass, loop_again, loop_done,
}
use rtc_driver.Kalloc.Seek.{walk_lem, given_back, flags_at, next_at, end_of-cons, link-free_behind}

module _ (mem_head base brk limit ptr : ℕ) (s : Heap) where
  abbrev Freed : ℕ → List Block → Type 0
  Freed fuel xs =
      (s' : Heap) × (kfree_loop fuel ptr mem_head s ≡ ok tt s')
      × IsHeap mem_head base brk limit s' xs

  first_hit :
      (fuel : ℕ) (b : Block) (xs : List Block)
      → IsHeap mem_head base brk limit s (b ∷ xs)
      → (base + 16 == ptr) ≡ true
      → Freed (suc fuel) (if b.used then (freed b.size xs).0 ∷ (freed b.size xs).1 else b ∷ xs)
  first_hit fuel b xs is found =
      let m = s.entries in
      let p = freed b.size xs in
      let at : (m mem_head).next ≡ base = next_at _ _ is.head_entry in
      let e_stop : end_of (after base b) xs ≡ brk * 4096 = sym (end_of-cons base b xs) ∙ is.ends in
      let room = end_of-le (after base b) xs in
      let low : end_of (after base b) xs ≤ 768 * 4096 =
        omega (arith, e_stop, is.stretch.order, is.stretch.top) in
      let pos_base : 0 < base = omega (arith, is.head_low) in
      let run =
        loop_done fuel ptr mem_head s
          (step_hit ptr mem_head base s at pos_base (omega (arith, room, low)) found) in
      elim (Bool-cases b.used) [
        | inr free ↦
            let same =
              free_next-free mem_head base m at (flags_at _ _ is.seg.0 ∙ ap flag_of free) in
            subst (λ ys. Freed (suc fuel) ys) (sym (if_false b.used _ _ free))
              (s, run ∙ ap (λ m'. ok tt (heap m' s.frames)) same, is)
        | inl used ↦
            let m' = join_next base (cleared base m) in
            let ch = given_back m mem_head base b xs pos_base used low is.seg.0 is.seg.1 in
            let head_same : m' mem_head ≡ m mem_head = ch.before mem_head is.head_low in
            let quiet =
              join_prev-used mem_head base m'
                (λ k. omega (arith, k, flags_at _ _ (head_same ∙ is.head_entry))) in
            let same =
              free_next-used mem_head base m at (flags_at _ _ is.seg.0 ∙ ap flag_of used) ∙ quiet in
            subst (λ ys. Freed (suc fuel) ys) (sym (if_true b.used _ _ used))
              (
                heap m' s.frames,
                run ∙ ap (λ m''. ok tt (heap m'' s.frames)) same,
                record {
                  head_entry = head_same ∙ is.head_entry;
                  head_low = is.head_low;
                  seg = (ch.first, ch.others);
                  ends = end_of-cons base p.0 p.1 ∙ end_of-freed base b.size xs ∙ e_stop;
                  stretch = is.stretch;
                },
              )
      ]

  first_miss :
      (fuel : ℕ) (b : Block) (xs : List Block)
      → IsHeap mem_head base brk limit s (b ∷ xs)
      → length xs < fuel
      → (base + 16 == ptr) ≡ false
      → Freed (suc fuel) (free_behind ptr base b xs)
  first_miss fuel b xs is enough missed =
      let low : end_of base (b ∷ xs) ≤ 768 * 4096 =
        omega (arith, is.ends, is.stretch.order, is.stretch.top) in
      let pos_base : 0 < base = omega (arith, is.head_low) in
      let (s', g) = walk_lem ptr xs fuel mem_head base b s enough pos_base is.seg low in
      (
        s',
        loop_again fuel ptr mem_head s (
              step_pass ptr mem_head base s (next_at _ _ is.head_entry) pos_base
                (omega (arith, end_of-le base (b ∷ xs), low)) missed)
            ∙ g.run,
        record {
          head_entry =
              g.left.before mem_head is.head_low
              ∙ is.head_entry
              ∙ ap (λ p. entry p 0 0 0) (sym (link-free_behind ptr base b xs base));
          head_low = is.head_low;
          seg = g.left.now;
          ends = g.left.ends ∙ is.ends;
          stretch = subst (λ f. IsStretch brk limit f) (sym g.frames) is.stretch;
        },
      )

  any_blocks :
      (fuel : ℕ) (xs : List Block)
      → IsHeap mem_head base brk limit s xs
      → length xs < fuel
      → Freed fuel (free_blocks ptr base xs)
  unfolding free_blocks
  any_blocks zero xs is enough = absurd (omega arith)
  any_blocks (suc fuel) [] is enough = (
    s,
    loop_done fuel ptr mem_head s (step_stop ptr mem_head 0 s (next_at _ _ is.head_entry) refl),
    is,
  )
  any_blocks (suc fuel) (b ∷ xs) is enough = elim (Bool-cases (base + 16 == ptr)) [
    | inl found ↦
        subst (λ ys. Freed (suc fuel) ys) (sym (if_true _ _ _ found)) (first_hit fuel b xs is found)
    | inr missed ↦
        subst (λ ys. Freed (suc fuel) ys) (sym (if_false _ _ _ missed))
          (first_miss fuel b xs is (omega arith) missed)
  ]

-- On a well-formed heap, with fuel above the number of blocks, kfree of a pointer that is not NULL
-- returns; the blocks become those of giving the pointer back, joined with the free blocks next
-- to it, and the heap stays well-formed.
pub kfree_lem :
    (mem_head base brk limit fuel ptr : ℕ) (s : Heap) (xs : List Block)
    → IsHeap mem_head base brk limit s xs
    → length xs < fuel
    → ptr ≢ 0
    → (s' : Heap) × (kfree mem_head fuel ptr s ≡ ok tt s')
      × IsHeap mem_head base brk limit s' (free_blocks ptr base xs)
unfolding kfree
kfree_lem mem_head base brk limit fuel ptr s xs is enough ne =
    let some_pointer : (ptr == 0) ≡ false = ground arith in
    let (s', run, is') = any_blocks mem_head base brk limit ptr s fuel xs is enough in
    (s', rw some_pointer run, is')
