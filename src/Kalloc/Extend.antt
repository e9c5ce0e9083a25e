-- ===== src/Kalloc/Extend.antt =====
-- The end of the list: new frames, or none.
use rtc_driver.Base.{
  ℕ, suc, ◌+◌, ◌-◌, ◌*◌, ◌/◌, ◌%◌, ◌^◌, ◌<◌, ◌≤◌, ◌≡◌, ◌≢◌, refl, ap, ◌∙◌, sym, true, false, ◌&&◌,
  inl, inr, [], arith, leb, ◌==◌,
}
use mathlib.Core.Path.{subst}
use rtc_driver.Frames.{Mem, mem_allocate_frames}
use rtc_driver.Kalloc.{
  Entry, Entries, entry, set_flags, set_next, set_prev, set_size, block_free, Heap, heap, done,
  again, frames_for, grow, kalloc_step,
}
use rtc_driver.Kalloc.Grow.{IsStretch, grow_lem}
use rtc_driver.Kalloc.Blocks.{put_self, put-ne}
use rtc_driver.Kalloc.Pass.{
  Walked, frames_for_lem, loop_again, loop_done, last_lem, end_of-carve, end_of-nil, link-carve,
}
use rtc_driver.Kalloc.Fit.{carve, answer, first_fit, carve_lem}

-- The writes that put a free block at `n` behind the entry at `e`.
module _ (n e size : ℕ) (m : Entries) where
  extended : Entries
  extended = set_size n size (set_flags n block_free (set_next n 0 (set_prev n e (set_next e n m))))

  extended_self : extended n ≡ entry 0 e size block_free
  unfolding extended
  extended_self =
      let m1 = set_next e n m in
      let m2 = set_prev n e m1 in
      let m3 = set_next n 0 m2 in
      let m4 = set_flags n block_free m3 in
      put_self n _ m4
      ∙ ap (λ (d : Entry). record d { size = size })
          (put_self n _ m3
            ∙ ap (λ (d : Entry). record d { flags = block_free })
                (put_self n _ m2
                  ∙ ap (λ (d : Entry). record d { next = 0 })
                      (put_self n (record (m1 n) { prev = e }) m1)))

  extended-ne : (q : ℕ) → q ≢ n → extended q ≡ set_next e n m q
  unfolding extended
  extended-ne q ne =
      let m1 = set_next e n m in
      let m2 = set_prev n e m1 in
      let m3 = set_next n 0 m2 in
      put-ne n q _ (set_flags n block_free m3) ne
      ∙ put-ne n q _ m3 ne
      ∙ put-ne n q _ m2 ne
      ∙ put-ne n q _ m1 ne

  extended-prev : e ≢ n → extended e ≡ record (m e) { next = n }
  extended-prev apart = extended-ne e apart ∙ put_self e _ m

  extended-other : (q : ℕ) → q ≢ n → q ≢ e → extended q ≡ m q
  extended-other q ne ne' = extended-ne q ne ∙ put-ne e q _ m ne'

fresh_size :
    (count : ℕ)
    → 0 < count
    → count ≤ 768
    → (count * 4096 % 2 ^ 32 / 16 + 2 ^ 32 - 1) % 2 ^ 32 ≡ count * 256 - 1
fresh_size count h k = omega arith

-- At the last entry: new frames become a block, which is carved in the next round, or there are too
-- few of them.
module _ (fuel units brk limit prev pv size flags : ℕ) (s : Heap)
    (here : s.entries prev ≡ entry 0 pv size flags)
    (small : ((flags == block_free) && leb units size) ≡ false) (low : prev < brk * 4096)
    (is : IsStretch brk limit s.frames) (bound : units + 1 < 2 ^ 28) where
  abbrev count : ℕ
  count = frames_for units

  abbrev out : ℕ × Mem
  out = mem_allocate_frames (frames_for units) 256 768 s.frames

  grow_none : out.0 ≡ 0 → kalloc_step units prev s ≡ done 0 (heap s.entries out.1)
  unfolding grow
  grow_none null = last_lem units prev 0 pv size flags s here small refl ∙ rw null refl

  grow_some :
      out.0 ≡ brk * 4096
      → count ≤ 768
      → kalloc_step units prev s
        ≡ again (brk * 4096) (heap (extended (brk * 4096) prev (count * 256 - 1) s.entries) out.1)
  unfolding grow extended
  grow_some at few =
      let some_frames : (brk * 4096 == 0) ≡ false = ground (arith, is.start) in
      last_lem units prev 0 pv size flags s here small refl
      ∙ rw at (rw some_frames (rw (fresh_size count (frames_for_lem units bound).0 few) refl))

  extended_low : prev ≢ brk * 4096
  extended_low e = omega arith

  more_lem :
      (at : out.0 ≡ brk * 4096)
      → brk + count ≤ limit
      → IsStretch (brk + count) limit out.1
      → (s' : Heap) × Walked
          (suc (suc fuel))
          units
          limit
          prev
          pv
          size
          flags
          (brk * 4096)
          s
          (answer (brk * 4096 + 16) (carve units (count * 256 - 1) []) (brk + count))
          s'
  more_lem at room stretch =
      let a = brk * 4096 in
      let fresh = count * 256 - 1 in
      let m' = extended a prev fresh s.entries in
      let (some_frames, enough) = frames_for_lem units bound in
      let (s', c) =
        carve_lem units a fresh prev [] (heap m' out.1) (extended_self a prev fresh s.entries)
          (omega (arith, room, stretch.top)) (omega arith) tt in
      (
        s',
        record {
          run =
              loop_again (suc fuel) units prev s (grow_some at (omega (arith, room, stretch.top)))
              ∙ loop_done fuel units a (heap m' out.1) c.step;
          linked =
              c.before prev low
              ∙ extended-prev a prev fresh s.entries extended_low
              ∙ ap (λ (d : Entry). record d { next = a }) here
              ∙ ap (λ p. entry p pv size flags) (sym (link-carve units fresh a []));
          now = c.now;
          before = λ q h ne.
              c.before q h ∙ extended-other a prev fresh s.entries q (λ e. omega arith) ne;
          stretch = subst (λ f. IsStretch (brk + count) limit f) (sym c.frames) stretch;
          ends =
              end_of-carve units fresh a [] (omega arith)
              ∙ end_of-nil (a + (fresh + 1) * 16)
              ∙ omega arith;
        },
      )

  none_lem :
      out.0 ≡ 0
      → IsStretch brk limit out.1
      → (s' : Heap) × Walked
          (suc (suc fuel))
          units
          limit
          prev
          pv
          size
          flags
          (brk * 4096)
          s
          (answer 0 [] brk)
          s'
  none_lem null stretch = (
    heap s.entries out.1,
    record {
      run = loop_done (suc fuel) units prev s (grow_none null);
      linked = here;
      now = tt;
      before = λ q h ne. refl;
      stretch = stretch;
      ends = end_of-nil (brk * 4096);
    },
  )

  -- Behind the last entry, a walk does what first fit does behind the last block.
  pub extend_lem :
      (s' : Heap) × Walked
        (suc (suc fuel))
        units
        limit
        prev
        pv
        size
        flags
        (brk * 4096)
        s
        (first_fit units count brk limit (brk * 4096) [])
        s'
  unfolding first_fit
  extend_lem = elim (grow_lem count brk limit s.frames is (frames_for_lem units bound).0) [
    | inl (at, room, stretch) ↦
        let t : leb (brk + count) limit ≡ true = ground arith in rw t (more_lem at room stretch)
    | inr (null, full, stretch) ↦
        let t : leb (brk + count) limit ≡ false = ground arith in rw t (none_lem null stretch)
  ]
