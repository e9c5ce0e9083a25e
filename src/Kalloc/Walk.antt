-- ===== src/Kalloc/Walk.antt =====
-- kalloc does what first fit does.
use rtc_driver.Base.{
  ℕ, zero, suc, ◌+◌, ◌-◌, ◌*◌, ◌^◌, ◌<◌, ◌≤◌, ◌≡◌, refl, ap, ◌∙◌, sym, Bool, true, false, not, ◌&&◌,
  inl, inr, Bool-cases, List, [], ◌∷◌, arith, leb, ◌==◌, length,
}
use mathlib.Core.Path.{subst}
use rtc_driver.Base.Run.{ok}
use rtc_driver.Kalloc.{entry, block_free, Heap, units_for, frames_for, kalloc}
use rtc_driver.Kalloc.Grow.{IsStretch}
use rtc_driver.Kalloc.Blocks.{Block, flag_of, after, end_of, link, Seg, IsHeap, end_of-le}
use rtc_driver.Kalloc.Fit.{fits, carve, Answer, answer, first_fit, carve_lem}
use rtc_driver.Kalloc.Extend.{extend_lem}
use rtc_driver.Kalloc.Pass.{
  Walked, loop_again, loop_done, pass_lem, end_of-carve, end_of-nil, link-carve,
}

flag_free : (used : Bool) → (flag_of used == block_free) ≡ not used
flag_free true = refl
flag_free false = refl

when_fits : (units : ℕ) (b : Block) → fits units b ≡ true → (b.used ≡ false) × (units ≤ b.size)
unfolding fits
when_fits units b h = (ground arith, ground arith)

not_small :
    (units : ℕ) (b : Block)
    → fits units b ≡ false
    → ((flag_of b.used == block_free) && leb units b.size) ≡ false
unfolding fits
not_small units b h = rw (flag_free b.used) h

end_of-cons : (a : ℕ) (b : Block) (xs : List Block) → end_of a (b ∷ xs) ≡ end_of (after a b) xs
unfolding end_of
end_of-cons a b xs = refl

module _ (units brk limit : ℕ) (bound : units + 1 < 2 ^ 28) where
  abbrev fit : ℕ → List Block → Answer
  fit a xs = first_fit units (frames_for units) brk limit a xs

  -- The walk stops at the block at `a`.
  hit :
      (fuel prev pv size flags a : ℕ) (b : Block) (xs : List Block) (s : Heap)
      → s.entries prev ≡ entry a pv size flags
      → ((flags == block_free) && leb units size) ≡ false
      → prev < a
      → Seg s.entries prev a (b ∷ xs)
      → end_of (after a b) xs ≡ brk * 4096
      → IsStretch brk limit s.frames
      → fits units b ≡ true
      → (s' : Heap) × Walked
          (suc (suc fuel))
          units
          limit
          prev
          pv
          size
          flags
          a
          s
          (answer (a + 16) (carve units b.size xs) brk)
          s'
  hit fuel prev pv size flags a b xs s here small low seg ends is fit_here =
      let (free, large) = when_fits units b fit_here in
      let at : s.entries a ≡ entry (link (after a b) xs) prev b.size block_free =
        seg.0 ∙ ap (λ u. entry (link (after a b) xs) prev b.size (flag_of u)) free in
      let (s', c) =
        carve_lem units a b.size prev xs s at
          (omega (arith, end_of-le (after a b) xs, ends, is.order, is.top)) large seg.1 in
      (
        s',
        record {
          run =
              loop_again (suc fuel) units prev s
                (pass_lem units prev a pv size flags s here small (omega arith))
              ∙ loop_done fuel units a s c.step;
          linked =
              c.before prev low
              ∙ here
              ∙ ap (λ p. entry p pv size flags) (sym (link-carve units b.size a xs));
          now = c.now;
          before = λ q h ne. c.before q h;
          stretch = subst (λ f. IsStretch brk limit f) (sym c.frames) is;
          ends = end_of-carve units b.size a xs large ∙ ends;
        },
      )

  -- The walk goes on behind the block at `a`.
  miss :
      (fuel prev pv size flags a : ℕ) (b : Block) (xs : List Block) (s s' : Heap) (ans : Answer)
      → s.entries prev ≡ entry a pv size flags
      → ((flags == block_free) && leb units size) ≡ false
      → prev < a
      → Walked fuel units limit a prev b.size (flag_of b.used) (after a b) s ans s'
      → Walked
          (suc fuel)
          units
          limit
          prev
          pv
          size
          flags
          a
          s
          (answer ans.ptr (b ∷ ans.blocks) ans.brk)
          s'
  miss fuel prev pv size flags a b xs s s' ans here small low w = record {
    run =
        loop_again fuel units prev s
          (pass_lem units prev a pv size flags s here small (omega arith))
        ∙ w.run;
    linked = w.before prev (omega arith) (λ e. omega arith) ∙ here;
    now = (w.linked, w.now);
    before = λ q h ne. w.before q (omega arith) (λ e. omega arith);
    stretch = w.stretch;
    ends = end_of-cons a b ans.blocks ∙ w.ends;
  }

  walk_lem :
      (xs : List Block) (fuel prev pv size flags a : ℕ) (s : Heap)
      → length xs + 2 ≤ fuel
      → s.entries prev ≡ entry (link a xs) pv size flags
      → ((flags == block_free) && leb units size) ≡ false
      → prev < a
      → Seg s.entries prev a xs
      → end_of a xs ≡ brk * 4096
      → IsStretch brk limit s.frames
      → (s' : Heap) × Walked fuel units limit prev pv size flags a s (fit a xs) s'
  unfolding first_fit
  walk_lem xs zero prev pv size flags a s h here small low seg ends is = absurd (omega arith)
  walk_lem xs (suc zero) prev pv size flags a s h here small low seg ends is = absurd (omega arith)
  walk_lem [] (suc (suc fuel)) prev pv size flags a s h here small low seg ends is =
      let at : a ≡ brk * 4096 = sym (end_of-nil a) ∙ ends in
      subst
        (λ p.
          (s' : Heap) × Walked (suc (suc fuel)) units limit prev pv size flags p s (fit p []) s')
        (sym at)
        (extend_lem fuel units brk limit prev pv size flags s here small (omega (arith, low, at)) is
          bound)
  walk_lem (b ∷ xs) (suc (suc fuel)) prev pv size flags a s h here small low seg ends is =
      let rest = sym (end_of-cons a b xs) ∙ ends in
      elim (Bool-cases (fits units b)) [
        | inl yes_fits ↦
            rw (yes_fits, first_fit)
              (hit fuel prev pv size flags a b xs s here small low seg rest is yes_fits)
        | inr no_fits ↦
            let (s', w) =
              walk_lem xs (suc fuel) a prev b.size (flag_of b.used) (after a b) s (omega arith)
                seg.0 (not_small units b no_fits) (omega arith) seg.1 rest is in
            rw (no_fits, first_fit)
              (
                s',
                miss (suc fuel) prev pv size flags a b xs s s' (fit (after a b) xs) here small low
                    w,
              )
      ]

pub units_for_lem : (bytes : ℕ) → bytes < 2 ^ 32 - 32 → units_for bytes + 1 < 2 ^ 28
unfolding units_for
units_for_lem bytes h = ground arith

-- On a well-formed heap, for less than 2^32 - 32 bytes and with fuel for each block and two rounds
-- more, kalloc returns the pointer of first fit over the blocks, with new frames behind the last
-- block if none fits and there are enough, and NULL if there are not; the blocks become those of
-- first fit, and the heap stays well-formed.
pub kalloc_lem :
    (mem_head base brk limit fuel bytes : ℕ) (s : Heap) (xs : List Block)
    → IsHeap mem_head base brk limit s xs
    → bytes < 2 ^ 32 - 32
    → length xs + 2 ≤ fuel
    → let units = units_for bytes in
      let ans = first_fit units (frames_for units) brk limit base xs in
      (s' : Heap) × (kalloc mem_head fuel bytes s ≡ ok ans.ptr s')
      × IsHeap mem_head base ans.brk limit s' ans.blocks
unfolding kalloc
kalloc_lem mem_head base brk limit fuel bytes s xs is small enough =
    let (s', w) =
      walk_lem (units_for bytes) brk limit (units_for_lem bytes small) xs fuel mem_head 0 0 0 base s
        enough is.head_entry refl is.head_low is.seg is.ends is.stretch in
    (
      s',
      w.run,
      record {
        head_entry = w.linked;
        head_low = is.head_low;
        seg = w.now;
        ends = w.ends;
        stretch = w.stretch;
      },
    )
