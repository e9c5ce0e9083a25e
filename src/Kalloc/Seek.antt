-- ===== src/Kalloc/Seek.antt =====
-- kfree over a well-formed heap.
use rtc_driver.Base.{
  ℕ, zero, suc, ◌+◌, ◌*◌, ◌<◌, ◌≤◌, ◌≡◌, refl, ap, ◌∙◌, sym, true, false, inl, inr, Bool-cases,
  List, [], ◌∷◌, arith, ◌==◌, if◌then◌else◌, length,
}
use mathlib.Core.Path.{subst}
use rtc_driver.Base.Run.{ok}
use rtc_driver.Kalloc.{
  Entry, Entries, entry, join_next, join_prev, free_next, Heap, heap, kfree_loop,
}
use rtc_driver.Kalloc.Blocks.{Block, flag_of, after, end_of, link, Seg, end_of-le}
use rtc_driver.Kalloc.Free.{freed, end_of-freed, cleared, Changed, freed_lem, if_true, if_false}
use rtc_driver.Kalloc.Give.{Left, absorb_lem}
use rtc_driver.Kalloc.Release.{
  absorb, free_behind, free_next-used, free_next-free, step_stop, step_hit, step_pass, loop_again,
  loop_done,
}

-- What a walk from the entry at `e` has come to.
pub record Given (fuel ptr pp e stop : ℕ) (s : Heap) (xs : List Block) (s' : Heap) : Type 0 where
  pub run : kfree_loop fuel ptr e s ≡ ok tt s'
  pub left : Left s.entries s'.entries pp e stop xs
  pub frames : s'.frames ≡ s.frames

Left-same :
    (m : Entries) (pp e stop : ℕ) (xs : List Block)
    → Seg m pp e xs
    → end_of e xs ≡ stop
    → Left m m pp e stop xs
Left-same m pp e stop xs seg ends = record { now = seg; before = λ q h. refl; ends = ends }

pub end_of-cons : (a : ℕ) (b : Block) (xs : List Block) → end_of a (b ∷ xs) ≡ end_of (after a b) xs
unfolding end_of
end_of-cons a b xs = refl

-- The writes at the block at `a`, if it is used.
pub given_back :
    (m : Entries) (e a : ℕ) (b : Block) (xs : List Block)
    → 0 < a
    → b.used ≡ true
    → end_of (after a b) xs ≤ 768 * 4096
    → m a ≡ entry (link (after a b) xs) e b.size (flag_of b.used)
    → Seg m a (after a b) xs
    → Changed m (join_next a (cleared a m)) e a (freed b.size xs).0 (freed b.size xs).1
given_back m e a b xs pos_a used low here seg =
    freed_lem m e a b.size xs pos_a low
      (here ∙ ap (λ u. entry (link (after a b) xs) e b.size (flag_of u)) used) seg

pub flags_at : (d c : Entry) → d ≡ c → d.flags ≡ c.flags
flags_at d c e = ap (λ (x : Entry). x.flags) e

pub next_at : (d c : Entry) → d ≡ c → d.next ≡ c.next
next_at d c e = ap (λ (x : Entry). x.next) e

pub link-free_behind :
    (ptr e : ℕ) (b : Block) (xs : List Block) (a : ℕ) → link a (free_behind ptr e b xs) ≡ a
unfolding free_behind absorb
link-free_behind ptr e b [] a = refl
link-free_behind ptr e b (c ∷ xs) a = elim (Bool-cases (after e b + 16 == ptr)) [
  | inr miss ↦ rw miss refl
  | inl hit ↦ rw hit (elim (Bool-cases c.used) [
    | inr free ↦ rw free refl
    | inl used ↦ rw used (elim (Bool-cases b.used) [ inl u ↦ rw u refl | inr u ↦ rw u refl ])
  ])
]

module _ (ptr : ℕ) where
  behind-end : (e : ℕ) (pb : Block) → free_behind ptr e pb [] ≡ pb ∷ []
  unfolding free_behind
  behind-end e pb = refl

  behind-hit :
      (e : ℕ) (pb b : Block) (xs : List Block)
      → (after e pb + 16 == ptr) ≡ true
      → free_behind ptr e pb (b ∷ xs)
        ≡ (if b.used then absorb pb (freed b.size xs) else pb ∷ b ∷ xs)
  unfolding free_behind
  behind-hit e pb b xs h = if_true _ _ _ h

  behind-miss :
      (e : ℕ) (pb b : Block) (xs : List Block)
      → (after e pb + 16 == ptr) ≡ false
      → free_behind ptr e pb (b ∷ xs) ≡ pb ∷ free_behind ptr (after e pb) b xs
  unfolding free_behind
  behind-miss e pb b xs h = if_false _ _ _ h

  walk_hit :
      (fuel pp e : ℕ) (pb b : Block) (xs : List Block) (s : Heap)
      → 0 < e
      → Seg s.entries pp e (pb ∷ b ∷ xs)
      → end_of e (pb ∷ b ∷ xs) ≤ 768 * 4096
      → (after e pb + 16 == ptr) ≡ true
      → (s' : Heap) × Given
          (suc fuel)
          ptr
          pp
          e
          (end_of e (pb ∷ b ∷ xs))
          s
          (if b.used then absorb pb (freed b.size xs) else pb ∷ b ∷ xs)
          s'
  walk_hit fuel pp e pb b xs s pos_e seg low found =
      let m = s.entries in
      let a = after e pb in
      let stop = end_of e (pb ∷ b ∷ xs) in
      let at : (m e).next ≡ a = next_at _ _ seg.0 in
      let e_stop : stop ≡ end_of (after a b) xs = end_of-cons e pb (b ∷ xs) ∙ end_of-cons a b xs in
      let room = end_of-le (after a b) xs in
      let step = step_hit ptr e a s at (omega arith) (omega (arith, room, low, e_stop)) found in
      (
        heap (free_next e m) s.frames,
        record {
          run = loop_done fuel ptr e s step;
          frames = refl;
          left = elim (Bool-cases b.used) [
            | inr free ↦
                let same = free_next-free e a m at (flags_at _ _ seg.1.0 ∙ ap flag_of free) in
                subst (λ ys. Left m (free_next e m) pp e stop ys) (sym (if_false b.used _ _ free))
                  (subst (λ m'. Left m m' pp e stop (pb ∷ b ∷ xs)) (sym same)
                    (Left-same m pp e stop (pb ∷ b ∷ xs) seg refl))
            | inl used ↦
                let same = free_next-used e a m at (flags_at _ _ seg.1.0 ∙ ap flag_of used) in
                let p = freed b.size xs in
                let e_end = end_of-freed a b.size xs in
                let ch =
                  given_back m e a b xs (omega arith) used (omega (arith, low, e_stop)) seg.1.0
                    seg.1.1 in
                let all =
                  absorb_lem m (join_next a (cleared a m)) pp e pb p.0 p.1 seg.0 ch
                    (omega (arith, low, e_stop, e_end)) in
                subst (λ ys. Left m (free_next e m) pp e stop ys) (sym (if_true b.used _ _ used))
                  (subst (λ m'. Left m m' pp e stop (absorb pb p)) (sym same)
                    (subst
                      (λ t. Left m (join_prev e a (join_next a (cleared a m))) pp e t (absorb pb p))
                      (e_end ∙ sym e_stop) all))
          ];
        },
      )

  walk_miss :
      (fuel pp e : ℕ) (pb b : Block) (xs ys : List Block) (s s' : Heap)
      → 0 < e
      → Seg s.entries pp e (pb ∷ b ∷ xs)
      → end_of e (pb ∷ b ∷ xs) ≤ 768 * 4096
      → (after e pb + 16 == ptr) ≡ false
      → link (after e pb) ys ≡ after e pb
      → Given fuel ptr e (after e pb) (end_of (after e pb) (b ∷ xs)) s ys s'
      → Given (suc fuel) ptr pp e (end_of e (pb ∷ b ∷ xs)) s (pb ∷ ys) s'
  walk_miss fuel pp e pb b xs ys s s' pos_e seg low missed start g =
      let a = after e pb in
      let e_stop = end_of-cons e pb (b ∷ xs) ∙ end_of-cons a b xs in
      let room = end_of-le (after a b) xs in
      record {
        run =
            loop_again fuel ptr e s (
              step_pass ptr e a s (next_at _ _ seg.0) (omega arith)
                (omega (arith, room, low, e_stop)) missed)
            ∙ g.run;
        frames = g.frames;
        left = record {
          now = (
            g.left.before e (omega arith)
                ∙ seg.0
                ∙ ap (λ p. entry p pp pb.size (flag_of pb.used)) (sym start),
            g.left.now,
          );
          before = λ q h. g.left.before q (omega arith);
          ends = end_of-cons e pb ys ∙ g.left.ends ∙ sym (end_of-cons e pb (b ∷ xs));
        };
      }

  pub walk_lem :
      (xs : List Block) (fuel pp e : ℕ) (pb : Block) (s : Heap)
      → length xs < fuel
      → 0 < e
      → Seg s.entries pp e (pb ∷ xs)
      → end_of e (pb ∷ xs) ≤ 768 * 4096
      → (s' : Heap) × Given fuel ptr pp e (end_of e (pb ∷ xs)) s (free_behind ptr e pb xs) s'
  walk_lem xs zero pp e pb s h pos_e seg low = absurd (omega arith)
  walk_lem [] (suc fuel) pp e pb s h pos_e seg low = (
    s,
    record {
      run = loop_done fuel ptr e s (step_stop ptr e 0 s (next_at _ _ seg.0) refl);
      frames = refl;
      left =
          subst (λ ys. Left s.entries s.entries pp e (end_of e (pb ∷ [])) ys)
            (sym (behind-end e pb))
            (Left-same s.entries pp e (end_of e (pb ∷ [])) (pb ∷ []) seg refl);
    },
  )
  walk_lem (b ∷ xs) (suc fuel) pp e pb s h pos_e seg low =
      let a = after e pb in
      let stop = end_of e (pb ∷ b ∷ xs) in
      elim (Bool-cases (a + 16 == ptr)) [
        | inl found ↦
            subst (λ ys. (s' : Heap) × Given (suc fuel) ptr pp e stop s ys s')
              (sym (behind-hit e pb b xs found)) (walk_hit fuel pp e pb b xs s pos_e seg low found)
        | inr missed ↦
            let (s', g) =
              walk_lem xs fuel e a b s (omega arith) (omega arith) seg.1
                (omega (arith, low, end_of-cons e pb (b ∷ xs))) in
            subst (λ ys. (s' : Heap) × Given (suc fuel) ptr pp e stop s ys s')
              (sym (behind-miss e pb b xs missed))
              (
                s',
                walk_miss fuel pp e pb b xs (free_behind ptr a b xs) s s' pos_e seg low missed
                    (link-free_behind ptr a b xs a) g,
              )
      ]
