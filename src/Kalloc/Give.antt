-- ===== src/Kalloc/Give.antt =====
-- The walk of kfree.
use rtc_driver.Base.{
  ℕ, ◌+◌, ◌*◌, ◌<◌, ◌≤◌, ◌≡◌, refl, ap, ◌∙◌, sym, true, false, inl, inr, Bool-cases, List, ◌∷◌,
  arith,
}
use mathlib.Core.Path.{subst}
use rtc_driver.Kalloc.{Entry, Entries, entry, block_free, block_used, join_prev}
use rtc_driver.Kalloc.Blocks.{Block, block, flag_of, after, end_of, link, Seg, end_of-le}
use rtc_driver.Kalloc.Join.{joined, joined_lem}
use rtc_driver.Kalloc.Free.{Changed, if_true, if_false}
use rtc_driver.Kalloc.Release.{absorb, join_prev-used, join_prev-free}

-- The entries from `e` on are those of the blocks, and none in front of them has changed.
pub record Left (m m' : Entries) (pp e stop : ℕ) (xs : List Block) : Type 0 where
  pub now : Seg m' pp e xs
  pub before : (q : ℕ) → q < e → m' q ≡ m q
  pub ends : end_of e xs ≡ stop

absorb-used : (b c : Block) (xs : List Block) → b.used ≡ true → absorb b (c, xs) ≡ b ∷ c ∷ xs
unfolding absorb
absorb-used b c xs e = if_true b.used _ _ e

absorb-free :
    (b c : Block) (xs : List Block)
    → b.used ≡ false
    → absorb b (c, xs) ≡ block (b.size + c.size + 1) false ∷ xs
unfolding absorb
absorb-free b c xs e = if_false b.used _ _ e

module _ (m m1 : Entries) (pp e : ℕ) (b c : Block) (xs : List Block)
    (here : m e ≡ entry (after e b) pp b.size (flag_of b.used))
    (ch : Changed m m1 e (after e b) c xs)
    (low : end_of (after (after e b) c) xs ≤ 768 * 4096) where
  abbrev a : ℕ
  a = after e b

  here1 : m1 e ≡ entry a pp b.size (flag_of b.used)
  here1 = ch.before e (omega arith) ∙ here

  keep_lem : b.used ≡ true → Left m (join_prev e a m1) pp e (end_of (after a c) xs) (b ∷ c ∷ xs)
  unfolding end_of
  keep_lem used =
      let flag : (m1 e).flags ≡ block_used = ap (λ (d : Entry). d.flags) here1 ∙ ap flag_of used in
      subst (λ m'. Left m m' pp e (end_of (after a c) xs) (b ∷ c ∷ xs))
        (sym (join_prev-used e a m1 (λ k. omega (arith, flag, k))))
        (record {
          now = (here1, (ch.first, ch.others));
          before = λ q h. ch.before q (omega arith);
          ends = refl;
        })

  merge_lem :
      b.used ≡ false
      → Left m
          (join_prev e a m1)
          pp
          e
          (end_of (after a c) xs)
          (block (b.size + c.size + 1) false ∷ xs)
  unfolding end_of
  merge_lem free =
      let flag : (m1 e).flags ≡ block_free = ap (λ (d : Entry). d.flags) here1 ∙ ap flag_of free in
      let whole = block (b.size + c.size + 1) false in
      let at : after e whole ≡ after a c = omega arith in
      let (first, others, same) =
        joined_lem e a (after a c) pp e b.size c.size block_free (flag_of c.used) xs m1
          (here1 ∙ ap (λ u. entry a pp b.size (flag_of u)) free) ch.first (omega arith)
          (omega arith) (omega (arith, low, end_of-le (after a c) xs)) ch.others in
      subst (λ m'. Left m m' pp e (end_of (after a c) xs) (whole ∷ xs))
        (sym (join_prev-free e a m1 flag))
        (record {
          now = (
            first ∙ ap (λ p. entry (link p xs) pp whole.size block_free) (sym at),
            subst (λ p. Seg (joined e a m1) e p xs) (sym at) others,
          );
          before = λ q h. same q h ∙ ch.before q (omega arith);
          ends = ap (λ p. end_of p xs) at;
        })

  pub absorb_lem : Left m (join_prev e a m1) pp e (end_of (after a c) xs) (absorb b (c, xs))
  absorb_lem = elim (Bool-cases b.used) [
    | inl used ↦
        subst (λ ys. Left m (join_prev e a m1) pp e (end_of (after a c) xs) ys)
          (sym (absorb-used b c xs used)) (keep_lem used)
    | inr free ↦
        subst (λ ys. Left m (join_prev e a m1) pp e (end_of (after a c) xs) ys)
          (sym (absorb-free b c xs free)) (merge_lem free)
  ]
