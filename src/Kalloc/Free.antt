-- ===== src/Kalloc/Free.antt =====
-- kfree over the blocks.
use rtc_driver.Base.{
  ℕ, ◌+◌, ◌*◌, ◌<◌, ◌≤◌, ◌≡◌, refl, ap, ◌∙◌, sym, Bool, true, false, inl, inr, Bool-cases, List, [],
  ◌∷◌, arith, ◌==◌, if◌then◌else◌,
}
use mathlib.Core.Path.{subst}
use rtc_driver.Kalloc.{Entry, Entries, entry, put, block_free, block_used, join_next}
use rtc_driver.Kalloc.Blocks.{
  Block, block, flag_of, after, end_of, link, Seg, put_self, put-ne, Seg-same, end_of-le,
}
use rtc_driver.Kalloc.Join.{joined, joined_lem}

-- A block of a size given back, in front of the others: the free block that comes of it, and those
-- behind it.
unfoldable pub freed : ℕ → List Block → Block × List Block
freed size [] = (block size false, [])
freed size (c ∷ xs) =
    if c.used then (block size false, c ∷ xs) else (block (size + c.size + 1) false, xs)

-- The end of the blocks does not move.
pub end_of-freed :
    (a size : ℕ) (xs : List Block)
    → end_of (after a (freed size xs).0) (freed size xs).1 ≡ end_of (a + (size + 1) * 16) xs
unfolding freed end_of
end_of-freed a size [] = refl
end_of-freed a size (c ∷ xs) = elim (Bool-cases c.used) [
  | inl used ↦ rw used refl
  | inr free ↦ rw free (ap (λ p. end_of p xs) (omega arith))
]

-- What the entries from `f` on are after a change of the block there.
pub record Changed (m m' : Entries) (e f : ℕ) (b : Block) (xs : List Block) : Type 0 where
  pub first : m' f ≡ entry (link (after f b) xs) e b.size (flag_of b.used)
  pub others : Seg m' f (after f b) xs
  pub before : (q : ℕ) → q < f → m' q ≡ m q

-- `set_flags` of the freed block.
abbrev pub cleared : ℕ → Entries → Entries
cleared f m = put f (record (m f) { flags = block_free }) m

cleared_lem :
    (m : Entries) (e f size : ℕ) (xs : List Block)
    → m f ≡ entry (link (after f (block size true)) xs) e size block_used
    → Seg m f (after f (block size true)) xs
    → Changed m (cleared f m) e f (block size false) xs
cleared_lem m e f size xs here seg =
    let d : Entry = record (m f) { flags = block_free } in
    record {
      first = put_self f d m ∙ ap (λ (c : Entry). record c { flags = block_free }) here;
      others =
          Seg-same m (cleared f m) f (after f (block size true)) xs
            (λ q h. put-ne f q d m (λ k. omega arith)) seg;
      before = λ q h. put-ne f q d m (λ k. omega arith);
    }

join_next-none : (f : ℕ) (m : Entries) → (m f).next ≡ 0 → join_next f m ≡ m
unfolding join_next
join_next-none f m none = rw none refl

join_next-used :
    (f n : ℕ) (m : Entries) → (m f).next ≡ n → 0 < n → (m n).flags ≡ block_used → join_next f m ≡ m
unfolding join_next
join_next-used f n m at pos_n flag =
    let some_next : (n == 0) ≡ false = ground arith in rw at (rw some_next (rw flag refl))

join_next-free :
    (f n : ℕ) (m : Entries)
    → (m f).next ≡ n
    → 0 < n
    → (m n).flags ≡ block_free
    → join_next f m ≡ joined f n m
unfolding join_next
join_next-free f n m at pos_n flag =
    let some_next : (n == 0) ≡ false = ground arith in rw at (rw some_next (rw flag refl))

next_of : (c d : Entry) → c ≡ d → c.next ≡ d.next
next_of c d e = ap (λ (x : Entry). x.next) e

flags_of : (c d : Entry) → c ≡ d → c.flags ≡ d.flags
flags_of c d e = ap (λ (x : Entry). x.flags) e

reach : (a hi : ℕ) (b : Block) (xs : List Block) → end_of a (b ∷ xs) ≤ hi → after a b ≤ hi
unfolding end_of
reach a hi b xs h = omega (arith, h, end_of-le (after a b) xs)

module _ {A : Type 0} (b : Bool) (x y : A) where
  pub if_true : b ≡ true → (if b then x else y) ≡ x
  if_true e = rw e refl

  pub if_false : b ≡ false → (if b then x else y) ≡ y
  if_false e = rw e refl

freed-used :
    (size : ℕ) (c : Block) (xs : List Block)
    → c.used ≡ true
    → freed size (c ∷ xs) ≡ (block size false, c ∷ xs)
unfolding freed
freed-used size c xs e = if_true c.used _ _ e

freed-free :
    (size : ℕ) (c : Block) (xs : List Block)
    → c.used ≡ false
    → freed size (c ∷ xs) ≡ (block (size + c.size + 1) false, xs)
unfolding freed
freed-free size c xs e = if_false c.used _ _ e

-- The freed block with a free one behind it.
join_lem :
    (m : Entries) (e f size : ℕ) (c : Block) (xs : List Block)
    → Changed m (cleared f m) e f (block size false) (c ∷ xs)
    → 0 < f
    → c.used ≡ false
    → end_of (after f (block size true)) (c ∷ xs) ≤ 768 * 4096
    → Changed m
        (joined f (f + (size + 1) * 16) (cleared f m))
        e
        f
        (block (size + c.size + 1) false)
        xs
join_lem m e f size c xs ch pos_f free low =
    let g = f + (size + 1) * 16 in
    let m' = cleared f m in
    let (first, others, same) =
      joined_lem f g (after g c) e f size c.size block_free (flag_of c.used) xs m' ch.first
        ch.others.0 (omega arith) (omega arith) (omega (arith, reach g (768 * 4096) c xs low))
        ch.others.1 in
    let at : after f (block (size + c.size + 1) false) ≡ after g c = omega arith in
    record {
      first = first ∙ ap (λ p. entry (link p xs) e (size + c.size + 1) block_free) (sym at);
      others = subst (λ p. Seg (joined f g m') f p xs) (sym at) others;
      before = λ q h. same q h ∙ ch.before q h;
    }

-- The writes of kfree at the block itself.
pub freed_lem :
    (m : Entries) (e f size : ℕ) (xs : List Block)
    → 0 < f
    → end_of (after f (block size true)) xs ≤ 768 * 4096
    → m f ≡ entry (link (after f (block size true)) xs) e size block_used
    → Seg m f (after f (block size true)) xs
    → Changed m (join_next f (cleared f m)) e f (freed size xs).0 (freed size xs).1
unfolding freed
freed_lem m e f size [] pos_f low here seg =
    let ch = cleared_lem m e f size [] here seg in
    subst (λ m'. Changed m m' e f (block size false) [])
      (sym (join_next-none f (cleared f m) (next_of _ _ ch.first))) ch
freed_lem m e f size (c ∷ xs) pos_f low here seg =
    let g = after f (block size true) in
    let m0 = cleared f m in
    let m' = join_next f m0 in
    let ch = cleared_lem m e f size (c ∷ xs) here seg in
    let at = next_of _ _ ch.first in
    elim (Bool-cases c.used) [
      | inl used ↦
          let same =
            join_next-used f g m0 at (omega arith) (flags_of _ _ ch.others.0 ∙ ap flag_of used) in
          subst (λ p. Changed m m' e f p.0 p.1) (sym (freed-used size c xs used))
            (subst (λ m''. Changed m m'' e f (block size false) (c ∷ xs)) (sym same) ch)
      | inr free ↦
          let same =
            join_next-free f g m0 at (omega arith) (flags_of _ _ ch.others.0 ∙ ap flag_of free) in
          subst (λ p. Changed m m' e f p.0 p.1) (sym (freed-free size c xs free))
            (subst (λ m''. Changed m m'' e f (block (size + c.size + 1) false) xs) (sym same)
              (join_lem m e f size c xs ch pos_f free low))
    ]
