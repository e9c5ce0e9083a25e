-- ===== src/Kalloc/Blocks.antt =====
-- The heap as a list of blocks, laid out one behind the other.
use rtc_driver.Base.{
  ℕ, ◌+◌, ◌*◌, ◌≤◌, ◌<◌, ◌≡◌, ◌≢◌, refl, ap, ◌∙◌, Bool, true, false, List, [], ◌∷◌, arith, ◌==◌,
  if◌then◌else◌, sym,
}
use mathlib.Core.Path.{subst}
use rtc_driver.Kalloc.{Entry, Entries, entry, put, link_back, block_free, block_used, Heap}
use rtc_driver.Kalloc.Grow.{IsStretch}

pub record Block : Type 0 where
  pub size : ℕ
  pub used : Bool

abbrev pub block : ℕ → Bool → Block
block size used = record { size = size; used = used }

abbrev pub flag_of : Bool → ℕ
flag_of used = if used then block_used else block_free

-- The address behind the block at `a`.
abbrev pub after : ℕ → Block → ℕ
after a b = a + (b.size + 1) * 16

unfoldable pub end_of : ℕ → List Block → ℕ
end_of a [] = a
end_of a (b ∷ xs) = end_of (after a b) xs

-- What points to blocks that start at `a`.
abbrev pub link : ℕ → List Block → ℕ
link a [] = 0
link a (b ∷ xs) = a

-- The entries from `a` on, behind the one at `prev`, are those of the blocks.
abbrev pub Seg : Entries → ℕ → ℕ → List Block → Type 0
Seg m prev a [] = Unit
Seg m prev a (b ∷ xs) =
    (m a ≡ entry (link (after a b) xs) prev b.size (flag_of b.used)) × Seg m a (after a b) xs

-- The list of the heap: the head in front of blocks that reach from `base` to the frame `brk`.
pub record IsHeap (mem_head base brk limit : ℕ) (s : Heap) (xs : List Block) : Type 0 where
  pub head_entry : s.entries mem_head ≡ entry (link base xs) 0 0 0
  pub head_low : mem_head < base
  pub seg : Seg s.entries mem_head base xs
  pub ends : end_of base xs ≡ brk * 4096
  pub stretch : IsStretch brk limit s.frames

pub end_of-le : (a : ℕ) (xs : List Block) → a ≤ end_of a xs
unfolding end_of
end_of-le a [] = omega arith
end_of-le a (b ∷ xs) = omega (arith, end_of-le (after a b) xs)

pub put_self : (p : ℕ) (e : Entry) (m : Entries) → put p e m p ≡ e
unfolding put
put_self p e m = let same : (p == p) ≡ true = ground arith in rw same refl

pub put-ne : (p q : ℕ) (e : Entry) (m : Entries) → q ≢ p → put p e m q ≡ m q
unfolding put
put-ne p q e m ne = let other : (q == p) ≡ false = ground arith in rw other refl

-- Blocks that lie behind the changes are still there.
pub Seg-same :
    (m m' : Entries) (prev a : ℕ) (xs : List Block)
    → ((q : ℕ) → a ≤ q → m' q ≡ m q)
    → Seg m prev a xs
    → Seg m' prev a xs
Seg-same m m' prev a [] same seg = tt
Seg-same m m' prev a (b ∷ xs) same (here, rest) =
    (same a (omega arith) ∙ here, Seg-same m m' a (after a b) xs (λ q h. same q (omega arith)) rest)

-- The first block is given another block in front.
link_back-some :
    (p v : ℕ) (m : Entries) → p ≢ 0 → link_back p v m ≡ put p (record (m p) { prev = v }) m
link_back-some p v m ne = let some_block : (p == 0) ≡ false = ground arith in rw some_block refl

pub Seg-link_back :
    (m : Entries) (prev new a : ℕ) (xs : List Block)
    → 0 < a
    → Seg m prev a xs
    → Seg (link_back (link a xs) new m) new a xs
Seg-link_back m prev new a [] pos_a seg = tt
Seg-link_back m prev new a (b ∷ xs) pos_a (here, rest) =
    let e : Entry = record (m a) { prev = new } in
    subst (λ m'. Seg m' new a (b ∷ xs)) (sym (link_back-some a new m (λ k. omega arith)))
      (
        put_self a e m ∙ ap (λ (d : Entry). record d { prev = new }) here,
        Seg-same m (put a e m) a (after a b) xs (λ q h. put-ne a q e m (λ k. omega arith)) rest,
      )

pub link_back-ne :
    (m : Entries) (new a q : ℕ) (xs : List Block) → q < a → link_back (link a xs) new m q ≡ m q
link_back-ne m new a q [] h = refl
link_back-ne m new a q (b ∷ xs) h =
    let e : Entry = record (m a) { prev = new } in
    ap (λ (m' : Entries). m' q) (link_back-some a new m (λ k. omega arith))
    ∙ put-ne a q e m (λ k. omega arith)
