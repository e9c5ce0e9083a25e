-- ===== src/Kalloc/Lost.antt =====
-- What giving a pointer back means for the blocks in use.
use rtc_driver.Base.{
  ℕ, ◌+◌, ◌*◌, ◌<◌, ◌≡◌, ◌≢◌, refl, ap, ◌∙◌, sym, true, false, inl, inr, ◌⊎◌, Bool-cases, List, [],
  ◌∷◌, ◌++◌, arith, ◌==◌, ==_iff,
}
use mathlib.Core.Path.{subst}
use rtc_driver.Kalloc.Blocks.{Block, after}
use rtc_driver.Kalloc.Used.{used_at, Apart, used_at-Apart}
use rtc_driver.Kalloc.Free.{freed, if_true, if_false}
use rtc_driver.Kalloc.Release.{absorb, free_behind, free_blocks}

-- The block at the pointer is no longer among those in use, which otherwise stay as they are.
abbrev pub Lost : ℕ → List (ℕ × ℕ) → List (ℕ × ℕ) → Type 0
Lost p before now =
    (pre : List (ℕ × ℕ)) × (post : List (ℕ × ℕ)) × (size : ℕ) × (before ≡ pre ++ (p, size) ∷ post)
    × (now ≡ pre ++ post)

Lost-same :
    (p : ℕ) (before now now' : List (ℕ × ℕ)) → now' ≡ now → Lost p before now → Lost p before now'
Lost-same p before now now' e (pre, post, size, a, b) = (pre, post, size, a, e ∙ b)

Lost-cons :
    (p : ℕ) (u : ℕ × ℕ) (before now : List (ℕ × ℕ))
    → Lost p before now
    → Lost p (u ∷ before) (u ∷ now)
Lost-cons p u before now (pre, post, size, a, b) =
    (u ∷ pre, post, size, ap (λ us. u ∷ us) a, ap (λ us. u ∷ us) b)

used_at-freed :
    (a size : ℕ) (xs : List Block)
    → used_at a ((freed size xs).0 ∷ (freed size xs).1) ≡ used_at (a + (size + 1) * 16) xs
unfolding used_at freed
used_at-freed a size [] = refl
used_at-freed a size (c ∷ xs) = elim (Bool-cases c.used) [
  | inl used ↦ rw used refl
  | inr free ↦ rw free (ap (λ p. used_at p xs) (omega arith))
]

freed-free : (size : ℕ) (xs : List Block) → (freed size xs).0.used ≡ false
unfolding freed
freed-free size [] = refl
freed-free size (c ∷ xs) = elim (Bool-cases c.used) [
  | inl used ↦ rw used refl
  | inr free ↦ rw free refl
]

used_at-absorb :
    (e : ℕ) (b c : Block) (xs : List Block)
    → c.used ≡ false
    → used_at e (absorb b (c, xs)) ≡ used_at e (b ∷ c ∷ xs)
unfolding used_at absorb
used_at-absorb e b c xs h = elim (Bool-cases b.used) [
  | inl used ↦ rw used refl
  | inr free ↦ rw free (rw h (ap (λ p. used_at p xs) (omega arith)))
]

used_at-cons :
    (p a : ℕ) (b : Block) (xs ys : List Block)
    → Lost p (used_at (after a b) xs) (used_at (after a b) ys)
    → Lost p (used_at a (b ∷ xs)) (used_at a (b ∷ ys))
unfolding used_at
used_at-cons p a b xs ys lost = elim (Bool-cases b.used) [
  | inl used ↦ rw used (Lost-cons p (a + 16, b.size) _ _ lost)
  | inr free ↦ rw free lost
]

used_at-used :
    (a : ℕ) (b : Block) (xs : List Block)
    → b.used ≡ true
    → used_at a (b ∷ xs) ≡ (a + 16, b.size) ∷ used_at (after a b) xs
unfolding used_at
used_at-used a b xs used = if_true _ _ _ used

-- A used block at the pointer, given back.
Lost-here :
    (ptr a : ℕ) (b : Block) (xs : List Block)
    → (a + 16 == ptr) ≡ true
    → b.used ≡ true
    → Lost ptr (used_at a (b ∷ xs)) (used_at a ((freed b.size xs).0 ∷ (freed b.size xs).1))
Lost-here ptr a b xs at used =
    let us = used_at (after a b) xs in
    (
      [],
      us,
      b.size,
      used_at-used a b xs used ∙ ap (λ p. (p, b.size) ∷ us) ((==_iff _ _).0 at),
      used_at-freed a b.size xs,
    )

-- No block in use is at the pointer.
abbrev pub Absent : ℕ → List (ℕ × ℕ) → Type 0
Absent ptr [] = Unit
Absent ptr ((p, size) ∷ us) = (p ≢ ptr) × Absent ptr us

Apart-Absent : (ptr lo hi : ℕ) (us : List (ℕ × ℕ)) → ptr < lo + 16 → Apart lo hi us → Absent ptr us
Apart-Absent ptr lo hi [] below apart = tt
Apart-Absent ptr lo hi ((p, size) ∷ us) below (at, apart) =
    ((λ e. omega (arith, e, at, below)), Apart-Absent ptr (p + size * 16) hi us (omega arith) apart)

Absent-cons :
    (ptr a : ℕ) (b : Block) (xs : List Block)
    → (a + 16 == ptr) ≡ false
    → Absent ptr (used_at (after a b) xs)
    → Absent ptr (used_at a (b ∷ xs))
unfolding used_at
Absent-cons ptr a b xs miss absent = elim (Bool-cases b.used) [
  | inl used ↦ rw used ((λ e. ground arith), absent)
  | inr free ↦ rw free absent
]

-- A free block is at the pointer, and the others are behind it.
Absent-free :
    (ptr a : ℕ) (b : Block) (xs : List Block)
    → (a + 16 == ptr) ≡ true
    → b.used ≡ false
    → Absent ptr (used_at a (b ∷ xs))
unfolding used_at
Absent-free ptr a b xs hit free =
    let at : a + 16 ≡ ptr = (==_iff _ _).0 hit in
    rw free (
      Apart-Absent ptr (after a b) _ (used_at (after a b) xs) (omega (arith, at))
        (used_at-Apart (after a b) xs))

-- What has become of the blocks from `a` on.
abbrev pub Returned : ℕ → ℕ → List Block → List Block → Type 0
Returned ptr a xs ys =
    Lost ptr (used_at a xs) (used_at a ys) ⊎ ((ys ≡ xs) × Absent ptr (used_at a xs))

behind_lem :
    (ptr e : ℕ) (pb : Block) (xs : List Block)
    → (e + 16 == ptr) ≡ false
    → Returned ptr e (pb ∷ xs) (free_behind ptr e pb xs)
unfolding free_behind used_at
behind_lem ptr e pb [] before = inr (refl, Absent-cons ptr e pb [] before tt)
behind_lem ptr e pb (b ∷ xs) before =
    let a = after e pb in
    let p = freed b.size xs in
    elim (Bool-cases (a + 16 == ptr)) [
      | inl hit ↦
          subst (λ ys. Returned ptr e (pb ∷ b ∷ xs) ys) (sym (if_true _ _ _ hit))
            (elim (Bool-cases b.used) [
              | inl used ↦
                  subst (λ ys. Returned ptr e (pb ∷ b ∷ xs) ys) (sym (if_true _ _ _ used))
                    (inl (
                      Lost-same ptr _ _ _ (used_at-absorb e pb p.0 p.1 (freed-free b.size xs)) (
                        used_at-cons ptr e pb (b ∷ xs) (p.0 ∷ p.1)
                          (Lost-here ptr a b xs hit used))))
              | inr free ↦
                  subst (λ ys. Returned ptr e (pb ∷ b ∷ xs) ys) (sym (if_false _ _ _ free))
                    (inr (
                      refl,
                      Absent-cons ptr e pb (b ∷ xs) before (Absent-free ptr a b xs hit free),
                    ))
            ])
      | inr miss ↦
          subst (λ ys. Returned ptr e (pb ∷ b ∷ xs) ys) (sym (if_false _ _ _ miss))
            (elim (behind_lem ptr a b xs miss) [
              | inl lost ↦ inl (used_at-cons ptr e pb (b ∷ xs) (free_behind ptr a b xs) lost)
              | inr (same, absent) ↦
                  inr (ap (λ ys. pb ∷ ys) same, Absent-cons ptr e pb (b ∷ xs) before absent)
            ])
    ]

-- Giving a pointer back takes the used block at it from those in use, which otherwise keep their
-- addresses and sizes; if there is no used block at it, the blocks are as they were.
pub free_blocks_lem : (ptr a : ℕ) (xs : List Block) → Returned ptr a xs (free_blocks ptr a xs)
unfolding free_blocks used_at
free_blocks_lem ptr a [] = inr (refl, tt)
free_blocks_lem ptr a (b ∷ xs) = elim (Bool-cases (a + 16 == ptr)) [
  | inl hit ↦
      subst (λ ys. Returned ptr a (b ∷ xs) ys) (sym (if_true _ _ _ hit))
        (elim (Bool-cases b.used) [
          | inl used ↦
              subst (λ ys. Returned ptr a (b ∷ xs) ys) (sym (if_true _ _ _ used))
                (inl (Lost-here ptr a b xs hit used))
          | inr free ↦
              subst (λ ys. Returned ptr a (b ∷ xs) ys) (sym (if_false _ _ _ free))
                (inr (refl, Absent-free ptr a b xs hit free))
        ])
  | inr miss ↦
      subst (λ ys. Returned ptr a (b ∷ xs) ys) (sym (if_false _ _ _ miss))
        (behind_lem ptr a b xs miss)
]
