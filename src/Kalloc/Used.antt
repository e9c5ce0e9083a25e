-- ===== src/Kalloc/Used.antt =====
-- The blocks in use: what first fit and the layout mean for them.
use rtc_driver.Base.{
  ℕ, ◌+◌, ◌-◌, ◌*◌, ◌≤◌, ◌≡◌, refl, ap, Bool, true, false, inl, inr, ◌⊎◌, not, ◌&&◌, ◌||◌,
  Bool-cases, List, [], ◌∷◌, ◌++◌, arith, leb, ◌==◌, if◌then◌else◌,
}
use rtc_driver.Kalloc.Blocks.{Block, after, end_of}
use rtc_driver.Kalloc.Fit.{fits, carve, Answer, answer, first_fit}

-- The pointers to the blocks in use, from `a` on, with their sizes in units of 16 bytes.
unfoldable pub used_at : ℕ → List Block → List (ℕ × ℕ)
used_at a [] = []
used_at a (b ∷ xs) =
    let rest = used_at (after a b) xs in if b.used then (a + 16, b.size) ∷ rest else rest

-- Each of them has 16 bytes for its entry in front of it, and ends before the next one's begin.
abbrev pub Apart : ℕ → ℕ → List (ℕ × ℕ) → Type 0
Apart lo hi [] = lo ≤ hi
Apart lo hi ((p, size) ∷ us) = (lo + 16 ≤ p) × Apart (p + size * 16) hi us

Apart-lower : (lo lo' hi : ℕ) (us : List (ℕ × ℕ)) → lo ≤ lo' → Apart lo' hi us → Apart lo hi us
Apart-lower lo lo' hi [] h apart = omega arith
Apart-lower lo lo' hi ((p, size) ∷ us) h apart = (omega (arith, apart.0), apart.1)

-- The memory of the blocks in use does not overlap, with other blocks or with their entries, and
-- lies between the start and the end of the list.
pub used_at-Apart : (a : ℕ) (xs : List Block) → Apart a (end_of a xs) (used_at a xs)
unfolding used_at end_of
used_at-Apart a [] = omega arith
used_at-Apart a (b ∷ xs) =
    let rest = used_at-Apart (after a b) xs in
    elim (Bool-cases b.used) [
      | inl used ↦
          rw used
            (omega arith, Apart-lower (a + 16 + b.size * 16) (after a b) _ _ (omega arith) rest)
      | inr free ↦ rw free (Apart-lower a (after a b) _ _ (omega arith) rest)
    ]

-- A block of at least `units` is added to those in use, which stay as they are.
abbrev pub Gained : ℕ → ℕ → List (ℕ × ℕ) → List (ℕ × ℕ) → Type 0
Gained units p before now =
    (pre : List (ℕ × ℕ)) × (post : List (ℕ × ℕ)) × (size : ℕ) × (units ≤ size)
    × (before ≡ pre ++ post)
    × (now ≡ pre ++ (p, size) ∷ post)

-- The state after `ans` of blocks from `a` on.
abbrev pub Served : ℕ → ℕ → ℕ → List Block → Answer → Type 0
Served units brk a xs ans =
    Gained units ans.ptr (used_at a xs) (used_at a ans.blocks)
    ⊎ ((ans.ptr ≡ 0) × (ans.blocks ≡ xs) × (ans.brk ≡ brk))

carve-used :
    (units size a : ℕ) (xs : List Block)
    → units ≤ size
    → Gained units (a + 16) (used_at (a + (size + 1) * 16) xs) (used_at a (carve units size xs))
unfolding carve used_at
carve-used units size a xs h = elim (Bool-cases ((size == units) || (size == units + 1))) [
  | inl exact ↦ rw exact ([], used_at (a + (size + 1) * 16) xs, size, h, refl, refl)
  | inr inexact ↦ rw inexact (
    [],
    used_at (a + (size + 1) * 16) xs,
    units,
    omega arith,
    refl,
    ap (λ p. (a + 16, units) ∷ used_at p xs) (ground arith),
  )
]

fresh-used :
    (units size a : ℕ)
    → units ≤ size
    → Gained units (a + 16) (used_at a []) (used_at a (carve units size []))
unfolding used_at
fresh-used units size a h = carve-used units size a [] h

used_at-free :
    (a : ℕ) (b : Block) (xs : List Block)
    → b.used ≡ false
    → used_at a (b ∷ xs) ≡ used_at (after a b) xs
unfolding used_at
used_at-free a b xs h = rw h refl

free_and_large :
    (used : Bool) (units size : ℕ)
    → (not used && leb units size) ≡ true
    → (used ≡ false) × (units ≤ size)
free_and_large used units size h = (ground arith, ground arith)

Gained-cons :
    (units p : ℕ) (u : ℕ × ℕ) (before now : List (ℕ × ℕ))
    → Gained units p before now
    → Gained units p (u ∷ before) (u ∷ now)
Gained-cons units p u before now (pre, post, size, h, e, e') =
    (u ∷ pre, post, size, h, ap (λ us. u ∷ us) e, ap (λ us. u ∷ us) e')

Served-cons :
    (units brk a : ℕ) (b : Block) (xs : List Block) (ans : Answer)
    → Served units brk (after a b) xs ans
    → Served units brk a (b ∷ xs) (answer ans.ptr (b ∷ ans.blocks) ans.brk)
unfolding used_at
Served-cons units brk a b xs ans (inl gained) = elim (Bool-cases b.used) [
  | inl used ↦ inl (rw used (Gained-cons units ans.ptr (a + 16, b.size) _ _ gained))
  | inr free ↦ inl (rw free gained)
]
Served-cons units brk a b xs ans (inr (null, same, brk_same)) =
    inr (null, ap (λ ys. b ∷ ys) same, brk_same)

-- If new frames are enough for a block, first fit adds one block of at least `units` to those in
-- use, which keep their addresses and sizes, or gives NULL and changes nothing.
pub first_fit_lem :
    (units count brk limit a : ℕ) (xs : List Block)
    → units + 1 ≤ count * 256
    → Served units brk a xs (first_fit units count brk limit a xs)
unfolding first_fit fits
first_fit_lem units count brk limit a [] h = elim (Bool-cases (leb (brk + count) limit)) [
  | inl room ↦ rw room (inl (fresh-used units (count * 256 - 1) a (omega arith)))
  | inr full ↦ rw full (inr (refl, refl, refl))
]
first_fit_lem units count brk limit a (b ∷ xs) h =
    elim (Bool-cases (not b.used && leb units b.size)) [
      | inl fit ↦
          let (free, large) = free_and_large b.used units b.size fit in
          rw fit (rw (used_at-free a b xs free) (inl (carve-used units b.size a xs large)))
      | inr small ↦
          rw small
            (Served-cons units brk a b xs _ (first_fit_lem units count brk limit (after a b) xs h))
    ]
