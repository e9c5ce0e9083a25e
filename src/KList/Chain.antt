-- ===== src/KList/Chain.antt =====
-- What a list stands for: the address and value of each node, in order.
use rtc_driver.Base.{
  ℕ, ◌<◌, ◌≡◌, ◌≢◌, Bool, true, false, ◌||◌, Option, some, List, [], ◌∷◌, arith, ◌≤◌, leb, ◌==◌,
  length,
}
use rtc_driver.Base.Run.{ok}
use rtc_driver.KList.{Node, node, Heap, Store, KList, write, load}

abbrev pub Cells : Type 0
Cells = List (ℕ × ℕ)

abbrev pub has : ℕ → Cells → Bool
has a [] = false
has a ((p, _) ∷ xs) = (a == p) || has a xs

abbrev pub first : Cells → ℕ
first [] = 0
first ((p, _) ∷ xs) = p

-- The heap holds the nodes of `xs`, all distinct, each pointing to the next.
abbrev pub Chain : Heap → Cells → Type 0
Chain h [] = Unit
Chain h ((a, v) ∷ xs) = (a ≢ 0) × (h a ≡ some (node v (first xs))) × (has a xs ≡ false) × Chain h xs

pub record IsList (h : Heap) (l : KList) (xs : Cells) : Type 0 where
  pub head : l.head ≡ first xs
  pub count : l.count ≡ length xs
  pub chain : Chain h xs

-- `g` is `h` but at the addresses of `xs`.
abbrev pub SameOutside : Cells → Heap → Heap → Type 0
SameOutside xs h g = (a : ℕ) → has a xs ≡ false → g a ≡ h a

-- A chain survives any change that spares its nodes.
pub Chain-frame :
    (xs : Cells) (h g : Heap) → ((a : ℕ) → has a xs ≡ true → g a ≡ h a) → Chain h xs → Chain g xs
Chain-frame [] h g same c = tt
Chain-frame ((a, v) ∷ xs) h g same c = (
  c.0,
  ground (arith, same a, c.1),
  c.2,
  Chain-frame xs h g (λ b i. same b (ground (arith, i))) c.3,
)

pub Chain-write :
    (xs : Cells) (h : Heap) (a : ℕ) (c : Option Node)
    → has a xs ≡ false
    → Chain h xs
    → Chain (write h a c) xs
unfolding write
Chain-write xs h a c out = Chain-frame xs h (write h a c) (λ b i. ground arith)

pub load-ok : (s : Store) (p : ℕ) {n : Node} → p ≢ 0 → s.cells p ≡ some n → load p s ≡ ok n s
unfolding load
load-ok s p ne e = ground arith

pub not_null : (p : ℕ) → p ≢ 0 → (p == 0) ≡ false
not_null p ne = ground arith

pub ne_of_has : (a b v : ℕ) (xs : Cells) → has a ((b, v) ∷ xs) ≡ false → a ≢ b
ne_of_has a b v xs o = ground arith

pub has-tail : (a b v : ℕ) (xs : Cells) → has a ((b, v) ∷ xs) ≡ false → has a xs ≡ false
has-tail a b v xs o = ground arith

pub inside : (n i m : ℕ) → n ≡ m → i < m → leb n i ≡ false
inside n i m e h = ground arith

pub outside : (n i m : ℕ) → n ≡ m → m ≤ i → leb n i ≡ true
outside n i m e h = ground arith
