-- ===== src/Strings/Blocks.antt =====
-- The writers: `memset`, `memcpy`, `strcpy`.
use rtc_driver.Base.{
  ℕ, zero, suc, ◌+◌, ◌-◌, ◌≤◌, ◌<◌, ◌≡◌, ◌⊎◌, inl, inr, Bool-cases, refl, ap, ◌∙◌, Bool, true,
  false, ◌&&◌, List, [], ◌∷◌, arith, ltb, leb, ◌==◌, if◌then◌else◌, length,
}
use rtc_driver.Base.Run.{ok}
use rtc_driver.Strings.{
  Memory, store, memset, memset_loop, memcpy, memcpy_loop, strcpy, strcpy_loop,
}
use rtc_driver.Strings.Walk.{IsString, IsString-at}

-- `lo <= a < lo + n`
abbrev pub within : ℕ → ℕ → ℕ → Bool
within lo n a = leb lo a && ltb a (lo + n)

memset_loop_lem :
    (n p v i a : ℕ) (mem : Memory)
    → memset_loop n p v i mem a ≡ (if within (p + i) n a then v else mem a)
unfolding memset_loop store
memset_loop_lem zero p v i a mem = ground arith
memset_loop_lem (suc n) p v i a mem =
    memset_loop_lem n p v (i + 1) a (store (p + i) v mem) ∙ ground arith

-- `memset` writes the value to exactly the bytes of the block.
pub memset_lem :
    (p v count a : ℕ) (mem : Memory)
    → memset p v count mem a ≡ (if within p count a then v else mem a)
unfolding memset
memset_lem p v count a mem = memset_loop_lem count p v 0 a mem ∙ ground arith

-- A copy upwards is right where the target does not begin inside the source.
abbrev pub IsApart : ℕ → ℕ → ℕ → Type 0
IsApart dst src n = (dst ≤ src) ⊎ (src + n ≤ dst)

unfoldable pub copied : ℕ → ℕ → Memory → ℕ → ℕ
copied dst src mem a = mem (src + (a - dst))

IsApart-less : (dst src n : ℕ) → IsApart dst src (suc n) → IsApart dst src n
IsApart-less dst src n (inl h) = inl h
IsApart-less dst src n (inr h) = inr (omega arith)

pub stored : (mem : Memory) (p v a : ℕ) → (a == p) ≡ true → store p v mem a ≡ v
unfolding store
stored mem p v a e = rw e

pub spared : (mem : Memory) (p v a : ℕ) → (a == p) ≡ false → store p v mem a ≡ mem a
unfolding store
spared mem p v a e = rw e

at_start :
    (dst i n a : ℕ)
    → (a == dst + i) ≡ true
    → (within (dst + (i + 1)) n a ≡ false) × (within (dst + i) (suc n) a ≡ true) × (a - dst ≡ i)
at_start dst i n a e = (ground arith, ground arith, ground arith)

past_start :
    (dst i n a : ℕ)
    → (a == dst + i) ≡ false
    → within (dst + (i + 1)) n a ≡ within (dst + i) (suc n) a
past_start dst i n a e = ground arith

not_yet :
    (dst src i n a : ℕ)
    → (a == dst + i) ≡ false
    → within (dst + i) (suc n) a ≡ true
    → IsApart dst src (suc n)
    → (src + (a - dst) == dst + i) ≡ false
not_yet dst src i n a other inside (inl h) = ground arith
not_yet dst src i n a other inside (inr h) = ground arith

memcpy_loop_lem :
    (n dst src i a : ℕ) (mem : Memory)
    → IsApart dst src n
    → memcpy_loop n dst src i mem a ≡ (if within (dst + i) n a then copied dst src mem a else mem a)
unfolding memcpy_loop copied
memcpy_loop_lem zero dst src i a mem apart = ground arith
memcpy_loop_lem (suc n) dst src i a mem apart =
    let mem' = store (dst + i) (mem (src + i)) mem in
    memcpy_loop_lem n dst src (i + 1) a mem' (IsApart-less dst src n apart)
    ∙ (elim (Bool-cases (a == dst + i)) [
      | inl here ↦
          let (out, inside, index) = at_start dst i n a here in
          rw (out, inside) (stored mem (dst + i) (mem (src + i)) a here ∙ ap mem (rw index refl))
      | inr other ↦
          let e : within (dst + (i + 1)) n a ≡ within (dst + i) (suc n) a =
            past_start dst i n a other in
          rw e (elim (Bool-cases (within (dst + i) (suc n) a)) [
            | inl inside ↦ rw inside (
                spared mem (dst + i) (mem (src + i)) (src + (a - dst))
                  (not_yet dst src i n a other inside apart))
            | inr outside ↦ rw outside (spared mem (dst + i) (mem (src + i)) a other)
          ])
    ])

-- `memcpy` copies the block, unless the target begins inside it, and writes nothing else.
pub memcpy_lem :
    (dst src count a : ℕ) (mem : Memory)
    → IsApart dst src count
    → memcpy dst src count mem a ≡ (if within dst count a then mem (src + (a - dst)) else mem a)
unfolding memcpy copied
memcpy_lem dst src count a mem apart = memcpy_loop_lem count dst src 0 a mem apart ∙ ground arith

clear : (p s n : ℕ) → (p < s) ⊎ (s + n < p) → (s == p) ≡ false
clear p s n (inl h) = ground arith
clear p s n (inr h) = ground arith

next : (p s n : ℕ) → (p < s) ⊎ (s + suc n < p) → (p < s + 1) ⊎ (s + 1 + n < p)
next p s n (inl h) = inl (omega arith)
next p s n (inr h) = inr (omega arith)

before :
    (dst src i n : ℕ)
    → (dst ≤ src) ⊎ (src + i + suc n < dst)
    → (dst + i < src + i + 1) ⊎ (src + i + 1 + n < dst + i)
before dst src i n (inl h) = inl (omega arith)
before dst src i n (inr h) = inr (omega arith)

apart_next :
    (dst src i n : ℕ)
    → (dst ≤ src) ⊎ (src + i + suc n < dst)
    → (dst ≤ src) ⊎ (src + (i + 1) + n < dst)
apart_next dst src i n (inl h) = inl h
apart_next dst src i n (inr h) = inr (omega arith)

from_start : (dst src n : ℕ) → (dst ≤ src) ⊎ (src + n < dst) → (dst ≤ src) ⊎ (src + 0 + n < dst)
from_start dst src n (inl h) = inl h
from_start dst src n (inr h) = inr (omega arith)

pub store-IsString :
    (mem : Memory) (p v : ℕ) (xs : List ℕ) (s : ℕ)
    → (p < s) ⊎ (s + length xs < p)
    → IsString mem s xs
    → IsString (store p v mem) s xs
store-IsString mem p v [] s apart is = spared mem p v s (clear p s 0 apart) ∙ is
store-IsString mem p v (x ∷ xs) s apart (e, ne, is) = (
  spared mem p v s (clear p s (suc (length xs)) apart) ∙ e,
  ne,
  store-IsString mem p v xs (s + 1) (next p s (length xs) apart) is,
)

-- The string `xs` stands at `lo` after the copy, and no byte outside it has changed.
pub record Copied (mem mem' : Memory) (lo : ℕ) (xs : List ℕ) : Type 0 where
  pub is : IsString mem' lo xs
  pub same : (a : ℕ) → within lo (length xs + 1) a ≡ false → mem' a ≡ mem a

strcpy_loop_lem :
    (k dst src i : ℕ) (mem : Memory) (xs : List ℕ)
    → IsString mem (src + i) xs
    → (dst ≤ src) ⊎ (src + i + length xs < dst)
    → length xs < k
    → (mem' : Memory) × (strcpy_loop k dst src i mem ≡ ok tt mem') × Copied mem mem' (dst + i) xs
unfolding strcpy_loop
strcpy_loop_lem zero dst src i mem xs is apart h = absurd (omega arith)
strcpy_loop_lem (suc k) dst src i mem [] is apart h =
    let end : (mem (src + i) == 0) ≡ true = ground (arith, is) in
    (
      store (dst + i) 0 mem,
      rw end refl,
      record {
        is = stored mem (dst + i) 0 (dst + i) (ground arith);
        same = λ a out. spared mem (dst + i) 0 a (ground arith);
      },
    )
strcpy_loop_lem (suc k) dst src i mem (x ∷ xs) (v, ne, is) apart h =
    let more : (mem (src + i) == 0) ≡ false = ground (arith, v, ne) in
    let mem1 = store (dst + i) (mem (src + i)) mem in
    let (mem', e, c) =
      strcpy_loop_lem k dst src (i + 1) mem1 xs
        (IsString-at mem1 xs (src + i + 1) (src + (i + 1)) (omega arith) (
          store-IsString mem (dst + i) (mem (src + i)) xs (src + i + 1)
            (before dst src i (length xs) apart) is))
        (apart_next dst src i (length xs) apart) (omega arith) in
    (
      mem',
      rw more e,
      record {
        is = (
          c.same (dst + i) (ground arith)
              ∙ stored mem (dst + i) (mem (src + i)) (dst + i) (ground arith)
              ∙ v,
          ne,
          IsString-at mem' xs (dst + (i + 1)) (dst + i + 1) (omega arith) c.is,
        );
        same = λ a out.
            c.same a (ground arith) ∙ spared mem (dst + i) (mem (src + i)) a (ground arith);
      },
    )

-- `strcpy` of a string, to a place that does not begin inside it, puts the string there with its
-- null and writes nothing else; the fuel need only exceed its length.
pub strcpy_lem :
    (fuel dst src : ℕ) (mem : Memory) (xs : List ℕ)
    → IsString mem src xs
    → (dst ≤ src) ⊎ (src + length xs < dst)
    → length xs < fuel
    → (mem' : Memory) × (strcpy fuel dst src mem ≡ ok tt mem') × Copied mem mem' dst xs
unfolding strcpy
strcpy_lem fuel dst src mem xs is apart h =
    let (mem', e, c) =
      strcpy_loop_lem fuel dst src 0 mem xs (IsString-at mem xs _ _ (omega arith) is)
        (from_start dst src (length xs) apart) h in
    (
      mem',
      e,
      record {
        is = IsString-at mem' xs _ _ (omega arith) c.is;
        same = λ a out. c.same a (ground arith);
      },
    )
