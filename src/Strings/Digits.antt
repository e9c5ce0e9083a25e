-- ===== src/Strings/Digits.antt =====
-- Numbers written as text.
use rtc_driver.Base.{
  ℕ, zero, suc, ◌+◌, ◌-◌, ◌*◌, ◌/◌, ◌%◌, ◌^◌, ◌≤◌, ◌<◌, ◌≡◌, ◌≢◌, ◌⊎◌, inl, inr, Bool-cases, refl,
  sym, ap, ◌∙◌, Bool, true, false, ◌||◌, List, [], ◌∷◌, ◌++◌, arith, ltb, leb, ◌==◌, if◌then◌else◌,
  length, replicate,
}
use rtc_driver.Base.Run.{ok}
use rtc_driver.Strings.{
  Memory, store, digit_char, digits_loop, digits, with_prefix, write_string, itoa,
}
use rtc_driver.Strings.Blocks.{within, stored, spared}
use rtc_driver.Strings.Walk.{IsString}

-- The bases that `itoa` allows.
abbrev pub IsBase : ℕ → Type 0
IsBase b = ((b ≡ 2) ⊎ (b ≡ 8)) ⊎ ((b ≡ 10) ⊎ (b ≡ 16))

abbrev pub digit_value : ℕ → ℕ
digit_value x = if ltb x 58 then x - 48 else x - 87

-- The number that digits stand for, read from the left behind the number `v`.
unfoldable pub value : ℕ → ℕ → List ℕ → ℕ
value base v [] = v
value base v (x ∷ xs) = value base (v * base + digit_value x) xs

digit_value-digit_char : (r : ℕ) → r < 16 → digit_value (digit_char r) ≡ r
unfolding digit_char
digit_value-digit_char r h = ground arith

digit_char-ne : (r : ℕ) → digit_char r ≢ 0
unfolding digit_char
digit_char-ne r e = ground arith

-- What a round needs of the base.
record Divides (i base : ℕ) : Type 0 where
  pub whole : i / base * base + i % base ≡ i
  pub half : i / base ≤ i / 2
  pub small : i % base < 16
  pub nonzero : (base == 0) ≡ false

IsBase-Divides : (i base : ℕ) → IsBase base → Divides i base
IsBase-Divides i base (inl (inl e)) =
    rw e (record { whole = omega arith; half = omega arith; small = omega arith; nonzero = refl })
IsBase-Divides i base (inl (inr e)) =
    rw e (record { whole = omega arith; half = omega arith; small = omega arith; nonzero = refl })
IsBase-Divides i base (inr (inl e)) =
    rw e (record { whole = omega arith; half = omega arith; small = omega arith; nonzero = refl })
IsBase-Divides i base (inr (inr e)) =
    rw e (record { whole = omega arith; half = omega arith; small = omega arith; nonzero = refl })

abbrev AreNonzero : List ℕ → Type 0
AreNonzero [] = Unit
AreNonzero (x ∷ xs) = (x ≢ 0) × AreNonzero xs

halve : (k i : ℕ) → i < 2 ^ suc k → i / 2 < 2 ^ k
halve k i h = omega arith

zero_of : (i : ℕ) → i < 2 ^ 0 → i ≡ 0
zero_of i h = omega arith

digit_fits : (r : ℕ) → r < 16 → leb 16 r ≡ false
digit_fits r h = ground arith

tmp_fits : (n k : ℕ) → n + suc k ≤ 64 → leb 65 n ≡ false
tmp_fits n k h = ground arith

none_of : {a b c : Bool} → a ≡ false → b ≡ false → c ≡ false → (a || b || c) ≡ false
none_of ha hb hc = rw (ha, hb, hc) refl

digits_loop_lem :
    (k i base : ℕ) (tmp : List ℕ) (mem : Memory)
    → IsBase base
    → i < 2 ^ k
    → length tmp + k ≤ 64
    → AreNonzero tmp
    → (out : List ℕ) × (digits_loop (suc k) i base tmp mem ≡ ok out mem)
      × (value base 0 out ≡ value base i tmp)
      × (length out ≤ length tmp + k)
      × AreNonzero out
unfolding digits_loop value
digits_loop_lem zero i base tmp mem b h room nz =
    let none_left : (i == 0) ≡ true = ground (arith, zero_of i h) in
    (tmp, rw none_left refl, ap (λ v. value base v tmp) (sym (zero_of i h)), omega arith, nz)
digits_loop_lem (suc k) i base tmp mem b h room nz = elim (Bool-cases (i == 0)) [
  | inl done ↦ (tmp, rw done refl, ap (λ v. value base v tmp) (ground arith), omega arith, nz)
  | inr more ↦
      let d = IsBase-Divides i base b in
      let (out, e, v, l, nz') =
        digits_loop_lem k (i / base) base (digit_char (i % base) ∷ tmp) mem b
          (omega (arith, halve k i h, d.half)) (omega arith) (digit_char-ne (i % base), nz) in
      (
        out,
        rw more (
            rw (none_of d.nonzero (digit_fits (i % base) d.small) (tmp_fits (length tmp) k room))
              e),
        v ∙ ap (λ x. value base x tmp) (rw (digit_value-digit_char (i % base) d.small) d.whole),
        omega (arith, l),
        nz',
      )
]

-- The digits of a number below 2^32, and the prefix of its base.
digits_lem :
    (i base : ℕ) (mem : Memory)
    → IsBase base
    → i < 2 ^ 32
    → (out : List ℕ) × (digits i base mem ≡ ok out mem)
      × (value base 0 out ≡ i)
      × (length out ≤ 32)
      × AreNonzero out
unfolding digits value
digits_lem i base mem b h = elim (Bool-cases (i == 0)) [
  | inl none_left ↦
      (48 ∷ [], rw none_left refl, ground arith, omega arith, (λ e. omega (arith, e), tt))
  | inr more ↦
      let (out, e, v, l, nz) = digits_loop_lem 32 i base [] mem b h (omega arith) tt in
      (out, rw more e, v, l, nz)
]

unfoldable pub prefix : ℕ → List ℕ
prefix base = if base == 8 then 48 ∷ [] else if base == 16 then 48 ∷ 120 ∷ [] else []

with_prefix-prefix :
    (base : ℕ) (tmp : List ℕ) → IsBase base → with_prefix base tmp ≡ prefix base ++ tmp
unfolding with_prefix prefix
with_prefix-prefix base tmp (inl (inl e)) = rw e refl
with_prefix-prefix base tmp (inl (inr e)) = rw e refl
with_prefix-prefix base tmp (inr (inl e)) = rw e refl
with_prefix-prefix base tmp (inr (inr e)) = rw e refl

prefix_nonzero :
    (base : ℕ) (tmp : List ℕ) → IsBase base → AreNonzero tmp → AreNonzero (prefix base ++ tmp)
unfolding prefix
prefix_nonzero base tmp (inl (inl e)) nz = rw e nz
prefix_nonzero base tmp (inl (inr e)) nz = rw e (λ x. omega (arith, x), nz)
prefix_nonzero base tmp (inr (inl e)) nz = rw e nz
prefix_nonzero base tmp (inr (inr e)) nz = rw e (λ x. omega (arith, x), (λ x. omega (arith, x), nz))

length-prefix :
    (base : ℕ) (tmp : List ℕ) → IsBase base → length (prefix base ++ tmp) ≤ length tmp + 2
unfolding prefix
length-prefix base tmp (inl (inl e)) = rw e (omega arith)
length-prefix base tmp (inl (inr e)) = rw e (omega arith)
length-prefix base tmp (inr (inl e)) = rw e (omega arith)
length-prefix base tmp (inr (inr e)) = rw e (omega arith)

-- What `write_string` leaves at `p`.
write_string_lem :
    (xs : List ℕ) (p a : ℕ) (mem : Memory)
    → within p (length xs + 1) a ≡ false
    → write_string xs p mem a ≡ mem a
unfolding write_string
write_string_lem [] p a mem out = spared mem p 0 a (ground arith)
write_string_lem (x ∷ xs) p a mem out =
    write_string_lem xs (p + 1) a (store p x mem) (ground arith) ∙ spared mem p x a (ground arith)

write_string-IsString :
    (xs : List ℕ) (p : ℕ) (mem : Memory) → AreNonzero xs → IsString (write_string xs p mem) p xs
unfolding write_string
write_string-IsString [] p mem nz = stored mem p 0 p (ground arith)
write_string-IsString (x ∷ xs) p mem (ne, nz) = (
  write_string_lem xs (p + 1) p (store p x mem) (ground arith) ∙ stored mem p x p (ground arith),
  ne,
  write_string-IsString xs (p + 1) (store p x mem) nz,
)

unpadded : (ds : List ℕ) → replicate (0 - length ds) 0 ++ ds ≡ ds
unpadded ds = let none_left : 0 - length ds ≡ 0 = omega arith in rw none_left refl

fits : (n m : ℕ) → m ≤ 32 → n ≤ m + 2 → ltb 65 n ≡ false
fits n m h k = ground arith

far : (buf n m a : ℕ) → m ≤ 32 → n ≤ m + 2 → within buf 35 a ≡ false → within buf (n + 1) a ≡ false
far buf n m a h k out = ground arith

-- What `itoa` leaves: the prefix of the base and digits that stand for the number.
pub record IsText (i base buf : ℕ) (mem mem' : Memory) (ds : List ℕ) : Type 0 where
  pub string : IsString mem' buf (prefix base ++ ds)
  pub number : value base 0 ds ≡ i
  pub most : length ds ≤ 32
  pub same : (a : ℕ) → within buf 35 a ≡ false → mem' a ≡ mem a

-- For a number below 2^32, each of the four bases and no padding, `itoa` returns, the text it
-- writes is the prefix of the base and at most 32 digits that stand for the number, and it writes
-- nothing outside the first 35 bytes of the buffer.
pub itoa_lem :
    (i base buf : ℕ) (mem : Memory)
    → IsBase base
    → i < 2 ^ 32
    → (ds : List ℕ) × (mem' : Memory) × (itoa i base buf 0 mem ≡ ok tt mem')
      × IsText i base buf mem mem' ds
unfolding itoa
itoa_lem i base buf mem b h =
    let (ds, e, v, l, nz) = digits_lem i base mem b h in
    let text = prefix base ++ ds in
    let room = length-prefix base ds b in
    (
      ds,
      write_string text buf mem,
      rw e (
          rw (with_prefix-prefix base (replicate (0 - length ds) 0 ++ ds) b)
            (rw (unpadded ds) (rw (fits (length text) (length ds) l room) refl))),
      record {
        string = write_string-IsString text buf mem (prefix_nonzero base ds b nz);
        number = v;
        most = l;
        same = λ a out.
            write_string_lem text buf a mem (far buf (length text) (length ds) a l room out);
      },
    )
