-- ===== src/Gdt/Table.antt =====
-- Allocation of entries of the table.
use rtc_driver.Base.{
  ℕ, zero, suc, ◌+◌, ◌*◌, ◌/◌, ◌%◌, ◌≤◌, ◌<◌, ◌≡◌, ◌≢◌, ◌⊎◌, inl, inr, refl, sym, ap, ◌∙◌,
  Bool-cases, true, false, List, arith, ◌==◌, get_or, set, length, get_or-set_self, get_or-set_ne,
}
use rtc_driver.Gdt.{gdt_descriptor, find_null, gdt_alloc, gdt_get}

abbrev entry : List ℕ → ℕ → ℕ
entry gdt i = get_or gdt i 0

-- The search stops at the first null entry, or at the end.
record Search (lo n : ℕ) (gdt : List ℕ) (i : ℕ) : Type 0 where
  lower : lo ≤ i
  upper : i ≤ lo + n
  used : (j : ℕ) → lo ≤ j → j < i → get_or gdt j 0 ≢ 0
  null : i < lo + n → get_or gdt i 0 ≡ 0

later :
    (lo n : ℕ) (gdt : List ℕ) (i : ℕ)
    → get_or gdt lo 0 ≢ 0
    → Search (lo + 1) n gdt i
    → Search lo (suc n) gdt i
later lo n gdt i ne found = record {
  lower = omega (arith, found.lower);
  upper = omega (arith, found.upper);
  used = λ j a b. elim (Bool-cases (j == lo)) [
    | inl first ↦ λ e. ne (ap (λ k. get_or gdt k 0) (ground arith) ∙ e)
    | inr behind ↦ found.used j (ground arith) b
  ];
  null = λ h. found.null (omega arith);
}

find_null-Search : (n lo : ℕ) (gdt : List ℕ) → Search lo n gdt (find_null n lo gdt)
unfolding find_null
find_null-Search zero lo gdt = record {
  lower = omega arith;
  upper = omega arith;
  used = λ j a b. absurd (omega arith);
  null = λ h. absurd (omega arith);
}
find_null-Search (suc n) lo gdt = elim (Bool-cases (get_or gdt lo 0 == 0)) [
  | inl here ↦ rw here (record {
    lower = omega arith;
    upper = omega arith;
    used = λ j a b. absurd (omega arith);
    null = λ h. ground arith;
  })
  | inr other ↦
      rw other
        (later lo n gdt (find_null n (lo + 1) gdt) (ground arith) (find_null-Search n (lo + 1) gdt))
]

-- What an allocation promises: a selector of a null entry behind entry 0, the first such, which
-- then holds the descriptor while no other entry has changed; or none, and the table is full.
pub record Entry (gdt : List ℕ) (d sel : ℕ) (gdt' : List ℕ) : Type 0 where
  pub index : ℕ
  pub selector : sel ≡ index * 8
  pub lower : 1 ≤ index
  pub upper : index < 32
  pub was_null : get_or gdt index 0 ≡ 0
  pub first : (j : ℕ) → 1 ≤ j → j < index → get_or gdt j 0 ≢ 0
  pub holds : gdt_get sel gdt' ≡ d
  pub same : (j : ℕ) → j ≢ index → get_or gdt' j 0 ≡ get_or gdt j 0

abbrev pub Allocated : List ℕ → ℕ → ℕ × List ℕ → Type 0
Allocated gdt d (sel, gdt') =
    Entry gdt d sel gdt'
    ⊎ ((sel ≡ 0) × (gdt' ≡ gdt) × ((j : ℕ) → 1 ≤ j → j < 32 → get_or gdt j 0 ≢ 0))

at_end : (i : ℕ) → (i == 32) ≡ true → i ≡ 32
at_end i e = ground arith

below_end : (i : ℕ) → (i == 32) ≡ false → i ≤ 32 → i < 32
below_end i e h = ground arith

selector_of : (i : ℕ) → i < 32 → (i * 8 % 65536 ≡ i * 8) × (i * 8 % 65536 / 8 ≡ i)
selector_of i h = (omega arith, omega arith)

-- On a table of 32 entries `gdt_alloc` gives the selector of the first null entry behind entry 0,
-- and `gdt_get` of that selector is then the descriptor, while every other entry is as it was;
-- if there is none, the selector is 0 and the table is as it was.
pub gdt_alloc_lem :
    (base limit flags : ℕ) (gdt : List ℕ)
    → length gdt ≡ 32
    → Allocated gdt (gdt_descriptor base limit flags) (gdt_alloc base limit flags gdt)
unfolding gdt_alloc gdt_get
gdt_alloc_lem base limit flags gdt size =
    let i = find_null 31 1 gdt in
    let found = find_null-Search 31 1 gdt in
    let d = gdt_descriptor base limit flags in
    elim (Bool-cases (i == 32)) [
      | inl full ↦
          rw full (inr (refl, refl, λ j a b. found.used j a (omega (arith, at_end i full, b))))
      | inr free ↦ rw free (
          let below = below_end i free found.upper in
          let (byte, back) = selector_of i below in
          inl (record {
            index = i;
            selector = byte;
            lower = found.lower;
            upper = below;
            was_null = found.null below;
            first = found.used;
            holds =
                ap (λ k. get_or (set gdt i d) k 0) back
                ∙ get_or-set_self gdt i d 0 (omega (arith, size, below));
            same = λ j ne. get_or-set_ne gdt i j d 0 (λ e. ne (sym e));
          }))
    ]
