-- ===== src/Kalloc/Join.antt =====
-- Two blocks become one.
use rtc_driver.Base.{ℕ, ◌+◌, ◌%◌, ◌^◌, ◌<◌, ◌≡◌, ◌≢◌, ap, ◌∙◌, List, arith}
use rtc_driver.Kalloc.{Entry, Entries, entry, set_next, set_size, link_back}
use rtc_driver.Kalloc.Blocks.{
  Block, link, Seg, put_self, put-ne, Seg-same, Seg-link_back, link_back-ne,
}

-- The writes that make one block of those at `e` and `f`.
abbrev pub joined : ℕ → ℕ → Entries → Entries
joined e f m =
    let m1 = set_size e (((m e).size + (m f).size + 1) % 2 ^ 32) m in
    let m2 = set_next e (m1 f).next m1 in link_back (m2 e).next e m2

merged_self :
    (e f pv size size' flags next : ℕ) (m : Entries)
    → m e ≡ entry f pv size flags
    → set_next e next (set_size e size' m) e ≡ entry next pv size' flags
merged_self e f pv size size' flags next m here =
    put_self e _ (set_size e size' m)
    ∙ ap (λ (d : Entry). record d { next = next })
        (put_self e _ m ∙ ap (λ (d : Entry). record d { size = size' }) here)

merged-ne : (e next size q : ℕ) (m : Entries) → q ≢ e → set_next e next (set_size e size m) q ≡ m q
merged-ne e next size q m ne = put-ne e q _ (set_size e size m) ne ∙ put-ne e q _ m ne

-- The blocks at `e` and `f` are next to each other, in front of blocks from `g` on.
module _ (e f g pv pv' size size' flags flags' : ℕ) (xs : List Block) (m : Entries)
    (here : m e ≡ entry f pv size flags) (there : m f ≡ entry (link g xs) pv' size' flags')
    (order : e < f) (order' : f < g) (small : size + size' + 1 < 2 ^ 32) where
  abbrev sum : ℕ
  sum = size + size' + 1

  abbrev both : Entries
  both = set_next e (link g xs) (set_size e sum m)

  total : ((m e).size + (m f).size + 1) % 2 ^ 32 ≡ sum
  total =
      ap (λ (d : Entry). (d.size + (m f).size + 1) % 2 ^ 32) here
      ∙ ap (λ (d : Entry). (size + d.size + 1) % 2 ^ 32) there
      ∙ omega arith

  joined-is : joined e f m ≡ link_back (link g xs) e both
  joined-is =
      let apart : f ≢ e = λ k. omega arith in
      ap
        (λ v.
          let m1 = set_size e v m in
          let m2 = set_next e (m1 f).next m1 in link_back (m2 e).next e m2)
        total
      ∙ ap (λ v. let m2 = set_next e v (set_size e sum m) in link_back (m2 e).next e m2)
          (ap (λ (d : Entry). d.next) (put-ne e f _ m apart ∙ there))
      ∙ ap (λ p. link_back p e both)
          (ap (λ (d : Entry). d.next) (merged_self e f pv size sum flags (link g xs) m here))

  -- One block is there instead of two, and no entry in front of it has changed.
  pub joined_lem :
      Seg m f g xs
      → (joined e f m e ≡ entry (link g xs) pv sum flags)
        × Seg (joined e f m) e g xs
        × ((q : ℕ) → q < e → joined e f m q ≡ m q)
  joined_lem seg = rw joined-is (
    link_back-ne both e g e xs (omega arith) ∙ merged_self e f pv size sum flags (link g xs) m here,
    Seg-link_back both f e g xs (omega arith)
        (Seg-same m both f g xs (λ q h. merged-ne e (link g xs) sum q m (λ k. omega arith)) seg),
    λ q h.
        link_back-ne both e g q xs (omega arith)
        ∙ merged-ne e (link g xs) sum q m (λ k. omega arith),
  )
