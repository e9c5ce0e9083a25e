-- ===== src/Memfs/Content.antt =====
-- Copies between blocks of memory that are apart, and the larger block that takes a file's bytes.
use rtc_driver.Base.{
  ℕ, ◌+◌, ◌-◌, ◌≤◌, ◌<◌, ◌≡◌, ◌⊎◌, inl, inr, refl, ◌∙◌, true, false, arith, if◌then◌else◌,
}
use rtc_driver.Strings.{Memory, memset, memcpy}
use rtc_driver.Strings.Blocks.{within, IsApart, memset_lem, memcpy_lem}

-- Two blocks of memory have no byte in common.
abbrev pub IsDisjoint : ℕ → ℕ → ℕ → ℕ → Type 0
IsDisjoint a n b m = (a + n ≤ b) ⊎ (b + m ≤ a)

pub IsDisjoint-IsApart : (a n b m : ℕ) → IsDisjoint a n b m → IsApart a b m
IsDisjoint-IsApart a n b m (inl h) = inl (omega arith)
IsDisjoint-IsApart a n b m (inr h) = inr h

pub not_within : (a n b m i : ℕ) → IsDisjoint a n b m → i < m → within a n (b + i) ≡ false
not_within a n b m i (inl h) lt = ground arith
not_within a n b m i (inr h) lt = ground arith

pub inner : (p off n buf : ℕ) → IsDisjoint p (off + n) buf n → IsDisjoint (p + off) n buf n
inner p off n buf (inl h) = inl (omega arith)
inner p off n buf (inr h) = inr (omega arith)

pub beside : (b off n i : ℕ) → (i < off) ⊎ (off + n ≤ i) → within (b + off) n (b + i) ≡ false
beside b off n i (inl h) = ground arith
beside b off n i (inr h) = ground arith

-- The block that `grow` makes of an old one.
abbrev pub grown_mem : ℕ → ℕ → ℕ → ℕ → Memory → Memory
grown_mem p size old n mem = memcpy p old n (memset p 0 size mem)

module _ (p size old n : ℕ) (mem : Memory) (more : n ≤ size) (apart : IsDisjoint p size old n) where
  grown-at :
      (a : ℕ)
      → grown_mem p size old n mem a
        ≡ (if within p n a then memset p 0 size mem (old + (a - p)) else memset p 0 size mem a)
  grown-at a = memcpy_lem p old n a (memset p 0 size mem) (IsDisjoint-IsApart p size old n apart)

  pub grown-old : (i : ℕ) → i < n → grown_mem p size old n mem (p + i) ≡ mem (old + i)
  grown-old i lt =
      let here : within p n (p + i) ≡ true = ground arith in
      let spare : within p size (old + i) ≡ false = not_within p size old n i apart lt in
      let at : p + i - p ≡ i = omega arith in
      grown-at (p + i) ∙ rw (here, at) (memset_lem p 0 size (old + i) mem ∙ rw spare refl)

  pub grown-hole : (i : ℕ) → n ≤ i → i < size → grown_mem p size old n mem (p + i) ≡ 0
  grown-hole i le lt =
      let there : within p n (p + i) ≡ false = ground arith in
      let clear : within p size (p + i) ≡ true = ground arith in
      grown-at (p + i) ∙ rw there (memset_lem p 0 size (p + i) mem ∙ rw clear refl)

  pub grown-outside : (a : ℕ) → within p size a ≡ false → grown_mem p size old n mem a ≡ mem a
  grown-outside a out =
      let out' : within p n a ≡ false = ground arith in
      grown-at a ∙ rw out' (memset_lem p 0 size a mem ∙ rw out refl)

pub copy-new :
    (dst src n i : ℕ) (mem : Memory)
    → IsDisjoint dst n src n
    → i < n
    → memcpy dst src n mem (dst + i) ≡ mem (src + i)
copy-new dst src n i mem apart lt =
    let here : within dst n (dst + i) ≡ true = ground arith in
    let at : dst + i - dst ≡ i = omega arith in
    memcpy_lem dst src n (dst + i) mem (IsDisjoint-IsApart dst n src n apart) ∙ rw (here, at) refl

pub copy-old :
    (dst src n a : ℕ) (mem : Memory)
    → IsDisjoint dst n src n
    → within dst n a ≡ false
    → memcpy dst src n mem a ≡ mem a
copy-old dst src n a mem apart out =
    memcpy_lem dst src n a mem (IsDisjoint-IsApart dst n src n apart) ∙ rw out refl
