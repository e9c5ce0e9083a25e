-- ===== src/Kalloc/Grow.antt =====
-- What the heap relies on of the frame allocator: from 1 MiB on, the frames of the heap are a used
-- stretch, followed by a free one up to a limit, so that new frames extend the used stretch.
use rtc_driver.Base.{
  ℕ, ◌+◌, ◌-◌, ◌*◌, ◌^◌, ◌≤◌, ◌<◌, ◌≡◌, ◌≢◌, refl, ap, ◌∙◌, Bool, true, false, inl, inr, ◌⊎◌,
  Bool-cases, arith, ltb, leb, ltb→lt, leb→le, sym, if◌then◌else◌,
}
use mathlib.Core.Path.{subst}
use rtc_driver.Frames.{Mem, last_frame, entry_free, entry_used, mem_allocate_frames}
use rtc_driver.Frames.Pack.{AreBytes}
use rtc_driver.Frames.Mark.{within}
use rtc_driver.Frames.Search.{IsFree, FreeRun}
use rtc_driver.Frames.Alloc.{allocate_lem, Taken}

-- The frames from 256 to `brk` are used, those from there to `limit` are free, and those from
-- there to 768 are used.
pub record IsStretch (brk limit : ℕ) (f : Mem) : Type 0 where
  pub start : 256 ≤ brk
  pub order : brk ≤ limit
  pub top : limit ≤ 768
  pub memory : f.total_frames < 2 ^ 20
  pub whole : 768 ≤ f.total_frames
  pub bytes : AreBytes f.bitmap
  pub taken : (g : ℕ) → 256 ≤ g → g < brk → ¬ IsFree f.bitmap g
  pub free : (g : ℕ) → brk ≤ g → g < limit → IsFree f.bitmap g
  pub beyond : (g : ℕ) → limit ≤ g → g < 768 → ¬ IsFree f.bitmap g

-- The new frames are those behind the used stretch, or there are too few.
abbrev pub Grown : ℕ → ℕ → ℕ → ℕ × Mem → Type 0
Grown count brk limit (a, f) =
    ((a ≡ brk * 4096) × (brk + count ≤ limit) × IsStretch (brk + count) limit f)
    ⊎ ((a ≡ 0) × (limit < brk + count) × IsStretch brk limit f)

last_user : (total : ℕ) → 768 ≤ total → last_frame 768 total ≡ 768
unfolding last_frame
last_user total h = ground arith

-- A frame marked used is not free.
marked_used : (b : Bool) (e x : ℕ) → e ≡ (if b then entry_used else x) → b ≡ true → e ≢ entry_free
marked_used b e x h t k = ground arith

not_marked : (b : Bool) (e x : ℕ) → e ≡ (if b then entry_used else x) → b ≡ false → e ≡ x
not_marked b e x h t = ground arith

in_range : (a b x : ℕ) → a ≤ x → x < b → within a b x ≡ true
in_range a b x h k = ground arith

below_range : (a b x : ℕ) → x < a → within a b x ≡ false
below_range a b x h = ground arith

above_range : (a b x : ℕ) → b ≤ x → within a b x ≡ false
above_range a b x h = ground arith

ltb→false : (a b : ℕ) → ltb a b ≡ false → b ≤ a
ltb→false a b h = ground arith

module _ (count brk limit : ℕ) (f : Mem) (is : IsStretch brk limit f) (pos_count : 0 < count) where
  place : (k a : ℕ) (f' : Mem) → Taken f count 256 768 k a f' → (k ≡ brk) × (brk + count ≤ limit)
  place k a f' t =
      let high : k + count ≤ 768 = omega (arith, t.below, last_user f.total_frames is.whole) in
      let last = k + count - 1 in
      let above : brk ≤ k = elim (Bool-cases (ltb k brk)) [
        | inl early ↦
            absurd
              (is.taken k t.above (ltb→lt _ _ early) (t.was_free k (omega arith) (omega arith)))
        | inr late ↦ ground arith
      ] in
      let inside : k + count ≤ limit = elim (Bool-cases (leb limit last)) [
        | inl out ↦ absurd (
            is.beyond last (leb→le _ _ out) (omega arith)
              (t.was_free last (omega arith) (omega arith)))
        | inr fits ↦ ground arith
      ] in
      let below : k ≤ brk = elim (Bool-cases (ltb brk k)) [
        | inl later ↦ absurd (
            t.earliest brk is.start (ltb→lt _ _ later)
              (λ g lo up. is.free g lo (omega (arith, inside, ltb→lt _ _ later))))
        | inr first ↦ ground arith
      ] in
      (omega arith, omega arith)

  grown-IsStretch :
      (a : ℕ) (f' : Mem)
      → Taken f count 256 768 brk a f'
      → brk + count ≤ limit
      → IsStretch (brk + count) limit f'
  grown-IsStretch a f' t fits = record {
    start = omega (arith, is.start);
    order = fits;
    top = is.top;
    memory = omega (arith, t.same_total, is.memory);
    whole = omega (arith, t.same_total, is.whole);
    bytes = t.bytes;
    taken = λ g lo up. elim (Bool-cases (ltb g brk)) [
      | inl old ↦ λ e. is.taken g lo (ltb→lt _ _ old) (
          sym (not_marked _ _ _ (t.entries g) (below_range brk (brk + count) g (ltb→lt _ _ old)))
          ∙ e)
      | inr new ↦ marked_used _ _ _ (t.entries g) (in_range brk (brk + count) g (ground arith) up)
    ];
    free = λ g lo up.
        not_marked _ _ _ (t.entries g) (above_range brk (brk + count) g lo)
        ∙ is.free g (omega arith) up;
    beyond = λ g lo up e. is.beyond g lo up (
        sym (
          not_marked _ _ _ (t.entries g)
            (above_range brk (brk + count) g (omega (arith, lo, fits))))
        ∙ e);
  }

  taken_lem :
      (k a : ℕ) (f' : Mem)
      → Taken f count 256 768 k a f'
      → (k ≡ brk) × (brk + count ≤ limit)
      → Grown count brk limit (a, f')
  taken_lem k a f' t (same, fits) =
      let at_brk : Taken f count 256 768 brk a f' =
        subst (λ j. Taken f count 256 768 j a f') same t in
      inl (at_brk.address_is, fits, grown-IsStretch a f' at_brk fits)

  no_room :
      ((k : ℕ) → 256 ≤ k → k + count ≤ last_frame 768 f.total_frames → ¬ FreeRun f.bitmap k count)
      → limit < brk + count
  no_room none_free = elim (Bool-cases (ltb limit (brk + count))) [
    | inl full ↦ ltb→lt _ _ full
    | inr room ↦ absurd (
        none_free brk is.start
          (omega (arith, is.top, last_user f.total_frames is.whole, ltb→false _ _ room))
          (λ g lo up. is.free g lo (omega (arith, ltb→false _ _ room))))
  ]

  full-IsStretch :
      (f' : Mem) → f'.bitmap ≡ f.bitmap → f'.total_frames ≡ f.total_frames → IsStretch brk limit f'
  full-IsStretch f' same total = record {
    start = is.start;
    order = is.order;
    top = is.top;
    memory = omega (arith, total, is.memory);
    whole = omega (arith, total, is.whole);
    bytes = λ i. omega (arith, ap (λ b. b i) same, is.bytes i);
    taken = λ g lo up. rw same (is.taken g lo up);
    free = λ g lo up. rw same (is.free g lo up);
    beyond = λ g lo up. rw same (is.beyond g lo up);
  }

  allocate-total : (mem_allocate_frames count 256 768 f).1.total_frames ≡ f.total_frames
  unfolding mem_allocate_frames
  allocate-total = refl

  -- On such a stretch, an allocation for the heap takes the frames behind the used ones, or, if
  -- there are too few, none.
  pub grow_lem : Grown count brk limit (mem_allocate_frames count 256 768 f)
  grow_lem = elim (allocate_lem f count 256 768 is.bytes pos_count is.memory) [
    | inl (k, t) ↦ taken_lem k _ _ t (place k _ _ t)
    | inr (null, (same, none_free)) ↦
        inr (null, no_room none_free, full-IsStretch _ same allocate-total)
  ]
