-- ===== src/Vfs/Search.antt =====
-- Which entry of the cache the search of vfs_dentry_get ends with.
use rtc_driver.Base.{
  ℕ, zero, suc, ◌+◌, ◌≤◌, ◌<◌, ◌≡◌, ◌≢◌, ◌⊎◌, inl, inr, Bool-cases, refl, ap, ◌∙◌, Bool, true,
  false, not, ◌&&◌, ◌||◌, some, List, [], ◌∷◌, arith, ltb, ◌==◌, if◌then◌else◌, get_elem?,
}
use rtc_driver.Files.{Name, Dentry, same_name}
use rtc_driver.Vfs.{found, room, search}

abbrev pub All : (Dentry → Type 0) → List Dentry → Type 0
All P [] = Unit
All P (d ∷ ds) = P d × All P ds

pub All-map :
    (P Q : Dentry → Type 0) (ds : List Dentry) → ((d : Dentry) → P d → Q d) → All P ds → All Q ds
All-map P Q [] f a = tt
All-map P Q (d ∷ ds) f a = (f d a.0, All-map P Q ds f a.1)

-- The entry with a name below a parent.
abbrev pub is_entry : ℕ → Name → Dentry → Bool
is_entry parent name d = not (d.d_name == 0) && (d.d_parent == parent && same_name d.d_text name)

abbrev pub IsFree : Dentry → Type 0
IsFree d = d.d_name ≡ 0

-- An entry that may not be given up while there are others: in use, and a mountpoint.
abbrev pub IsMount : Dentry → Type 0
IsMount d = (d.d_name ≢ 0) × (d.d_mnt_sb ≢ 0)

-- An entry in use that is used at least `count` times, or a mountpoint.
abbrev pub IsUsed : ℕ → Dentry → Type 0
IsUsed count d = (d.d_name ≢ 0) × ((d.d_mnt_sb ≢ 0) ⊎ (count ≤ d.d_count))

-- An entry that is free, or, where none is, the least used of those that are no mountpoints.
abbrev pub IsVictim : List Dentry → Dentry → Type 0
IsVictim ds d = IsFree d ⊎ ((d.d_mnt_sb ≡ 0) × All (IsUsed d.d_count) ds)

-- What a search with a choice so far ends with: that choice, or an entry of the list.
abbrev pub Kept : ℕ → ℕ → Dentry → Type 0
Kept low count d = (d.d_name ≢ 0) × ((d.d_mnt_sb ≢ 0) ⊎ ((low ≢ 0) × (count ≤ d.d_count)))

abbrev Chosen : ℕ → ℕ → ℕ → List Dentry → ℕ → Type 0
Chosen i low count ds p =
    (k : ℕ) × (d : Dentry) × (p ≡ i + k)
    × (get_elem? ds k ≡ some d)
    × (IsFree d
        ⊎ ((d.d_mnt_sb ≡ 0) × ((low ≡ 0) ⊎ (d.d_count < count)) × All (IsUsed d.d_count) ds))

abbrev Ends : ℕ → ℕ → ℕ → List Dentry → ℕ → Type 0
Ends i low count ds p = ((p ≡ low) × All (Kept low count) ds) ⊎ Chosen i low count ds p

module _ (i low count p : ℕ) (d : Dentry) (ds : List Dentry) where
  after_free : 0 < i → IsFree d → Ends (i + 1) i 0 ds p → Ends i low count (d ∷ ds) p
  after_free pos free (inl h) = inr (0, d, omega (arith, h.0), refl, inl free)
  after_free pos free (inr (k, e, at, get, inl f)) = inr (suc k, e, omega arith, get, inl f)
  after_free pos free (inr (k, e, at, get, inr (m, inl z, a))) = absurd (omega arith)
  after_free pos free (inr (k, e, at, get, inr (m, inr l, a))) = absurd (omega arith)

  after_mount : IsMount d → Ends (i + 1) low count ds p → Ends i low count (d ∷ ds) p
  after_mount m (inl h) = inl (h.0, ((m.0, inl m.1), h.1))
  after_mount m (inr (k, e, at, get, inl f)) = inr (suc k, e, omega arith, get, inl f)
  after_mount m (inr (k, e, at, get, inr (z, l, a))) =
      inr (suc k, e, omega arith, get, inr (z, l, ((m.0, inl m.1), a)))

  after_better :
      0 < i
      → d.d_name ≢ 0
      → d.d_mnt_sb ≡ 0
      → (low ≡ 0) ⊎ (d.d_count < count)
      → Ends (i + 1) i d.d_count ds p
      → Ends i low count (d ∷ ds) p
  after_better pos full z l (inl h) = inr (
    0,
    d,
    omega (arith, h.0),
    refl,
    inr (
      z,
      l,
      (
        (full, inr (omega arith)),
        All-map (Kept i d.d_count) (IsUsed d.d_count) ds
            (λ e u. (u.0, elim u.1 [ inl m ↦ inl m | inr c ↦ inr c.1 ])) h.1,
      ),
    ),
  )
  after_better pos full z l (inr (k, e, at, get, inl f)) = inr (suc k, e, omega arith, get, inl f)
  after_better pos full z l (inr (k, e, at, get, inr (m, inl n, a))) = absurd (omega arith)
  after_better pos full z (inl n) (inr (k, e, at, get, inr (m, inr lt, a))) =
      inr (suc k, e, omega arith, get, inr (m, inl n, ((full, inr (omega arith)), a)))
  after_better pos full z (inr n) (inr (k, e, at, get, inr (m, inr lt, a))) =
      inr (suc k, e, omega arith, get, inr (m, inr (omega arith), ((full, inr (omega arith)), a)))

  after_worse :
      d.d_name ≢ 0
      → low ≢ 0
      → count ≤ d.d_count
      → Ends (i + 1) low count ds p
      → Ends i low count (d ∷ ds) p
  after_worse full some_low le (inl h) = inl (h.0, ((full, inr (some_low, le)), h.1))
  after_worse full some_low le (inr (k, e, at, get, inl f)) =
      inr (suc k, e, omega arith, get, inl f)
  after_worse full some_low le (inr (k, e, at, get, inr (m, inl n, a))) = absurd (some_low n)
  after_worse full some_low le (inr (k, e, at, get, inr (m, inr lt, a))) =
      inr (suc k, e, omega arith, get, inr (m, inr lt, ((full, inr (omega arith)), a)))

choice : (a b c : ℕ) → ((a == 0) || ltb b c) ≡ true → (a ≡ 0) ⊎ (b < c)
choice zero b c h = inl refl
choice (suc a) b c h = inr (ground arith)

module _ (parent : ℕ) (name : Name) where
  -- An entry that is there is found, unless an earlier one has the name and the parent.
  pub search-found :
      (ds : List Dentry) (i low count k : ℕ) {d : Dentry}
      → get_elem? ds k ≡ some d
      → is_entry parent name d ≡ true
      → ((j : ℕ) (e : Dentry) → j < k → get_elem? ds j ≡ some e → is_entry parent name e ≡ false)
      → search parent name i low count ds ≡ found (i + k)
  unfolding search
  search-found [] i low count k at hit earlier = cc
  search-found (e ∷ ds) i low count zero at hit earlier =
      let same : is_entry parent name e ≡ true = ground (arith, at, hit) in
      rw same (ap found (omega arith))
  search-found (e ∷ ds) i low count (suc k) at hit earlier =
      let other = earlier 0 e (omega arith) refl in
      let free = e.d_name == 0 in
      let better = (low == 0) || ltb e.d_count count in
      let taken = not free && (not (e.d_mnt_sb == 0) || not better) in
      rw other (
        search-found ds (i + 1) (if taken then low else i)
          (if free then 0 else if taken then count else e.d_count) k at hit
          (λ j e' lt get. earlier (suc j) e' (omega arith) get)
        ∙ ap found (omega arith))

  pub search-room :
      (ds : List Dentry) (i low count : ℕ)
      → 0 < i
      → All (λ d. is_entry parent name d ≡ false) ds
      → (p : ℕ) × (search parent name i low count ds ≡ room p) × Ends i low count ds p
  unfolding search
  search-room [] i low count h none = (low, refl, inl (refl, tt))
  search-room (d ∷ ds) i low count h (miss, none) = elim (Bool-cases (d.d_name == 0)) [
    | inl free ↦
        let (p, run, ends) = search-room ds (i + 1) i 0 (omega arith) none in
        (p, rw free run, after_free i low count p d ds h (ground arith) ends)
    | inr full ↦
        let miss' : (d.d_parent == parent && same_name d.d_text name) ≡ false = rw full at miss in
        elim (Bool-cases (d.d_mnt_sb == 0)) [
          | inr mount ↦
              let (p, run, ends) = search-room ds (i + 1) low count (omega arith) none in
              (
                p,
                rw full (rw mount (rw miss' run)),
                after_mount i low count p d ds (ground arith) ends,
              )
          | inl plain ↦ elim (Bool-cases ((low == 0) || ltb d.d_count count)) [
            | inl better ↦
                let (p, run, ends) = search-room ds (i + 1) i d.d_count (omega arith) none in
                (
                  p,
                  rw full (rw plain (rw better (rw miss' run))),
                  after_better i low count p d ds h (ground arith) (ground arith)
                      (choice low d.d_count count better) ends,
                )
            | inr worse ↦
                let (p, run, ends) = search-room ds (i + 1) low count (omega arith) none in
                (
                  p,
                  rw full (rw plain (rw worse (rw miss' run))),
                  after_worse i low count p d ds (ground arith) (ground arith) (ground arith) ends,
                )
          ]
        ]
  ]
