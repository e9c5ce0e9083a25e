-- ===== src/Kalloc/Cut.antt =====
-- Cutting a free block in two.
use rtc_driver.Base.{ℕ, ◌-◌, ◌<◌, ◌≡◌, ◌≢◌, ap, ◌∙◌, List, arith}
use rtc_driver.Kalloc.{
  Entry, Entries, entry, set_flags, set_prev, set_next, set_size, link_back, cut_at, block_free,
  block_used,
}
use rtc_driver.Kalloc.Blocks.{
  Block, link, Seg, put_self, put-ne, Seg-same, Seg-link_back, link_back-ne,
}

-- Three writes of members of the same entry.
module _ (p : ℕ) (m : Entries) where
  used_block : (n size : ℕ) → Entries
  used_block n size = set_flags p block_used (set_size p size (set_next p n m))

  used_block_self : (n size : ℕ) → used_block n size p ≡ entry n (m p).prev size block_used
  unfolding used_block
  used_block_self n size =
      let m1 = set_next p n m in
      let m2 = set_size p size m1 in
      put_self p _ m2
      ∙ ap (λ (e : Entry). record e { flags = block_used })
          (put_self p _ m1
            ∙ ap (λ (e : Entry). record e { size = size })
                (put_self p (record (m p) { next = n }) m))

  used_block-ne : (n size q : ℕ) → q ≢ p → used_block n size q ≡ m q
  unfolding used_block
  used_block-ne n size q ne =
      put-ne p q _ (set_size p size (set_next p n m)) ne
      ∙ put-ne p q _ (set_next p n m) ne
      ∙ put-ne p q _ m ne

  fresh_block : (next size : ℕ) → Entries
  fresh_block next size = set_next p next (set_size p size (set_flags p block_free m))

  fresh_block_self :
      (next size : ℕ) → fresh_block next size p ≡ entry next (m p).prev size block_free
  unfolding fresh_block
  fresh_block_self next size =
      let m1 = set_flags p block_free m in
      let m2 = set_size p size m1 in
      put_self p _ m2
      ∙ ap (λ (e : Entry). record e { next = next })
          (put_self p _ m1
            ∙ ap (λ (e : Entry). record e { size = size })
                (put_self p (record (m p) { flags = block_free }) m))

  fresh_block-ne : (next size q : ℕ) → q ≢ p → fresh_block next size q ≡ m q
  unfolding fresh_block
  fresh_block-ne next size q ne =
      put-ne p q _ (set_size p size (set_flags p block_free m)) ne
      ∙ put-ne p q _ (set_flags p block_free m) ne
      ∙ put-ne p q _ m ne

-- A block at `a` is cut at `n`, in front of blocks that start at `next`.
module _ (m : Entries) (a n units size prev next : ℕ) (xs : List Block)
    (here : m a ≡ entry (link next xs) prev size block_free) (order : a < n)
    (order' : n < next) where
  abbrev rest : ℕ
  rest = size - units - 1

  new_block : Entries
  new_block = fresh_block n m (link next xs) rest

  linked : Entries
  linked = link_back (link next xs) n new_block

  both : Entries
  both = set_prev n a linked

  first_writes :
      set_next n
        (set_size n ((m a).size - units - 1) (set_flags n block_free m) a).next
        (set_size n ((m a).size - units - 1) (set_flags n block_free m))
      ≡ new_block
  unfolding new_block fresh_block
  first_writes =
      let m0 = set_flags n block_free m in
      let apart : a ≢ n = λ e. omega arith in
      let same : set_size n ((m a).size - units - 1) m0 a ≡ m a =
        put-ne n a _ m0 apart ∙ put-ne n a _ m apart in
      ap (λ v. set_next n v (set_size n ((m a).size - units - 1) m0))
        (ap (λ (e : Entry). e.next) (same ∙ here))
      ∙ ap (λ v. set_next n (link next xs) (set_size n (v - units - 1) m0))
          (ap (λ (e : Entry). e.size) here)

  cut_at-is : cut_at n units a m ≡ used_block a both n units
  unfolding cut_at used_block both linked new_block fresh_block
  cut_at-is =
      ap (λ t. used_block a (set_prev n a (link_back (t n).next n t)) n units) first_writes
      ∙ ap (λ p. used_block a (set_prev n a (link_back p n new_block)) n units)
          (ap (λ (e : Entry). e.next) (fresh_block_self n m (link next xs) rest))

  both-low : (q : ℕ) → q < n → both q ≡ m q
  unfolding both linked new_block
  both-low q h =
      put-ne n q _ linked (λ e. omega arith)
      ∙ link_back-ne new_block n next q xs (omega arith)
      ∙ fresh_block-ne n m (link next xs) rest q (λ e. omega arith)

  both-new : both n ≡ entry (link next xs) a rest block_free
  unfolding both linked new_block
  both-new =
      put_self n _ linked
      ∙ ap (λ (e : Entry). record e { prev = a })
          (link_back-ne new_block n next n xs order' ∙ fresh_block_self n m (link next xs) rest)

  both-Seg : Seg m a next xs → Seg both n next xs
  unfolding both linked new_block
  both-Seg seg =
      Seg-same linked both n next xs (λ q h. put-ne n q _ linked (λ e. omega arith))
        (Seg-link_back new_block a n next xs (omega arith) (
          Seg-same m new_block a next xs
            (λ q h. fresh_block-ne n m (link next xs) rest q (λ e. omega arith)) seg))

  -- Cutting makes two blocks of one and changes no entry in front of it.
  pub cut_at_lem :
      Seg m a next xs
      → (cut_at n units a m a ≡ entry n prev units block_used)
        × (cut_at n units a m n ≡ entry (link next xs) a rest block_free)
        × Seg (cut_at n units a m) n next xs
        × ((q : ℕ) → q < a → cut_at n units a m q ≡ m q)
  cut_at_lem seg =
      let is : cut_at n units a m ≡ used_block a both n units = cut_at-is in
      rw is (
        used_block_self a both n units
            ∙ ap (λ (e : Entry). entry n e.prev units block_used) (both-low a order ∙ here),
        used_block-ne a both n units n (λ e. omega arith) ∙ both-new,
        Seg-same both (used_block a both n units) n next xs
            (λ q h. used_block-ne a both n units q (λ e. omega arith)) (both-Seg seg),
        λ q h. used_block-ne a both n units q (λ e. omega arith) ∙ both-low q (omega arith),
      )
