-- ===== src/KList/Add.antt =====
-- `list_add` puts the value at the end.
use rtc_driver.Base.{
  ℕ, zero, suc, ◌+◌, ◌≤◌, ◌<◌, ◌≡◌, ◌≢◌, refl, true, false, ◌||◌, some, [], ◌∷◌, ◌++◌, arith, ◌==◌,
  length, length-append, ◌∙◌, Option,
}
use rtc_driver.Base.Int.{pos}
use rtc_driver.Base.Run.{ok}
use rtc_driver.KList.{Node, node, Heap, Store, KList, klist, write, set_next, link, list_add}
use rtc_driver.KList.Chain.{Cells, has, Chain, IsList, SameOutside, Chain-write, load-ok}

pub set_next-ok :
    (s : Store) (p q : ℕ) {n : Node}
    → p ≢ 0
    → s.cells p ≡ some n
    → set_next p q s ≡ ok tt (record s { cells = write s.cells p (some (record n { next = q })) })
unfolding set_next
set_next-ok s p q ne e = rw (load-ok s p ne e)

has-append : (a : ℕ) (xs ys : Cells) → has a (xs ++ ys) ≡ (has a xs || has a ys)
has-append a [] ys = refl
has-append a ((b, v) ∷ xs) ys = ground (arith, has-append a xs ys)

outside :
    (b n v : ℕ) (xs : Cells) → has b (xs ++ (n, v) ∷ []) ≡ false → (has b xs ≡ false) × (b ≢ n)
outside b n v xs o = ground (arith, has-append b xs ((n, v) ∷ []))

write_ne : (h : Heap) (p b : ℕ) (c : Option Node) → b ≢ p → write h p c b ≡ h b
unfolding write
write_ne h p b c ne = ground arith

-- After the walk the last node points to `n`, and nothing else has changed.
link_lem :
    (s : Store) (k n v a u : ℕ) (xs : Cells)
    → Chain s.cells ((a, u) ∷ xs)
    → n ≢ 0
    → s.cells n ≡ some (node v 0)
    → has n ((a, u) ∷ xs) ≡ false
    → length xs < k
    → (h : Heap) × (link k a n s ≡ ok tt (record s { cells = h }))
      × Chain h ((a, u) ∷ xs ++ (n, v) ∷ [])
      × SameOutside ((a, u) ∷ xs) s.cells h
unfolding link write
link_lem s zero n v a u xs c ne e out fuel = absurd (omega arith)
link_lem s (suc k) n v a u [] c ne e out fuel = (
  write s.cells a (some (node u n)),
  rw (load-ok s a c.0 c.1) (set_next-ok s a n c.0 c.1),
  (c.0, ground arith, ground arith, (ne, ground arith, refl, tt)),
  λ b o. ground arith,
)
link_lem s (suc k) n v a u ((b, w) ∷ xs) c ne e out fuel =
    let (h, r, c', same) = link_lem s k n v b w xs c.3 ne e (ground arith) (omega arith) in
    let more : (b == 0) ≡ false = ground (arith, c.3.0) in
    (
      h,
      rw (load-ok s a c.0 c.1) (rw more r),
      (c.0, same a c.2 ∙ c.1, rw (has-append a ((b, w) ∷ xs) ((n, v) ∷ [])) (ground arith), c'),
      λ x o. same x (ground arith),
    )

-- What `list_add` promises, given an address that `kalloc` has not given out: it returns 0 and the
-- list has one more node, the last one, with the value; no other address is written.
abbrev pub Added : Store → KList → Cells → ℕ → ℕ → ℕ → Type 0
Added s l xs fuel fresh v =
    (l' : KList) × (h : Heap) × (list_add fuel fresh l v s
      ≡ ok (pos 0, l') (record s { cells = h }))
    × IsList h l' (xs ++ (fresh, v) ∷ [])
    × SameOutside (xs ++ (fresh, v) ∷ []) s.cells h

-- On a well-formed list, with an address from the allocator that is not NULL and not in the list,
-- and fuel for each node, `list_add` returns 0 and appends the value; no address outside the new
-- list is written.
pub list_add_lem :
    (s : Store) (l : KList) (xs : Cells) (fuel fresh v : ℕ)
    → IsList s.cells l xs
    → fresh ≢ 0
    → has fresh xs ≡ false
    → length xs ≤ fuel
    → Added s l xs fuel fresh v
unfolding list_add write
list_add_lem s l [] fuel fresh v is ne out room =
    let got : (fresh == 0) ≡ false = ground arith in
    let empty : (l.head == 0) ≡ true = ground (arith, is.head) in
    (
      klist fresh 1,
      write s.cells fresh (some (node v 0)),
      rw got (rw empty),
      record { head = refl; count = refl; chain = (ne, ground arith, refl, tt) },
      λ b o. ground arith,
    )
list_add_lem s l ((a, u) ∷ xs) fuel fresh v is ne out room =
    let got : (fresh == 0) ≡ false = ground arith in
    let full : (l.head == 0) ≡ false = ground (arith, is.head, is.chain) in
    let h0 = write s.cells fresh (some (node v 0)) in
    let (h, r, c, same) =
      link_lem (record s { cells = h0 }) fuel fresh v a u xs
        (Chain-write ((a, u) ∷ xs) s.cells fresh (some (node v 0)) out is.chain) ne (ground arith)
        out room in
    (
      klist a (l.count + 1),
      h,
      rw got (rw full (rw is.head (rw r))),
      record {
        head = refl;
        count = omega (arith, is.count, length-append xs ((fresh, v) ∷ []));
        chain = c;
      },
      λ b o.
          let (out', apart) = outside b fresh v ((a, u) ∷ xs) o in
          same b out' ∙ write_ne s.cells fresh b _ apart,
    )
