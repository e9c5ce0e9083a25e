-- ===== src/KList/Del.antt =====
-- The removing operations: `list_del` and `list_find_del`.
use rtc_driver.Base.{
  ℕ, zero, suc, ◌+◌, ◌-◌, ◌≤◌, ◌<◌, ◌≡◌, ◌≢◌, refl, Bool, true, false, none, some, [], ◌∷◌, arith,
  ◌==◌, length, if◌then◌else◌, ap, ◌∙◌, inl, inr, Bool-cases,
}
use rtc_driver.Base.Int.{pos}
use rtc_driver.Base.Run.{ok}
use rtc_driver.Errors.{e_nokobj}
use rtc_driver.KList.{
  node, Heap, Store, KList, klist, write, kfree, fail, unlink, del_loop, list_del, find_del_loop,
  list_find_del,
}
use rtc_driver.KList.Chain.{
  Cells, has, first, Chain, IsList, SameOutside, Chain-write, load-ok, not_null, ne_of_has,
  has-tail, inside, outside,
}
use rtc_driver.KList.Add.{set_next-ok}
use rtc_driver.KList.Find.{value_at, find}

unfoldable pub remove_at : Cells → ℕ → Cells
remove_at [] k = []
remove_at (x ∷ xs) zero = xs
remove_at (x ∷ xs) (suc k) = x ∷ remove_at xs k

unfoldable pub remove_first : (ℕ → Bool) → Cells → Cells
remove_first cmp [] = []
remove_first cmp ((a, v) ∷ xs) = if cmp v then xs else (a, v) ∷ remove_first cmp xs

-- Whether some value is accepted.
unfoldable pub any : (ℕ → Bool) → Cells → Bool
any cmp [] = false
any cmp ((a, v) ∷ xs) = if cmp v then true else any cmp xs

-- The nodes that are no longer in the list are no longer in the heap.
abbrev pub Freed : Cells → Cells → Heap → Type 0
Freed xs ys h = (b : ℕ) → has b xs ≡ true → has b ys ≡ false → h b ≡ none

has-remove_at : (b : ℕ) (xs : Cells) (k : ℕ) → has b xs ≡ false → has b (remove_at xs k) ≡ false
unfolding remove_at
has-remove_at b [] k o = refl
has-remove_at b ((a, v) ∷ xs) zero o = ground arith
has-remove_at b ((a, v) ∷ xs) (suc k) o = ground (arith, has-remove_at b xs k)

has-remove_first :
    (b : ℕ) (cmp : ℕ → Bool) (xs : Cells) → has b xs ≡ false → has b (remove_first cmp xs) ≡ false
unfolding remove_first
has-remove_first b cmp [] o = refl
has-remove_first b cmp ((a, v) ∷ xs) o = ground (arith, has-remove_first b cmp xs)

length-remove_at : (xs : Cells) (k : ℕ) → k < length xs → length (remove_at xs k) + 1 ≡ length xs
unfolding remove_at
length-remove_at [] k h = absurd (omega arith)
length-remove_at (x ∷ xs) zero h = omega arith
length-remove_at (x ∷ xs) (suc k) h = omega (arith, length-remove_at xs k)

-- The state with another heap.
abbrev pub with_cells : Store → Heap → Store
with_cells s h = record s { cells = h }

-- A removal behind the node `prev`: from the nodes `xs` to `ys`, with the value `v`.
record Unlinked (s : Store) (prev u : ℕ) (xs ys : Cells) (h : Heap) : Type 0 where
  chain : Chain h ((prev, u) ∷ ys)
  same : SameOutside ((prev, u) ∷ xs) s.cells h
  freed : Freed xs ys h

module _ (s : Store) (l : KList) where
  -- `unlink` behind a node.
  unlink_lem :
      (prev u a v : ℕ) (xs : Cells)
      → Chain s.cells ((prev, u) ∷ (a, v) ∷ xs)
      → (h : Heap) × (unlink l prev a s ≡ ok (v, klist l.head (l.count - 1)) (with_cells s h))
        × Unlinked s prev u ((a, v) ∷ xs) xs h
  unfolding unlink kfree write
  unlink_lem prev u a v xs c =
      let h = write (write s.cells prev (some (node u (first xs)))) a none in
      let back : (prev == 0) ≡ false = not_null prev c.0 in
      let apart : prev ≢ a = ne_of_has prev a v xs c.2 in
      (
        h,
        rw (load-ok s a c.3.0 c.3.1) (rw back (rw (set_next-ok s prev (first xs) c.0 c.1))),
        record {
          chain = (
            c.0,
            ground (arith, apart),
            has-tail prev a v xs c.2,
            Chain-write xs _ a none c.3.2
                (Chain-write xs s.cells prev _ (has-tail prev a v xs c.2) c.3.3),
          );
          same = λ b o. ground arith;
          freed = λ b i o. ground arith;
        },
      )

  -- `unlink` at the head.
  unlink_head :
      (a v : ℕ) (xs : Cells)
      → Chain s.cells ((a, v) ∷ xs)
      → (unlink l 0 a s
          ≡ ok (v, klist (first xs) (l.count - 1)) (with_cells s (write s.cells a none)))
        × Chain (write s.cells a none) xs
  unfolding unlink kfree write
  unlink_head a v xs c = (rw (load-ok s a c.0 c.1), Chain-write xs s.cells a none c.2 c.3)

  step_Unlinked :
      (prev u a v : ℕ) (xs ys : Cells) (h : Heap)
      → Chain s.cells ((prev, u) ∷ (a, v) ∷ xs)
      → ((b : ℕ) → has b xs ≡ false → has b ys ≡ false)
      → Unlinked s a v xs ys h
      → Unlinked s prev u ((a, v) ∷ xs) ((a, v) ∷ ys) h
  step_Unlinked prev u a v xs ys h c fewer r = record {
    chain = (c.0, r.same prev c.2 ∙ c.1, ground (arith, c.2, fewer prev), r.chain);
    same = λ b o. r.same b (ground arith);
    freed = λ b i o. r.freed b (ground arith) (ground arith);
  }

  del_loop_lem :
      (xs : Cells) (k prev u : ℕ)
      → Chain s.cells ((prev, u) ∷ xs)
      → k < length xs
      → (h : Heap) × (del_loop l k prev (first xs) s
          ≡ ok (value_at xs k, klist l.head (l.count - 1)) (with_cells s h))
        × Unlinked s prev u xs (remove_at xs k) h
  unfolding del_loop value_at remove_at
  del_loop_lem [] k prev u c h = absurd (omega arith)
  del_loop_lem ((a, v) ∷ xs) zero prev u c h = unlink_lem prev u a v xs c
  del_loop_lem ((a, v) ∷ xs) (suc k) prev u c h =
      let (g, e, r) = del_loop_lem xs k a v c.3 (omega arith) in
      (
        g,
        rw (load-ok s a c.3.0 c.3.1) e,
        step_Unlinked prev u a v xs (remove_at xs k) g c (λ b. has-remove_at b xs k) r,
      )

  find_del_loop_lem :
      (xs : Cells) (k : ℕ) (cmp : ℕ → Bool) (prev u : ℕ)
      → Chain s.cells ((prev, u) ∷ xs)
      → length xs < k
      → any cmp xs ≡ true
      → (h : Heap) × (find_del_loop k l cmp prev (first xs) s
          ≡ ok (find cmp xs, klist l.head (l.count - 1)) (with_cells s h))
        × Unlinked s prev u xs (remove_first cmp xs) h
  unfolding find_del_loop find remove_first any
  find_del_loop_lem xs zero cmp prev u c fuel hit = absurd (omega arith)
  find_del_loop_lem [] (suc k) cmp prev u c fuel hit = cc
  find_del_loop_lem ((a, v) ∷ xs) (suc k) cmp prev u c fuel hit =
      let more : (a == 0) ≡ false = not_null a c.3.0 in
      elim (Bool-cases (cmp v)) [
        | inl yes_v ↦
            let (h, e, r) = unlink_lem prev u a v xs c in
            (h, rw more (rw (load-ok s a c.3.0 c.3.1) (rw yes_v e)), rw yes_v r)
        | inr no_v ↦
            let (h, e, r) = find_del_loop_lem xs k cmp a v c.3 (omega arith) (rw no_v at hit) in
            (
              h,
              rw more (rw (load-ok s a c.3.0 c.3.1) (rw no_v e)),
              rw no_v (
                  step_Unlinked prev u a v xs (remove_first cmp xs) h c
                    (λ b. has-remove_first b cmp xs) r),
            )
      ]

  find_del_loop-miss :
      (xs : Cells) (k : ℕ) (cmp : ℕ → Bool) (prev : ℕ)
      → Chain s.cells xs
      → length xs < k
      → any cmp xs ≡ false
      → find_del_loop k l cmp prev (first xs) s ≡ fail e_nokobj (0, l) s
  unfolding find_del_loop any
  find_del_loop-miss xs zero cmp prev c fuel miss = absurd (omega arith)
  find_del_loop-miss [] (suc k) cmp prev c fuel miss = refl
  find_del_loop-miss ((a, v) ∷ xs) (suc k) cmp prev c fuel miss =
      let more : (a == 0) ≡ false = not_null a c.0 in
      let no_v : cmp v ≡ false = ground (arith, miss) in
      rw more (
        rw (load-ok s a c.0 c.1)
          (rw no_v (find_del_loop-miss xs k cmp a c.3 (omega arith) (rw no_v at miss))))

head_outside : (h : Heap) (a v : ℕ) (xs : Cells) → SameOutside ((a, v) ∷ xs) h (write h a none)
unfolding write
head_outside h a v xs b o = ground arith

head-Freed : (h : Heap) (a v : ℕ) (xs : Cells) → Freed ((a, v) ∷ xs) xs (write h a none)
unfolding write
head-Freed h a v xs b i o = ground arith

behind-Freed :
    (a v : ℕ) (xs ys : Cells) (h : Heap) → Freed xs ys h → Freed ((a, v) ∷ xs) ((a, v) ∷ ys) h
behind-Freed a v xs ys h freed b i o = freed b (ground arith) (ground arith)

-- What a removal promises: the value, a list of the nodes `ys`, the removed node given back to the
-- allocator, and no other address written.
abbrev pub Removed : Store → Cells → Cells → KList → Heap → Type 0
Removed s xs ys l h = IsList h l ys × SameOutside xs s.cells h × Freed xs ys h

-- On a well-formed list and at an index inside it, `list_del` returns the value there and takes
-- exactly that node out, which goes back to the allocator; no address outside the list is
-- written.
pub list_del_lem :
    (s : Store) (l : KList) (xs : Cells) (i : ℕ)
    → IsList s.cells l xs
    → i < length xs
    → (l' : KList) × (h : Heap) × (list_del l (pos i) s ≡ ok (value_at xs i, l') (with_cells s h))
      × Removed s xs (remove_at xs i) l' h
unfolding list_del del_loop value_at remove_at
list_del_lem s l [] i is h = absurd (omega arith)
list_del_lem s l ((a, v) ∷ xs) zero is h =
    let (e, c) = unlink_head s l a v xs is.chain in
    (
      klist (first xs) (l.count - 1),
      write s.cells a none,
      rw (inside l.count 0 _ is.count h) (ap (λ p. unlink l 0 p s) is.head ∙ e),
      (
        record { head = refl; count = omega (arith, is.count); chain = c },
        head_outside s.cells a v xs,
        head-Freed s.cells a v xs,
      ),
    )
list_del_lem s l ((a, v) ∷ xs) (suc i) is h =
    let (g, e, r) = del_loop_lem s l xs i a v is.chain (omega arith) in
    (
      klist l.head (l.count - 1),
      g,
      rw (inside l.count (suc i) _ is.count h)
          (ap (λ p. del_loop l (suc i) 0 p s) is.head ∙ rw (load-ok s a is.chain.0 is.chain.1) e),
      (
        record {
          head = is.head;
          count = omega (arith, is.count, length-remove_at xs i);
          chain = r.chain;
        },
        r.same,
        behind-Freed a v xs (remove_at xs i) g r.freed,
      ),
    )

-- `list_del` past the end is an error and changes nothing but the error number.
pub list_del-past :
    (s : Store) (l : KList) (xs : Cells) (i : ℕ)
    → IsList s.cells l xs
    → length xs ≤ i
    → list_del l (pos i) s ≡ fail e_nokobj (0, l) s
unfolding list_del
list_del-past s l xs i is h = rw (outside l.count i _ is.count h)

length-remove_first :
    (cmp : ℕ → Bool) (xs : Cells) → any cmp xs ≡ true → length (remove_first cmp xs) + 1 ≡ length xs
unfolding remove_first any
length-remove_first cmp [] h = cc
length-remove_first cmp ((a, v) ∷ xs) h = ground (arith, length-remove_first cmp xs)

abbrev pub FindDeleted : Store → KList → Cells → ℕ → (ℕ → Bool) → Type 0
FindDeleted s l xs fuel cmp =
    (l' : KList) × (h : Heap) × (list_find_del fuel l cmp s ≡ ok (find cmp xs, l') (with_cells s h))
    × Removed s xs (remove_first cmp xs) l' h

-- On a well-formed list in which the comparison accepts a value, with fuel above the number of
-- nodes, `list_find_del` returns the first such value and takes exactly its node out, which goes
-- back to the allocator; no address outside the list is written.
pub list_find_del_lem :
    (s : Store) (l : KList) (xs : Cells) (fuel : ℕ) (cmp : ℕ → Bool)
    → IsList s.cells l xs
    → length xs < fuel
    → any cmp xs ≡ true
    → FindDeleted s l xs fuel cmp
unfolding list_find_del find_del_loop any find remove_first
list_find_del_lem s l xs zero cmp is h hit = absurd (omega arith)
list_find_del_lem s l [] (suc k) cmp is h hit = cc
list_find_del_lem s l ((a, v) ∷ xs) (suc k) cmp is h hit = elim (Bool-cases (cmp v)) [
  | inl yes_v ↦
      let (e, c) = unlink_head s l a v xs is.chain in
      (
        klist (first xs) (l.count - 1),
        write s.cells a none,
        ap (λ p. find_del_loop (suc k) l cmp 0 p s) is.head
            ∙ rw (not_null a is.chain.0) (rw (load-ok s a is.chain.0 is.chain.1) (rw yes_v e)),
        rw yes_v (
          record { head = refl; count = omega (arith, is.count); chain = c },
          head_outside s.cells a v xs,
          head-Freed s.cells a v xs,
        ),
      )
  | inr no_v ↦
      let rest : any cmp xs ≡ true = rw no_v at hit in
      let (g, e, r) = find_del_loop_lem s l xs k cmp a v is.chain (omega arith) rest in
      (
        klist l.head (l.count - 1),
        g,
        ap (λ p. find_del_loop (suc k) l cmp 0 p s) is.head
            ∙ rw (not_null a is.chain.0) (rw (load-ok s a is.chain.0 is.chain.1) (rw no_v e)),
        rw no_v (
          record {
            head = is.head;
            count = omega (arith, is.count, length-remove_first cmp xs rest);
            chain = r.chain;
          },
          r.same,
          behind-Freed a v xs (remove_first cmp xs) g r.freed,
        ),
      )
]

-- On a well-formed list of which the comparison accepts no value, with fuel above the number of
-- nodes, `list_find_del` does what its error branch does, with E_NOKOBJ, NULL and the list as it
-- was.
pub list_find_del-none :
    (s : Store) (l : KList) (xs : Cells) (fuel : ℕ) (cmp : ℕ → Bool)
    → IsList s.cells l xs
    → length xs < fuel
    → any cmp xs ≡ false
    → list_find_del fuel l cmp s ≡ fail e_nokobj (0, l) s
unfolding list_find_del
list_find_del-none s l xs fuel cmp is h miss =
    ap (λ p. find_del_loop fuel l cmp 0 p s) is.head
    ∙ find_del_loop-miss s l xs fuel cmp 0 is.chain h miss
