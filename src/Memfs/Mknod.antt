-- ===== src/Memfs/Mknod.antt =====
-- A node that is made in a directory of the memory file system is found there.
use rtc_driver.Base.{
  ℕ, suc, ◌+◌, ◌%◌, ◌^◌, ◌<◌, ◌≡◌, ◌≢◌, refl, sym, ap, ◌∙◌, Bool, true, false, List, [], ◌∷◌, ◌++◌,
  arith, ◌==◌, get_elem?, get_elem?-set_self, lt-length, length, some, Bool-cases, inl, inr,
}
use rtc_driver.Base.Int.{ℤ, pos}
use rtc_driver.Base.Run.{Run, ok, and_then}
use rtc_driver.Files.{
  Files, Name, Dentry, MemSuper, MemNode, MemDentry, list_find, update, same_name,
}
use rtc_driver.Files.Update.{update_self, update-ne}
use rtc_driver.Memfs.{
  node_of, has_name, has_ino, memfs_node_lookup, memfs_node_alloc, memfs_dentry_alloc,
  memfs_ino_mknod, memfs_ino_lookup, enter, entered, looked_up,
}
use rtc_driver.Memfs.Alloc.{with_node, with_dentry, memfs_node_alloc-ok, memfs_dentry_alloc-ok}

abbrev pub All : (ℕ → Type 0) → List ℕ → Type 0
All P [] = Unit
All P (x ∷ xs) = P x × All P xs

pub same_name_refl : (n : Name) → same_name n n ≡ true
unfolding same_name
same_name_refl [] = refl
same_name_refl (c ∷ cs) = ground (arith, same_name_refl cs)

-- A value at the end of a list is found if the comparison accepts none before it.
pub list_find-last :
    (cmp : ℕ → Bool) (v : ℕ) (xs : List ℕ)
    → All (λ x. cmp x ≡ false) xs
    → cmp v ≡ true
    → list_find cmp (xs ++ v ∷ []) ≡ v
unfolding list_find
list_find-last cmp v [] a h = rw h refl
list_find-last cmp v (x ∷ xs) (miss, a) h = rw miss (list_find-last cmp v xs a h)

pub All-both :
    (P Q R : ℕ → Type 0) (xs : List ℕ)
    → ((x : ℕ) → P x → Q x → R x)
    → All P xs
    → All Q xs
    → All R xs
All-both P Q R [] f a b = tt
All-both P Q R (x ∷ xs) f a b = (f x a.0 b.0, All-both P Q R xs f a.1 b.1)

All-append : (P : ℕ → Type 0) (v : ℕ) (xs : List ℕ) → All P xs → P v → All P (xs ++ v ∷ [])
All-append P v [] a h = (h, tt)
All-append P v (x ∷ xs) a h = (a.0, All-append P v xs a.1 h)

-- The numbers of the nodes of a file system are below the next one.
abbrev pub IsNumbered : Files → MemSuper → Type 0
IsNumbered s ms = All (λ x. (s.mem_nodes x).ino < ms.last_ino) ms.nodes

-- A change of a directory's entries changes no number.
ino_kept :
    (f : ℕ → MemNode) (y x : ℕ) (ds : List ℕ)
    → (update f y (record (f y) { dentries = ds }) x).ino ≡ (f x).ino
unfolding update
ino_kept f y x ds = elim (Bool-cases (x == y)) [
  | inl same ↦ rw same (ap (λ v. (f v).ino) (ground arith))
  | inr other ↦ rw other refl
]

-- kalloc has memory for the node, the entry, the name and two nodes of lists, and what it gives for
-- the node and the entry is not in use.
pub record IsFresh (s : Files) (mdir : ℕ) (p q d m r : ℕ) (more : List ℕ) : Type 0 where
  pub given : s.answers ≡ p ∷ q ∷ d ∷ m ∷ r ∷ more
  pub node : p ≢ 0
  pub node_cell : q ≢ 0
  pub entry : d ≢ 0
  pub name : m ≢ 0
  pub entry_cell : r ≢ 0
  pub new_node : p ≢ mdir
  pub new_entry : All (λ x. x ≢ d) (s.mem_nodes mdir).dentries

module _ (s : Files) (fuel dir mode devid j : ℕ) (dentry : Dentry) {ms : MemSuper} (p q d m r : ℕ)
    (more : List ℕ) (in_super : (s.mem_nodes (node_of dir s)).super ≡ suc j)
    (at : get_elem? s.memfs_supers j ≡ some ms) (fresh : IsFresh s (node_of dir s) p q d m r more)
    (short : length dentry.d_text < 5)
    (no_entry : All
      (λ x. has_name s dentry.d_text x ≡ false)
      (s.mem_nodes (node_of dir s)).dentries) where
  abbrev s1 : Files
  s1 = with_node s p q (d ∷ m ∷ r ∷ more) fresh.node fresh.node_cell j mode devid at

  abbrev s2 : Files
  s2 =
      with_dentry s1 d m r more fresh.entry fresh.name fresh.entry_cell (node_of dir s) ms.last_ino
        dentry.d_text short

  abbrev mdir : ℕ
  mdir = node_of dir s

  number : (s1.mem_nodes p).ino ≡ ms.last_ino
  number = ap (λ (n : MemNode). n.ino) (update_self _ p _)

  abbrev result : Run Files (ℤ × Dentry)
  result = ok (pos 0, record dentry { d_vno = ms.last_ino }) s2

  done : entered fuel dentry p d s2 ≡ result
  unfolding entered
  done =
      let d0 : (d == 0) ≡ false = ground (arith, fresh.entry) in
      let n : (s2.mem_nodes p).ino ≡ ms.last_ino =
        ap (λ (n : MemNode). n.ino) (update-ne s1.mem_nodes mdir _ p fresh.new_node) ∙ number in
      rw d0 (ap (λ i. ok (pos 0, record dentry { d_vno = i }) s2) n)

  made : memfs_ino_mknod fuel dir dentry mode devid s ≡ result
  unfolding memfs_ino_mknod enter
  made =
      let p0 : (p == 0) ≡ false = ground (arith, fresh.node) in
      ap (λ sp. and_then (memfs_node_alloc sp mode devid s) (enter fuel mdir dentry)) in_super
      ∙ (ap (λ x. and_then x (enter fuel mdir dentry))
            (memfs_node_alloc-ok s p q (d ∷ m ∷ r ∷ more) fresh.node fresh.node_cell j mode devid at
              fresh.given)
          ∙ rw p0 (
              ap
                (λ i. and_then (memfs_dentry_alloc mdir i dentry.d_text s1) (entered fuel dentry p))
                number
              ∙ (ap (λ x. and_then x (entered fuel dentry p))
                    (memfs_dentry_alloc-ok s1 d m r more fresh.entry fresh.name fresh.entry_cell
                      mdir ms.last_ino dentry.d_text short refl)
                  ∙ done)))

  -- The directory has the entry behind those that it had.
  entries : (s2.mem_nodes mdir).dentries ≡ (s.mem_nodes mdir).dentries ++ d ∷ []
  entries =
      let other : mdir ≢ p = λ e. fresh.new_node (sym e) in
      ap (λ (n : MemNode). n.dentries) (update_self s1.mem_nodes mdir _)
      ∙ ap (λ (n : MemNode). n.dentries ++ d ∷ [])
          (update-ne _ p _ mdir other ∙ update-ne s.mem_nodes p _ mdir other)

  searched : list_find (has_name s2 dentry.d_text) (s2.mem_nodes mdir).dentries ≡ d
  searched =
      let here = update_self s.mem_dentries d _ in
      ap (list_find (has_name s2 dentry.d_text)) entries
      ∙ list_find-last (has_name s2 dentry.d_text) d (s.mem_nodes mdir).dentries
          (All-both (λ x. has_name s dentry.d_text x ≡ false) (λ x. x ≢ d)
            (λ x. has_name s2 dentry.d_text x ≡ false) (s.mem_nodes mdir).dentries
            (λ x miss ne.
              ap (λ (e : MemDentry). same_name e.text dentry.d_text)
                (update-ne s.mem_dentries d _ x ne)
              ∙ miss)
            no_entry fresh.new_entry)
          (ap (λ (e : MemDentry). same_name e.text dentry.d_text) here
            ∙ same_name_refl dentry.d_text)

  -- For a name of at most four characters, in a directory of a file system of memfs_supers that has
  -- no entry of the name, where kalloc has memory and gives addresses that are not in use: making a
  -- node returns 0 and gives the entry the next number of the file system, and a lookup of the name
  -- in the directory then returns 0 and the same number, and changes nothing.
  pub memfs_ino_lookup-memfs_ino_mknod :
      (other : Dentry)
      → other.d_text ≡ dentry.d_text
      → (s' : Files) × (memfs_ino_mknod fuel dir dentry mode devid s
          ≡ ok (pos 0, record dentry { d_vno = ms.last_ino }) s')
        × (memfs_ino_lookup dir other s' ≡ ok (pos 0, record other { d_vno = ms.last_ino }) s')
  unfolding memfs_ino_lookup looked_up
  memfs_ino_lookup-memfs_ino_mknod other same =
      let d0 : (d == 0) ≡ false = ground (arith, fresh.entry) in
      (
        s2,
        made,
        ap (λ n. looked_up other (list_find (has_name s2 n) (s2.mem_nodes mdir).dentries) s2) same
            ∙ (ap (λ md. looked_up other md s2) searched
                ∙ rw d0 (
                    ap (λ (e : MemDentry). ok (pos 0, record other { d_vno = e.ino }) s2)
                      (update_self s.mem_dentries d _))),
      )

  ino_again : (x : ℕ) → x ≢ p → (s2.mem_nodes x).ino ≡ (s.mem_nodes x).ino
  ino_again x ne =
      ino_kept s1.mem_nodes mdir x _
      ∙ ap (λ (n : MemNode). n.ino) (update-ne _ p _ x ne ∙ update-ne s.mem_nodes p _ x ne)

  -- For a name of at most four characters, in a directory of a file system of memfs_supers that has
  -- no entry of the name, where kalloc has memory and gives addresses that are not in use, the nodes
  -- of the file system have numbers below the next one, and the next one is below 2^31 - 1: making a
  -- node returns 0, the file system then has the node under the number that was the next, with the
  -- mode and the device, and again all its nodes have numbers below the next one.
  pub memfs_ino_mknod_lem :
      IsNumbered s ms
      → ms.last_ino + 1 < 2 ^ 31
      → All (λ x. x ≢ p) ms.nodes
      → (s' : Files) × (ms' : MemSuper) × (memfs_ino_mknod fuel dir dentry mode devid s
          ≡ ok (pos 0, record dentry { d_vno = ms.last_ino }) s')
        × (get_elem? s'.memfs_supers j ≡ some ms')
        × (memfs_node_lookup ms' ms.last_ino s' ≡ p)
        × ((s'.mem_nodes p).mode ≡ mode)
        × ((s'.mem_nodes p).devid ≡ devid)
        × IsNumbered s' ms'
  unfolding memfs_node_lookup
  memfs_ino_mknod_lem below few apart =
      let wrapped : (ms.last_ino + 1) % 2 ^ 32 ≡ ms.last_ino + 1 = omega arith in
      let there = update-ne s1.mem_nodes mdir _ p fresh.new_node ∙ update_self _ p _ in
      let mine : (s2.mem_nodes p).ino ≡ ms.last_ino = ap (λ (n : MemNode). n.ino) there in
      let ms' = record ms { last_ino = (ms.last_ino + 1) % 2 ^ 32; nodes = ms.nodes ++ p ∷ [] } in
      (
        s2,
        ms',
        made,
        get_elem?-set_self s.memfs_supers j ms' (lt-length s.memfs_supers j at),
        list_find-last (has_ino s2 ms.last_ino) p ms.nodes
            (All-both (λ x. (s.mem_nodes x).ino < ms.last_ino) (λ x. x ≢ p)
              (λ x. has_ino s2 ms.last_ino x ≡ false) ms.nodes
              (λ x lt ne. ground (arith, ino_again x ne)) below apart)
            (ground (arith, mine)),
        ap (λ (n : MemNode). n.mode) there,
        ap (λ (n : MemNode). n.devid) there,
        All-append (λ x. (s2.mem_nodes x).ino < (ms.last_ino + 1) % 2 ^ 32) p ms.nodes
            (All-both (λ x. (s.mem_nodes x).ino < ms.last_ino) (λ x. x ≢ p)
              (λ x. (s2.mem_nodes x).ino < (ms.last_ino + 1) % 2 ^ 32) ms.nodes
              (λ x lt ne. omega (arith, ino_again x ne, wrapped)) below apart)
            (omega (arith, mine, wrapped)),
      )
