-- ===== src/Memfs/Write.antt =====
-- What writing to an open file of the memory file system does to its bytes.
use rtc_driver.Base.{
  ℕ, ◌+◌, ◌%◌, ◌^◌, ◌≤◌, ◌<◌, ◌≡◌, ◌≢◌, ◌⊎◌, inl, inr, refl, ap, ◌∙◌, true, false, List, ◌∷◌, arith,
  ltb, leb, ◌==◌, if◌then◌else◌,
}
use rtc_driver.Base.Int.{minus_one}
use rtc_driver.Base.Run.{ok}
use rtc_driver.Strings.{memcpy}
use rtc_driver.Strings.Blocks.{within}
use rtc_driver.Devices.{take_out}
use rtc_driver.Files.{Files, MemNode, update, kalloc, kfree}
use rtc_driver.Files.Update.{update_self, update-ne}
use rtc_driver.Errors.{e_nospace}
use rtc_driver.Files.Fail.{IsCalm, with_errno, fail-ok}
use rtc_driver.Memfs.Data.{signed, node_at, set_pos, grow, memfs_file_write}
use rtc_driver.Memfs.Content.{
  IsDisjoint, not_within, grown_mem, grown-old, grown-hole, grown-outside, copy-new, copy-old,
  beside, inner,
}

-- The bytes of the file behind a node.
abbrev pub byte_at : Files → ℕ → ℕ → ℕ
byte_at s node i = s.mem ((s.mem_nodes node).bytes + i)

-- The file holds `count` bytes from `buf` at `off`, its other bytes, and nulls in between; nothing
-- outside its block has changed, nor any other node.
pub record IsWritten (s s' : Files) (node buf off count : ℕ) : Type 0 where
  pub size :
      (s'.mem_nodes node).size
      ≡ (if ltb (s.mem_nodes node).size (off + count) then off + count else (s.mem_nodes node).size)
  pub new : (i : ℕ) → i < count → byte_at s' node (off + i) ≡ s.mem (buf + i)
  pub old :
      (i : ℕ)
      → i < (s.mem_nodes node).size
      → (i < off) ⊎ (off + count ≤ i)
      → byte_at s' node i ≡ byte_at s node i
  pub hole : (i : ℕ) → (s.mem_nodes node).size ≤ i → i < off → byte_at s' node i ≡ 0
  pub outside :
      (a : ℕ)
      → within (s'.mem_nodes node).bytes (s'.mem_nodes node).size a ≡ false
      → s'.mem a ≡ s.mem a
  pub other : (q : ℕ) → q ≢ node → s'.mem_nodes q ≡ s.mem_nodes q

module _ (s : Files) (file buf count : ℕ) where
  abbrev pub node : ℕ
  node = node_at file s

  abbrev pub off : ℕ
  off = (s.files file).f_pos

  abbrev pub size : ℕ
  size = (s.mem_nodes node).size

  abbrev pub bytes : ℕ
  bytes = (s.mem_nodes node).bytes

  -- The file is long enough; or kalloc gives a block for it that is apart from its bytes and from
  -- the buffer.
  abbrev pub HasRoom : Type 0
  HasRoom =
      ((off + count ≤ size) × IsDisjoint (bytes + off) count buf count)
      ⊎ ((size < off + count)
          × (p : ℕ) × (ps : List ℕ) × (s.answers ≡ p ∷ ps)
          × (p ≢ 0)
          × IsDisjoint p (off + count) bytes size
          × IsDisjoint p (off + count) buf count)

  -- The state after the last copy.
  abbrev copied_to : Files → ℕ → Files
  copied_to t dst = set_pos file (off + count) (record t { mem = memcpy dst buf count t.mem })

  abbrev grown : ℕ → List ℕ → Files
  grown p ps = record s {
    answers = ps;
    live = take_out bytes (p ∷ s.live);
    mem = grown_mem p (off + count) bytes size s.mem;
    mem_nodes =
        update s.mem_nodes node (record (s.mem_nodes node) { bytes = p; size = off + count });
  }

  module _ (narrow : off + count < 2 ^ 32) where
    run_fits :
        off + count ≤ size
        → memfs_file_write file buf count s ≡ ok (signed count) (copied_to s (bytes + off))
    unfolding memfs_file_write
    run_fits le =
        let low : leb (2 ^ 32) (off + count) ≡ false = ground arith in
        let e : (off + count) % 2 ^ 32 ≡ off + count = omega arith in
        let f : ltb size (off + count) ≡ false = ground arith in rw e (rw f (rw low refl))

    fits_IsWritten :
        (le : off + count ≤ size)
        → IsDisjoint (bytes + off) count buf count
        → IsWritten s (copied_to s (bytes + off)) node buf off count
    unfolding set_pos
    fits_IsWritten le apart = record {
      size = ground arith;
      new = λ i lt.
          ap (memcpy (bytes + off) buf count s.mem) (omega arith)
          ∙ copy-new (bytes + off) buf count i s.mem apart lt;
      old = λ i lt out.
          copy-old (bytes + off) buf count (bytes + i) s.mem apart (beside bytes off count i out);
      hole = λ i le' lt. absurd (omega arith);
      outside = λ a out. copy-old (bytes + off) buf count a s.mem apart (ground arith);
      other = λ q ne. refl;
    }

    run_grows :
        (p : ℕ) (ps : List ℕ)
        → size < off + count
        → s.answers ≡ p ∷ ps
        → p ≢ 0
        → memfs_file_write file buf count s ≡ ok (signed count) (copied_to (grown p ps) (p + off))
    unfolding memfs_file_write grow kalloc kfree update set_pos
    run_grows p ps lt given ne =
        let e : (off + count) % 2 ^ 32 ≡ off + count = omega arith in
        let f : ltb size (off + count) ≡ true = ground arith in
        let g : (p == 0) ≡ false = ground arith in
        let low : leb (2 ^ 32) (off + count) ≡ false = ground arith in
        rw e (rw f (rw given (rw g (rw low (rw (update_self s.mem_nodes node _) refl)))))

    grows_IsWritten :
        (p : ℕ) (ps : List ℕ)
        → size < off + count
        → IsDisjoint p (off + count) bytes size
        → IsDisjoint p (off + count) buf count
        → IsWritten s (copied_to (grown p ps) (p + off)) node buf off count
    unfolding set_pos
    grows_IsWritten p ps lt from_old from_buf =
        let m = grown_mem p (off + count) bytes size s.mem in
        let n' : MemNode = record (s.mem_nodes node) { bytes = p; size = off + count } in
        let there = update_self s.mem_nodes node n' in
        let apart : IsDisjoint (p + off) count buf count = inner p off count buf from_buf in
        let le : size ≤ off + count = omega arith in
        record {
          size = rw there ground arith;
          new = λ i lt'. rw there (
              ap (memcpy (p + off) buf count m) (omega arith)
              ∙ (copy-new (p + off) buf count i m apart lt'
                  ∙ grown-outside p (off + count) bytes size s.mem le from_old (buf + i)
                      (not_within p (off + count) buf count i from_buf lt')));
          old = λ i lt' out. rw there (
              copy-old (p + off) buf count (p + i) m apart (beside p off count i out)
              ∙ grown-old p (off + count) bytes size s.mem le from_old i lt');
          hole = λ i le' lt'. rw there (
              copy-old (p + off) buf count (p + i) m apart (beside p off count i (inl lt'))
              ∙ grown-hole p (off + count) bytes size s.mem le from_old i le' (omega arith));
          outside = λ a out.
              let out' : within p (off + count) a ≡ false = rw there at out in
              copy-old (p + off) buf count a m apart (ground arith)
              ∙ grown-outside p (off + count) bytes size s.mem le from_old a out';
          other = λ q ne. update-ne s.mem_nodes node n' q ne;
        }

    -- `memfs_file_write` to an end below 2^32, where the file is long enough, or kalloc gives a
    -- block for it, and the buffer is apart from the block: the status is the count, the offset is
    -- behind what was written, and the file holds the bytes of the buffer at the old offset, its
    -- other bytes as they were, and nulls from its old end to that offset; no other node and
    -- nothing outside the file's block has changed.
    pub memfs_file_write_lem :
        HasRoom
        → (s' : Files) × (memfs_file_write file buf count s ≡ ok (signed count) s')
          × IsWritten s s' node buf off count
          × (s'.files ≡ update s.files file (record (s.files file) { f_pos = off + count }))
          × (s'.vnodes ≡ s.vnodes)
          × (s'.errors ≡ s.errors)
    unfolding set_pos
    memfs_file_write_lem (inl (le, apart)) =
        (copied_to s (bytes + off), run_fits le, fits_IsWritten le apart, refl, refl, refl)
    memfs_file_write_lem (inr (lt, p, ps, given, ne, from_old, from_buf)) = (
      copied_to (grown p ps) (p + off),
      run_grows p ps lt given ne,
      grows_IsWritten p ps lt from_old from_buf,
      refl,
      refl,
      refl,
    )

    -- Where the file has to grow and kalloc has no memory: the status is -1, with E_NOSPACE, and
    -- nothing else has changed but that kalloc was asked.
    pub memfs_file_write-full :
        (ps : List ℕ)
        → size < off + count
        → s.answers ≡ 0 ∷ ps
        → IsCalm s
        → memfs_file_write file buf count s
          ≡ ok minus_one (with_errno e_nospace (record s { answers = ps }))
    unfolding memfs_file_write grow kalloc
    memfs_file_write-full ps lt given calm =
        let e : (off + count) % 2 ^ 32 ≡ off + count = omega arith in
        let f : ltb size (off + count) ≡ true = ground arith in
        rw e (rw f (rw given (fail-ok e_nospace minus_one (record s { answers = ps }) calm)))
