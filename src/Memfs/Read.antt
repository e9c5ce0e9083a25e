-- ===== src/Memfs/Read.antt =====
-- What reading an open file of the memory file system gives.
use rtc_driver.Base.{
  ℕ, ◌+◌, ◌-◌, ◌%◌, ◌^◌, ◌≤◌, ◌<◌, ◌≡◌, refl, ap, ◌∙◌, true, false, arith, leb, min,
}
use rtc_driver.Base.Int.{pos}
use rtc_driver.Base.Run.{ok}
use rtc_driver.Strings.{memcpy}
use rtc_driver.Strings.Blocks.{within}
use rtc_driver.Files.{Files, update}
use rtc_driver.Memfs.Data.{signed, set_pos, readable, memfs_file_read}
use rtc_driver.Memfs.Content.{IsDisjoint, copy-new, copy-old}
use rtc_driver.Memfs.Write.{byte_at, node, off, size, bytes}

-- The buffer holds `n` bytes of the file from `at` on; nothing else in memory has changed.
pub record IsRead (s s' : Files) (node buf at n : ℕ) : Type 0 where
  pub new : (i : ℕ) → i < n → s'.mem (buf + i) ≡ byte_at s node (at + i)
  pub outside : (a : ℕ) → within buf n a ≡ false → s'.mem a ≡ s.mem a

module _ (s : Files) (file buf count : ℕ) where
  abbrev read_to : ℕ → Files
  read_to n =
      set_pos file (off s file buf count + n)
        (record s { mem = memcpy buf (bytes s file buf count + off s file buf count) n s.mem })

  -- `memfs_file_read` from an offset inside the file, to an end below 2^32 and into a buffer apart
  -- from what is read: the status is the count or the number of bytes that the file has left,
  -- whichever is less, the buffer has these bytes and the offset is behind them.
  pub memfs_file_read_lem :
      (n : ℕ)
      → off s file buf count < size s file buf count
      → off s file buf count + count < 2 ^ 32
      → n ≡ min count (size s file buf count - off s file buf count)
      → IsDisjoint buf n (bytes s file buf count + off s file buf count) n
      → (s' : Files) × (memfs_file_read file buf count s ≡ ok (signed n) s')
        × IsRead s s' (node s file buf count) buf (off s file buf count) n
        × (s'.files
            ≡ update s.files file (record (s.files file) { f_pos = off s file buf count + n }))
        × (s'.vnodes ≡ s.vnodes)
        × (s'.mem_nodes ≡ s.mem_nodes)
  unfolding memfs_file_read readable set_pos
  memfs_file_read_lem n inside narrow left apart =
      let o = off s file buf count in
      let z = size s file buf count in
      let b = bytes s file buf count in
      let there : leb z o ≡ false = ground arith in
      let amount : readable z o count ≡ n = unfold readable in ground arith in
      let e : (o + n) % 2 ^ 32 ≡ o + n = omega arith in
      let low : leb (2 ^ 32) (o + n) ≡ false = ground arith in
      (
        read_to n,
        rw there (rw amount (rw low (rw e refl))),
        record {
          new = λ i lt. copy-new buf (b + o) n i s.mem apart lt ∙ ap s.mem (omega arith);
          outside = λ a out. copy-old buf (b + o) n a s.mem apart out;
        },
        refl,
        refl,
        refl,
      )

  -- At or behind the end of the file nothing is read, and nothing changes.
  pub memfs_file_read-end :
      size s file buf count ≤ off s file buf count → memfs_file_read file buf count s ≡ ok (pos 0) s
  unfolding memfs_file_read
  memfs_file_read-end le =
      let there : leb (size s file buf count) (off s file buf count) ≡ true = ground arith in
      rw there refl
