-- ===== src/Vfs/Bytes.antt =====
-- What is written through an open file of the memory file system is read back, and what its size
-- is for vfs_lseek.
use rtc_driver.Base.{
  ℕ, ◌+◌, ◌%◌, ◌^◌, ◌≤◌, ◌<◌, ◌≡◌, ◌⊎◌, inl, inr, refl, sym, ap, ◌∙◌, false, List, arith,
}
use mathlib.Core.Path.{subst}
use rtc_driver.Base.Int.{ℤ}
use rtc_driver.Base.Run.{ok, Cmd, and_then}
use rtc_driver.Devices.{FileOperations}
use rtc_driver.Files.{Files, File, Vnode, update}
use rtc_driver.Files.Fn
use rtc_driver.Files.Update.{update_self}
use rtc_driver.Memfs.Data.{signed, set_pos, memfs_file_read}
use rtc_driver.Memfs.Content.{IsDisjoint}
use rtc_driver.Memfs.Write.{
  byte_at, node, off, size, bytes, HasRoom, IsWritten, memfs_file_write_lem,
}
use rtc_driver.Memfs.Read.{memfs_file_read_lem}
use rtc_driver.Vfs.Open.{flag_read, flag_write, lacks, vfs_write, vfs_read, vfs_lseek}

same_state : {A : Type 0} {a b : A} {s t : Files} → ok a s ≡ ok b t → s ≡ t
same_state e = cc

same_value : {A : Type 0} {a b : A} {s t : Files} → ok a s ≡ ok b t → a ≡ b
same_value e = cc

module _ (other : ℕ → List ℕ → Cmd Files ℤ)
    (set_char : ℕ → FileOperations → Cmd Files (ℤ × FileOperations)) (x : Files) (p : ℕ) where
  vfs_read-memfs :
      (to count : ℕ)
      → lacks (x.files p).f_flags flag_read ≡ false
      → (x.files p).f_ops.read ≡ Fn.read
      → vfs_read other set_char p to count x ≡ memfs_file_read p to count x
  unfolding vfs_read
  vfs_read-memfs to count may fn = ground (arith, may, fn)

  vfs_lseek-own :
      (call : ℕ → List ℕ → Cmd Files ℕ) (off whence to : ℕ)
      → (x.files p).f_ops.lseek ≡ 0
      → (whence ≡ 0) × (to ≡ off)
        ⊎ (whence ≡ 2) × (to ≡ ((x.vnodes (x.files p).f_vnode).v_size + off) % 2 ^ 32)
      → vfs_lseek other set_char call p off whence x ≡ ok to (set_pos p to x)
  unfolding vfs_lseek
  vfs_lseek-own call off whence to none (inl h) = ground arith
  vfs_lseek-own call off whence to none (inr h) = ground arith

module _ (other : ℕ → List ℕ → Cmd Files ℤ)
    (set_char : ℕ → FileOperations → Cmd Files (ℤ × FileOperations))
    (call : ℕ → List ℕ → Cmd Files ℕ) (s : Files) (p buf count : ℕ)
    (readable : lacks (s.files p).f_flags flag_read ≡ false)
    (writable : lacks (s.files p).f_flags flag_write ≡ false)
    (reads : (s.files p).f_ops.read ≡ Fn.read) (writes : (s.files p).f_ops.write ≡ Fn.write)
    (seeks : (s.files p).f_ops.lseek ≡ 0) (some_bytes : 0 < count)
    (narrow : off s p buf count + count < 2 ^ 32) (room : HasRoom s p buf count) where
  written :
      (s' : Files) × (vfs_write other set_char p buf count s ≡ ok (signed count) s')
      × IsWritten s s' (node s p buf count) buf (off s p buf count) count
      × (s'.files ≡ update s.files p (record (s.files p) { f_pos = off s p buf count + count }))
      × (s'.vnodes ≡ s.vnodes)
  unfolding vfs_write
  written =
      let (s', run, is, fs, vs, _) = memfs_file_write_lem s p buf count narrow room in
      (s', rw writable (rw writes run), is, fs, vs)

  -- The file and the node behind it, when the offset has been set back.
  file_again :
      (s' : Files)
      → s'.files ≡ update s.files p (record (s.files p) { f_pos = off s p buf count + count })
      → (set_pos p (off s p buf count) s').files p ≡ s.files p
  unfolding set_pos
  file_again s' fs =
      let v : File = record (s'.files p) { f_pos = off s p buf count } in
      let e : s'.files p ≡ record (s.files p) { f_pos = off s p buf count + count } =
        ap (λ (f : ℕ → File). f p) fs ∙ update_self s.files p _ in
      update_self s'.files p v ∙ ap (λ (f : File). record f { f_pos = off s p buf count }) e

  -- Reading in a state where the file and the node behind it are as before the write.
  read_again :
      (x : Files) (to : ℕ)
      → x.files p ≡ s.files p
      → x.vnodes ≡ s.vnodes
      → off s p buf count + count ≤ (x.mem_nodes (node s p buf count)).size
      → ((i : ℕ)
          → i < count
          → byte_at x (node s p buf count) (off s p buf count + i) ≡ s.mem (buf + i))
      → IsDisjoint to count ((x.mem_nodes (node s p buf count)).bytes + off s p buf count) count
      → (t : Files) × (vfs_read other set_char p to count x ≡ ok (signed count) t)
        × ((i : ℕ) → i < count → t.mem (to + i) ≡ s.mem (buf + i))
  read_again x to fs vs long new apart =
      let o : off x p to count ≡ off s p buf count = ap (λ (f : File). f.f_pos) fs in
      let n : node x p to count ≡ node s p buf count =
        ap (λ (f : File). (x.vnodes f.f_vnode).private_node) fs
        ∙ ap (λ (v : ℕ → Vnode). (v (s.files p).f_vnode).private_node) vs in
      let z : size x p to count ≡ (x.mem_nodes (node s p buf count)).size =
        ap (λ q. (x.mem_nodes q).size) n in
      let b : bytes x p to count ≡ (x.mem_nodes (node s p buf count)).bytes =
        ap (λ q. (x.mem_nodes q).bytes) n in
      let (t, run, is, _, _, _) =
        memfs_file_read_lem x p to count count (omega arith) (omega arith) (omega arith) (
          subst (λ a. IsDisjoint to count a count)
            (sym (
              ap (λ c. c + off x p to count) b
              ∙ ap (λ c. (x.mem_nodes (node s p buf count)).bytes + c) o))
            apart) in
      let may : lacks (x.files p).f_flags flag_read ≡ false =
        ap (λ (f : File). lacks f.f_flags flag_read) fs ∙ readable in
      let fn : (x.files p).f_ops.read ≡ Fn.read = ap (λ (f : File). f.f_ops.read) fs ∙ reads in
      (
        t,
        vfs_read-memfs other set_char x p to count may fn ∙ run,
        λ i lt. is.new i lt ∙ (ap x.mem (omega (arith, o, b)) ∙ new i lt),
      )

  -- For a file of the memory file system that is open for reading and writing, a write of at least
  -- one byte whose end is below 2^32, where the file is long enough or kalloc gives a block for it,
  -- and the buffer is apart from the file's block, and a new block from the old one: what the write
  -- has put into the file is read back. With the offset set back to where the write began, reading
  -- as many bytes into a buffer apart from them gives the count, and the buffer has the bytes that
  -- were written.
  pub vfs_read-vfs_write :
      (s' : Files) (r : ℤ) (to : ℕ)
      → vfs_write other set_char p buf count s ≡ ok r s'
      → IsDisjoint to count ((s'.mem_nodes (node s p buf count)).bytes + off s p buf count) count
      → (t : Files) × (r ≡ signed count)
        × (and_then
              (vfs_lseek other set_char call p (off s p buf count) 0 s')
              (λ _. vfs_read other set_char p to count)
            ≡ ok (signed count) t)
        × ((i : ℕ) → i < count → t.mem (to + i) ≡ s.mem (buf + i))
  unfolding set_pos
  vfs_read-vfs_write s' r to run apart =
      let (s1, run1, is1, fs1, vs1) = written in
      let e : s1 ≡ s' = same_state (sym run1 ∙ run) in
      let is : IsWritten s s' (node s p buf count) buf (off s p buf count) count =
        subst (λ x. IsWritten s x (node s p buf count) buf (off s p buf count) count) e is1 in
      let fs : s'.files
          ≡ update s.files p (record (s.files p) { f_pos = off s p buf count + count }) =
        sym (ap (λ (x : Files). x.files) e) ∙ fs1 in
      let vs : s'.vnodes ≡ s.vnodes = sym (ap (λ (x : Files). x.vnodes) e) ∙ vs1 in
      let at_end : off s p buf count + count ≤ (s'.mem_nodes (node s p buf count)).size =
        ground (arith, is.size) in
      let s2 = set_pos p (off s p buf count) s' in
      let f2 = file_again s' fs in
      let (t, got, same) = read_again s2 to f2 vs at_end is.new apart in
      let no_seek : (s'.files p).f_ops.lseek ≡ 0 =
        ap (λ (f : ℕ → File). (f p).f_ops.lseek) fs
        ∙ (ap (λ (f : File). f.f_ops.lseek) (update_self s.files p _) ∙ seeks) in
      (
        t,
        same_value (sym run ∙ run1),
        ap (λ z. and_then z (λ _. vfs_read other set_char p to count))
              (vfs_lseek-own other set_char s' p call (off s p buf count) 0 (off s p buf count)
                no_seek (inl (refl, refl)))
            ∙ got,
        same,
      )

  -- Under the same conditions on the file, the write and its memory, and where v_size is the size
  -- that the file had before: vfs_lseek to the end takes v_size, which no write changes, so that
  -- after a write that made the file longer an offset of 0 from the end leads to the old end, with
  -- bytes of the file behind it.
  pub vfs_lseek-stale :
      (s' : Files) (r : ℤ)
      → vfs_write other set_char p buf count s ≡ ok r s'
      → (s.vnodes (s.files p).f_vnode).v_size ≡ size s p buf count
      → size s p buf count < off s p buf count + count
      → (t : Files) × (vfs_lseek other set_char call p 0 2 s' ≡ ok (size s p buf count) t)
        × ((t.files p).f_pos ≡ size s p buf count)
        × (size s p buf count < (t.mem_nodes (node s p buf count)).size)
  unfolding set_pos
  vfs_lseek-stale s' r run read longer =
      let (s1, run1, is1, fs1, vs1) = written in
      let e : s1 ≡ s' = same_state (sym run1 ∙ run) in
      let same_node : (s'.files p).f_vnode ≡ (s.files p).f_vnode =
        sym (ap (λ (x : Files). (x.files p).f_vnode) e)
        ∙ (ap (λ (f : ℕ → File). (f p).f_vnode) fs1
            ∙ ap (λ (f : File). f.f_vnode) (update_self s.files p _)) in
      let no_seek : (s'.files p).f_ops.lseek ≡ 0 =
        sym (ap (λ (x : Files). (x.files p).f_ops.lseek) e)
        ∙ (ap (λ (f : ℕ → File). (f p).f_ops.lseek) fs1
            ∙ (ap (λ (f : File). f.f_ops.lseek) (update_self s.files p _) ∙ seeks)) in
      let z : (s'.vnodes (s'.files p).f_vnode).v_size ≡ size s p buf count =
        ap (λ q. (s'.vnodes q).v_size) same_node
        ∙ (sym (ap (λ (x : Files). (x.vnodes (s.files p).f_vnode).v_size) e)
            ∙ (ap (λ (v : ℕ → Vnode). (v (s.files p).f_vnode).v_size) vs1 ∙ read)) in
      let to : ((s'.vnodes (s'.files p).f_vnode).v_size + 0) % 2 ^ 32 ≡ size s p buf count =
        omega (arith, z) in
      let grew : size s p buf count < (s'.mem_nodes (node s p buf count)).size =
        subst (λ (x : Files). size s p buf count < (x.mem_nodes (node s p buf count)).size) e
          (ground (arith, is1.size)) in
      let v : File = record (s'.files p) { f_pos = size s p buf count } in
      (
        set_pos p (size s p buf count) s',
        vfs_lseek-own other set_char s' p call 0 2 (size s p buf count) no_seek
            (inr (refl, sym to)),
        ap (λ (f : File). f.f_pos) (update_self s'.files p v),
        grew,
      )
