-- ===== src/Proc/Exec.antt =====
-- src/kernel/proc.c: proc_exec. `other`, `set_char` and `call` are calls that vfs.c makes of other
-- file systems and devices, `seek` of a file's own lseek, and `switch` is
-- proc_switch_to_lower_privilege_level, which is assembly.
use rtc_driver.Base.{
  ℕ, zero, suc, ◌+◌, ◌-◌, ◌*◌, ◌/◌, ◌%◌, ◌^◌, Bool, not, ◌||◌, List, ◌==◌, ltb, if◌then◌else◌,
  bit_or,
}
use rtc_driver.Base.Int.{ℤ, pos, negsuc, minus_one}
use rtc_driver.Base.Run.{Run, ok, fault, hang, panic, Cmd, pure, ◌>>=◌, ◌>>◌}
use rtc_driver.Strings.{Memory, memset}
use rtc_driver.Devices.{FileOperations, is_minus_one}
use rtc_driver.Frames.{Mem, frame_size, mem_allocate_frames, mem_release_frames}
use rtc_driver.Kalloc.{user_first_frame}
use rtc_driver.Gdt.{gdt_alloc, gdt_dealloc}
use rtc_driver.Files.{Files, Name}
use rtc_driver.Vfs.Create.{Stat, vfs_stat}
use rtc_driver.Vfs.Open.{flag_read, vfs_open, vfs_read, vfs_lseek, vfs_close}
use rtc_driver.Proc.{Kernel, Proc, proc_release_memory, proc_clear_regs}

abbrev pub header_size : ℕ
header_size = 32

abbrev pub rpl_user : ℕ
rpl_user = 3

-- The flags of the code and of the data segment, without those that are 0.
abbrev pub user_code_flags : ℕ
user_code_flags = bit_or 0x0080000000000000 (
    bit_or 0x0040000000000000 (
      bit_or 0x0000800000000000 (
        bit_or 0x0000600000000000
          (bit_or 0x0000100000000000 (bit_or 0x0000080000000000 0x0000020000000000)))))

abbrev pub user_data_flags : ℕ
user_data_flags = bit_or 0x0080000000000000 (
    bit_or 0x0040000000000000 (
      bit_or 0x0000800000000000
        (bit_or 0x0000600000000000 (bit_or 0x0000100000000000 0x0000020000000000))))

-- GDT_SEGMENT_SELECTOR
abbrev pub segment_selector : ℕ → ℕ → ℕ
segment_selector s rpl = bit_or (s % 2 ^ 16) (rpl % 2 ^ 16)

-- The word at an address, with the low byte first.
unfoldable pub word_at : ℕ → Memory → ℕ
word_at p mem = mem p + 2 ^ 8 * mem (p + 1) + 2 ^ 16 * mem (p + 2) + 2 ^ 24 * mem (p + 3)

-- An `int` as the pattern of its 32 bits.
unfoldable pub bits : ℤ → ℕ
bits (pos n) = n % 2 ^ 32
bits (negsuc n) = 2 ^ 32 - 1 - n % 2 ^ 32

-- `a < b` for two patterns of an `int`.
abbrev pub signed_below : ℕ → ℕ → Bool
signed_below a b = ltb ((a + 2 ^ 31) % 2 ^ 32) ((b + 2 ^ 31) % 2 ^ 32)

-- The frames for a number of bytes that is unsigned, and for one that is an `int`, whose quotient is
-- rounded to zero.
unfoldable pub frames_of : ℕ → ℕ
frames_of n = n / frame_size + (if n % frame_size == 0 then 0 else 1)

unfoldable pub frames_of_int : ℕ → ℕ
frames_of_int n =
    let q = if ltb n (2 ^ 31) then n / frame_size else 2 ^ 32 - (2 ^ 32 - n) / frame_size in
    (q + (if n % frame_size == 0 then 0 else 1)) % 2 ^ 32

-- The frames that the code takes, and those that the process takes, one of them
-- for its stack; the file's header is at `h`.
unfoldable pub code_frames : ℕ → Memory → ℕ
unfolding word_at frames_of
code_frames h m = frames_of ((header_size + word_at (h + 4) m) % 2 ^ 32)

unfoldable pub all_frames : ℕ → Memory → ℕ
unfolding word_at frames_of_int code_frames
all_frames h m =
    let held = frames_of_int ((word_at (h + 8) m + word_at (h + 12) m) % 2 ^ 32) in
    (code_frames h m + (held + 1) % 2 ^ 32) % 2 ^ 32

-- A run of vfs.c.
unfoldable pub ran : {A : Type 0} → Run Files A → Cmd Kernel A
ran (ok a s) k = ok a (record k { vfs = s })
ran fault k = fault
ran hang k = hang
ran panic k = panic

unfoldable pub on_files : {A : Type 0} → Cmd Files A → Cmd Kernel A
unfolding ran
on_files m k = ran (m k.vfs) k

-- What has been taken for the new process: its frames, and the selectors of its segments.
pub record Taken : Type 0 where
  pub base : ℕ
  pub total : ℕ
  pub code : ℕ
  pub data_segment : ℕ

module _ (other : ℕ → List ℕ → Cmd Files ℤ)
    (set_char : ℕ → FileOperations → Cmd Files (ℤ × FileOperations))
    (seek : ℕ → List ℕ → Cmd Files ℕ) (switch : Proc → Cmd Kernel (Unit {0})) (fuel : ℕ)
    (h : ℕ) where
  unfoldable pub close : ℕ → Cmd Kernel ℤ
  unfolding on_files vfs_close
  close f = on_files (vfs_close other set_char f)

  unfoldable pub free_frames : Taken → Cmd Kernel (Unit {0})
  unfolding mem_release_frames
  free_frames t k = ok tt (record k { frames = mem_release_frames t.base t.total k.frames })

  unfoldable pub free_segment : ℕ → Cmd Kernel (Unit {0})
  unfolding gdt_dealloc
  free_segment s k = ok tt (record k { gdt = gdt_dealloc s k.gdt })

  -- The end of proc_exec where the file can not be read.
  unfoldable pub give_back : ℕ → Taken → Cmd Kernel ℤ
  unfolding close free_segment free_frames
  give_back f t =
      close f
      >> (free_segment t.code >> (free_segment t.data_segment >> (free_frames t >> pure minus_one)))

  -- Reads up to `size` bytes to `to`, `br` of which have been read; `below` is the comparison of the
  -- loop. Whether all of them were read.
  unfoldable pub read_all : (ℕ → ℕ → Bool) → ℕ → ℕ → ℕ → ℕ → ℕ → Cmd Kernel Bool
  unfolding on_files vfs_read bits
  read_all below zero f to size br k = hang
  read_all below (suc n) f to size br k =
      (if below br size
          then (on_files
                (vfs_read other set_char f ((to + br) % 2 ^ 32) ((size + 2 ^ 32 - br) % 2 ^ 32))
              >>= λ r.
                  if bits r == 0 || is_minus_one r
                  then pure Bool.false
                  else read_all below n f to size ((br + bits r) % 2 ^ 32))
          else pure Bool.true)
        k

  -- The process with the new segments and registers.
  unfoldable pub started : Taken → ℕ → Proc → Proc
  started t entry p =
      let ds = segment_selector t.data_segment rpl_user in
      record p {
        segs = record {
          cs = segment_selector t.code rpl_user;
          ss = ds;
          ds = ds;
          es = ds;
          fs = ds;
          gs = ds;
        };
        regs = record p.regs { eip = entry; esp = t.total * frame_size % 2 ^ 32 };
      }

  -- The old process is given up, and the new one is started.
  unfoldable pub replace : Taken → ℕ → Cmd Kernel ℤ
  unfolding proc_release_memory proc_clear_regs started
  replace t entry k =
      let k1 = proc_release_memory k.proc_cur.segs k in
      let p = started t entry (proc_clear_regs k1.proc_cur) in
      (switch p >> pure minus_one) (record k1 { proc_cur = p })

  -- From the loading of the sections on.
  unfoldable pub load : ℕ → ℕ → Taken → Cmd Kernel ℤ
  unfolding on_files vfs_lseek read_all give_back close replace word_at memset
  load f code_limit t k =
      let text = (header_size + word_at (h + 4) k.vfs.mem) % 2 ^ 32 in
      let data_at = t.base + code_limit * frame_size in
      (on_files (vfs_lseek other set_char seek f 0 0)
          >> (read_all ltb fuel f t.base text 0 >>= λ read.
              if not read then give_back f t else λ k1.
              (read_all signed_below fuel f data_at (word_at (h + 8) k1.vfs.mem) 0 >>= λ filled.
              if not filled
              then give_back f t
              else close f >> (λ k2.
                let m = k2.vfs.mem in
                let bss = (data_at + word_at (h + 8) m) % 2 ^ 32 in
                let m' = memset bss 0 (word_at (h + 12) m) m in
                replace t (word_at (h + 20) m') (record k2 { vfs = record k2.vfs { mem = m' } })))
                k1))
        k

  -- From the allocation of the segments on.
  unfoldable pub take_data : ℕ → ℕ → Taken → ℕ × List ℕ → Cmd Kernel ℤ
  unfolding free_frames close free_segment load
  take_data f code_limit t (s, gdt) k =
      (if s == 0
          then close f >> (free_segment t.code >> (free_frames t >> pure minus_one))
          else load f code_limit (record t { data_segment = s }))
        (record k { gdt = gdt })

  unfoldable pub take_code : ℕ → ℕ → Taken → ℕ × List ℕ → Cmd Kernel ℤ
  unfolding gdt_alloc free_frames close take_data
  take_code f code_limit t (s, gdt) k =
      if s == 0
      then (free_frames t >> (close f >> pure minus_one)) (record k { gdt = gdt })
      else take_data f code_limit (record t { code = s })
          (gdt_alloc t.base t.total user_data_flags gdt) (record k { gdt = gdt })

  unfoldable pub take_segments : ℕ → ℕ → ℕ → ℕ → Cmd Kernel ℤ
  unfolding gdt_alloc take_code
  take_segments f base code_limit total k =
      take_code f code_limit (record { base = base; total = total; code = 0; data_segment = 0 })
        (gdt_alloc base total user_code_flags k.gdt) k

  -- From the sizes of the sections on; `total` is the frames of the process.
  unfoldable pub place : ℕ → ℕ → ℕ → ℕ × Mem → Cmd Kernel ℤ
  unfolding close take_segments
  place f code_limit total (base, frames) k =
      if base == 0
      then (close f >> pure minus_one) (record k { frames = frames })
      else take_segments f base code_limit total (record k { frames = frames })

  unfoldable pub take_memory : ℕ → Cmd Kernel ℤ
  unfolding code_frames all_frames mem_allocate_frames place
  take_memory f k =
      let total = all_frames h k.vfs.mem in
      place f (code_frames h k.vfs.mem) total
        (mem_allocate_frames total user_first_frame 0 k.frames) k

  -- The file's header is read to `h`, the address of the local variable.
  unfoldable pub exec_file : ℕ → Cmd Kernel ℤ
  unfolding on_files vfs_read bits close take_memory
  exec_file f =
      if f == 0
      then pure minus_one
      else on_files (vfs_read other set_char f h header_size) >>= λ r.
          if bits r == header_size then take_memory f else close f >> pure minus_one

  unfoldable pub proc_exec : Stat → Name → Cmd Kernel ℤ
  unfolding on_files vfs_stat vfs_open exec_file
  proc_exec st path = on_files (vfs_stat other path st) >>= λ r.
      if is_minus_one r.0
      then pure minus_one
      else on_files (vfs_open other set_char fuel path flag_read 0) >>= exec_file
