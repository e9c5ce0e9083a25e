-- ===== src/Proc/Refused.antt =====
-- proc_exec where the table of segments is full.
use rtc_driver.Base.{
  ℕ, ◌^◌, ◌<◌, ◌≤◌, ◌≡◌, ◌≢◌, refl, ap, ◌∙◌, inl, inr, false, List, length, arith, ◌==◌, get_or,
}
use rtc_driver.Base.Int.{ℤ, minus_one}
use rtc_driver.Base.Run.{ok, Cmd, and_then}
use rtc_driver.Devices.{FileOperations}
use rtc_driver.Frames.{mem_allocate_frames, mem_release_frames, mem_bitmap_get_entry}
use rtc_driver.Frames.Pack.{AreBytes}
use rtc_driver.Frames.Alloc.{release-allocate}
use rtc_driver.Kalloc.{user_first_frame}
use rtc_driver.Gdt.{gdt_alloc, gdt_descriptor}
use rtc_driver.Gdt.Table.{Allocated, gdt_alloc_lem}
use rtc_driver.Files.{Files}
use rtc_driver.Vfs.Open.{vfs_close}
use rtc_driver.Proc.{Kernel, Proc}
use rtc_driver.Proc.Exec.{
  user_code_flags, ran, on_files, close, free_frames, take_code, take_segments, place, all_frames,
  take_memory,
}

-- Every entry that gdt_alloc looks at is in use.
abbrev pub IsFull : List ℕ → Type 0
IsFull gdt = (j : ℕ) → 1 ≤ j → j < 32 → get_or gdt j 0 ≢ 0

full_table :
    (base limit flags : ℕ) (gdt : List ℕ)
    → length gdt ≡ 32
    → IsFull gdt
    → gdt_alloc base limit flags gdt ≡ (0, gdt)
full_table base limit flags gdt size full =
    refused (gdt_alloc base limit flags gdt) (gdt_alloc_lem base limit flags gdt size)
  where
    refused : (r : ℕ × List ℕ) → Allocated gdt (gdt_descriptor base limit flags) r → r ≡ (0, gdt)
    refused (s, gdt') (inl e) = absurd (full e.index e.lower e.upper e.was_null)
    refused (s, gdt') (inr (none, same, _)) = ap (λ n. (n, gdt')) none ∙ ap (λ g. (0, g)) same

on_files-ok :
    {A : Type 0} (m : Cmd Files A) (k : Kernel) {a : A} {s : Files}
    → m k.vfs ≡ ok a s
    → on_files m k ≡ ok a (record k { vfs = s })
unfolding on_files ran
on_files-ok m k done = ap (λ r. ran r k) done

module _ (other : ℕ → List ℕ → Cmd Files ℤ)
    (set_char : ℕ → FileOperations → Cmd Files (ℤ × FileOperations))
    (seek : ℕ → List ℕ → Cmd Files ℕ) (switch : Proc → Cmd Kernel (Unit {0})) (fuel : ℕ)
    (h : ℕ) where
  -- With a bitmap of bytes, less than 2^20 frames of memory and a process of at least one frame,
  -- whose number of frames is computed in 32 bits: where the table of 32 segments is full, frames
  -- for the process are found and vfs_close of the file returns, proc_exec returns -1 from there
  -- with the table and the process as they were, the files as vfs_close leaves them, and every frame
  -- in use or free as before.
  pub take_memory-full :
      (k : Kernel) (f : ℕ) (r : ℤ) (s : Files)
      → length k.gdt ≡ 32
      → IsFull k.gdt
      → AreBytes k.frames.bitmap
      → k.frames.total_frames < 2 ^ 20
      → 0 < all_frames h k.vfs.mem
      → (mem_allocate_frames (all_frames h k.vfs.mem) user_first_frame 0 k.frames).0 ≢ 0
      → vfs_close other set_char f k.vfs ≡ ok r s
      → (k' : Kernel) × (take_memory other set_char seek switch fuel h f k ≡ ok minus_one k')
        × (k'.gdt ≡ k.gdt)
        × (k'.proc_cur ≡ k.proc_cur)
        × (k'.vfs ≡ s)
        × ((g : ℕ)
            → mem_bitmap_get_entry g k'.frames.bitmap ≡ mem_bitmap_get_entry g k.frames.bitmap)
  unfolding take_memory place take_segments take_code free_frames close
  take_memory-full k f r s size full bytes fits some_frames found closed =
      let total = all_frames h k.vfs.mem in
      let a = mem_allocate_frames total user_first_frame 0 k.frames in
      let base : (a.0 == 0) ≡ false = ground arith in
      let table = full_table a.0 total user_code_flags k.gdt size full in
      (
        record k { vfs = s; frames = mem_release_frames a.0 total a.1 },
        rw base (
            rw table (
              ap (λ x. and_then x (λ _ j. ok minus_one j))
                (on_files-ok (vfs_close other set_char f)
                  (record k { frames = mem_release_frames a.0 total a.1 }) closed))),
        refl,
        refl,
        refl,
        release-allocate k.frames total user_first_frame 0 bytes some_frames fits found,
      )
