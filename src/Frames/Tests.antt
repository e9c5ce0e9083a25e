-- ===== src/Frames/Tests.antt =====
-- Runs of the allocator on a small memory.
use rtc_driver.Base.{ℕ, ◌*◌, ◌==◌, if◌then◌else◌, ◌≡◌, refl, arith, true}
use rtc_driver.Frames.{Mem, mem_allocate_frames, mem_release_frames, mem_bitmap_get_entry, get_pack}
use rtc_driver.Frames.Pack.{AreBytes}
use rtc_driver.Frames.Alloc.{Allocation, allocate_lem, release-allocate}

-- The bytes of the bitmap.
abbrev small : ℕ → ℕ
small i = if i == 0 then 2 else if i == 1 then 5 else 0

small-AreBytes : AreBytes small
small-AreBytes i = ground arith

-- 16 frames, of which frames 4 and 5 are taken.
abbrev memory : Mem
memory = record {
  bitmap = small;
  total_frames = 16;
  lock_state = record { itr_status = 0; interrupts = true };
}

-- Three frames from frame 2 on are found behind the taken ones, at frame 6.
first_fit : (mem_allocate_frames 3 2 0 memory).0 ≡ 6 * 4096
unfolding mem_allocate_frames mem_bitmap_get_entry get_pack
first_fit = refl

allocate_example : Allocation memory 3 2 0 (mem_allocate_frames 3 2 0 memory)
allocate_example = allocate_lem memory 3 2 0 small-AreBytes (omega arith) (omega arith)

release_example :
    mem_bitmap_get_entry 7
      (mem_release_frames
        (mem_allocate_frames 3 2 0 memory).0
        3
        (mem_allocate_frames 3 2 0 memory).1).bitmap
    ≡ mem_bitmap_get_entry 7 memory.bitmap
release_example =
    release-allocate memory 3 2 0 small-AreBytes (omega arith) (omega arith)
      (λ e. omega (arith, e, first_fit)) 7
