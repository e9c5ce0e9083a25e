-- ===== src/Kalloc/Tests.antt =====
-- Runs on a heap of one frame, with one block in use and one free.
use rtc_driver.Base.{
  ℕ, ◌<◌, ◌≤◌, ◌≡◌, ◌≢◌, refl, ap, ◌∙◌, arith, Bool, true, false, ◌⊎◌, List, [], ◌∷◌, ltb, ◌==◌,
  if◌then◌else◌, all_below, all_below-apply,
}
use rtc_driver.Base.Run.{ok}
use rtc_driver.Frames.{Mem, mem_bitmap_get_entry, get_pack}
use rtc_driver.Frames.Pack.{AreBytes}
use rtc_driver.Frames.Search.{IsFree}
use rtc_driver.Kalloc.{Entries, entry, Heap, heap, units_for, frames_for, kalloc, kfree}
use rtc_driver.Kalloc.Grow.{IsStretch}
use rtc_driver.Kalloc.Blocks.{Block, block, end_of, IsHeap}
use rtc_driver.Kalloc.Fit.{first_fit, fits, carve}
use rtc_driver.Kalloc.Walk.{kalloc_lem}
use rtc_driver.Kalloc.Used.{used_at, Gained}
use rtc_driver.Kalloc.Lost.{Absent, Lost}
use rtc_driver.Kalloc.Release.{free_blocks}
use rtc_driver.Kalloc.Free.{freed}
use rtc_driver.Kalloc.Kfree.{kfree_lem}
use rtc_driver.Kalloc.Promise.{IsApart, kalloc-used_at, kfree-used_at}

-- The frames below 257 and from 768 on are used.
abbrev bytes : ℕ → ℕ
bytes i = if ltb i 64 then 0x55 else if i == 64 then 1 else if ltb i 192 then 0 else 0x55

abbrev memory : Mem
memory = record {
  bitmap = bytes;
  total_frames = 1000;
  lock_state = record { itr_status = 0; interrupts = true };
}

bytes-AreBytes : AreBytes bytes
bytes-AreBytes i = ground arith

free_table :
    all_below 768 (λ g. if ltb g 257 then true else mem_bitmap_get_entry g bytes == 0) ≡ true
unfolding all_below mem_bitmap_get_entry get_pack
free_table = refl

frame_256 : mem_bitmap_get_entry 256 bytes ≡ 1
unfolding mem_bitmap_get_entry get_pack
frame_256 = refl

read_test : (e : ℕ) (b : Bool) → b ≡ false → (if b then true else e == 0) ≡ true → e ≡ 0
read_test e b h k = ground arith

frame_used : (g : ℕ) → g ≡ 256 → mem_bitmap_get_entry g bytes ≡ 1
frame_used g e = ap (λ x. mem_bitmap_get_entry x bytes) e ∙ frame_256

one_not_free : (e : ℕ) → e ≡ 1 → e ≢ 0
one_not_free e h k = omega arith

entry-IsFree : (g : ℕ) → 257 ≤ g → g < 768 → IsFree bytes g
entry-IsFree g lo up =
    read_test (mem_bitmap_get_entry g bytes) (ltb g 257) (ground arith)
      (all_below-apply 768 _ g free_table up)

memory-IsStretch : IsStretch 257 768 memory
memory-IsStretch = record {
  start = omega arith;
  order = omega arith;
  top = omega arith;
  memory = omega arith;
  whole = omega arith;
  bytes = bytes-AreBytes;
  taken = λ g lo up. one_not_free _ (frame_used g (omega arith));
  free = entry-IsFree;
  beyond = λ g lo up. absurd (omega arith);
}

abbrev small_entries : Entries
small_entries q =
    if q == 100
    then entry 1048576 0 0 0
    else if q == 1048576
    then entry 1048752 100 10 2
    else if q == 1048752
    then entry 0 1048576 244 1
    else entry 0 0 0 0

abbrev small_heap : Heap
small_heap = heap small_entries memory

abbrev blocks : List Block
blocks = block 10 true ∷ block 244 false ∷ []

small_heap-IsHeap : IsHeap 100 1048576 257 768 small_heap blocks
unfolding end_of
small_heap-IsHeap = record {
  head_entry = refl;
  head_low = omega arith;
  seg = (refl, (refl, tt));
  ends = refl;
  stretch = memory-IsStretch;
}

-- 100 bytes are 7 units.
kalloc_example :
    (s' : Heap) × (kalloc 100 4 100 small_heap
      ≡ ok (first_fit (units_for 100) (frames_for (units_for 100)) 257 768 1048576 blocks).ptr s')
    × IsHeap 100 1048576
        (first_fit (units_for 100) (frames_for (units_for 100)) 257 768 1048576 blocks).brk
        768
        s'
        (first_fit (units_for 100) (frames_for (units_for 100)) 257 768 1048576 blocks).blocks
kalloc_example =
    kalloc_lem 100 1048576 257 768 4 100 small_heap blocks small_heap-IsHeap (omega arith)
      (omega arith)

first_fit_run :
    first_fit (units_for 100) (frames_for (units_for 100)) 257 768 1048576 blocks ≡ record {
      ptr = 1048768;
      blocks = block 10 true ∷ block 7 true ∷ block 236 false ∷ [];
      brk = 257;
    }
unfolding first_fit units_for frames_for fits carve
first_fit_run = refl

kfree_example :
    (s' : Heap) × (kfree 100 3 1048592 small_heap ≡ ok tt s')
    × IsHeap 100 1048576 257 768 s' (free_blocks 1048592 1048576 blocks)
kfree_example =
    kfree_lem 100 1048576 257 768 3 1048592 small_heap blocks small_heap-IsHeap (omega arith)
      (λ e. omega arith)

free_blocks_run : free_blocks 1048592 1048576 blocks ≡ block 255 false ∷ []
unfolding free_blocks freed
free_blocks_run = refl

kalloc-used_at_example :
    (s' : Heap) × (p : ℕ) × (ys : List Block) × (brk' : ℕ) × (kalloc 100 4 100 small_heap ≡ ok p s')
    × (Gained (units_for 100) p (used_at 1048576 blocks) (used_at 1048576 ys)
        ⊎ ((p ≡ 0) × (ys ≡ blocks) × (brk' ≡ 257)))
    × IsApart 100 1048576 brk' 768 s' ys
kalloc-used_at_example =
    kalloc-used_at 100 1048576 257 768 4 100 small_heap blocks small_heap-IsHeap (omega arith)
      (omega arith)

kfree-used_at_example :
    (s' : Heap) × (ys : List Block) × (kfree 100 3 1048592 small_heap ≡ ok tt s')
    × (Lost 1048592 (used_at 1048576 blocks) (used_at 1048576 ys)
        ⊎ ((ys ≡ blocks) × Absent 1048592 (used_at 1048576 blocks)))
    × IsApart 100 1048576 257 768 s' ys
kfree-used_at_example =
    kfree-used_at 100 1048576 257 768 3 1048592 small_heap blocks small_heap-IsHeap (omega arith)
      (λ e. omega arith)
