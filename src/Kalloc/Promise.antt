-- ===== src/Kalloc/Promise.antt =====
-- What users of the heap rely on.
use rtc_driver.Base.{ℕ, ◌+◌, ◌*◌, ◌-◌, ◌^◌, ◌<◌, ◌≤◌, ◌≡◌, ◌≢◌, ◌⊎◌, List, length}
use mathlib.Core.Path.{subst}
use rtc_driver.Base.Run.{ok}
use rtc_driver.Kalloc.{Heap, units_for, frames_for, kalloc, kfree}
use rtc_driver.Kalloc.Blocks.{Block, IsHeap}
use rtc_driver.Kalloc.Fit.{first_fit}
use rtc_driver.Kalloc.Pass.{frames_for_lem}
use rtc_driver.Kalloc.Walk.{units_for_lem, kalloc_lem}
use rtc_driver.Kalloc.Used.{used_at, Apart, used_at-Apart, Gained, first_fit_lem}
use rtc_driver.Kalloc.Release.{free_blocks}
use rtc_driver.Kalloc.Kfree.{kfree_lem}
use rtc_driver.Kalloc.Lost.{Lost, Absent, free_blocks_lem}

-- A well-formed heap whose blocks in use do not overlap each other or an entry.
pub record IsApart (mem_head base brk limit : ℕ) (s : Heap) (xs : List Block) : Type 0 where
  pub heap : IsHeap mem_head base brk limit s xs
  pub apart : Apart base (brk * 4096) (used_at base xs)

IsHeap-IsApart :
    {mem_head base brk limit : ℕ} {s : Heap} (xs : List Block)
    → IsHeap mem_head base brk limit s xs
    → IsApart mem_head base brk limit s xs
IsHeap-IsApart {base = base} xs is = record {
  heap = is;
  apart = subst (λ p. Apart base p (used_at base xs)) is.ends (used_at-Apart base xs);
}

-- On a well-formed heap, for less than 2^32 - 32 bytes and with fuel for each block and two rounds
-- more, kalloc returns; either the pointer is that of one more block in use, of at least the bytes
-- asked for in units of 16, while the blocks that were in use keep their addresses and sizes, or it
-- is NULL and the blocks are as they were; no two blocks in use overlap, and the heap stays
-- well-formed.
pub kalloc-used_at :
    (mem_head base brk limit fuel bytes : ℕ) (s : Heap) (xs : List Block)
    → IsHeap mem_head base brk limit s xs
    → bytes < 2 ^ 32 - 32
    → length xs + 2 ≤ fuel
    → (s' : Heap) × (p : ℕ) × (ys : List Block) × (brk' : ℕ) × (kalloc mem_head fuel bytes s
        ≡ ok p s')
      × (Gained (units_for bytes) p (used_at base xs) (used_at base ys)
          ⊎ ((p ≡ 0) × (ys ≡ xs) × (brk' ≡ brk)))
      × IsApart mem_head base brk' limit s' ys
kalloc-used_at mem_head base brk limit fuel bytes s xs is small enough =
    let units = units_for bytes in
    let ans = first_fit units (frames_for units) brk limit base xs in
    let (s', run, is') = kalloc_lem mem_head base brk limit fuel bytes s xs is small enough in
    let served =
      first_fit_lem units (frames_for units) brk limit base xs
        (frames_for_lem units (units_for_lem bytes small)).1 in
    (s', ans.ptr, ans.blocks, ans.brk, run, served, IsHeap-IsApart ans.blocks is')

-- On a well-formed heap, with fuel above the number of blocks, kfree of a pointer that is not NULL
-- returns; either the used block at the pointer is no longer in use, while the others keep their
-- addresses and sizes, or no block in use is at the pointer and the blocks are as they were; no two
-- blocks in use overlap, and the heap stays well-formed.
pub kfree-used_at :
    (mem_head base brk limit fuel ptr : ℕ) (s : Heap) (xs : List Block)
    → IsHeap mem_head base brk limit s xs
    → length xs < fuel
    → ptr ≢ 0
    → (s' : Heap) × (ys : List Block) × (kfree mem_head fuel ptr s ≡ ok tt s')
      × (Lost ptr (used_at base xs) (used_at base ys) ⊎ ((ys ≡ xs) × Absent ptr (used_at base xs)))
      × IsApart mem_head base brk limit s' ys
kfree-used_at mem_head base brk limit fuel ptr s xs is enough ne =
    let (s', run, is') = kfree_lem mem_head base brk limit fuel ptr s xs is enough ne in
    let ys = free_blocks ptr base xs in
    (s', ys, run, free_blocks_lem ptr base xs, IsHeap-IsApart ys is')
