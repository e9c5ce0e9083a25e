-- ===== src/Proc/Tests.antt =====
-- Runs of proc.c on small states.
use rtc_driver.Base.{
  ◌∷◌, ℕ, zero, suc, ◌*◌, ◌<◌, ◌≡◌, ◌≢◌, refl, sym, arith, true, List, [], replicate, get_or,
}
use rtc_driver.Base.Int.{ℤ, pos, minus_one}
use rtc_driver.Base.Run.{Run, ok, fault, hang, panic, Cmd}
use rtc_driver.Devices.{FileOperations}
use rtc_driver.Frames.{Mem, mem_allocate_frames, mem_bitmap_get_entry, get_pack}
use mathlib.Core.Path.{subst}
use rtc_driver.Gdt.{gdt_get, gdt_dealloc}
use rtc_driver.Files.{Files}
use rtc_driver.Files.Sample.{sample}
use rtc_driver.Vfs.Open.{vfs_close, call_quiet}
use rtc_driver.Errors.{set_errno}
use rtc_driver.Proc.{Kernel, Proc, no_regs, proc_release_memory}
use rtc_driver.Proc.Exec.{take_memory, all_frames}
use rtc_driver.Proc.Release.{freed, proc_release_memory_lem}
use rtc_driver.Proc.Refused.{take_memory-full}

-- 1000 free frames.
abbrev memory : Mem
memory = record {
  bitmap = λ i. 0;
  total_frames = 1000;
  lock_state = record { itr_status = 0; interrupts = true };
}

abbrev idle : Proc
idle = record {
  pid = 1;
  ppid = 1;
  regs = no_regs;
  segs = record { cs = 35; ss = 43; ds = 43; es = 43; fs = 43; gs = 43 };
}

-- The header of the file is of zeros.
abbrev kernel : List ℕ → Kernel
kernel gdt = record {
  vfs = record sample { mem = λ a. 0 };
  frames = memory;
  gdt = gdt;
  proc_cur = idle;
}

abbrev segments : List ℕ
segments = 0 ∷ 0 ∷ 0 ∷ 0 ∷ 7 ∷ 9 ∷ []

code_used : gdt_get 35 segments ≢ 0
unfolding gdt_get
code_used = omega arith

data_used : gdt_get 43 segments ≢ 0
unfolding gdt_get
data_used = omega arith

release_memory_example :
    proc_release_memory idle.segs (kernel segments) ≡ record (kernel segments) {
      gdt = 0 ∷ 0 ∷ 0 ∷ 0 ∷ 0 ∷ 0 ∷ [];
      frames = freed 9 (freed 7 memory);
    }
unfolding gdt_get gdt_dealloc
release_memory_example =
    proc_release_memory_lem (kernel segments) 35 43 (omega arith) (omega arith) code_used data_used

-- No function but those of memfs.c is called.
abbrev none : ℕ → List ℕ → Cmd Files ℤ
none f args s = fault

abbrev no_device : ℕ → FileOperations → Cmd Files (ℤ × FileOperations)
no_device dev ops s = fault

abbrev no_seek : ℕ → List ℕ → Cmd Files ℕ
no_seek f args s = fault

abbrev no_switch : Proc → Cmd Kernel (Unit {0})
no_switch p k = fault

abbrev ones : ℕ → List ℕ
ones n = replicate n 1

full_gdt : (n j : ℕ) → j < n → get_or (ones n) j 0 ≢ 0
full_gdt zero j below = absurd (omega arith)
full_gdt (suc n) zero below = omega arith
full_gdt (suc n) (suc j) below = full_gdt n j (omega arith)

abbrev state_of : Run Files ℤ → Files
state_of (ok r s) = s
state_of fault = sample
state_of hang = sample
state_of panic = sample

after : Files
unfolding vfs_close
after = state_of (vfs_close none no_device 80 (kernel []).vfs)

closed : vfs_close none no_device 80 (kernel []).vfs ≡ ok (pos 0) after
unfolding after vfs_close call_quiet set_errno
closed = refl

needed : all_frames 5000 (kernel []).vfs.mem ≡ 2
unfolding all_frames
needed = refl

placed : (mem_allocate_frames 2 768 0 memory).0 ≡ 768 * 4096
unfolding mem_allocate_frames mem_bitmap_get_entry get_pack
placed = refl

no_segment_example :
    (k' : Kernel) × (take_memory none no_device no_seek no_switch 9 5000 80 (kernel (ones 32))
      ≡ ok minus_one k')
    × (k'.gdt ≡ ones 32)
    × (k'.proc_cur ≡ idle)
    × (k'.vfs ≡ after)
    × ((g : ℕ) → mem_bitmap_get_entry g k'.frames.bitmap ≡ mem_bitmap_get_entry g memory.bitmap)
no_segment_example =
    take_memory-full none no_device no_seek no_switch 9 5000 (kernel (ones 32)) 80 (pos 0) after
      refl (λ j lower upper. full_gdt 32 j upper) (λ i. omega arith) (omega arith)
      (omega (arith, needed))
      (subst (λ n. (mem_allocate_frames n 768 0 memory).0 ≢ 0) (sym needed) (omega (arith, placed)))
      closed
