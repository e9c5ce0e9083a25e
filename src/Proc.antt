-- ===== src/Proc.antt =====
-- src/kernel/proc.c: processes. The state is the one of the file systems, of the physical allocator
-- and of the segment table, and the process that proc_cur points to. File descriptors, which no code
-- uses, are left out. Here are proc_init and the release of a process; Proc/Exec is proc_exec.
pub mod Exec
pub mod Release
pub mod Refused
mod Tests
use rtc_driver.Base.{ℕ, List, ◌==◌, if◌then◌else◌}
use rtc_driver.Frames.{Mem, mem_release_frames}
use rtc_driver.Gdt.{gdt_null_entry, gdt_get, gdt_dealloc, gdt_base, gdt_limit}
use rtc_driver.Files.{Files}

pub record Regs : Type 0 where
  pub eax : ℕ
  pub ebx : ℕ
  pub ecx : ℕ
  pub edx : ℕ
  pub edi : ℕ
  pub esi : ℕ
  pub ebp : ℕ
  pub esp : ℕ
  pub eip : ℕ
  pub eflags : ℕ

pub record Segs : Type 0 where
  pub cs : ℕ
  pub ss : ℕ
  pub ds : ℕ
  pub es : ℕ
  pub fs : ℕ
  pub gs : ℕ

pub record Proc : Type 0 where
  pub pid : ℕ
  pub ppid : ℕ
  pub regs : Regs
  pub segs : Segs

pub record Kernel : Type 0 where
  pub vfs : Files
  pub frames : Mem
  pub gdt : List ℕ
  pub proc_cur : Proc

abbrev pub no_regs : Regs
no_regs = record {
  eax = 0;
  ebx = 0;
  ecx = 0;
  edx = 0;
  edi = 0;
  esi = 0;
  ebp = 0;
  esp = 0;
  eip = 0;
  eflags = 0;
}

-- The first process, which proc_cur is set to; the array is cleared.
unfoldable pub proc_init : Kernel → Kernel
proc_init k = record k {
  proc_cur = record {
    pid = 1;
    ppid = 1;
    regs = no_regs;
    segs = record { cs = 0; ss = 0; ds = 0; es = 0; fs = 0; gs = 0 };
  };
}

unfoldable pub proc_release_segment : ℕ → Kernel → Kernel
unfolding gdt_get gdt_dealloc gdt_base gdt_limit mem_release_frames
proc_release_segment s k =
    let d = gdt_get s k.gdt in
    if d == gdt_null_entry then k else record k {
      gdt = gdt_dealloc s k.gdt;
      frames = mem_release_frames (gdt_base d) (gdt_limit d) k.frames;
    }

unfoldable pub proc_release_memory : Segs → Kernel → Kernel
unfolding proc_release_segment
proc_release_memory g k =
    let k1 = proc_release_segment g.cs k in
    let k2 = proc_release_segment g.ds k1 in
    let k3 = proc_release_segment g.ss k2 in
    let k4 = proc_release_segment g.es k3 in
    let k5 = proc_release_segment g.fs k4 in proc_release_segment g.gs k5

-- All registers but those of the segments.
unfoldable pub proc_clear_regs : Proc → Proc
proc_clear_regs p = record p { regs = no_regs }
