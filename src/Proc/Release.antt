-- ===== src/Proc/Release.antt =====
-- The release of the segments of a process.
use rtc_driver.Base.{
  ℕ, ◌/◌, ◌<◌, ◌≡◌, ◌≢◌, refl, sym, ap, ◌∙◌, false, List, length, arith, ◌==◌, get_or-set_self,
  get_or-set_ne, length-set,
}
use rtc_driver.Frames.{Mem, mem_release_frames}
use rtc_driver.Gdt.{gdt_get, gdt_dealloc, gdt_base, gdt_limit}
use rtc_driver.Proc.{Kernel, proc_release_segment, proc_release_memory}

-- As many frames given back as the limit of a descriptor says, from its base on.
abbrev pub freed : ℕ → Mem → Mem
freed d m = mem_release_frames (gdt_base d) (gdt_limit d) m

released-null : (s : ℕ) (k : Kernel) → gdt_get s k.gdt ≡ 0 → proc_release_segment s k ≡ k
unfolding proc_release_segment
released-null s k null = rw null refl

released-used :
    (s : ℕ) (k : Kernel)
    → gdt_get s k.gdt ≢ 0
    → proc_release_segment s k
      ≡ record k { gdt = gdt_dealloc s k.gdt; frames = freed (gdt_get s k.gdt) k.frames }
unfolding proc_release_segment
released-used s k used = let no : (gdt_get s k.gdt == 0) ≡ false = ground arith in rw no refl

gdt_get-gdt_dealloc_self :
    (s : ℕ) (gdt : List ℕ) → s / 8 < length gdt → gdt_get s (gdt_dealloc s gdt) ≡ 0
unfolding gdt_get gdt_dealloc
gdt_get-gdt_dealloc_self s gdt inside = get_or-set_self gdt (s / 8) 0 0 inside

gdt_get-gdt_dealloc_ne :
    (s t : ℕ) (gdt : List ℕ) → s / 8 ≢ t / 8 → gdt_get t (gdt_dealloc s gdt) ≡ gdt_get t gdt
unfolding gdt_get gdt_dealloc
gdt_get-gdt_dealloc_ne s t gdt other = get_or-set_ne gdt (s / 8) (t / 8) 0 0 other

length-gdt_dealloc : (s : ℕ) (gdt : List ℕ) → length (gdt_dealloc s gdt) ≡ length gdt
unfolding gdt_dealloc
length-gdt_dealloc s gdt = length-set gdt (s / 8) 0

-- For a process with a code segment and one segment in its other registers, at two entries of the
-- table that are not null: proc_release_memory clears these two entries, and calls
-- mem_release_frames for each once, with the base and the limit of its descriptor, for the code
-- segment first; nothing else of the kernel's state changes.
pub proc_release_memory_lem :
    (k : Kernel) (c d : ℕ)
    → c / 8 ≢ d / 8
    → d / 8 < length k.gdt
    → gdt_get c k.gdt ≢ 0
    → gdt_get d k.gdt ≢ 0
    → proc_release_memory (record { cs = c; ss = d; ds = d; es = d; fs = d; gs = d }) k ≡ record k {
      gdt = gdt_dealloc d (gdt_dealloc c k.gdt);
      frames = freed (gdt_get d k.gdt) (freed (gdt_get c k.gdt) k.frames);
    }
unfolding proc_release_memory
proc_release_memory_lem k c d other inside code_used data_used =
    let k1 : Kernel = record k {
      gdt = gdt_dealloc c k.gdt;
      frames = freed (gdt_get c k.gdt) k.frames;
    } in
    let k2 : Kernel = record k {
      gdt = gdt_dealloc d (gdt_dealloc c k.gdt);
      frames = freed (gdt_get d k.gdt) (freed (gdt_get c k.gdt) k.frames);
    } in
    let kept = gdt_get-gdt_dealloc_ne c d k.gdt other in
    let second : proc_release_segment d k1 ≡ k2 =
      released-used d k1 (λ e. data_used (sym kept ∙ e))
      ∙ ap
          (λ (x : ℕ). record k1 {
            gdt = gdt_dealloc d (gdt_dealloc c k.gdt);
            frames = freed x k1.frames;
          })
          kept in
    let null : gdt_get d k2.gdt ≡ 0 =
      gdt_get-gdt_dealloc_self d (gdt_dealloc c k.gdt) (rw (length-gdt_dealloc c k.gdt) inside) in
    let again = released-null d k2 null in
    let rest : (j : Kernel) → j ≡ k2 → proc_release_segment d j ≡ k2 =
      λ j e. ap (proc_release_segment d) e ∙ again in
    rest _ (
      rest _ (rest _ (rest _ (ap (proc_release_segment d) (released-used c k code_used) ∙ second))))
