-- ===== src/Kalloc.antt =====
-- The kernel heap of src/kernel/drivers/mem.c: kalloc and kfree over a doubly linked list of blocks,
-- each behind its `struct mem_entry`. `entries` is the memory seen as entries: the entry at an
-- address; the entries of the list do not overlap. `mem_head` is the address of the static entry.
-- The walks run on `fuel`. Frames are taken from the allocator of Frames.
pub mod Grow
pub mod Blocks
pub mod Cut
pub mod Fit
pub mod Pass
pub mod Extend
pub mod Walk
pub mod Used
pub mod Join
pub mod Free
pub mod Release
pub mod Give
pub mod Seek
pub mod Kfree
pub mod Lost
pub mod Promise
mod Tests
use rtc_driver.Base.{
  ℕ, zero, suc, ◌+◌, ◌-◌, ◌*◌, ◌/◌, ◌%◌, ◌^◌, ◌&&◌, ◌||◌, not, ltb, ◌==◌, if◌then◌else◌,
}
use rtc_driver.Base.Run.{ok, hang, Cmd, Run}
use rtc_driver.Frames.{Mem, frame_size, mem_allocate_frames}

abbrev pub kernel_first_frame : ℕ
kernel_first_frame = 256

abbrev pub user_first_frame : ℕ
user_first_frame = 768

-- sizeof(struct mem_entry)
abbrev pub entry_size : ℕ
entry_size = 16

abbrev pub entry_null : ℕ
entry_null = 0

abbrev pub block_free : ℕ
block_free = 1

abbrev pub block_used : ℕ
block_used = 2

-- `struct mem_entry`; `size` counts units of `entry_size` bytes.
pub record Entry : Type 0 where
  pub next : ℕ
  pub prev : ℕ
  pub size : ℕ
  pub flags : ℕ

abbrev pub entry : ℕ → ℕ → ℕ → ℕ → Entry
entry next prev size flags = record { next = next; prev = prev; size = size; flags = flags }

abbrev pub Entries : Type 0
Entries = ℕ → Entry

unfoldable pub put : ℕ → Entry → Entries → Entries
put p e m q = if q == p then e else m q

abbrev pub set_next : ℕ → ℕ → Entries → Entries
set_next p v m = put p (record (m p) { next = v }) m

abbrev pub set_size : ℕ → ℕ → Entries → Entries
set_size p v m = put p (record (m p) { size = v }) m

abbrev pub set_flags : ℕ → ℕ → Entries → Entries
set_flags p v m = put p (record (m p) { flags = v }) m

abbrev pub set_prev : ℕ → ℕ → Entries → Entries
set_prev p v m = put p (record (m p) { prev = v }) m

-- `if (p != NULL) p->prev = v`
abbrev pub link_back : ℕ → ℕ → Entries → Entries
link_back p v m = if p == 0 then m else set_prev p v m

pub record Heap : Type 0 where
  pub entries : Entries
  pub frames : Mem

abbrev pub heap : Entries → Mem → Heap
heap m f = record { entries = m; frames = f }

unfoldable pub kalloc_init : ℕ → Heap → Heap
kalloc_init mem_head s = record s { entries = put mem_head (entry 0 0 0 entry_null) s.entries }

unfoldable pub units_for : ℕ → ℕ
units_for bytes = if ltb 0 (bytes % entry_size) then bytes / entry_size + 1 else bytes / entry_size

-- A block that is large enough is cut: `e` keeps `units`, the rest becomes a free block at `n`.
unfoldable pub cut_at : ℕ → ℕ → ℕ → Entries → Entries
cut_at n units e m =
    let m1 = set_size n ((m e).size - units - 1) (set_flags n block_free m) in
    let m2 = set_next n (m1 e).next m1 in
    let m3 = link_back (m2 n).next n m2 in
    let m4 = set_prev n e m3 in set_flags e block_used (set_size e units (set_next e n m4))

unfoldable pub cut_block : ℕ → ℕ → Entries → Entries
cut_block units e m = cut_at ((e + (units + 1) * entry_size) % 2 ^ 32) units e m

-- What a round of a walk does: it is the last one, or the next entry is looked at.
pub data Round (A : Type 0) : Type 0 where
  done : A → Heap → Round A
  again : ℕ → Heap → Round A

unfoldable pub frames_for : ℕ → ℕ
frames_for units =
    let bytes = (units + 1) * entry_size % 2 ^ 32 in
    if ltb 0 (bytes % frame_size) then bytes / frame_size + 1 else bytes / frame_size

-- The part behind the end of the list.
unfoldable pub grow : ℕ → ℕ → Heap → Round ℕ
grow units e s =
    let frames = frames_for units in
    let (n, f) = mem_allocate_frames frames kernel_first_frame user_first_frame s.frames in
    let m1 = set_next n 0 (set_prev n e (set_next e n s.entries)) in
    let size = (frames * frame_size % 2 ^ 32 / entry_size + 2 ^ 32 - 1) % 2 ^ 32 in
    if n == 0
    then done 0 (heap s.entries f)
    else again n (heap (set_size n size (set_flags n block_free m1)) f)

unfoldable pub kalloc_step : ℕ → ℕ → Heap → Round ℕ
kalloc_step units e s =
    let d = s.entries e in
    if (d.flags == block_free) && ((d.size == units) || (d.size == units + 1))
    then done ((e + entry_size) % 2 ^ 32) (heap (set_flags e block_used s.entries) s.frames)
    else if (d.flags == block_free) && ltb (units + 1) d.size
    then done ((e + entry_size) % 2 ^ 32) (heap (cut_block units e s.entries) s.frames)
    else if not (d.next == 0)
    then again d.next s
    else grow units e s

-- The rest of a walk behind a round.
abbrev pub follow : {A : Type 0} → (ℕ → Cmd Heap A) → Round A → Run Heap A
follow k (done a s) = ok a s
follow k (again e s) = k e s

unfoldable pub kalloc_loop : ℕ → ℕ → ℕ → Cmd Heap ℕ
kalloc_loop zero units e s = hang
kalloc_loop (suc fuel) units e s =
    follow (λ e' s'. kalloc_loop fuel units e' s') (kalloc_step units e s)

unfoldable pub kalloc : ℕ → ℕ → ℕ → Cmd Heap ℕ
kalloc mem_head fuel bytes s = kalloc_loop fuel (units_for bytes) mem_head s

-- `f` and the entry behind it become one, if that one is free.
unfoldable pub join_next : ℕ → Entries → Entries
join_next f m =
    let n = (m f).next in
    let m1 = set_size f (((m f).size + (m n).size + 1) % 2 ^ 32) m in
    let m2 = set_next f (m1 n).next m1 in
    if not (n == 0) && ((m n).flags == block_free) then link_back (m2 f).next f m2 else m

-- `e` and the entry `f` behind it become one, if `e` is free.
unfoldable pub join_prev : ℕ → ℕ → Entries → Entries
join_prev e f m =
    let m1 = set_size e (((m e).size + (m f).size + 1) % 2 ^ 32) m in
    let m2 = set_next e (m1 f).next m1 in
    if (m e).flags == block_free then link_back (m2 e).next e m2 else m

-- The entry behind `e` is freed.
unfoldable pub free_next : ℕ → Entries → Entries
free_next e m =
    let f = (m e).next in
    if (m f).flags == block_free then m else join_prev e f (join_next f (set_flags f block_free m))

unfoldable pub kfree_step : ℕ → ℕ → Heap → Round (Unit {0})
kfree_step ptr e s =
    let d = s.entries e in
    if d.next == 0
    then done tt s
    else if (d.next + entry_size) % 2 ^ 32 == ptr
    then done tt (heap (free_next e s.entries) s.frames)
    else again d.next s

unfoldable pub kfree_loop : ℕ → ℕ → ℕ → Cmd Heap (Unit {0})
kfree_loop zero ptr e s = hang
kfree_loop (suc fuel) ptr e s = follow (λ e' s'. kfree_loop fuel ptr e' s') (kfree_step ptr e s)

unfoldable pub kfree : ℕ → ℕ → ℕ → Cmd Heap (Unit {0})
kfree mem_head fuel ptr s = if ptr == 0 then ok tt s else kfree_loop fuel ptr mem_head s
