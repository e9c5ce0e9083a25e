-- ===== src/Gdt.antt =====
-- src/kernel/gdt.c and src/kernel/include/gdt.h: the table of segment descriptors, a list of 32
-- entries, each a u64. The loading of the table into the processor, the end of `gdt_setup`, is
-- assembly code and not modelled; the address of the task state segment is an argument.
pub mod Table
mod Tests
use rtc_driver.Base.{
  ℕ, zero, suc, ◌+◌, ◌-◌, ◌*◌, ◌/◌, ◌%◌, ◌^◌, List, [], ◌∷◌, bit_and, bit_or, ◌==◌, if◌then◌else◌,
  get_or, set, replicate,
}

abbrev pub gdt_max_entries : ℕ
gdt_max_entries = 32

abbrev pub gdt_null_entry : ℕ
gdt_null_entry = 0

-- The size of a descriptor, and of a task state segment.
abbrev pub descriptor_size : ℕ
descriptor_size = 8

abbrev pub tss_size : ℕ
tss_size = 104

-- GRANULARITY_4K | OP_SIZE_32 | PRESENT | DPL_KERNEL | DESC_TYPE_CODE_DATA, and the bits of the
-- code and of the data segment.
abbrev pub kernel_code_flags : ℕ
kernel_code_flags = bit_or 0x0080000000000000 (
    bit_or 0x0040000000000000 (
      bit_or 0x0000800000000000
        (bit_or 0x0000100000000000 (bit_or 0x0000080000000000 0x0000020000000000))))

abbrev pub kernel_data_flags : ℕ
kernel_data_flags = bit_or 0x0080000000000000 (
    bit_or 0x0040000000000000
      (bit_or 0x0000800000000000 (bit_or 0x0000100000000000 0x0000020000000000)))

abbrev pub tss_flags : ℕ
tss_flags = bit_or 0x0000800000000000 0x0000090000000000

unfoldable pub gdt_descriptor : ℕ → ℕ → ℕ → ℕ
gdt_descriptor base limit flags =
    let low = bit_or flags (bit_and limit 0xffff) in
    let limited = bit_or low (bit_and limit 0xf0000 * 2 ^ 32) in
    let b0 = bit_or limited (bit_and base 0xffff * 2 ^ 16) in
    let b1 = bit_or b0 (bit_and base 0xff0000 * 2 ^ 16) in
    bit_or b1 (bit_and base 0xff000000 * 2 ^ 32)

unfoldable pub gdt_base : ℕ → ℕ
gdt_base d = bit_or (bit_and (d / 2 ^ 32) 0xff000000) (bit_and (d / 2 ^ 16) 0x00ffffff)

unfoldable pub gdt_limit : ℕ → ℕ
gdt_limit d = bit_or (bit_and (d / 2 ^ 32) 0x000f0000) (bit_and d 0x0000ffff)

unfoldable pub gdt_setup : ℕ → ℕ → List ℕ
unfolding gdt_descriptor
gdt_setup tss_addr total_frames =
    let empty = replicate gdt_max_entries gdt_null_entry in
    let with_code = set empty 1 (gdt_descriptor 0 total_frames kernel_code_flags) in
    let with_data = set with_code 2 (gdt_descriptor 0 total_frames kernel_data_flags) in
    set with_data 3 (gdt_descriptor tss_addr tss_size tss_flags)

-- The first index from `i` on whose entry is null, with `n` entries left, or their end.
unfoldable pub find_null : ℕ → ℕ → List ℕ → ℕ
find_null zero i gdt = i
find_null (suc n) i gdt =
    let rest = find_null n (i + 1) gdt in if get_or gdt i 0 == gdt_null_entry then i else rest

unfoldable pub gdt_alloc : ℕ → ℕ → ℕ → List ℕ → ℕ × List ℕ
gdt_alloc base limit flags gdt =
    let i = find_null 31 1 gdt in
    if i == gdt_max_entries
    then (0, gdt)
    else (i * descriptor_size % 2 ^ 16, set gdt i (gdt_descriptor base limit flags))

unfoldable pub gdt_dealloc : ℕ → List ℕ → List ℕ
gdt_dealloc sel gdt = set gdt (sel / descriptor_size) gdt_null_entry

unfoldable pub gdt_get : ℕ → List ℕ → ℕ
gdt_get sel gdt = get_or gdt (sel / descriptor_size) 0
