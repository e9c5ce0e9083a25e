-- ===== src/Gdt/Tests.antt =====
-- Runs of gdt.c on a fresh table.
use rtc_driver.Base.{◌≡◌, refl, length}
use rtc_driver.Gdt.{gdt_setup, gdt_descriptor, gdt_base, gdt_limit, gdt_alloc}
use rtc_driver.Gdt.Table.{Allocated, gdt_alloc_lem}

fresh_size : length (gdt_setup 0x5000 0x8000) ≡ 32
unfolding gdt_setup
fresh_size = refl

unpacked : gdt_base (gdt_descriptor 0x12345678 0xabcde 0x0040f20000000000) ≡ 0x12345678
unfolding gdt_base gdt_descriptor
unpacked = refl

limited : gdt_limit (gdt_descriptor 0x12345678 0xabcde 0x0040f20000000000) ≡ 0xabcde
unfolding gdt_limit gdt_descriptor
limited = refl

gdt_alloc_example :
    Allocated
      (gdt_setup 0x5000 0x8000)
      (gdt_descriptor 0x300000 16 0)
      (gdt_alloc 0x300000 16 0 (gdt_setup 0x5000 0x8000))
gdt_alloc_example = gdt_alloc_lem 0x300000 16 0 (gdt_setup 0x5000 0x8000) fresh_size
