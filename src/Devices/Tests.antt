-- ===== src/Devices/Tests.antt =====
-- Runs of devices.c on a table of one device.
use rtc_driver.Base.{ℕ, ◌≡◌, refl, false, List, [], ◌∷◌, none, some, arith, ◌==◌, if◌then◌else◌}
use rtc_driver.Base.Int.{ℤ, minus_one}
use rtc_driver.Base.Run.{ok}
use rtc_driver.KList.{node, Heap, Store, KList, klist}
use rtc_driver.KList.Chain.{Cells, IsList}
use rtc_driver.KList.Del.{any, with_cells}
use rtc_driver.Devices.{has_id, FileOperations, CharDevice, Fresh, dev_register_char_dev}
use rtc_driver.Devices.Undo.{table, written, IsFresh, dev_register_char_dev-undone}

-- The device at address 500 has number 9, that at 600 number 8.
abbrev ids : ℕ → ℕ
ids dev = if dev == 500 then 9 else 8

abbrev cells : Cells
cells = (8, 500) ∷ []

abbrev heap : Heap
heap a = if a == 8 then some (node 500 0) else none

abbrev store : Store
store = record { cells = heap; errors = record { errno = 0; panic_level = 2 } }

table-IsList : IsList heap (klist 8 1) cells
table-IsList = record { head = refl; count = refl; chain = (λ e. omega (arith, e), refl, refl, tt) }

new_number : any (has_id ids 8) cells ≡ false
unfolding any
new_number = refl

abbrev no_ops : FileOperations
no_ops = record {
  open_file = 0;
  release = 0;
  flush = 0;
  read = 1;
  write = 0;
  lseek = 0;
  ioctl = 0;
  readdir = 0;
}

abbrev chars : ℕ → CharDevice
chars p = record { devid = ids p; name = 0; fops = no_ops }

abbrev addresses : Fresh
addresses = record { chr = 700; name = 710; node = 16; path = 720 }

addresses-IsFresh : IsFresh addresses cells
addresses-IsFresh = record {
  chr = λ e. omega (arith, e);
  name = λ e. omega (arith, e);
  node = λ e. omega (arith, e);
  path = λ e. omega (arith, e);
  path_name = λ e. omega (arith, e);
  path_chr = λ e. omega (arith, e);
  new_node = refl;
  new_value = refl;
}

abbrev refuse : List ℕ → ℕ → ℕ → ℤ
refuse path mode devid = minus_one

undone_example :
    (l'' : KList) × (h : Heap) × (dev_register_char_dev refuse 5 addresses 8
        (116 ∷ [])
        no_ops
        (table store (klist 8 1) chars [])
      ≡ ok minus_one (table (with_cells store h) l'' (written addresses 8 no_ops chars) []))
    × IsList h l'' cells
undone_example =
    dev_register_char_dev-undone refuse 5 8 addresses (116 ∷ []) no_ops store (klist 8 1) chars []
      cells table-IsList addresses-IsFresh (omega arith) new_number refl
