-- ===== src/Files/Fn.antt =====
-- The addresses of the functions of src/kernel/fs/memfs.c that the structures of vfs.h point to; 0
-- is NULL. Their values are not used but to tell them apart.
use rtc_driver.Base.{ℕ}

abbrev pub lookup : ℕ
lookup = 1

abbrev pub create : ℕ
create = 2

abbrev pub mkdir : ℕ
mkdir = 3

abbrev pub mknod : ℕ
mknod = 4

abbrev pub open_file : ℕ
open_file = 5

abbrev pub release : ℕ
release = 6

abbrev pub flush : ℕ
flush = 7

abbrev pub read : ℕ
read = 8

abbrev pub write : ℕ
write = 9

abbrev pub readdir : ℕ
readdir = 10

abbrev pub read_vnode : ℕ
read_vnode = 11

abbrev pub destroy_vnode : ℕ
destroy_vnode = 12

abbrev pub mount : ℕ
mount = 13

abbrev pub unmount : ℕ
unmount = 14

abbrev pub get_sb : ℕ
get_sb = 15

abbrev pub kill_sb : ℕ
kill_sb = 16
