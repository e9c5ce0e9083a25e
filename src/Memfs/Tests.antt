-- ===== src/Memfs/Tests.antt =====
-- Runs of the memory file system on a small state.
use rtc_driver.Base.{◌≡◌, inl, inr, refl, arith, [], ◌∷◌, get_elem?, some}
use rtc_driver.Base.Int.{pos}
use rtc_driver.Base.Run.{ok}
use rtc_driver.Files.{Files, MemSuper, update}
use rtc_driver.Files.Sample.{sample, open_file, a_entry}
use rtc_driver.Memfs.{memfs_ino_mknod, memfs_ino_lookup, memfs_node_lookup}
use rtc_driver.Memfs.Data.{signed, memfs_file_read, memfs_file_write}
use rtc_driver.Memfs.Write.{IsWritten, memfs_file_write_lem}
use rtc_driver.Memfs.Read.{IsRead, memfs_file_read_lem}
use rtc_driver.Memfs.Mknod.{
  IsFresh, IsNumbered, memfs_ino_lookup-memfs_ino_mknod, memfs_ino_mknod_lem,
}

-- Five bytes at position 2 of a file of four, which grows to seven at 200.
write_example :
    (s' : Files) × (memfs_file_write 80 300 5 sample ≡ ok (signed 5) s')
    × IsWritten sample s' 61 300 2 5
    × (s'.files ≡ update sample.files 80 (record open_file { f_pos = 7 }))
    × (s'.vnodes ≡ sample.vnodes)
    × (s'.errors ≡ sample.errors)
write_example = memfs_file_write_lem sample 80 300 5 (omega arith) (
    inr (
      omega arith,
      200,
      201 ∷ 202 ∷ 203 ∷ 204 ∷ [],
      refl,
      omega arith,
      inl (omega arith),
      inl (omega arith),
    ))

abbrev full : Files
full = record sample { answers = 0 ∷ [] }

-- Two of five bytes are left.
content_example :
    (s' : Files) × (memfs_file_read 80 300 5 sample ≡ ok (signed 2) s')
    × IsRead sample s' 61 300 2 2
    × (s'.files ≡ update sample.files 80 (record open_file { f_pos = 4 }))
    × (s'.vnodes ≡ sample.vnodes)
    × (s'.mem_nodes ≡ sample.mem_nodes)
content_example =
    memfs_file_read_lem sample 80 300 5 2 (omega arith) (omega arith) (omega arith)
      (inl (omega arith))

abbrev fresh : IsFresh sample 60 200 201 202 203 204 []
fresh = record {
  given = refl;
  node = omega arith;
  node_cell = omega arith;
  entry = omega arith;
  name = omega arith;
  entry_cell = omega arith;
  new_node = omega arith;
  new_entry = tt;
}

mknod_example :
    (s' : Files) × (memfs_ino_mknod 9 91 a_entry 0x21ff 7 sample
      ≡ ok (pos 0, record a_entry { d_vno = 3 }) s')
    × (memfs_ino_lookup 91 a_entry s' ≡ ok (pos 0, record a_entry { d_vno = 3 }) s')
mknod_example =
    memfs_ino_lookup-memfs_ino_mknod sample 9 91 0x21ff 7 0 a_entry 200 201 202 203 204 [] refl refl
      fresh (omega arith) tt a_entry refl

counter_example :
    (s' : Files) × (ms' : MemSuper) × (memfs_ino_mknod 9 91 a_entry 0x21ff 7 sample
      ≡ ok (pos 0, record a_entry { d_vno = 3 }) s')
    × (get_elem? s'.memfs_supers 0 ≡ some ms')
    × (memfs_node_lookup ms' 3 s' ≡ 200)
    × ((s'.mem_nodes 200).mode ≡ 0x21ff)
    × ((s'.mem_nodes 200).devid ≡ 7)
    × IsNumbered s' ms'
counter_example =
    memfs_ino_mknod_lem sample 9 91 0x21ff 7 0 a_entry 200 201 202 203 204 [] refl refl fresh
      (omega arith) tt (omega arith) (omega arith) (omega arith)
