-- ===== src/Memfs/Data.antt =====
-- src/kernel/fs/memfs.c: reading, writing and listing an open file. Offsets and sizes are 32 bits
-- wide, so that the end of an access wraps; addresses are not wrapped.
use rtc_driver.Base.{
  ℕ, ◌+◌, ◌-◌, ◌%◌, ◌^◌, Bool, ltb, leb, ◌==◌, if◌then◌else◌, get_elem?, none, some,
}
use rtc_driver.Base.Int.{ℤ, pos, negsuc, minus_one}
use rtc_driver.Base.Run.{ok, fault, Cmd, pure, and_then, ◌>>=◌}
use rtc_driver.Strings.{memset, memcpy}
use rtc_driver.Errors.{e_nospace}
use rtc_driver.Files.{Files, update, kalloc, kfree, fail}

-- The conversion of an unsigned number to `ssize_t`.
unfoldable pub signed : ℕ → ℤ
signed n = if ltb n (2 ^ 31) then pos n else negsuc (2 ^ 32 - 1 - n)

-- The node behind an open file.
abbrev pub node_at : ℕ → Files → ℕ
node_at file s = (s.vnodes (s.files file).f_vnode).private_node

unfoldable pub set_pos : ℕ → ℕ → Files → Files
unfolding update
set_pos file off s = record s {
  files = update s.files file (record (s.files file) { f_pos = off });
}

-- The bytes that are read: none at the end, and those that there are.
unfoldable pub readable : ℕ → ℕ → ℕ → ℕ
readable size off count = if ltb size ((off + count) % 2 ^ 32) then size - off else count

-- A copy whose end, counted from the file's bytes, is at 2^32 or behind leaves their block, and
-- memory.
unfoldable pub memfs_file_read : ℕ → ℕ → ℕ → Cmd Files ℤ
unfolding readable set_pos signed
memfs_file_read file buf count s =
    let mn = s.mem_nodes (node_at file s) in
    let off = (s.files file).f_pos in
    let n = readable mn.size off count in
    if leb mn.size off
    then ok (pos 0) s
    else if leb (2 ^ 32) (off + n)
    then fault
    else ok (signed n)
        (set_pos file ((off + n) % 2 ^ 32) (record s { mem = memcpy buf (mn.bytes + off) n s.mem }))

-- The larger block: cleared, and the old bytes copied to its start.
unfoldable pub grow : ℕ → ℕ → Cmd Files Bool
unfolding kalloc kfree update
grow node size = kalloc >>= λ p s.
    let mn = s.mem_nodes node in
    if p == 0
    then ok Bool.false s
    else and_then
        (kfree mn.bytes (record s { mem = memcpy p mn.bytes mn.size (memset p 0 size s.mem) }))
        (λ _ s'. ok Bool.true (record s' {
          mem_nodes = update s'.mem_nodes node (record mn { bytes = p; size = size });
        }))

unfoldable pub memfs_file_write : ℕ → ℕ → ℕ → Cmd Files ℤ
unfolding grow set_pos signed fail
memfs_file_write file buf count s =
    let node = node_at file s in
    let off = (s.files file).f_pos in
    let last = (off + count) % 2 ^ 32 in
    and_then ((if ltb (s.mem_nodes node).size last then grow node last else pure Bool.true) s)
      (λ done s'.
        if done
        then if leb (2 ^ 32) (off + count)
          then fault
          else ok (signed count) (
              set_pos file last
                (record s' { mem = memcpy ((s'.mem_nodes node).bytes + off) buf count s'.mem }))
        else fail e_nospace minus_one s')

-- The address of the next name, or NULL. An offset from 2^31 on is a negative index for list_get,
-- which returns the first value, and loads at NULL where there is none.
unfoldable pub memfs_file_readdir : ℕ → Cmd Files ℕ
unfolding set_pos
memfs_file_readdir file s =
    let off = (s.files file).f_pos in
    let i = if ltb off (2 ^ 31) then off else 0 in
    elim (get_elem? (s.mem_nodes (node_at file s)).dentries i) [
      | none ↦ if ltb off (2 ^ 31) then ok 0 s else fault
      | some md ↦ ok (s.mem_dentries md).name (set_pos file ((off + 1) % 2 ^ 32) s)
    ]
