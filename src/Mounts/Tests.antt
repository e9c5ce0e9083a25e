-- ===== src/Mounts/Tests.antt =====
-- The file systems of the kernel, set up from a state of zeros with 30 pieces of memory.
use rtc_driver.Base.{ℕ, suc, zero, ◌+◌, ◌≡◌, refl, List, [], ◌∷◌, replicate}
use rtc_driver.Base.Int.{ℤ, pos}
use rtc_driver.Base.Run.{Run, ok, fault, hang, panic, Cmd}
use rtc_driver.Files.{Name, Files, MemSuper}
use rtc_driver.Files.Sample.{sample}
use rtc_driver.Memfs.Sb.{memfs_ft_get_sb, memfs_sb_mount}
use rtc_driver.Mounts.{mount_all}

abbrev none : ℕ → List ℕ → Cmd Files ℤ
none f args s = fault

abbrev no_text : Files → ℕ → Name
no_text s p = []

abbrev no_super : MemSuper
no_super = record { name = 0; text = []; devid = 0; flags = 0; nodes = []; last_ino = 0 }

abbrev count_from : ℕ → ℕ → List ℕ
count_from zero p = []
count_from (suc n) p = p ∷ count_from n (p + 1)

abbrev start : Files
start = record sample { answers = count_from 40 500; memfs_supers = replicate 5 no_super }

abbrev result : Run Files ℤ → ℤ
result (ok r s) = r
result fault = pos 100
result hang = pos 101
result panic = pos 102

mounted : result (mount_all none no_text 9 start) ≡ pos 0
unfolding mount_all memfs_ft_get_sb memfs_sb_mount
mounted = refl
