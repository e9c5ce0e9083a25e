-- ===== src/Files/Fail.antt =====
-- Errors of the file systems: `set_errno` returns unless the panic level stops the kernel.
use rtc_driver.Base.{ℕ, ◌≡◌, false, arith}
use rtc_driver.Base.Run.{ok}
use rtc_driver.Errors.{int_le, panic_hysterical, set_errno}
use rtc_driver.Files.{Files, fail}

abbrev pub IsCalm : Files → Type 0
IsCalm s = int_le s.errors.panic_level panic_hysterical ≡ false

abbrev pub with_errno : ℕ → Files → Files
with_errno e s = record s { errors = record s.errors { errno = e } }

pub fail-ok :
    {A : Type 0} (e : ℕ) (a : A) (s : Files) → IsCalm s → fail e a s ≡ ok a (with_errno e s)
unfolding fail set_errno
fail-ok e a s calm = ground arith
