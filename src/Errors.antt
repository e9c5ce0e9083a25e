-- ===== src/Errors.antt =====
-- src/kernel/errors.c and src/kernel/include/errors.h: the error number and the panic level, two
-- `int` globals held by their bit patterns. What is printed on the screen is not part of the state.
-- `kernel_panic` stops the processor: the run ends in `panic`.
use rtc_driver.Base.{ℕ, ◌^◌, Bool, true, ltb, leb, if◌then◌else◌}
use rtc_driver.Base.Run.{ok, panic, Cmd}

pub record Errors : Type 0 where
  pub errno : ℕ
  pub panic_level : ℕ

abbrev pub e_nomem : ℕ
e_nomem = 1

abbrev pub e_nokobj : ℕ
e_nokobj = 2

abbrev pub e_nodev : ℕ
e_nodev = 4

abbrev pub e_corrupt : ℕ
e_corrupt = 3

abbrev pub e_io : ℕ
e_io = 5

abbrev pub e_access : ℕ
e_access = 6

abbrev pub e_badfd : ℕ
e_badfd = 7

abbrev pub e_busy : ℕ
e_busy = 8

abbrev pub e_noroot : ℕ
e_noroot = 9

abbrev pub e_invfs : ℕ
e_invfs = 10

abbrev pub e_mounted : ℕ
e_mounted = 11

abbrev pub e_notmounted : ℕ
e_notmounted = 12

abbrev pub e_noent : ℕ
e_noent = 13

abbrev pub e_exist : ℕ
e_exist = 15

abbrev pub e_nodir : ℕ
e_nodir = 16

abbrev pub e_limit : ℕ
e_limit = 17

abbrev pub e_nospace : ℕ
e_nospace = 18

abbrev pub e_notimp : ℕ
e_notimp = 19

abbrev pub e_inval : ℕ
e_inval = 20

abbrev pub panic_hysterical : ℕ
panic_hysterical = 0

abbrev pub panic_perror : ℕ
panic_perror = 1

-- A signed comparison with a small bound: a pattern with its top bit set is negative.
abbrev pub int_le : ℕ → ℕ → Bool
int_le w k = if ltb w (2 ^ 31) then leb w k else true

unfoldable pub kernel_panic : {A : Type 0} → Cmd Errors A
kernel_panic s = panic

unfoldable pub set_errno : ℕ → Cmd Errors (Unit {0})
unfolding kernel_panic
set_errno e s =
    let s' = record s { errno = e } in
    if int_le s'.panic_level panic_hysterical then kernel_panic s' else ok tt s'

unfoldable pub get_errno : Errors → ℕ
get_errno s = s.errno

unfoldable pub perror : Cmd Errors (Unit {0})
unfolding kernel_panic
perror s = if int_le s.panic_level panic_perror then kernel_panic s else ok tt s

unfoldable pub set_panic_level : ℕ → Cmd Errors (Unit {0})
set_panic_level level s = ok tt (record s { panic_level = level })

unfoldable pub get_panic_level : Errors → ℕ
get_panic_level s = s.panic_level
