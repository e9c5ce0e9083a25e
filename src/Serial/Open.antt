-- ===== src/Serial/Open.antt =====
-- A device is opened by one user at a time.
use rtc_driver.Base.{
  ℕ, ◌≡◌, refl, sym, ap, true, false, inl, inr, Bool-cases, none, some, Option-cases, List, [], ◌∷◌,
  ◌++◌, arith, ◌==◌, length, get_elem?, set,
}
use rtc_driver.Base.Int.{pos, minus_one}
use rtc_driver.Base.Run.{ok}
use rtc_driver.Errors.{set_errno, int_le, panic_hysterical}
use rtc_driver.Serial.{Device, flag_unused, flag_in_use, e_nodev, e_busy}
use rtc_driver.Serial.File.{
  Files, fail, find_device, open_found, release_found, serial_open, serial_release,
}

abbrev pub files : List Device → ℕ → ℕ → Files
files ds errno level = record {
  devices = ds;
  errors = record { errno = errno; panic_level = level };
}

abbrev pub flagged : Device → ℕ → Device
flagged d w = record d { flags = w }

fail_lem :
    {A : Type 0} (e : ℕ) (a : A) (ds : List Device) (errno level : ℕ)
    → int_le level panic_hysterical ≡ false
    → fail e a (files ds errno level) ≡ ok a (files ds e level)
unfolding fail set_errno
fail_lem e a ds errno level h = rw h refl

find_device-append :
    (v_dev : ℕ) (xs : List Device) (d : Device) (ys : List Device)
    → find_device v_dev xs ≡ none
    → d.devid ≡ v_dev
    → find_device v_dev (xs ++ d ∷ ys) ≡ some (length xs, d)
unfolding find_device
find_device-append v_dev [] d ys h e =
    let same : (v_dev == d.devid) ≡ true = ground arith in rw same refl
find_device-append v_dev (x ∷ xs) d ys h e = elim (Bool-cases (v_dev == x.devid)) [
  | inl here ↦ absurd (grind arith)
  | inr there ↦ elim (Option-cases (find_device v_dev xs)) [
    | inl k ↦ rw there (rw (find_device-append v_dev xs d ys k e) refl)
    | inr (p, k) ↦ absurd (grind arith)
  ]
]

module _ {A : Type 0} where
  get_elem?-append :
      (xs : List A) (d : A) (ys : List A) → get_elem? (xs ++ d ∷ ys) (length xs) ≡ some d
  get_elem?-append [] d ys = refl
  get_elem?-append (x ∷ xs) d ys = get_elem?-append xs d ys

  set-append :
      (xs : List A) (d e : A) (ys : List A) → set (xs ++ d ∷ ys) (length xs) e ≡ xs ++ e ∷ ys
  set-append [] d e ys = refl
  set-append (x ∷ xs) d e ys = ap (λ t. x ∷ t) (set-append xs d e ys)

-- Where errors do not panic and the first device of a number is unused: opening the number
-- returns 0 and that device, opening it again fails with E_BUSY and changes no device, and
-- releasing what was opened gives every device the members that it had.
pub serial_open-serial_release :
    (v_dev : ℕ) (xs : List Device) (d : Device) (ys : List Device) (errno level : ℕ)
    → int_le level panic_hysterical ≡ false
    → find_device v_dev xs ≡ none
    → d.devid ≡ v_dev
    → d.flags ≡ flag_unused
    → let opened = xs ++ flagged d flag_in_use ∷ ys in
      (serial_open v_dev (files (xs ++ d ∷ ys) errno level)
        ≡ ok (pos 0, some (length xs)) (files opened errno level))
      × (serial_open v_dev (files opened errno level)
          ≡ ok (minus_one, none) (files opened e_busy level))
      × (serial_release (length xs) (files opened e_busy level)
          ≡ ok (pos 0) (files (xs ++ d ∷ ys) e_busy level))
unfolding serial_open serial_release open_found release_found
serial_open-serial_release v_dev xs d ys errno level quiet first number unused =
    let used = flagged d flag_in_use in
    let free : (d.flags == flag_in_use) ≡ false = ground arith in
    let back : flagged used flag_unused ≡ d = ap (λ w. flagged d w) (sym unused) in
    (
      rw (find_device-append v_dev xs d ys first number)
          (rw free (rw (set-append xs d used ys) refl)),
      rw (find_device-append v_dev xs used ys first number)
          (fail_lem e_busy (minus_one, none) (xs ++ used ∷ ys) errno level quiet),
      rw (get_elem?-append xs used ys) (
          rw (set-append xs used (flagged used flag_unused) ys)
            (ap (λ e. ok (pos 0) (files (xs ++ e ∷ ys) e_busy level)) back)),
    )

-- Where errors do not panic, opening a number that no device has fails with E_NODEV and changes no
-- device.
pub serial_open-none :
    (v_dev : ℕ) (ds : List Device) (errno level : ℕ)
    → int_le level panic_hysterical ≡ false
    → find_device v_dev ds ≡ none
    → serial_open v_dev (files ds errno level) ≡ ok (minus_one, none) (files ds e_nodev level)
unfolding serial_open open_found
serial_open-none v_dev ds errno level quiet h =
    rw h (fail_lem e_nodev (minus_one, none) ds errno level quiet)
