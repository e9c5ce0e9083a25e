-- ===== src/Strings/Tokens.antt =====
-- `strtok`, the splitting of a string in place.
pub mod Cut
use rtc_driver.Base.{ℕ, zero, suc, ◌+◌, ◌≡◌, ◌==◌, if◌then◌else◌, List, [], ◌∷◌}
use rtc_driver.Base.Run.{ok, hang, Cmd, ◌>>=◌}
use rtc_driver.Strings.{Memory, store}

-- The memory and the static variable `ptr`.
pub record Tok : Type 0 where
  pub mem : Memory
  pub ptr : ℕ

-- The loop over leading delimiters, and the one to the next.
unfoldable pub skip_loop : ℕ → ℕ → ℕ → Cmd Tok ℕ
skip_loop zero delim p = λ _. hang
skip_loop (suc k) delim p = λ s.
    let rest = skip_loop k delim (p + 1) s in
    if s.mem p == delim then (if s.mem p == 0 then ok p s else rest) else ok p s

unfoldable pub word_loop : ℕ → ℕ → ℕ → Cmd Tok ℕ
word_loop zero delim p = λ _. hang
word_loop (suc k) delim p = λ s.
    let rest = word_loop k delim (p + 1) s in
    if s.mem p == delim then ok p s else if s.mem p == 0 then ok p s else rest

-- The end of a word: a delimiter there becomes a null, and `ptr` goes behind it.
unfoldable pub cut : ℕ → Tok → Tok
unfolding store
cut e s =
    if s.mem e == 0
    then record { mem = s.mem; ptr = e }
    else record { mem = store e 0 s.mem; ptr = e + 1 }

-- `str` is 0 to go on with the last string.
unfoldable pub strtok : ℕ → ℕ → ℕ → Cmd Tok ℕ
unfolding skip_loop word_loop cut
strtok fuel str delim s =
    (skip_loop fuel delim (if str == 0 then s.ptr else str) >>= λ p s'.
    let found = (word_loop fuel delim p >>= λ e s''. ok p (cut e s'')) s' in
    if s'.mem p == 0 then ok 0 (record s' { ptr = p }) else found)
      s
