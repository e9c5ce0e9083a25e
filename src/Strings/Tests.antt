-- ===== src/Strings/Tests.antt =====
-- Runs of string.c on a small memory: "ab" stands at 100 and "ac" at 200.
use rtc_driver.Base.{ℕ, zero, ◌≢◌, ◌+◌, ◌≡◌, inr, refl, arith, List, [], ◌∷◌, ◌==◌, if◌then◌else◌}
use rtc_driver.Base.Run.{ok}
use rtc_driver.Strings.{Memory, itoa}
use rtc_driver.Strings.Walk.{IsString}
use rtc_driver.Strings.Compare.{AreChars}
use rtc_driver.Strings.Tokens.{Tok, strtok}
use rtc_driver.Strings.Tokens.Cut.{Found, skipped, leading, strtok_lem}
use rtc_driver.Strings.Digits.{IsText, itoa_lem}

abbrev memory : Memory
memory a =
    if a == 100
    then 0x61
    else if a == 101
    then 0x62
    else if a == 200
    then 0x61
    else if a == 201
    then 0x63
    else 0

abbrev ab : List ℕ
ab = 0x61 ∷ 0x62 ∷ []

abbrev ac : List ℕ
ac = 0x61 ∷ 0x63 ∷ []

ab-IsString : IsString memory 100 ab
ab-IsString = (refl, λ e. omega (arith, e), (refl, λ e. omega (arith, e), refl))

ac-IsString : IsString memory 200 ac
ac-IsString = (refl, λ e. omega (arith, e), (refl, λ e. omega (arith, e), refl))

ab-AreChars : AreChars ab
ab-AreChars = (λ e. omega (arith, e), omega arith, (λ e. omega (arith, e), omega arith, tt))

ac-AreChars : AreChars ac
ac-AreChars = (λ e. omega (arith, e), omega arith, (λ e. omega (arith, e), omega arith, tt))

itoa_example :
    (ds : List ℕ) × (mem' : Memory) × (itoa 2019 16 300 0 memory ≡ ok tt mem')
    × IsText 2019 16 300 memory mem' ds
itoa_example = itoa_lem 2019 16 300 memory (inr (inr refl)) (omega arith)

abbrev words : Tok
words = record { mem = memory; ptr = 0 }

b_ne : 0x62 ≢ zero
b_ne e = omega (arith, e)

strtok_example :
    Found 0x62 b_ne words (skipped 0x62 ab) (100 + leading 0x62 ab) (strtok 3 100 0x62 words)
strtok_example = strtok_lem 0x62 b_ne words ab 3 100 100 refl ab-IsString (omega arith)
