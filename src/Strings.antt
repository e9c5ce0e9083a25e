-- ===== src/Strings.antt =====
-- src/kernel/string.c: strings and blocks of memory. The memory is its bytes by address, and a
-- `char` is compared as the signed number that it is. A walk to the end of a string runs on fuel; a
-- walk over `count` bytes recurs on the bytes that are left. Addresses are not wrapped at 2^32:
-- strings and blocks lie inside the memory. `sprintf` is not part of this model.
pub mod Blocks
pub mod Walk
pub mod Compare
pub mod Digits
pub mod Tokens
mod Tests
use rtc_driver.Base.{
  ℕ, zero, suc, ◌+◌, ◌-◌, ◌/◌, ◌%◌, Bool, true, false, ◌||◌, List, [], ◌∷◌, ◌++◌, ltb, leb, ◌==◌,
  if◌then◌else◌, length, replicate, get_or,
}
use rtc_driver.Base.Int.{ℤ, pos, minus_one}
use rtc_driver.Base.Run.{Run, ok, fault, hang, Cmd, and_then}

abbrev pub Memory : Type 0
Memory = ℕ → ℕ

-- `*p = b`
unfoldable pub store : ℕ → ℕ → Memory → Memory
store p b mem a = if a == p then b else mem a

-- The order of signed bytes: -128 is the least.
unfoldable pub signed_lt : ℕ → ℕ → Bool
signed_lt a b = ltb ((a + 128) % 256) ((b + 128) % 256)

unfoldable pub strlen_loop : ℕ → ℕ → ℕ → Cmd Memory ℕ
strlen_loop zero s c mem = hang
strlen_loop (suc k) s c mem =
    let rest = strlen_loop k s (c + 1) mem in if mem (s + c) == 0 then ok c mem else rest

unfoldable pub strlen : ℕ → ℕ → Cmd Memory ℕ
unfolding strlen_loop
strlen fuel s mem = strlen_loop fuel s 0 mem

unfoldable pub memset_loop : ℕ → ℕ → ℕ → ℕ → Memory → Memory
unfolding store
memset_loop zero p value i mem = mem
memset_loop (suc n) p value i mem = memset_loop n p value (i + 1) (store (p + i) value mem)

unfoldable pub memset : ℕ → ℕ → ℕ → Memory → Memory
memset p value count mem = memset_loop count p value 0 mem

unfoldable pub memcpy_loop : ℕ → ℕ → ℕ → ℕ → Memory → Memory
unfolding store
memcpy_loop zero dst src i mem = mem
memcpy_loop (suc n) dst src i mem =
    memcpy_loop n dst src (i + 1) (store (dst + i) (mem (src + i)) mem)

unfoldable pub memcpy : ℕ → ℕ → ℕ → Memory → Memory
memcpy dst src count mem = memcpy_loop count dst src 0 mem

unfoldable pub memcmp_loop : ℕ → ℕ → ℕ → ℕ → Memory → ℤ
unfolding signed_lt
memcmp_loop zero p q i mem = pos 0
memcmp_loop (suc n) p q i mem =
    let rest = memcmp_loop n p q (i + 1) mem in
    if signed_lt (mem (p + i)) (mem (q + i))
    then minus_one
    else if signed_lt (mem (q + i)) (mem (p + i))
    then pos 1
    else rest

unfoldable pub memcmp : ℕ → ℕ → ℕ → Memory → ℤ
memcmp p q count mem = memcmp_loop count p q 0 mem

unfoldable pub strcmp_loop : ℕ → ℕ → ℕ → ℕ → Cmd Memory ℤ
unfolding signed_lt
strcmp_loop zero s z i mem = hang
strcmp_loop (suc k) s z i mem =
    let rest = strcmp_loop k s z (i + 1) mem in
    if signed_lt (mem (s + i)) (mem (z + i))
    then ok minus_one mem
    else if signed_lt (mem (z + i)) (mem (s + i))
    then ok (pos 1) mem
    else if mem (s + i) == 0
    then ok (pos 0) mem
    else rest

unfoldable pub strcmp : ℕ → ℕ → ℕ → Cmd Memory ℤ
strcmp fuel s z mem = strcmp_loop fuel s z 0 mem

unfoldable pub strcpy_loop : ℕ → ℕ → ℕ → ℕ → Cmd Memory (Unit {0})
unfolding store
strcpy_loop zero dst src i mem = hang
strcpy_loop (suc k) dst src i mem =
    let rest = strcpy_loop k dst src (i + 1) (store (dst + i) (mem (src + i)) mem) in
    if mem (src + i) == 0 then ok tt (store (dst + i) 0 mem) else rest

unfoldable pub strcpy : ℕ → ℕ → ℕ → Cmd Memory (Unit {0})
strcpy fuel dst src mem = strcpy_loop fuel dst src 0 mem

unfoldable pub strchr : ℕ → ℕ → ℕ → Cmd Memory ℕ
strchr zero s c mem = hang
strchr (suc k) s c mem =
    let rest = strchr k (s + 1) c mem in
    if mem s == 0 then ok 0 mem else if mem s == c then ok s mem else rest

unfoldable pub strrchr_loop : ℕ → ℕ → ℕ → ℕ → Cmd Memory ℕ
strrchr_loop zero p s c mem = hang
strrchr_loop (suc k) p s c mem =
    let rest = strrchr_loop k (if mem s == c then s else p) (s + 1) c mem in
    if mem s == 0 then ok p mem else rest

unfoldable pub strrchr : ℕ → ℕ → ℕ → Cmd Memory ℕ
strrchr fuel s c mem = strrchr_loop fuel 0 s c mem

-- `itoa`. The list `tmp` holds the array of that name from the last character written down to the
-- first, which is how it is copied to `buf`.
unfoldable pub digit_char : ℕ → ℕ
digit_char r = if ltb r 10 then 48 + r else 87 + r

abbrev pub num_buf_len : ℕ
num_buf_len = 65

-- Division by 0 and an index out of `map` or `tmp` are faults.
unfoldable pub digits_loop : ℕ → ℕ → ℕ → List ℕ → Cmd Memory (List ℕ)
unfolding digit_char
digits_loop zero i base tmp = λ _. hang
digits_loop (suc k) i base tmp = λ mem.
    let rest = digits_loop k (i / base) base (digit_char (i % base) ∷ tmp) mem in
    if i == 0
    then ok tmp mem
    else if (base == 0) || leb 16 (i % base) || leb num_buf_len (length tmp)
    then fault
    else rest

unfoldable pub digits : ℕ → ℕ → Cmd Memory (List ℕ)
unfolding digits_loop
digits i base = if i == 0 then (λ mem. ok (48 ∷ []) mem) else digits_loop 33 i base []

-- The prefix of the base; for another base than the four, the null at `tmp[c]`.
unfoldable pub with_prefix : ℕ → List ℕ → List ℕ
with_prefix base tmp =
    if (base == 2) || (base == 10)
    then tmp
    else if base == 8
    then 48 ∷ tmp
    else if base == 16
    then 48 ∷ 120 ∷ tmp
    else 0 ∷ tmp

unfoldable pub write_string : List ℕ → ℕ → Memory → Memory
unfolding store
write_string [] p mem = store p 0 mem
write_string (x ∷ xs) p mem = write_string xs (p + 1) (store p x mem)

unfoldable pub itoa : ℕ → ℕ → ℕ → ℕ → Cmd Memory (Unit {0})
unfolding digits with_prefix write_string
itoa i base buf padding mem = and_then (digits i base mem) (λ tmp m.
    let all = with_prefix base (replicate (padding - length tmp) 0 ++ tmp) in
    if ltb num_buf_len (length all) then fault else ok tt (write_string all buf m))
