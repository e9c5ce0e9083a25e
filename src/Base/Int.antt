-- ===== src/Base/Int.antt =====
-- C integers with a sign, where code compares or returns one. `negsuc n` is -(n + 1).
use Prim.Native.Nat.{ℕ}

pub data ℤ : Type 0 where
  pos : ℕ → ℤ
  negsuc : ℕ → ℤ

-- The status that most functions of the kernel return on failure.
abbrev pub minus_one : ℤ
minus_one = negsuc 0
