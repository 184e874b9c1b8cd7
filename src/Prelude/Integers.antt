-- ===== src/Prelude/Integers.antt =====
-- `i64`, of which the program compares and prints values only.
use Prim.Native.Nat.{ℕ}
use mathlib.Core.Bool.{Bool, false}
use market_stream_gateway.Prelude.Tests.{eqb}

pub data ℤ : Type 0 where
  pos : ℕ → ℤ
  negsuc : ℕ → ℤ

-- Is it the number that is not negative?
abbrev pub is_number : ℕ → ℤ → Bool
is_number n (pos m) = eqb m n
is_number n (negsuc m) = false
