-- ===== src/Prelude/Int.antt =====
-- The `int` values that the code tests for a sign: descriptors, counts, error codes.
use Prim.Native.Nat.{ℕ, ◌-◌}
use mathlib.Core.Bool.{Bool, true, false}
use ftpserv_u.Prelude.Tests.{leb, if◌then◌else◌}

-- `negsuc n` is -(n + 1).
pub data ℤ : Type 0 where
  pos : ℕ → ℤ
  negsuc : ℕ → ℤ

-- a - b, as an integer.
abbrev pub sub_ℕ : ℕ → ℕ → ℤ
sub_ℕ a b = if leb b a then pos (a - b) else negsuc (b - a - 1)

-- The test `x < 0`.
abbrev pub is_neg : ℤ → Bool
is_neg (pos n) = false
is_neg (negsuc n) = true
