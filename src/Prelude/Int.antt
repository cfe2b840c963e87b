-- ===== src/Prelude/Int.antt =====
-- Go's `int` where a value may be negative: the sort order of a group.
use Prim.Native.Nat.{ℕ, ◌-◌, ◌^◌}
use mathlib.Core.Bool.{Bool, true, false}
use masonic_core.Prelude.Tests.{ltb}

-- `negsuc n` is -(n + 1).
pub data ℤ : Type 0 where
  pos : ℕ → ℤ
  negsuc : ℕ → ℤ

-- The bounds of an `integer` column.
abbrev pub int4_max : ℕ
int4_max = 2 ^ 31 - 1

-- Out of the range from -2^31 to 2^31 - 1.
abbrev pub beyond_int4 : ℤ → Bool
beyond_int4 (pos n) = ltb int4_max n
beyond_int4 (negsuc n) = ltb int4_max n

unfoldable pub ltb_int : ℤ → ℤ → Bool
ltb_int (pos a) (pos b) = ltb a b
ltb_int (pos a) (negsuc b) = false
ltb_int (negsuc a) (pos b) = true
ltb_int (negsuc a) (negsuc b) = ltb b a
