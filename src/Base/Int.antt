-- ===== src/Base/Int.antt =====
-- Signed integers over the native numbers, and Go's `int64` arithmetic on them.
use Prim.Native.Nat.{ℕ, zero, suc, ◌-◌, ◌*◌, ◌/◌, ◌%◌, ◌^◌}
use mathlib.Core.Bool.{Bool, true, false}
use feeds_server.Base.Tests.{ltb, eqb, if◌then◌else◌}

-- `negsuc n` is -(n + 1).
pub data ℤ : Type 0 where
  pos : ℕ → ℤ
  negsuc : ℕ → ℤ

abbrev pub minus_one : ℤ
minus_one = negsuc 0

abbrev pub neg : ℕ → ℤ
neg zero = pos 0
neg (suc n) = negsuc n

-- `a < b`
abbrev pub ltz : ℤ → ℤ → Bool
ltz (pos a) (pos b) = ltb a b
ltz (pos a) (negsuc b) = false
ltz (negsuc a) (pos b) = true
ltz (negsuc a) (negsuc b) = ltb b a

-- `a == 0`
abbrev pub is_zero : ℤ → Bool
is_zero (pos a) = eqb a 0
is_zero (negsuc a) = false

-- `a < 0`
abbrev pub is_negative : ℤ → Bool
is_negative (pos a) = false
is_negative (negsuc a) = true

abbrev pub ◌*ℤ◌ : ℤ → ℤ → ℤ
◌*ℤ◌ (pos a) (pos b) = pos (a * b)
◌*ℤ◌ (pos a) (negsuc b) = neg (a * suc b)
◌*ℤ◌ (negsuc a) (pos b) = neg (suc a * b)
◌*ℤ◌ (negsuc a) (negsuc b) = pos (suc a * suc b)

-- The integer that 64 bits stand for, in two's complement.
abbrev pub of_bits : ℕ → ℤ
of_bits x = if ltb x (2 ^ 63) then pos x else negsuc (2 ^ 64 - 1 - x)

abbrev pub wrap_int64 : ℤ → ℤ
wrap_int64 (pos n) = of_bits (n % 2 ^ 64)
wrap_int64 (negsuc n) = of_bits (2 ^ 64 - 1 - n % 2 ^ 64)

-- `a * b` on `int64`.
unfoldable pub mul_int64 : ℤ → ℤ → ℤ
mul_int64 a b = wrap_int64 (◌*ℤ◌ a b)

-- Go's division of an `int64` by a positive constant, which truncates towards zero.
unfoldable pub quot : ℤ → ℕ → ℤ
quot (pos a) k = pos (a / k)
quot (negsuc a) k = neg (suc a / k)
