-- ===== src/Prelude/Word.antt =====
-- Go's fixed-width integers. A `uint64` is a number below 2 ^ 64. An `int64` is the bit pattern of
-- its two's complement, so that the conversions between the two leave the number alone.
use Prim.Native.Nat.{ℕ, ◌+◌, ◌-◌, ◌*◌, ◌%◌, ◌^◌, ◌≤◌, ◌<◌}
use mathlib.Core.Path.{◌≡◌}
use native.Mathlib.Omega.{arith}
use mathlib.Core.Bool.{Bool, true, false}
use bazel_buildbarn.Prelude.Tests.{leb}

abbrev pub add64 : ℕ → ℕ → ℕ
add64 a b = (a + b) % 2 ^ 64

abbrev pub sub64 : ℕ → ℕ → ℕ
sub64 a b = (a + 2 ^ 64 - b) % 2 ^ 64

abbrev pub mul64 : ℕ → ℕ → ℕ
mul64 a b = (a * b) % 2 ^ 64

-- `w < 0` of an `int64`
abbrev pub is_negative : ℕ → Bool
is_negative w = leb (2 ^ 63) w

-- `a <= b` of two `int64`s
abbrev pub leb_int64 : ℕ → ℕ → Bool
leb_int64 a b = leb ((a + 2 ^ 63) % 2 ^ 64) ((b + 2 ^ 63) % 2 ^ 64)

-- Numbers that are not negative are compared as they are.
pub leb_int64_holds : (a b : ℕ) → a < 2 ^ 63 → b < 2 ^ 63 → leb_int64 a b ≡ true → a ≤ b
leb_int64_holds a b fits fits' h = ground arith

pub leb_int64_fails : (a b : ℕ) → a < 2 ^ 63 → b < 2 ^ 63 → leb_int64 a b ≡ false → b < a
leb_int64_fails a b fits fits' h = ground arith
