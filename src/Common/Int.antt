-- ===== src/Common/Int.antt =====
-- The signed integers of C, and their conversion to 64-bit words.
use Prim.Native.Nat.{ℕ, ◌+◌, ◌-◌, ◌%◌, ◌^◌, ◌<◌}
use mathlib.Core.Bool.{Bool, false}
use native.Mathlib.Omega.{arith}
use ccoreconf_zcbor.Common.Tests.{ltb, ◌==◌ as nat_eq, if◌then◌else◌}

-- `negsuc n` is -(n + 1).
pub data ℤ : Type 0 where
  pos : ℕ → ℤ
  negsuc : ℕ → ℤ

-- the conversion of a signed integer to `uint64_t`
unfoldable pub to_uint64 : ℤ → ℕ
to_uint64 (pos n) = n % 2 ^ 64
to_uint64 (negsuc n) = 2 ^ 64 - 1 - n % 2 ^ 64

pub to_uint64-lt : (z : ℤ) → to_uint64 z < 2 ^ 64
unfolding to_uint64
to_uint64-lt (pos n) = omega arith
to_uint64-lt (negsuc n) = omega arith

-- the conversion of a `uint64_t` to `int64_t`
unfoldable pub to_int64 : ℕ → ℤ
to_int64 n = if ltb n (2 ^ 63) then pos n else negsuc (2 ^ 64 - 1 - n)

-- the difference of two `int64_t`, as a `uint64_t`
unfoldable pub sub_uint64 : ℤ → ℤ → ℕ
unfolding to_uint64
sub_uint64 a b = (to_uint64 a + 2 ^ 64 - to_uint64 b) % 2 ^ 64

-- the sum of a `uint64_t` and an `int64_t`, as an `int64_t`
unfoldable pub add_int64 : ℕ → ℤ → ℤ
unfolding to_uint64 to_int64
add_int64 n z = to_int64 ((n + to_uint64 z) % 2 ^ 64)

unfoldable pub int_eq : ℤ → ℤ → Bool
int_eq (pos a) (pos b) = nat_eq a b
int_eq (negsuc a) (negsuc b) = nat_eq a b
int_eq (pos a) (negsuc b) = false
int_eq (negsuc a) (pos b) = false
