-- ===== src/Value/Number.antt =====
-- src/coreconfTypes.c: `getCoreconfValueAsUint64`.
use ccoreconf_zcbor.Common.{ℕ, ◌+◌, ◌-◌, ◌*◌, ◌/◌, ◌%◌, ◌^◌, Bool, ltb, leb, ◌==◌, if◌then◌else◌}
use ccoreconf_zcbor.Common.Int.{to_uint64}
use ccoreconf_zcbor.Value.{
  Value, real, int_8, int_16, int_32, int_64, uint_8, uint_16, uint_32, uint_64,
}

-- `d >= 0` for a double by its bits: the sign is off and it is no NaN, or it is -0.
unfoldable pub double_nonneg : ℕ → Bool
double_nonneg d = if ltb d (2 ^ 63) then leb d (2047 * 2 ^ 52) else d == 2 ^ 63

-- The conversion to `uint64_t` of a double that is at least 0. From 2^64 on C leaves it open; here
-- it wraps.
unfoldable pub double_to_uint64 : ℕ → ℕ
double_to_uint64 d =
    let exponent = d / 2 ^ 52 % 2048 in
    let mantissa = 2 ^ 52 + d % 2 ^ 52 in
    if ltb exponent 1023
    then 0
    else if leb exponent 1075
    then mantissa / 2 ^ (1075 - exponent)
    else mantissa * 2 ^ (exponent - 1075) % 2 ^ 64

unfoldable pub get_coreconf_value_as_uint64 : Value → ℕ
unfolding double_nonneg double_to_uint64 to_uint64
get_coreconf_value_as_uint64 (int_64 z) = to_uint64 z
get_coreconf_value_as_uint64 (real d) = if double_nonneg d then double_to_uint64 d else 0
get_coreconf_value_as_uint64 (int_16 z) = to_uint64 z
get_coreconf_value_as_uint64 (int_32 z) = to_uint64 z
get_coreconf_value_as_uint64 (int_8 z) = to_uint64 z
get_coreconf_value_as_uint64 (uint_64 n) = n
get_coreconf_value_as_uint64 (uint_16 n) = n
get_coreconf_value_as_uint64 (uint_32 n) = n
get_coreconf_value_as_uint64 (uint_8 n) = n
get_coreconf_value_as_uint64 _ = 0
