-- ===== src/Client/Scan.antt =====
-- iot_containers/iot_apps/coreconf_cli.c: the numbers that the command line reads, with what stands
-- behind them.
use ccoreconf_zcbor.Common.{
  ℕ, ◌+◌, ◌-◌, ◌*◌, List, [], ◌∷◌, Bool, true, false, Option, none, some, ◌==◌, if◌then◌else◌,
}
use ccoreconf_zcbor.Delete.{is_digit, skip_spaces, saturate}

-- the digits at the front, behind the value of those read before
unfoldable pub take_digits : ℕ → List ℕ → ℕ × List ℕ
take_digits n [] = (n, [])
take_digits n (c ∷ text) =
    let more = take_digits (n * 10 + (c - b'0')) text in if is_digit c then more else (n, c ∷ text)

unfoldable pub unsigned_at : Bool → List ℕ → Option (ℕ × List ℕ)
unfolding take_digits saturate
unsigned_at negative [] = none
unsigned_at negative (c ∷ text) =
    let (n, rest) = take_digits 0 (c ∷ text) in
    if is_digit c then some (saturate negative n, rest) else none

unfoldable pub signed_at : List ℕ → Option (ℕ × List ℕ)
unfolding unsigned_at
signed_at [] = none
signed_at (c ∷ text) =
    if c == b'-'
    then unsigned_at true text
    else if c == b'+'
    then unsigned_at false text
    else unsigned_at false (c ∷ text)

-- `strtoull` with its end pointer, and `%llu` of `sscanf`: `none` where nothing is read
unfoldable pub strtoull_end : List ℕ → Option (ℕ × List ℕ)
unfolding signed_at skip_spaces
strtoull_end text = signed_at (skip_spaces text)
