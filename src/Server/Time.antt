-- ===== src/Server/Time.antt =====
-- iot_containers/iot_apps/coreconf_server.c: the time stamps of the reset action.
use ccoreconf_zcbor.Common.{
  ℕ, zero, suc, ◌+◌, ◌-◌, ◌*◌, List, [], ◌∷◌, Option, none, some, ltb, leb, ◌==◌, if◌then◌else◌,
  length,
}
use ccoreconf_zcbor.Common.Int.{ℤ, pos, negsuc}
use ccoreconf_zcbor.Delete.{is_digit, skip_spaces}

-- `struct tm`, the fields that are set
pub record Tm : Type 0 where
  pub tm_year : ℤ
  pub tm_mon : ℤ
  pub tm_mday : ℤ
  pub tm_hour : ℤ
  pub tm_min : ℤ
  pub tm_sec : ℤ

-- The calendar of the system. `utc_text` is what `gmtime_r` and `strftime` write of a time in the
-- form %Y-%m-%dT%H:%M:%SZ into a buffer that is long enough, `none` where `gmtime_r` fails.
pub record Clock : Type 0 where
  pub time : ℤ
  pub timegm : Tm → ℤ
  pub utc_text : ℤ → Option (List ℕ)

unfoldable pub minus : ℤ → ℕ → ℤ
minus (pos n) k = if leb k n then pos (n - k) else negsuc (k - n - 1)
minus (negsuc n) k = negsuc (n + k)

-- a time and three seconds
unfoldable pub three_later : ℤ → ℤ
three_later (pos n) = pos (n + 3)
three_later (negsuc n) = if ltb n 3 then pos (2 - n) else negsuc (n - 3)

-- the digits at the front, as many as the width allows, behind the value of those read before
unfoldable pub scan_more : ℕ → ℕ → List ℕ → ℕ × List ℕ
unfolding is_digit
scan_more zero n text = (n, text)
scan_more (suc width) n [] = (n, [])
scan_more (suc width) n (c ∷ text) =
    let more = scan_more width (n * 10 + (c - b'0')) text in
    if is_digit c then more else (n, c ∷ text)

unfoldable pub scan_digits : ℕ → List ℕ → Option (ℕ × List ℕ)
unfolding scan_more
scan_digits zero text = none
scan_digits (suc width) [] = none
scan_digits (suc width) (c ∷ text) =
    if is_digit c then some (scan_more (suc width) 0 (c ∷ text)) else none

unfoldable pub negated : ℕ → ℤ
negated zero = pos 0
negated (suc n) = negsuc n

unfoldable pub signed_number : (ℕ → ℤ) → Option (ℕ × List ℕ) → Option (ℤ × List ℕ)
signed_number f none = none
signed_number f (some (n, text)) = some (f n, text)

-- A sign counts as one of the places.
unfoldable pub scan_signed : ℕ → List ℕ → Option (ℤ × List ℕ)
unfolding scan_digits signed_number negated
scan_signed width [] = none
scan_signed width (c ∷ text) =
    if c == b'-'
    then signed_number negated (scan_digits (width - 1) text)
    else if c == b'+'
    then signed_number pos (scan_digits (width - 1) text)
    else signed_number pos (scan_digits width (c ∷ text))

-- `%<width>d` of `sscanf`
unfoldable pub scan_int : ℕ → List ℕ → Option (ℤ × List ℕ)
unfolding skip_spaces scan_signed
scan_int width text = scan_signed width (skip_spaces text)

-- a byte of the format that stands for itself
unfoldable pub scan_byte : ℕ → List ℕ → Option (List ℕ)
scan_byte b [] = none
scan_byte b (c ∷ text) = if c == b then some text else none

infixl 5 ◌>>=◌
abbrev ◌>>=◌ {ℓ κ} : {A : Type ℓ} {B : Type κ} → Option A → (A → Option B) → Option B
none >>= f = none
some a >>= f = f a

-- The fields of a text %4d-%2d-%2dT%2d:%2d:%2d%c whose last byte is a Z. What follows it is not read.
unfoldable pub scan_timestamp : List ℕ → Option Tm
unfolding scan_int scan_byte minus
scan_timestamp text = do
  (year, t1) ← scan_int 4 text
  t2 ← scan_byte b'-' t1
  (month, t3) ← scan_int 2 t2
  t4 ← scan_byte b'-' t3
  (day, t5) ← scan_int 2 t4
  t6 ← scan_byte b'T' t5
  (hour, t7) ← scan_int 2 t6
  t8 ← scan_byte b':' t7
  (minute, t9) ← scan_int 2 t8
  t10 ← scan_byte b':' t9
  (second, t11) ← scan_int 2 t10
  t12 ← scan_byte b'Z' t11
  some (record {
    tm_year = minus year 1900;
    tm_mon = minus month 1;
    tm_mday = day;
    tm_hour = hour;
    tm_min = minute;
    tm_sec = second;
  })

module _ (clock : Clock) where
  -- The result is `none` for -1.
  unfoldable pub parse_utc_timestamp : List ℕ → Option ℤ
  unfolding scan_timestamp
  parse_utc_timestamp text = elim (scan_timestamp text) [
    | none ↦ none
    | some tm ↦ some (clock.timegm tm)
  ]

  -- The text and its NUL have to fit into the buffer.
  unfoldable pub format_utc_timestamp : ℕ → ℤ → Option (List ℕ)
  format_utc_timestamp out_sz when = elim (clock.utc_text when) [
    | none ↦ none
    | some text ↦ if ltb (length text) out_sz then some text else none
  ]
