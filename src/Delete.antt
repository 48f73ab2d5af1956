-- ===== src/Delete.antt =====
-- src/delete.c: the SIDs of a DELETE query, and their removal from the datastore.
pub mod Apply
pub mod Query
use ccoreconf_zcbor.Common.{
  ℕ, zero, suc, ◌+◌, ◌-◌, ◌*◌, ◌<◌, ◌^◌, List, [], ◌∷◌, Bool, true, false, Option, none, some, ◌==◌,
  ltb, leb, ◌&&◌, ◌||◌, if◌then◌else◌, length, take,
}
use ccoreconf_zcbor.Value.{HashMap}
use ccoreconf_zcbor.HashMap.{Status, done, failed, delete_from_coreconf_hash_map}

-- `memchr` up to the end of the list: the bytes in front of the first `b`, and those behind it if
-- there is one.
unfoldable pub split_at : ℕ → List ℕ → List ℕ × Option (List ℕ)
split_at b [] = ([], none)
split_at b (c ∷ cs) =
    if c == b then ([], some cs) else let (front, back) = split_at b cs in (c ∷ front, back)

-- `isspace` in the C locale
unfoldable pub is_space : ℕ → Bool
is_space b = b == 32 || (leb 9 b && leb b 13)

unfoldable pub is_digit : ℕ → Bool
is_digit b = leb b'0' b && leb b b'9'

unfoldable pub skip_spaces : List ℕ → List ℕ
unfolding is_space
skip_spaces [] = []
skip_spaces (b ∷ bs) = if is_space b then skip_spaces bs else b ∷ bs

-- the value of the digits at the front, behind the value `n` of those read before
unfoldable pub read_digits : ℕ → List ℕ → ℕ
unfolding is_digit
read_digits n [] = n
read_digits n (b ∷ bs) =
    let rest = read_digits (n * 10 + (b - b'0')) bs in if is_digit b then rest else n

-- `strtoull` behind the blanks and the sign: `none` where there is no digit
unfoldable pub read_unsigned : List ℕ → Option ℕ
unfolding read_digits
read_unsigned [] = none
read_unsigned (b ∷ bs) = if is_digit b then some (read_digits 0 (b ∷ bs)) else none

-- A value that does not fit is ULLONG_MAX, also behind a minus sign.
unfoldable pub saturate : Bool → ℕ → ℕ
saturate negative n =
    if leb (2 ^ 64) n then 2 ^ 64 - 1 else if negative && ltb 0 n then 2 ^ 64 - n else n

unfoldable pub signed : Bool → List ℕ → Option ℕ
unfolding read_unsigned saturate
signed negative bs = elim (read_unsigned bs) [ none ↦ none | some n ↦ some (saturate negative n) ]

unfoldable pub strip_sign : List ℕ → Option ℕ
unfolding signed
strip_sign [] = none
strip_sign (b ∷ bs) =
    if b == b'-'
    then signed true bs
    else if b == b'+'
    then signed false bs
    else signed false (b ∷ bs)

-- `strtoull(s, &endptr, 10)`: `none` where `endptr` comes back as `s`
unfoldable pub strtoull : List ℕ → Option ℕ
unfolding skip_spaces strip_sign
strtoull bs = strip_sign (skip_spaces bs)

unfoldable pub is_k : List ℕ → Bool
is_k (b ∷ []) = b == b'k'
is_k _ = false

unfoldable pub prepend : Option ℕ → Option (List ℕ) → Option (List ℕ)
prepend o none = none
prepend none (some sids) = some sids
prepend (some sid) (some sids) = some (sid ∷ sids)

-- `tok` behind an ampersand, or at the end
unfoldable pub or_end : Option (List ℕ) → List ℕ
or_end none = []
or_end (some bs) = bs

unfoldable pub slots_left : Option ℕ → ℕ → ℕ
slots_left none slots = slots
slots_left (some sid) slots = slots - 1

-- What a round does behind a `k=`: the SID that it stores, if any, and where `tok` goes.
unfoldable pub value_round : List ℕ → Option ℕ × List ℕ
unfolding split_at strtoull or_end
value_round val_start = (strtoull (split_at b'&' val_start).0, or_end (split_at b'&' val_start).1)

unfoldable pub key_round : List ℕ → List ℕ → Option (List ℕ) → Option (Option ℕ × List ℕ)
unfolding is_k value_round
key_round tok key none = none
key_round tok key (some val_start) =
    if is_k key then some (value_round val_start) else some (none, or_end (split_at b'&' tok).1)

-- One round of the loop at `tok`, `none` for the `break`.
unfoldable pub query_round : List ℕ → Option (Option ℕ × List ℕ)
unfolding key_round
query_round tok = key_round tok (split_at b'=' tok).0 (split_at b'=' tok).1

-- The loop, with the room left in the output array; `none` where the fuel runs out.
unfoldable pub query_loop : ℕ → List ℕ → ℕ → Option (List ℕ)
unfolding prepend slots_left
query_loop fuel [] slots = some []
query_loop fuel tok zero = some []
query_loop zero (b ∷ bs) (suc slots) = none
query_loop (suc fuel) (b ∷ bs) (suc slots) = elim (query_round (b ∷ bs)) [
  | none ↦ some []
  | some (sid, tok) ↦ prepend sid (query_loop fuel tok (slots_left sid (suc slots)))
]

-- `sids_out` is its capacity. A NULL pointer is `none`. The buffer takes 511 bytes of the query.
unfoldable pub parse_delete_query : Option (List ℕ) → Option ℕ → Option (List ℕ)
unfolding query_loop
parse_delete_query none sids_out = some []
parse_delete_query (some query) none = some []
parse_delete_query (some query) (some max_sids) =
    let buf = take 511 query in query_loop (length buf) buf max_sids

-- The loop of a deletion, with the number of SIDs that were there.
unfoldable pub delete_all : List ℕ → HashMap → ℕ → HashMap × ℕ
delete_all [] map deleted = (map, deleted)
delete_all (sid ∷ sids) map deleted =
    let (map', status) = delete_from_coreconf_hash_map map sid in
    delete_all sids map' (elim status [ done ↦ deleted + 1 | failed ↦ deleted ])

unfoldable pub apply_delete : HashMap → List ℕ → HashMap × ℕ
unfolding delete_all
apply_delete map sids = delete_all sids map 0
