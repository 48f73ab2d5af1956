-- ===== src/Sid/Text.antt =====
-- src/sid.c: SIDs and paths as texts, and the comparisons that the hash maps call. A text is its bytes
-- in front of the NUL.
use ccoreconf_zcbor.Common.{
  ℕ, ◌+◌, ◌-◌, ◌%◌, ◌^◌, List, [], ◌∷◌, Bool, true, false, not, Option, none, some, leb, ltb, ◌==◌,
  if◌then◌else◌, to_nat,
}
use ccoreconf_zcbor.Common.Decimal.{digits}
use ccoreconf_zcbor.Common.Int.{ℤ, pos, negsuc, to_uint64, int_eq}
use ccoreconf_zcbor.Delete.{skip_spaces, read_digits}

abbrev pub intmax_min : ℤ
intmax_min = negsuc (2 ^ 63 - 1)

-- `strtoimax` of the digits behind the sign: `none` for INTMAX_MIN and INTMAX_MAX, which stand for what
-- does not fit
unfoldable pub to_imax : Bool → ℕ → Option ℤ
to_imax true n = if leb (2 ^ 63) n then none else some (if n == 0 then pos 0 else negsuc (n - 1))
to_imax false n = if leb (2 ^ 63 - 1) n then none else some (pos n)

unfoldable pub signed_imax : List ℕ → Option ℤ
unfolding to_imax read_digits
signed_imax [] = some (pos 0)
signed_imax (c ∷ text) =
    if c == b'-'
    then to_imax true (read_digits 0 text)
    else if c == b'+'
    then to_imax false (read_digits 0 text)
    else to_imax false (read_digits 0 (c ∷ text))

-- `errno` is not cleared: a range error that is left there from before counts.
unfoldable pub char2int64 : Bool → List ℕ → ℤ
unfolding signed_imax skip_spaces
char2int64 range_error text = elim (signed_imax (skip_spaces text)) [
  | none ↦ intmax_min
  | some n ↦ if range_error then intmax_min else n
]

-- the conversion of an `int64_t` to `int`
unfoldable pub to_int : ℤ → ℤ
unfolding to_uint64
to_int z = let n = to_uint64 z % 2 ^ 32 in if ltb n (2 ^ 31) then pos n else negsuc (2 ^ 32 - 1 - n)

-- `%d` in front of a text
unfoldable pub print_int : ℤ → List ℕ → List ℕ
unfolding digits
print_int (pos n) text = digits 20 n text
print_int (negsuc n) text = b'-' ∷ digits 20 (n + 1) text

-- A blank follows the number, which is cut to an `int`.
unfoldable pub int2str : ℤ → List ℕ
unfolding print_int to_int
int2str key = print_int (to_int key) (b' ' ∷ [])

unfoldable pub long2str : ℤ → List ℕ
unfolding print_int
long2str value = print_int value []

-- the text without its last byte, if that is a slash
unfoldable pub without_slash : ℕ → List ℕ → List ℕ
without_slash c [] = if c == b'/' then [] else c ∷ []
without_slash c (d ∷ path) = c ∷ without_slash d path

-- `none` where the code reads in front of an empty path
unfoldable pub remove_trailing_slash_from_path : List ℕ → Option (List ℕ)
unfolding without_slash
remove_trailing_slash_from_path [] = none
remove_trailing_slash_from_path (c ∷ path) = some (without_slash c path)

-- `strrchr` for a colon: the text behind the last one
unfoldable pub behind_last_colon : List ℕ → Option (List ℕ)
behind_last_colon [] = none
behind_last_colon (c ∷ text) = elim (behind_last_colon text) [
  | some rest ↦ some rest
  | none ↦ if c == b':' then some text else none
]

unfoldable pub get_substring_after_last_colon : List ℕ → List ℕ
unfolding behind_last_colon
get_substring_after_last_colon input = elim (behind_last_colon input) [
  | none ↦ input
  | some rest ↦ rest
]

-- the comparisons of two items by their key: 0 where they are the same
unfoldable pub key_mapping_compare : ℤ → ℤ → ℕ
unfolding int_eq
key_mapping_compare key1 key2 = to_nat (not (int_eq key1 key2))

unfoldable pub sid_identifier_compare : ℤ → ℤ → ℕ
unfolding int_eq
sid_identifier_compare sid1 sid2 = to_nat (not (int_eq sid1 sid2))
