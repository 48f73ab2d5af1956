-- ===== src/Sid/Printed.antt =====
-- src/sid.c: the numbers that `int2str` writes are read back.
use ccoreconf_zcbor.Common.{
  ℕ, zero, suc, ◌+◌, ◌-◌, ◌*◌, ◌/◌, ◌%◌, ◌^◌, ◌≤◌, ◌<◌, ◌≡◌, refl, ap, ◌∙◌, List, [], ◌∷◌, true,
  false, Option, none, some, inl, inr, Bool-cases, ltb, leb, ◌==◌, ◌&&◌, arith,
}
use native.Mathlib.Numerals.{unary_clauses}
use ccoreconf_zcbor.Common.Decimal.{digits}
use ccoreconf_zcbor.Common.Int.{ℤ, pos, negsuc, to_uint64}
use ccoreconf_zcbor.Delete.{is_digit, is_space, skip_spaces, read_digits}
use ccoreconf_zcbor.Sid.Text.{
  intmax_min, to_imax, signed_imax, char2int64, to_int, print_int, int2str,
}

pub digit_byte : (n : ℕ) → is_digit (b'0' + n % 10) ≡ true
unfolding is_digit
digit_byte n = ground arith

read_digits-digits :
    (fuel n : ℕ) (text : List ℕ)
    → n < 10 ^ fuel
    → read_digits 0 (digits fuel n text) ≡ read_digits n text
unfolding digits read_digits
read_digits-digits zero n text h =
    let nothing : 0 ≡ n = omega (arith, simp unary_clauses at h) in
    ap (λ k. read_digits k text) nothing
read_digits-digits (suc fuel) n text h =
    let digit = digit_byte n in
    elim (Bool-cases (ltb n 10)) [
      | inl one ↦
          let same : 0 * 10 + ((b'0' + n % 10) - b'0') ≡ n = ground arith in
          rw (one, read_digits, digit) (ap (λ k. read_digits k text) same)
      | inr more ↦
          let h' : n < 10 ^ fuel * 10 = simp unary_clauses at h in
          let less : n / 10 < 10 ^ fuel = omega (arith, h') in
          let same : n / 10 * 10 + ((b'0' + n % 10) - b'0') ≡ n = omega arith in
          rw more (
            read_digits-digits fuel (n / 10) ((b'0' + n % 10) ∷ text) less
            ∙ rw (read_digits, digit) (ap (λ k. read_digits k text) same))
    ]

abbrev pub StartsWithDigit : List ℕ → Type 0
StartsWithDigit [] = ⊥
StartsWithDigit (c ∷ text) = is_digit c ≡ true

digits-StartsWithDigit :
    (fuel n : ℕ) (text : List ℕ) → StartsWithDigit text → StartsWithDigit (digits fuel n text)
unfolding digits
digits-StartsWithDigit zero n text h = h
digits-StartsWithDigit (suc fuel) n text h = elim (Bool-cases (ltb n 10)) [
  | inl one ↦ rw one (digit_byte n)
  | inr more ↦
      rw more (digits-StartsWithDigit fuel (n / 10) ((b'0' + n % 10) ∷ text) (digit_byte n))
]

pub digits-StartsWithDigit_one :
    (fuel n : ℕ) (text : List ℕ) → StartsWithDigit (digits (suc fuel) n text)
unfolding digits
digits-StartsWithDigit_one fuel n text = elim (Bool-cases (ltb n 10)) [
  | inl one ↦ rw one (digit_byte n)
  | inr more ↦
      rw more (digits-StartsWithDigit fuel (n / 10) ((b'0' + n % 10) ∷ text) (digit_byte n))
]

-- A text that starts with a digit is read without a sign.
char2int64-digits :
    (text : List ℕ)
    → StartsWithDigit text
    → read_digits 0 text < 2 ^ 63 - 1
    → char2int64 false text ≡ pos (read_digits 0 text)
unfolding char2int64 signed_imax to_imax skip_spaces is_digit is_space
char2int64-digits [] h small = absurd h
char2int64-digits (c ∷ text) h small =
    let b : leb b'0' c && leb c b'9' ≡ true = h in
    let not_space : is_space c ≡ false = ground (arith, b) in
    let not_minus : (c == b'-') ≡ false = ground (arith, b) in
    let not_plus : (c == b'+') ≡ false = ground (arith, b) in
    let fits : leb (2 ^ 63 - 1) (read_digits 0 (c ∷ text)) ≡ false = ground (arith, small) in
    rw (char2int64, skip_spaces, not_space, signed_imax, not_minus, not_plus, to_imax, fits) refl

digits_blank : (n : ℕ) → n ≤ 2 ^ 31 → read_digits 0 (digits 20 n (b' ' ∷ [])) ≡ n
unfolding read_digits is_digit
digits_blank n h = read_digits-digits 20 n (b' ' ∷ []) (omega (arith, h))

abbrev pub FitsInt : ℤ → Type 0
FitsInt (pos n) = n < 2 ^ 31
FitsInt (negsuc n) = n < 2 ^ 31

to_int-same : (z : ℤ) → FitsInt z → to_int z ≡ z
unfolding to_int to_uint64
to_int-same (pos n) h =
    let same : n % 2 ^ 64 % 2 ^ 32 ≡ n = omega (arith, h) in
    let small : ltb n (2 ^ 31) ≡ true = ground (arith, h) in rw (same, small) refl
to_int-same (negsuc n) h =
    let same : (2 ^ 64 - 1 - n % 2 ^ 64) % 2 ^ 32 ≡ 2 ^ 32 - 1 - n = omega (arith, h) in
    let large : ltb (2 ^ 32 - 1 - n) (2 ^ 31) ≡ false = ground (arith, h) in
    let back : 2 ^ 32 - 1 - (2 ^ 32 - 1 - n) ≡ n = omega (arith, h) in rw (same, large, back) refl

to_imax-negsuc : (n : ℕ) → n + 1 < 2 ^ 63 → to_imax true (n + 1) ≡ some (negsuc n)
unfolding to_imax
to_imax-negsuc n h =
    let fits : leb (2 ^ 63) (n + 1) ≡ false = ground (arith, h) in
    let nonzero : (n + 1 == 0) ≡ false = ground arith in
    let back : n + 1 - 1 ≡ n = omega arith in rw (fits, nonzero, back) refl

-- what `char2int64` returns where `errno` was clear
abbrev checked : Option ℤ → ℤ
checked none = intmax_min
checked (some n) = n

char2int64-print_int : (z : ℤ) → FitsInt z → char2int64 false (print_int z (b' ' ∷ [])) ≡ z
unfolding print_int char2int64 signed_imax to_imax skip_spaces
char2int64-print_int (pos n) h =
    let read = digits_blank n (omega (arith, h)) in
    char2int64-digits (digits 20 n (b' ' ∷ [])) (digits-StartsWithDigit_one 19 n (b' ' ∷ []))
      (omega (arith, read, h))
    ∙ ap pos read
char2int64-print_int (negsuc n) h =
    let read = digits_blank (n + 1) (omega (arith, h)) in
    ap checked (ap (to_imax true) read ∙ to_imax-negsuc n (omega (arith, h)))

-- A SID that fits an `int` is what `char2int64` reads from the text of `int2str`, where `errno` was clear.
pub char2int64-int2str : (z : ℤ) → FitsInt z → char2int64 false (int2str z) ≡ z
unfolding int2str
char2int64-int2str z h = rw (to_int-same z h) (char2int64-print_int z h)
