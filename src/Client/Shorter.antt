-- ===== src/Client/Shorter.antt =====
-- iot_containers/iot_apps/coreconf_cli.c: how much of the text each step of the parser leaves.
use ccoreconf_zcbor.Common.{
  ℕ, ◌+◌, ◌-◌, ◌*◌, ◌≤◌, ◌<◌, List, [], ◌∷◌, Bool, true, false, ◌||◌, Option, none, some, inl, inr,
  Bool-cases, ◌==◌, length, arith,
}
use ccoreconf_zcbor.Delete.{is_digit, is_space, skip_spaces}
use ccoreconf_zcbor.Client.Scan.{take_digits, unsigned_at, signed_at, strtoull_end}
use ccoreconf_zcbor.Client.Values.{
  skip_blanks, skip_commas, skip_colon, skip_brace, in_front, split_token,
}

length-take_digits : (n : ℕ) (text : List ℕ) → length (take_digits n text).1 ≤ length text
unfolding take_digits
length-take_digits n [] = omega arith
length-take_digits n (c ∷ text) = elim (Bool-cases (is_digit c)) [
  | inl digit ↦ rw digit (omega (arith, length-take_digits (n * 10 + (c - b'0')) text))
  | inr other ↦ rw other (omega arith)
]

-- what is left behind a number is shorter
abbrev pub Shorter : ℕ → Option (ℕ × List ℕ) → Type 0
Shorter n none = Unit
Shorter n (some (k, rest)) = length rest < n

unsigned_at-Shorter :
    (negative : Bool) (text : List ℕ) → Shorter (length text) (unsigned_at negative text)
unfolding unsigned_at
unsigned_at-Shorter negative [] = tt
unsigned_at-Shorter negative (c ∷ text) = elim (Bool-cases (is_digit c)) [
  | inl digit ↦
      unfold take_digits in rw digit (omega (arith, length-take_digits (0 * 10 + (c - b'0')) text))
  | inr other ↦ rw other tt
]

Shorter-weaken : (m n : ℕ) → m ≤ n → (o : Option (ℕ × List ℕ)) → Shorter m o → Shorter n o
Shorter-weaken m n h none k = tt
Shorter-weaken m n h (some (i, rest)) k = omega (arith, k, h)

signed_at-Shorter : (text : List ℕ) → Shorter (length text) (signed_at text)
unfolding signed_at
signed_at-Shorter [] = tt
signed_at-Shorter (c ∷ text) = elim (Bool-cases (c == b'-')) [
  | inl minus ↦
      rw minus (Shorter-weaken (length text) _ (omega arith) _ (unsigned_at-Shorter true text))
  | inr c1 ↦ elim (Bool-cases (c == b'+')) [
    | inl plus ↦
        rw (c1, plus)
          (Shorter-weaken (length text) _ (omega arith) _ (unsigned_at-Shorter false text))
    | inr c2 ↦ rw (c1, c2) (unsigned_at-Shorter false (c ∷ text))
  ]
]

length-skip_spaces : (text : List ℕ) → length (skip_spaces text) ≤ length text
unfolding skip_spaces
length-skip_spaces [] = omega arith
length-skip_spaces (c ∷ text) = elim (Bool-cases (is_space c)) [
  | inl space ↦ rw space (omega (arith, length-skip_spaces text))
  | inr other ↦ rw other (omega arith)
]

pub strtoull_end-Shorter : (text : List ℕ) → Shorter (length text) (strtoull_end text)
unfolding strtoull_end
strtoull_end-Shorter text =
    Shorter-weaken (length (skip_spaces text)) _ (length-skip_spaces text) _
      (signed_at-Shorter (skip_spaces text))

pub length-skip_blanks : (text : List ℕ) → length (skip_blanks text) ≤ length text
unfolding skip_blanks
length-skip_blanks [] = omega arith
length-skip_blanks (c ∷ text) = elim (Bool-cases (c == b' ')) [
  | inl blank ↦ rw blank (omega (arith, length-skip_blanks text))
  | inr other ↦ rw other (omega arith)
]

pub length-skip_commas : (text : List ℕ) → length (skip_commas text) ≤ length text
unfolding skip_commas
length-skip_commas [] = omega arith
length-skip_commas (c ∷ text) = elim (Bool-cases (c == b' ' || c == b',')) [
  | inl blank ↦ rw blank (omega (arith, length-skip_commas text))
  | inr other ↦ rw other (omega arith)
]

pub length-skip_colon : (text : List ℕ) → length (skip_colon text) ≤ length text
unfolding skip_colon
length-skip_colon [] = omega arith
length-skip_colon (c ∷ text) = elim (Bool-cases (c == b':')) [
  | inl colon ↦ rw colon (omega arith)
  | inr other ↦ rw other (omega arith)
]

pub length-skip_brace : (text : List ℕ) → length (skip_brace text) ≤ length text
unfolding skip_brace
length-skip_brace [] = omega arith
length-skip_brace (c ∷ text) = elim (Bool-cases (c == b'}')) [
  | inl brace ↦ rw brace (omega arith)
  | inr other ↦ rw other (omega arith)
]

pub length-split_token : (text : List ℕ) → length (split_token text).1 ≤ length text
unfolding split_token in_front
length-split_token [] = omega arith
length-split_token (c ∷ text) = elim (Bool-cases (c == b',' || c == b'}')) [
  | inl ends ↦ rw ends (omega arith)
  | inr more ↦ rw more (omega (arith, length-split_token text))
]
