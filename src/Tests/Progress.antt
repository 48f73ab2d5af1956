-- ===== src/Tests/Progress.antt =====
-- The decoder of Codec.antt reads a byte whenever it succeeds, and the parsers of src/fetch.c end.
use ccoreconf_zcbor.Common.{
  ℕ, ◌≤◌, ◌<◌, ◌≡◌, refl, ap, List, [], ◌∷◌, true, Bool-cases, inl, inr, Option, none, some,
  Option-cases, ltb, ◌==◌, length, drop, arith,
}
use ccoreconf_zcbor.Zcbor.{ret}
use ccoreconf_zcbor.Fetch.Resolve.{InstanceIdentifier}
use ccoreconf_zcbor.Fetch.Parse.{parse_fetch_request, parse_fetch_request_iids, is_fetch_request}
use ccoreconf_zcbor.Fetch.Terminates.{Consumes, parse_fetch_request-returns}
use ccoreconf_zcbor.Fetch.Agree.{has_value, is_fetch_request-parse}
use ccoreconf_zcbor.Tests.Codec.{decoder, read_word, read_uint, with_word, expect_byte}

abbrev rest_length : Option (ℕ × List ℕ) → ℕ
rest_length none = 0
rest_length (some r) = length r.1

pub read_word-shorter : (s : List ℕ) (r : ℕ × List ℕ) → read_word s ≡ some r → length r.1 < length s
read_word-shorter (a ∷ b ∷ c ∷ d ∷ e ∷ f ∷ g ∷ h ∷ rest) r eq = omega (arith, ap rest_length eq)
read_word-shorter [] r eq = cc
read_word-shorter (a ∷ []) r eq = cc
read_word-shorter (a ∷ b ∷ []) r eq = cc
read_word-shorter (a ∷ b ∷ c ∷ []) r eq = cc
read_word-shorter (a ∷ b ∷ c ∷ d ∷ []) r eq = cc
read_word-shorter (a ∷ b ∷ c ∷ d ∷ e ∷ []) r eq = cc
read_word-shorter (a ∷ b ∷ c ∷ d ∷ e ∷ f ∷ []) r eq = cc
read_word-shorter (a ∷ b ∷ c ∷ d ∷ e ∷ f ∷ g ∷ []) r eq = cc

with_word-none :
    (t s : List ℕ) → read_word s ≡ none → (with_word {A = ℕ} t (λ n rest. (rest, n)) s).1 ≡ none
with_word-none t s e = rw (e, with_word) refl

with_word-some :
    (t s : List ℕ) (r : ℕ × List ℕ)
    → read_word s ≡ some r
    → (with_word {A = ℕ} t (λ n rest. (rest, n)) s).0 ≡ r.1
with_word-some t s r e = rw (e, with_word) refl

pub read_uint-shorter :
    (s : List ℕ) (n : ℕ) → (read_uint s).1 ≡ some n → length (read_uint s).0 < length s
read_uint-shorter [] n h = cc
read_uint-shorter (b ∷ s) n h = elim (Bool-cases (ltb b 24)) [
  | inl small ↦ rw small (omega arith)
  | inr large ↦ elim (Bool-cases (b == 27)) [
    | inl word ↦ elim (Option-cases (read_word s)) [
      | inl short ↦
          let h' : (with_word (b ∷ s) (λ n rest. (rest, n)) s).1 ≡ some n = rw (large, word) at h in
          let gone = with_word-none (b ∷ s) s short in cc
      | inr (r, read) ↦
          let rest = ap length (with_word-some (b ∷ s) s r read) in
          rw (large, word) (omega (arith, read_word-shorter s r read))
    ]
    | inr other ↦ let h' = rw (large, other) at h in cc
  ]
]

pub expect_byte-shorter :
    (b : ℕ) (s : List ℕ) → (expect_byte b s).1 ≡ true → length (expect_byte b s).0 < length s
expect_byte-shorter b [] h = cc
expect_byte-shorter b (c ∷ s) h = elim (Bool-cases (b == c)) [
  | inl same ↦ rw same (omega arith)
  | inr other ↦ let h' = rw other at h in cc
]

pub expect_byte-le : (b : ℕ) (s : List ℕ) → length (expect_byte b s).0 ≤ length s
expect_byte-le b [] = omega arith
expect_byte-le b (c ∷ s) = elim (Bool-cases (b == c)) [
  | inl same ↦ rw same (omega arith)
  | inr other ↦ rw other (omega arith)
]

consumes : Consumes decoder
consumes = record {
  fresh = λ b bytes e. refl;
  uint64 = read_uint-shorter;
  list_start = expect_byte-shorter 159;
  list_end = expect_byte-le 255;
  skip = λ s b bs h. ap (λ l. drop 1 l) h;
}

-- 7, [8, "_"]
abbrev request : List ℕ
request = 7 ∷ 159 ∷ 8 ∷ 123 ∷ 0 ∷ 0 ∷ 0 ∷ 0 ∷ 0 ∷ 0 ∷ 0 ∷ 1 ∷ 95 ∷ 255 ∷ []

parse_fetch_request-returns_example :
    ((r : Option (List ℕ)) × (parse_fetch_request decoder (some request) ≡ ret r))
    × ((r : Option (List InstanceIdentifier)) × (parse_fetch_request_iids decoder (some request)
          ≡ ret r))
parse_fetch_request-returns_example = parse_fetch_request-returns decoder consumes (some request)

is_fetch_request-parse_example :
    (o : Option (List ℕ)) × (parse_fetch_request decoder (some request) ≡ ret o)
    × (is_fetch_request decoder (some request) ≡ has_value o)
is_fetch_request-parse_example = is_fetch_request-parse decoder consumes request
