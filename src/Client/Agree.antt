-- ===== src/Client/Agree.antt =====
-- iot_containers/iot_apps/: the client and the server agree on the form of the fingerprint.
use ccoreconf_zcbor.Common.{
  take-all, ℕ, zero, suc, ◌+◌, ◌-◌, ◌*◌, ◌/◌, ◌%◌, ◌^◌, ◌≤◌, ◌<◌, ◌≡◌, refl, ap, ◌∙◌, List, [], ◌∷◌,
  ◌++◌, Bool, true, false, Option, none, some, inl, inr, Bool-cases, ltb, leb, ◌==◌, ◌&&◌, length,
  take, arith,
}
use native.Mathlib.Numerals.{unary_clauses}
use ccoreconf_zcbor.Common.Text.{ascii}
use ccoreconf_zcbor.Common.Decimal.{digits}
use ccoreconf_zcbor.Sid.Printed.{digit_byte, StartsWithDigit, digits-StartsWithDigit_one}
use ccoreconf_zcbor.Zcbor.{ret}
use ccoreconf_zcbor.Zcbor.Runs.{ret-injective}
use ccoreconf_zcbor.Value.{c_string}
use ccoreconf_zcbor.Delete.{is_digit, is_space, skip_spaces, saturate}
use ccoreconf_zcbor.Server.Sids.{
  RuntimeSystemSids, RuntimeInterfacesSids, RuntimeOperationSids, compute_sid_fingerprint,
}
use ccoreconf_zcbor.Server.State.{Server, Request, Reply}
use ccoreconf_zcbor.Server.Observe.{sid_info_body, handle_sid_info}
use ccoreconf_zcbor.Client.Scan.{take_digits, unsigned_at, signed_at, strtoull_end}
use ccoreconf_zcbor.Client.Compat.{
  after_literal, scan_fingerprint, check_fingerprint, check_server_sid_compatibility,
}

-- The digits that are written are read as the number.
take_digits-digits :
    (fuel n : ℕ) (text : List ℕ)
    → n < 10 ^ fuel
    → take_digits 0 (digits fuel n text) ≡ take_digits n text
unfolding digits take_digits
take_digits-digits zero n text h =
    let none' : 0 ≡ n = omega (arith, simp unary_clauses at h) in ap (λ k. take_digits k text) none'
take_digits-digits (suc fuel) n text h =
    let digit = digit_byte n in
    elim (Bool-cases (ltb n 10)) [
      | inl one ↦
          let same : 0 * 10 + ((b'0' + n % 10) - b'0') ≡ n = ground arith in
          rw (one, take_digits, digit) (ap (λ k. take_digits k text) same)
      | inr more ↦
          let h' : n < 10 ^ fuel * 10 = simp unary_clauses at h in
          let less : n / 10 < 10 ^ fuel = omega (arith, h') in
          let same : n / 10 * 10 + ((b'0' + n % 10) - b'0') ≡ n = omega arith in
          rw more (
            take_digits-digits fuel (n / 10) ((b'0' + n % 10) ∷ text) less
            ∙ rw (take_digits, digit) (ap (λ k. take_digits k text) same))
    ]

-- A text that starts with a digit is read without a sign.
strtoull_end-digit :
    (text : List ℕ)
    → StartsWithDigit text
    → strtoull_end text ≡ some (saturate false (take_digits 0 text).0, (take_digits 0 text).1)
unfolding strtoull_end signed_at unsigned_at skip_spaces is_digit is_space
strtoull_end-digit [] h = absurd h
strtoull_end-digit (c ∷ text) h =
    let b : leb b'0' c && leb c b'9' ≡ true = h in
    let not_space : is_space c ≡ false = ground (arith, b) in
    let not_minus : (c == b'-') ≡ false = ground (arith, b) in
    let not_plus : (c == b'+') ≡ false = ground (arith, b) in
    rw (not_space, signed_at, not_minus, not_plus, unsigned_at, h) refl

length-digits : (fuel n : ℕ) (text : List ℕ) → length (digits fuel n text) ≤ fuel + length text
unfolding digits
length-digits zero n text = omega arith
length-digits (suc fuel) n text = elim (Bool-cases (ltb n 10)) [
  | inl one ↦ rw one (omega arith)
  | inr more ↦ rw more (omega (arith, length-digits fuel (n / 10) ((b'0' + n % 10) ∷ text)))
]

c_string-digits :
    (fuel n : ℕ) (text : List ℕ)
    → c_string text ≡ text
    → c_string (digits fuel n text) ≡ digits fuel n text
unfolding digits c_string
c_string-digits zero n text h = h
c_string-digits (suc fuel) n text h =
    let nonzero : (b'0' + n % 10 == 0) ≡ false = ground arith in
    let longer : c_string ((b'0' + n % 10) ∷ text) ≡ (b'0' + n % 10) ∷ text =
      rw (c_string, nonzero) (ap (λ t. (b'0' + n % 10) ∷ t) h) in
    elim (Bool-cases (ltb n 10)) [
      | inl one ↦ rw one longer
      | inr more ↦ rw more (c_string-digits fuel (n / 10) ((b'0' + n % 10) ∷ text) longer)
    ]

digits-append : (fuel n : ℕ) (text t : List ℕ) → digits fuel n text ++ t ≡ digits fuel n (text ++ t)
unfolding digits
digits-append zero n text t = refl
digits-append (suc fuel) n text t = elim (Bool-cases (ltb n 10)) [
  | inl one ↦ rw one refl
  | inr more ↦ rw more (digits-append fuel (n / 10) ((b'0' + n % 10) ∷ text) t)
]

line_of : (fp : ℕ) → sid_info_body fp ≡ ascii "sid-fingerprint=" ++ digits 20 fp (b'\n' ∷ [])
unfolding sid_info_body
line_of fp = ap (λ t. ascii "sid-fingerprint=" ++ t) (digits-append 20 fp [] (b'\n' ∷ []))

saturate-small : (n : ℕ) → n < 2 ^ 64 → saturate false (take_digits n (b'\n' ∷ [])).0 ≡ n
unfolding saturate take_digits is_digit
saturate-small n h = let fits : leb (2 ^ 64) n ≡ false = ground (arith, h) in rw fits refl

-- What the server writes, the client reads.
scan_fingerprint-digits :
    (fp : ℕ)
    → fp < 2 ^ 64
    → scan_fingerprint (ascii "sid-fingerprint=" ++ digits 20 fp (b'\n' ∷ [])) ≡ some fp
unfolding scan_fingerprint after_literal
scan_fingerprint-digits fp h =
    let d = digits 20 fp (b'\n' ∷ []) in
    let read : strtoull_end d ≡ some (saturate false (take_digits 0 d).0, (take_digits 0 d).1) =
      strtoull_end-digit d (digits-StartsWithDigit_one 19 fp (b'\n' ∷ [])) in
    let number : take_digits 0 d ≡ take_digits fp (b'\n' ∷ []) =
      take_digits-digits 20 fp (b'\n' ∷ []) (omega (arith, h)) in
    rw (scan_fingerprint, read)
      (ap (λ n. some n) (ap (λ r. saturate false r.0) number ∙ saturate-small fp h))

abbrev found : ℕ → Option ℕ → Bool
found local_fp none = false
found local_fp (some remote_fp) = local_fp == remote_fp

check_fingerprint-digits :
    (local_fp fp : ℕ)
    → fp < 2 ^ 64
    → check_fingerprint local_fp (ascii "sid-fingerprint=" ++ digits 20 fp (b'\n' ∷ []))
      ≡ (local_fp == fp)
unfolding check_fingerprint c_string
check_fingerprint-digits local_fp fp h =
    let d = digits 20 fp (b'\n' ∷ []) in
    let whole : take 127 (ascii "sid-fingerprint=" ++ d) ≡ ascii "sid-fingerprint=" ++ d =
      take-all 127 (ascii "sid-fingerprint=" ++ d)
        (omega (arith, length-digits 20 fp (b'\n' ∷ []))) in
    let unended : c_string d ≡ d = c_string-digits 20 fp (b'\n' ∷ []) refl in
    let shown : c_string (take 127 (ascii "sid-fingerprint=" ++ d))
        ≡ ascii "sid-fingerprint=" ++ d =
      ap c_string whole ∙ ap (λ t. ascii "sid-fingerprint=" ++ t) unended in
    ap (λ t. found local_fp (scan_fingerprint t)) shown
    ∙ ap (found local_fp) (scan_fingerprint-digits fp h)

-- The client accepts the answer of the server to a GET of its fingerprint exactly if the fingerprint
-- of its own SIDs is the same, where the fingerprint of the server has 64 bits.
pub check_server_sid_compatibility-same :
    (sys : RuntimeSystemSids) (ifs : RuntimeInterfacesSids) (ops : RuntimeOperationSids)
    (server : Server) (req : Request) (r : Reply)
    → server.sid_fingerprint < 2 ^ 64
    → handle_sid_info server req ≡ ret r
    → check_server_sid_compatibility sys ifs ops (some r.response.body)
      ≡ (compute_sid_fingerprint sys ifs ops == server.sid_fingerprint)
unfolding handle_sid_info check_server_sid_compatibility
check_server_sid_compatibility-same sys ifs ops server req r h e =
    let body : sid_info_body server.sid_fingerprint ≡ r.response.body =
      ap (λ (q : Reply). q.response.body) (ret-injective e) in
    rw (← body, line_of)
      (check_fingerprint-digits (compute_sid_fingerprint sys ifs ops) server.sid_fingerprint h)
