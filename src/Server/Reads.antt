-- ===== src/Server/Reads.antt =====
-- iot_containers/iot_apps/coreconf_server.c: the integers and the notifications that the server
-- writes, read by the rules of CBOR.
use ccoreconf_zcbor.Common.{
  take-all, ℕ, zero, suc, ◌+◌, ◌-◌, ◌/◌, ◌%◌, ◌*◌, ◌^◌, ◌≤◌, ◌<◌, ◌≡◌, refl, ap, List, [], ◌∷◌,
  ◌++◌, Option, none, some, inl, inr, false, Bool-cases, ltb, leb, ◌==◌, if◌then◌else◌, length,
  length-append, take, arith,
}
use ccoreconf_zcbor.Server.Uint.{
  byte_of, write_uint, cbor_encode_uint, one_less, join_instance, wrap_instance,
  stream_wrap_notification_instance, error_sid, error_text, encode_error,
}

-- a number in this many bytes, the highest first
unfoldable pub read_word : ℕ → ℕ → List ℕ → Option (ℕ × List ℕ)
read_word zero n rest = some (n, rest)
read_word (suc k) n [] = none
read_word (suc k) n (b ∷ rest) = read_word k (n * 256 + b) rest

-- An unsigned integer: its value stands in the first byte, or in the 1, 2, 4 or 8 bytes behind it.
unfoldable pub read_uint : List ℕ → Option (ℕ × List ℕ)
unfolding read_word
read_uint [] = none
read_uint (b ∷ rest) =
    if ltb b 24 then some (b, rest) else if ltb b 28 then read_word (2 ^ (b - 24)) 0 rest else none

-- a map with one entry whose key is an unsigned integer: the key, and what follows it
unfoldable pub read_instance : List ℕ → Option (ℕ × List ℕ)
unfolding read_uint
read_instance [] = none
read_instance (b ∷ rest) = if b == 161 then read_uint rest else none

write_uint-reads :
    (value out_sz : ℕ) (rest : List ℕ)
    → value < 2 ^ 64
    → 9 ≤ out_sz
    → read_uint (write_uint out_sz value ++ rest) ≡ some (value, rest)
unfolding write_uint read_uint byte_of
write_uint-reads value out_sz rest h room = elim (Bool-cases (ltb value 24)) [
  | inl a ↦ let e : value / 1 % 256 ≡ value = ground arith in rw (a, e, a) refl
  | inr a ↦ elim (Bool-cases (leb value 255)) [
    | inl b ↦
        let fits : ltb out_sz 2 ≡ false = ground arith in
        rw (a, b, fits) (ap (λ n. some (n, rest)) (ground arith))
    | inr b ↦ elim (Bool-cases (leb value 65535)) [
      | inl c ↦
          let fits : ltb out_sz 3 ≡ false = ground arith in
          rw (a, b, c, fits) (ap (λ n. some (n, rest)) (ground arith))
      | inr c ↦ elim (Bool-cases (leb value 4294967295)) [
        | inl d ↦
            let fits : ltb out_sz 5 ≡ false = ground arith in
            rw (a, b, c, d, fits) (ap (λ n. some (n, rest)) (ground arith))
        | inr d ↦
            let fits : ltb out_sz 9 ≡ false = ground arith in
            rw (a, b, c, d, fits) (ap (λ n. some (n, rest)) (ground arith))
      ]
    ]
  ]
]

-- `cbor_encode_uint` writes a 64-bit integer into nine bytes or more so that CBOR reads it back, and
-- what follows stays.
pub cbor_encode_uint-reads :
    (value out_sz : ℕ) (rest : List ℕ)
    → value < 2 ^ 64
    → 9 ≤ out_sz
    → read_uint (cbor_encode_uint (some out_sz) value ++ rest) ≡ some (value, rest)
unfolding cbor_encode_uint
cbor_encode_uint-reads value out_sz rest h room =
    let fits : ltb out_sz 1 ≡ false = ground arith in
    rw fits (write_uint-reads value out_sz rest h room)

length-write_uint : (out_sz value : ℕ) → 1 ≤ out_sz → length (write_uint out_sz value) ≤ out_sz
unfolding write_uint
length-write_uint out_sz value h = ground arith

length-write_uint-le : (out_sz value : ℕ) → length (write_uint out_sz value) ≤ 9
unfolding write_uint
length-write_uint-le out_sz value = ground arith

pub length-cbor_encode_uint :
    (out_sz value : ℕ) → length (cbor_encode_uint (some out_sz) value) ≤ out_sz
unfolding cbor_encode_uint
length-cbor_encode_uint out_sz value = elim (Bool-cases (ltb out_sz 1)) [
  | inl none' ↦ rw none' (omega arith)
  | inr room ↦ rw room (length-write_uint out_sz value (ground arith))
]

join_reads :
    (out_sz sid : ℕ) (key payload_map : List ℕ)
    → read_uint (key ++ payload_map) ≡ some (sid, payload_map)
    → length key ≤ 9
    → 0 < length key
    → 10 + length payload_map ≤ out_sz
    → let (w, n) = join_instance out_sz key payload_map in
      read_instance (take n w) ≡ some (sid, payload_map)
unfolding join_instance read_instance
join_reads out_sz sid [] payload_map e short some_key room = absurd (omega arith)
join_reads out_sz sid (k ∷ key) payload_map e short some_key room =
    let fits : ltb out_sz (1 + length (k ∷ key) + length payload_map) ≡ false = ground arith in
    let apart = length-append key payload_map in
    let whole : take (1 + length (k ∷ key) + length payload_map) (161 ∷ k ∷ (key ++ payload_map))
        ≡ 161 ∷ k ∷ (key ++ payload_map) =
      take-all _ (161 ∷ k ∷ (key ++ payload_map)) (omega (arith, apart)) in
    rw (fits, whole) e

length-write_uint-pos : (out_sz value : ℕ) → 9 ≤ out_sz → 0 < length (write_uint out_sz value)
unfolding write_uint
length-write_uint-pos out_sz value h = ground arith

one_less-minus : (n : ℕ) → 0 < n → one_less n ≡ n - 1
unfolding one_less
one_less-minus zero h = absurd (omega arith)
one_less-minus (suc n) h = omega arith

-- A notification with ten bytes more than its payload to spare is written as a map with one entry:
-- its key is the SID of the notification, and its value the payload.
pub stream_wrap_notification_instance-reads :
    (out_sz notif_sid b : ℕ) (payload_map : List ℕ)
    → notif_sid < 2 ^ 64
    → 10 + length (b ∷ payload_map) ≤ out_sz
    → read_instance
        (stream_wrap_notification_instance (some out_sz) notif_sid (some (b ∷ payload_map)))
      ≡ some (notif_sid, b ∷ payload_map)
unfolding stream_wrap_notification_instance cbor_encode_uint
stream_wrap_notification_instance-reads out_sz sid b payload_map h room =
    let wide : ltb out_sz 2 ≡ false = ground arith in
    let less = one_less-minus out_sz (omega arith) in
    let fits : ltb (out_sz - 1) 1 ≡ false = ground arith in
    rw (wide, less, fits)
      (join_reads out_sz sid (write_uint (out_sz - 1) sid) (b ∷ payload_map)
        (write_uint-reads sid (out_sz - 1) (b ∷ payload_map) h (omega arith))
        (length-write_uint-le (out_sz - 1) sid)
        (length-write_uint-pos (out_sz - 1) sid (omega arith)) room)

length-join_instance :
    (out_sz : ℕ) (key payload_map : List ℕ)
    → 1 + length key ≤ out_sz
    → (length (join_instance out_sz key payload_map).0 ≤ out_sz)
      × ((join_instance out_sz key payload_map).1 ≤ length (join_instance out_sz key payload_map).0)
unfolding join_instance
length-join_instance out_sz [] payload_map h = (omega arith, omega arith)
length-join_instance out_sz (k ∷ key) payload_map h =
    let apart = length-append key payload_map in
    elim (Bool-cases (ltb out_sz (1 + length (k ∷ key) + length payload_map))) [
      | inl long ↦ rw long (omega arith, omega arith)
      | inr fits ↦ rw fits (ground (arith, fits, apart), omega (arith, apart))
    ]

length-error_sid : (esid : ℕ) → length (error_sid esid) ≤ 3
unfolding error_sid
length-error_sid esid = ground arith

length-error_text : (ml : ℕ) → length (error_text ml) ≤ 2
unfolding error_text
length-error_text ml = ground arith

length-encode_error : (sz esid : ℕ) (msg : List ℕ) → length (encode_error sz esid msg) ≤ sz
unfolding encode_error
length-encode_error sz esid msg = ground (
  arith,
  length-append (error_sid esid) (3 ∷ (error_text (length msg) ++ msg)),
  length-append (error_text (length msg)) msg,
  length-error_sid esid,
  length-error_text (length msg),
)

length-wrap :
    (out_sz notif_sid : ℕ) (payload_map : Option (List ℕ))
    → (length (wrap_instance (some out_sz) notif_sid payload_map).0 ≤ out_sz)
      × ((wrap_instance (some out_sz) notif_sid payload_map).1
          ≤ length (wrap_instance (some out_sz) notif_sid payload_map).0)
unfolding wrap_instance
length-wrap out_sz sid none = (omega arith, omega arith)
length-wrap out_sz sid (some []) = (omega arith, omega arith)
length-wrap out_sz sid (some (b ∷ payload_map)) = elim (Bool-cases (ltb out_sz 2)) [
  | inl small ↦ rw small (omega arith, omega arith)
  | inr wide ↦
      let less = one_less-minus out_sz (ground (arith, wide)) in
      let key = length-cbor_encode_uint (out_sz - 1) sid in
      rw (wide, less)
        (length-join_instance out_sz (cbor_encode_uint (some (out_sz - 1)) sid) (b ∷ payload_map)
          (ground (arith, wide, key)))
]

-- `cbor_encode_uint`, `stream_wrap_notification_instance` and `encode_error` write nothing behind the
-- end of their buffer, whatever their arguments are: neither where they return the number of bytes,
-- nor where `stream_wrap_notification_instance` returns 0 with its first byte and its key in the
-- buffer already. It does not return more than it has written.
pub length-written :
    (sz n : ℕ) (msg : List ℕ) (payload_map : Option (List ℕ))
    → (length (cbor_encode_uint (some sz) n) ≤ sz)
      × (length (wrap_instance (some sz) n payload_map).0 ≤ sz)
      × ((wrap_instance (some sz) n payload_map).1
          ≤ length (wrap_instance (some sz) n payload_map).0)
      × (length (encode_error sz n msg) ≤ sz)
length-written sz n msg payload_map =
    let (inside, returned) = length-wrap sz n payload_map in
    (length-cbor_encode_uint sz n, inside, returned, length-encode_error sz n msg)
