-- ===== src/Fetch/Terminates.antt =====
-- src/fetch.c: the two parsers of requests end on every input.
use ccoreconf_zcbor.Common.{
  ℕ, zero, suc, ◌+◌, ◌≤◌, ◌<◌, ◌≡◌, refl, ap, ◌⊎◌, inl, inr, List, [], ◌∷◌, true, Bool-cases,
  Option, none, some, Option-cases, length, arith,
}
use ccoreconf_zcbor.Zcbor.{Decoder, ret}
use ccoreconf_zcbor.Fetch.Resolve.{InstanceIdentifier}
use ccoreconf_zcbor.Fetch.Parse.{
  decode_sid, count_sids, sids_of, parse_fetch_request, depth_after, skip_list, skip_iid,
  count_iids, iids_of, parse_fetch_request_iids,
}

module _ (dec : Decoder) where
  open dec use {
    State, new_decode_state, payload, uint64_decode, list_start_decode, list_end_decode, skip_byte,
  }

  abbrev left : State → ℕ
  left s = length (payload s)

  -- A state starts at the bytes that it is given, a successful call reads a byte at least, and no
  -- call goes back.
  pub record Consumes : Type 0 where
    pub fresh : (b : ℕ) (bytes : List ℕ) (e : ℕ) → payload (new_decode_state b bytes e) ≡ bytes
    pub uint64 :
        (s : State) (n : ℕ) → (uint64_decode s).1 ≡ some n → left (uint64_decode s).0 < left s
    pub list_start :
        (s : State) → (list_start_decode s).1 ≡ true → left (list_start_decode s).0 < left s
    pub list_end : (s : State) → left (list_end_decode s).0 ≤ left s
    pub skip : (s : State) (b : ℕ) (bs : List ℕ) → payload s ≡ b ∷ bs → payload (skip_byte s) ≡ bs

  module _ (consumes : Consumes) where
    pub decode_sid-shorter :
        (bytes : List ℕ) (n : ℕ)
        → (decode_sid dec bytes).1 ≡ some n
        → left (decode_sid dec bytes).0 < length bytes
    unfolding decode_sid
    decode_sid-shorter bytes n h = omega (
      arith,
      consumes.uint64 (new_decode_state 5 bytes 1) n h,
      ap length (consumes.fresh 5 bytes 1),
    )

    count_sids-returns :
        (fuel : ℕ) (bytes : List ℕ) (count : ℕ)
        → length bytes ≤ fuel
        → (n : ℕ) × (count_sids dec fuel bytes count ≡ ret n)
    unfolding count_sids
    count_sids-returns fuel [] count h = (count, refl)
    count_sids-returns zero (b ∷ bs) count h = absurd (omega arith)
    count_sids-returns (suc fuel) (b ∷ bs) count h =
        elim (Option-cases ((decode_sid dec (b ∷ bs)).1)) [
          | inl refused ↦ (count, rw (refused, count_sids) refl)
          | inr (s, read) ↦
              let (n, e) =
                count_sids-returns fuel (payload (decode_sid dec (b ∷ bs)).0) (count + 1)
                  (omega (arith, decode_sid-shorter (b ∷ bs) s read)) in
              (n, rw (read, count_sids) e)
        ]

    list_cases : (l : List ℕ) → (l ≡ []) ⊎ ((b : ℕ) × (bs : List ℕ) × (l ≡ b ∷ bs))
    list_cases [] = inl refl
    list_cases (b ∷ bs) = inr (b, bs, refl)

    skip_list-returns :
        (fuel depth : ℕ) (s : State)
        → left s ≤ fuel
        → (s' : State) × (skip_list dec fuel depth s ≡ ret s') × (left s' ≤ left s)
    unfolding skip_list
    skip_list-returns fuel zero s h = (s, refl, omega arith)
    skip_list-returns zero (suc depth) s h = elim (list_cases (payload s)) [
      | inl done' ↦ (s, rw (done', skip_list) refl, omega arith)
      | inr (b, bs, more) ↦ absurd (omega (arith, h, ap length more))
    ]
    skip_list-returns (suc fuel) (suc depth) s h = elim (list_cases (payload s)) [
      | inl done' ↦ (s, rw (done', skip_list) refl, omega arith)
      | inr (b, bs, more) ↦
          let next = ap length (consumes.skip s b bs more) in
          let now = ap length more in
          let (s', e, less) =
            skip_list-returns fuel (depth_after b (suc depth)) (skip_byte s) (omega arith) in
          (s', rw (more, skip_list) e, omega arith)
    ]

    abbrev IsShorter : Option (List ℕ) → List ℕ → Type 0
    IsShorter none bytes = Unit
    IsShorter (some rest) bytes = length rest < length bytes

    skip_iid-returns :
        (bytes : List ℕ) → (o : Option (List ℕ)) × (skip_iid dec bytes ≡ ret o) × IsShorter o bytes
    unfolding skip_iid
    skip_iid-returns bytes =
        elim (Bool-cases ((list_start_decode (new_decode_state 5 bytes 1)).1)) [
          | inr refused ↦ (none, rw (refused, skip_iid) refl, tt)
          | inl started ↦
              let s = (list_start_decode (new_decode_state 5 bytes 1)).0 in
              let first = consumes.list_start (new_decode_state 5 bytes 1) started in
              let whole = ap length (consumes.fresh 5 bytes 1) in
              let (s', e, less) = skip_list-returns (length bytes) 1 s (omega arith) in
              (
                some (payload (list_end_decode s').0),
                rw (started, e, skip_iid) refl,
                omega (arith, consumes.list_end s'),
              )
        ]

    -- what follows an item that is no SID
    after_skip :
        (fuel b : ℕ) (bs : List ℕ) (count : ℕ)
        → (decode_sid dec (b ∷ bs)).1 ≡ none
        → (o : Option (List ℕ)) × (skip_iid dec (b ∷ bs) ≡ ret o) × IsShorter o (b ∷ bs)
        → ((rest : List ℕ) (k : ℕ)
            → length rest ≤ fuel
            → (n : ℕ) × (count_iids dec fuel rest k ≡ ret n))
        → length (b ∷ bs) ≤ suc fuel
        → (n : ℕ) × (count_iids dec (suc fuel) (b ∷ bs) count ≡ ret n)
    unfolding count_iids
    after_skip fuel b bs count refused (none, e, shorter) go h =
        (count, rw (refused, e, count_iids) refl)
    after_skip fuel b bs count refused (some rest, e, shorter) go h =
        let (n, e') = go rest (count + 1) (omega (arith, shorter)) in
        (n, rw (refused, e, count_iids) e')

    count_iids-returns :
        (fuel : ℕ) (bytes : List ℕ) (count : ℕ)
        → length bytes ≤ fuel
        → (n : ℕ) × (count_iids dec fuel bytes count ≡ ret n)
    unfolding count_iids
    count_iids-returns fuel [] count h = (count, refl)
    count_iids-returns zero (b ∷ bs) count h = absurd (omega arith)
    count_iids-returns (suc fuel) (b ∷ bs) count h =
        elim (Option-cases ((decode_sid dec (b ∷ bs)).1)) [
          | inr (s, read) ↦
              let (n, e) =
                count_iids-returns fuel (payload (decode_sid dec (b ∷ bs)).0) (count + 1)
                  (omega (arith, decode_sid-shorter (b ∷ bs) s read)) in
              (n, rw (read, count_iids) e)
          | inl refused ↦
              after_skip fuel b bs count refused (skip_iid-returns (b ∷ bs))
                (λ rest n less. count_iids-returns fuel rest n less) h
        ]

-- With a decoder that reads a byte whenever it succeeds, both parsers of FETCH requests return on
-- every input: their first pass takes no more rounds than there are bytes, the loop that skips a list
-- included.
pub parse_fetch_request-returns :
    (dec : Decoder)
    → Consumes dec
    → (cbor_data : Option (List ℕ))
    → ((r : Option (List ℕ)) × (parse_fetch_request dec cbor_data ≡ ret r))
      × ((r : Option (List InstanceIdentifier)) × (parse_fetch_request_iids dec cbor_data ≡ ret r))
unfolding parse_fetch_request parse_fetch_request_iids
parse_fetch_request-returns dec consumes none = ((none, refl), (none, refl))
parse_fetch_request-returns dec consumes (some bytes) =
    let (n, e) = count_sids-returns dec consumes (length bytes) bytes 0 (omega arith) in
    let (m, e') = count_iids-returns dec consumes (length bytes) bytes 0 (omega arith) in
    ((sids_of dec n bytes, rw e refl), (iids_of dec m bytes, rw e' refl))
