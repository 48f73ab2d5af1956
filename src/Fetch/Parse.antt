-- ===== src/Fetch/Parse.antt =====
-- src/fetch.c: the functions that read requests. Each makes two passes over the bytes: the first
-- counts the items, the second reads as many.
use ccoreconf_zcbor.Common.{
  ℕ, zero, suc, ◌+◌, ◌-◌, ◌/◌, ◌%◌, List, [], ◌∷◌, Bool, true, false, ◌||◌, Option, none, some,
  ◌==◌, if◌then◌else◌, length,
}
use mathlib.Core.Option
use ccoreconf_zcbor.Zcbor.{Decoder, Run, ret, bad_read, out_of_fuel, ◌>>=◌}
use ccoreconf_zcbor.Value.{c_string}
use ccoreconf_zcbor.Fetch.Resolve.{
  InstanceIdentifier, iid_simple, iid_with_str_key, iid_with_int_key,
}

unfoldable pub cons_option {ℓ} : {A : Type ℓ} → A → Option (List A) → Option (List A)
cons_option a none = none
cons_option a (some l) = some (a ∷ l)

-- The depth behind a byte that the skipping loop takes for a header.
unfoldable pub depth_after : ℕ → ℕ → ℕ
depth_after header depth =
    let major = header / 32 in
    if major == 4 || major == 5 then depth + 1 else if header % 32 == 31 then depth - 1 else depth

module _ (zcbor : Decoder) where
  open zcbor use {
    State, new_decode_state, payload, uint64_decode, int64_decode, tstr_decode, list_start_decode,
    list_end_decode, skip_byte,
  }

  unfoldable pub decode_sid : List ℕ → State × Option ℕ
  decode_sid bytes = uint64_decode (new_decode_state 5 bytes 1)

  unfoldable pub count_sids : ℕ → List ℕ → ℕ → Run ℕ
  unfolding decode_sid
  count_sids fuel [] count = ret count
  count_sids zero (b ∷ bs) count = out_of_fuel
  count_sids (suc fuel) (b ∷ bs) count = elim ((decode_sid (b ∷ bs)).1) [
    | none ↦ ret count
    | some _ ↦ count_sids fuel (payload (decode_sid (b ∷ bs)).0) (count + 1)
  ]

  unfoldable pub decode_sids : ℕ → List ℕ → Option (List ℕ)
  unfolding decode_sid cons_option
  decode_sids zero bytes = some []
  decode_sids (suc n) bytes = elim ((decode_sid bytes).1) [
    | none ↦ none
    | some s ↦ cons_option s (decode_sids n (payload (decode_sid bytes).0))
  ]

  unfoldable pub sids_of : ℕ → List ℕ → Option (List ℕ)
  unfolding decode_sids
  sids_of zero bytes = none
  sids_of (suc n) bytes = decode_sids (suc n) bytes

  -- `cbor_data` is `none` for NULL; the inner `none` is the result `false`.
  unfoldable pub parse_fetch_request : Option (List ℕ) → Run (Option (List ℕ))
  unfolding count_sids sids_of
  parse_fetch_request none = ret none
  parse_fetch_request (some cbor_data) =
      count_sids (length cbor_data) cbor_data 0 >>= λ count. ret (sids_of count cbor_data)

  unfoldable pub is_fetch_request : Option (List ℕ) → Bool
  unfolding decode_sid
  is_fetch_request none = false
  is_fetch_request (some []) = false
  is_fetch_request (some (b ∷ bs)) = elim ((decode_sid (b ∷ bs)).1) [ none ↦ false | some _ ↦ true ]

  -- The loop that skips a list byte by byte, reading every byte as a header.
  unfoldable pub skip_list : ℕ → ℕ → State → Run State
  unfolding depth_after
  skip_list fuel zero s = ret s
  skip_list zero (suc depth) s = elim (payload s) [ [] ↦ ret s | _ ∷ _ ↦ out_of_fuel ]
  skip_list (suc fuel) (suc depth) s = elim (payload s) [
    | [] ↦ ret s
    | header ∷ _ ↦ skip_list fuel (depth_after header (suc depth)) (skip_byte s)
  ]

  -- What the first pass leaves of the bytes behind an item that is no SID; `none` for the `break`.
  unfoldable pub skip_iid : List ℕ → Run (Option (List ℕ))
  unfolding skip_list
  skip_iid bytes =
      let (s, started) = list_start_decode (new_decode_state 5 bytes 1) in
      elim started [
        | false ↦ ret none
        | true ↦ skip_list (length bytes) 1 s >>= λ s'. ret (some (payload (list_end_decode s').0))
      ]

  unfoldable pub count_iids : ℕ → List ℕ → ℕ → Run ℕ
  unfolding decode_sid skip_iid
  count_iids fuel [] count = ret count
  count_iids zero (b ∷ bs) count = out_of_fuel
  count_iids (suc fuel) (b ∷ bs) count = elim ((decode_sid (b ∷ bs)).1) [
    | some _ ↦ count_iids fuel (payload (decode_sid (b ∷ bs)).0) (count + 1)
    | none ↦ elim (skip_iid (b ∷ bs)) [
      | bad_read ↦ bad_read
      | out_of_fuel ↦ out_of_fuel
      | ret rest ↦ elim rest [ none ↦ ret count | some bytes ↦ count_iids fuel bytes (count + 1) ]
    ]
  ]

  -- the key of a list item: a text, or else an integer
  unfoldable pub decode_int_key : ℕ → State → State × Option InstanceIdentifier
  decode_int_key s state =
      let (state', o) = int64_decode state in (state', Option.map (iid_with_int_key s) o)

  unfoldable pub decode_key : ℕ → State → State × Option InstanceIdentifier
  unfolding decode_int_key c_string
  decode_key s state =
      let (state', o) = tstr_decode state in
      elim o [
        | some zstr ↦ (state', some (iid_with_str_key s (c_string zstr)))
        | none ↦ decode_int_key s state'
      ]

  unfoldable pub close_list : State × Option InstanceIdentifier → State × Option InstanceIdentifier
  close_list (state, none) = (state, none)
  close_list (state, some iid) =
      let (state', closed) = list_end_decode state in (state', if closed then some iid else none)

  unfoldable pub decode_list_sid : State × Option ℕ → State × Option InstanceIdentifier
  unfolding close_list decode_key
  decode_list_sid (state, none) = (state, none)
  decode_list_sid (state, some s) = close_list (decode_key s state)

  unfoldable pub decode_list_iid : State × Bool → State × Option InstanceIdentifier
  unfolding decode_list_sid
  decode_list_iid (state, false) = (state, none)
  decode_list_iid (state, true) = decode_list_sid (uint64_decode state)

  unfoldable pub decode_iid : List ℕ → State × Option InstanceIdentifier
  unfolding decode_sid decode_list_iid
  decode_iid bytes =
      let (state, o) = decode_sid bytes in
      elim o [
        | some s ↦ (state, some (iid_simple s))
        | none ↦ decode_list_iid (list_start_decode (new_decode_state 5 bytes 1))
      ]

  unfoldable pub decode_iids : ℕ → List ℕ → Option (List InstanceIdentifier)
  unfolding decode_iid cons_option
  decode_iids zero bytes = some []
  decode_iids (suc n) bytes = elim ((decode_iid bytes).1) [
    | none ↦ none
    | some i ↦ cons_option i (decode_iids n (payload (decode_iid bytes).0))
  ]

  unfoldable pub iids_of : ℕ → List ℕ → Option (List InstanceIdentifier)
  unfolding decode_iids
  iids_of zero bytes = none
  iids_of (suc n) bytes = decode_iids (suc n) bytes

  unfoldable pub parse_fetch_request_iids : Option (List ℕ) → Run (Option (List InstanceIdentifier))
  unfolding count_iids iids_of
  parse_fetch_request_iids none = ret none
  parse_fetch_request_iids (some cbor_data) =
      count_iids (length cbor_data) cbor_data 0 >>= λ count. ret (iids_of count cbor_data)
