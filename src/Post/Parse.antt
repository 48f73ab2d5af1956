-- ===== src/Post/Parse.antt =====
-- src/post.c: `parse_post_items`.
use ccoreconf_zcbor.Common.{
  ℕ, zero, suc, List, [], ◌∷◌, ◌++◌, Bool, true, false, not, ◌&&◌, Option, none, some, ltb,
  if◌then◌else◌, length,
}
use ccoreconf_zcbor.Zcbor.{
  Decoder, pint, list, major_type, Run, ret, bad_read, out_of_fuel, ◌>>=◌, run_of,
}
use ccoreconf_zcbor.Value.{Value, ref, c_string}
use ccoreconf_zcbor.Serialization.Decode.{cbor_to_coreconf_value}
use ccoreconf_zcbor.Post.Items.{PostIidType, PostItem, post_iid_sid, post_iid_sid_str_key}

-- the part of an item that its key fills
pub record PostKey : Type 0 where
  pub iid_type : PostIidType
  pub sid : ℕ
  pub str_key : Option (List ℕ)

module _ (zcbor : Decoder) where
  open zcbor use {
    State, new_decode_state, payload, uint64_decode, tstr_decode, list_start_decode,
    list_end_decode, map_start_decode, map_end_decode, array_at_end,
  }

  unfoldable pub sid_key : State × Option ℕ → State × Option PostKey
  sid_key (s, none) = (s, none)
  sid_key (s, some n) = (s, some (record { iid_type = post_iid_sid; sid = n; str_key = none }))

  unfoldable pub end_key : ℕ → List ℕ → State × Bool → State × Option PostKey
  unfolding c_string
  end_key n key (s, false) = (s, none)
  end_key n key (s, true) =
      (s, some (record { iid_type = post_iid_sid_str_key; sid = n; str_key = some (c_string key) }))

  unfoldable pub text_key : ℕ → State × Option (List ℕ) → State × Option PostKey
  unfolding end_key
  text_key n (s, none) = (s, none)
  text_key n (s, some key) = end_key n key (list_end_decode s)

  unfoldable pub list_sid : State × Option ℕ → State × Option PostKey
  unfolding text_key
  list_sid (s, none) = (s, none)
  list_sid (s, some n) = text_key n (tstr_decode s)

  unfoldable pub list_key : State × Bool → State × Option PostKey
  unfolding list_sid
  list_key (s, false) = (s, none)
  list_key (s, true) = list_sid (uint64_decode s)

  -- `decode_post_key` looks at the next byte without a test for the end.
  unfoldable pub decode_post_key : State → Run (State × Option PostKey)
  unfolding sid_key list_key
  decode_post_key s = elim (payload s) [
    | [] ↦ bad_read
    | header ∷ _ ↦ elim (major_type header) [
      | pint ↦ ret (sid_key (uint64_decode s))
      | list ↦ ret (list_key (list_start_decode s))
      | other ↦ ret (s, none)
    ]
  ]

  -- behind the value: the map ends here
  unfoldable pub end_item : PostKey → State × Option Value → State × Option PostItem
  end_item key (s, none) = (s, none)
  end_item key (s, some v) =
      let (s', closed) = map_end_decode s in
      if array_at_end s
      then (if closed
          then (
            s',
            some (record {
              iid_type = key.iid_type;
              sid = key.sid;
              str_key = key.str_key;
              value = ref v;
            }),
          )
          else (s', none))
      else (s, none)

  unfoldable pub decode_item_value : ℕ → State × Option PostKey → Run (State × Option PostItem)
  unfolding end_item
  decode_item_value fuel (s, none) = ret (s, none)
  decode_item_value fuel (s, some key) =
      run_of (cbor_to_coreconf_value zcbor fuel 0 s) >>= λ r. ret (end_item key r)

  unfoldable pub decode_item : ℕ → List ℕ → Run (State × Option PostItem)
  unfolding decode_item_value decode_post_key
  decode_item fuel bytes =
      let (s, started) = map_start_decode (new_decode_state 12 bytes 1) in
      if started && not (array_at_end s)
      then decode_post_key s >>= decode_item_value fuel
      else ret (s, none)

  -- The loop over the bytes. An item that does not move on is refused, as is one that does not
  -- parse; `fuel` is also what each value has for itself.
  unfoldable pub items_loop : ℕ → ℕ → List ℕ → List PostItem → Run (Option (List PostItem))
  unfolding decode_item
  items_loop rounds fuel [] items = ret (some items)
  items_loop zero fuel (b ∷ bs) items = out_of_fuel
  items_loop (suc rounds) fuel (b ∷ bs) items = elim (decode_item fuel (b ∷ bs)) [
    | out_of_fuel ↦ out_of_fuel
    | bad_read ↦ bad_read
    | ret (s, o) ↦ elim o [
      | none ↦ ret none
      | some item ↦ elim (ltb (length (payload s)) (length (b ∷ bs))) [
        | true ↦ items_loop rounds fuel (payload s) (items ++ item ∷ [])
        | false ↦ ret none
      ]
    ]
  ]

  -- `data` is `none` for NULL; the inner `none` is the result `false`.
  unfoldable pub parse_post_items : ℕ → Option (List ℕ) → Run (Option (List PostItem))
  unfolding items_loop
  parse_post_items fuel none = ret none
  parse_post_items fuel (some []) = ret none
  parse_post_items fuel (some (b ∷ bs)) = items_loop (length (b ∷ bs)) fuel (b ∷ bs) []
