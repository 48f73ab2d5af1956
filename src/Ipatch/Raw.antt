-- ===== src/Ipatch/Raw.antt =====
-- src/ipatch.c: `apply_ipatch_raw`, which decodes a sequence of maps and applies each entry at once.
use ccoreconf_zcbor.Common.{
  ℕ, zero, suc, ◌+◌, List, [], ◌∷◌, Bool, true, false, Option, none, some, ◌==◌, if◌then◌else◌,
  length, take,
}
use ccoreconf_zcbor.Zcbor.{
  Decoder, pint, list, tstr, major_type, Run, ret, bad_read, out_of_fuel, ◌>>=◌, run_of,
}
use ccoreconf_zcbor.Value.{
  Value, Values, Ref, Chain, HashMap, array, null_value, hashmap, no_elements, element, ref,
  chain_end, object, map_of, c_string,
}
use ccoreconf_zcbor.HashMap.{
  hash_key, get_bucket, set_bucket, insert_coreconf_hash_map, delete_from_coreconf_hash_map,
  get_coreconf_hash_map,
}
use ccoreconf_zcbor.Serialization.Decode.{cbor_to_coreconf_value, add_to_coreconf_array}
use ccoreconf_zcbor.Ipatch.Entries.{find_list_entry_by_key, set_element, remove_array_entry}

-- A write through the pointer that a lookup returned.
unfoldable pub assign_object : ℕ → Value → Chain → Chain
assign_object key v chain_end = chain_end
assign_object key v (object k r c) =
    if k == key then object k (ref v) c else object k r (assign_object key v c)

unfoldable pub write_through : HashMap → ℕ → Value → HashMap
unfolding assign_object
write_through (map_of t n) key v =
    let index = hash_key key in
    map_of (set_bucket t index (assign_object key v (get_bucket t index))) n

-- A map for a SID that holds a list becomes a list of one.
unfoldable pub wrapped : Option Value → Value → Value
wrapped (some (array vs)) (hashmap m) = array (element (hashmap m) no_elements)
wrapped existing v = v

-- An entry with a plain SID. The results of the deletion and of the insertion are dropped.
unfoldable pub apply_sid : HashMap → ℕ → Value → HashMap
unfolding wrapped
apply_sid m sid null_value = (delete_from_coreconf_hash_map m sid).0
apply_sid m sid v =
    (insert_coreconf_hash_map m sid (ref (wrapped (get_coreconf_hash_map m sid) v))).0

-- An entry of the list: removed, replaced, or added at the end.
unfoldable pub apply_entry : Values → Option ℕ → Value → Values
apply_entry vs none null_value = vs
apply_entry vs (some idx) null_value = remove_array_entry vs idx
apply_entry vs (some idx) v = set_element vs idx v
apply_entry vs none v = add_to_coreconf_array vs v

-- What the datastore holds under the SID decides whether the entry counts.
unfoldable pub apply_list_entry : HashMap → ℕ → List ℕ → Value → Option Value → HashMap × ℕ
unfolding apply_entry
apply_list_entry m sid key v (some (array vs)) =
    (write_through m sid (array (apply_entry vs (find_list_entry_by_key (array vs) key) v)), 1)
apply_list_entry m sid key v _ = (m, 0)

unfoldable pub apply_list : HashMap → ℕ → List ℕ → Value → HashMap × ℕ
unfolding apply_list_entry
apply_list m sid key v = apply_list_entry m sid key v (get_coreconf_hash_map m sid)

-- The key of an entry: a SID, or a SID with the text in a buffer of 128 bytes.
pub data Target : Type 0 where
  by_sid : ℕ → Target
  by_entry : ℕ → List ℕ → Target

unfoldable pub key_buffer : List ℕ → List ℕ
unfolding c_string
key_buffer zs = c_string (take 127 zs)

module _ (zcbor : Decoder) where
  open zcbor use {
    State, new_decode_state, payload, uint64_decode, tstr_decode, list_start_decode,
    list_end_decode, map_start_decode, map_end_decode, array_at_end,
  }

  unfoldable pub sid_target : State × Option ℕ → State × Option Target
  sid_target (s, none) = (s, none)
  sid_target (s, some n) = (s, some (by_sid n))

  unfoldable pub end_target : ℕ → List ℕ → State × Bool → State × Option Target
  unfolding key_buffer
  end_target n zs (s, false) = (s, none)
  end_target n zs (s, true) = (s, some (by_entry n (key_buffer zs)))

  unfoldable pub text_target : ℕ → State × Option (List ℕ) → State × Option Target
  unfolding end_target
  text_target n (s, none) = ((list_end_decode s).0, none)
  text_target n (s, some zs) = end_target n zs (list_end_decode s)

  -- The key must be a text; the next byte is read without a test for the end.
  unfoldable pub list_target : State × Option ℕ → Run (State × Option Target)
  unfolding text_target
  list_target (s, none) = ret ((list_end_decode s).0, none)
  list_target (s, some n) = elim (payload s) [
    | [] ↦ bad_read
    | header ∷ _ ↦ elim (major_type header) [
      | tstr ↦ ret (text_target n (tstr_decode s))
      | _ ↦ ret ((list_end_decode s).0, none)
    ]
  ]

  unfoldable pub open_target : State × Bool → Run (State × Option Target)
  unfolding list_target
  open_target (s, false) = ret (s, none)
  open_target (s, true) = list_target (uint64_decode s)

  unfoldable pub decode_target : State → Run (State × Option Target)
  unfolding sid_target open_target
  decode_target s = elim (payload s) [
    | [] ↦ bad_read
    | header ∷ _ ↦ elim (major_type header) [
      | pint ↦ ret (sid_target (uint64_decode s))
      | list ↦ open_target (list_start_decode s)
      | _ ↦ ret (s, none)
    ]
  ]

  unfoldable pub apply_target : HashMap → Target → Value → HashMap × ℕ
  unfolding apply_sid apply_list
  apply_target m (by_sid n) v = (apply_sid m n v, 1)
  apply_target m (by_entry n key) v = apply_list m n key v

  -- One round in a map: the datastore with the count, and whether the loop goes on; `false` is the
  -- jump to `next_map`.
  unfoldable pub apply_value :
      HashMap → Target → State × Option Value → (HashMap × ℕ) × State × Bool
  unfolding apply_target
  apply_value m target (s, none) = ((m, 0), s, false)
  apply_value m target (s, some v) = (apply_target m target v, s, true)

  unfoldable pub entry_round :
      ℕ → HashMap → State × Option Target → Run ((HashMap × ℕ) × State × Bool)
  unfolding apply_value
  entry_round fuel m (s, none) = ret ((m, 0), s, false)
  entry_round fuel m (s, some target) =
      run_of (cbor_to_coreconf_value zcbor fuel 0 s) >>= λ r. ret (apply_value m target r)

  -- the loop over the entries of a map
  unfoldable pub entries_loop : ℕ → ℕ → HashMap → ℕ → State → Run (HashMap × ℕ × State)
  unfolding entry_round decode_target
  entries_loop zero fuel m count s = out_of_fuel
  entries_loop (suc rounds) fuel m count s = elim (array_at_end s) [
    | true ↦ ret (m, count, s)
    | false ↦ elim (decode_target s >>= entry_round fuel m) [
      | out_of_fuel ↦ out_of_fuel
      | bad_read ↦ bad_read
      | ret ((m', n), s', again) ↦ elim again [
        | true ↦ entries_loop rounds fuel m' (count + n) s'
        | false ↦ ret (m', count + n, s')
      ]
    ]
  ]

  -- the loop over the maps
  unfoldable pub maps_loop : ℕ → ℕ → HashMap → ℕ → List ℕ → Run (HashMap × ℕ)
  unfolding entries_loop
  maps_loop rounds fuel m count [] = ret (m, count)
  maps_loop zero fuel m count (b ∷ bs) = out_of_fuel
  maps_loop (suc rounds) fuel m count (b ∷ bs) =
      let (s, started) = map_start_decode (new_decode_state 8 (b ∷ bs) 1) in
      elim started [
        | false ↦ ret (m, count)
        | true ↦ elim (entries_loop (length (b ∷ bs)) fuel m count s) [
          | out_of_fuel ↦ out_of_fuel
          | bad_read ↦ bad_read
          | ret (m', n, s') ↦ maps_loop rounds fuel m' n (payload (map_end_decode s').0)
        ]
      ]

  -- `data` is `none` for NULL; the result is `none` for -1.
  unfoldable pub apply_ipatch_raw : ℕ → Ref → Option (List ℕ) → Run (Ref × Option ℕ)
  unfolding maps_loop
  apply_ipatch_raw fuel (ref (hashmap m)) (some (b ∷ bs)) =
      maps_loop (length (b ∷ bs)) fuel m 0 (b ∷ bs) >>= λ r. ret (ref (hashmap r.0), some r.1)
  apply_ipatch_raw fuel datastore bytes = ret (datastore, none)
