-- ===== src/Server/Filter.antt =====
-- iot_containers/iot_apps/coreconf_server.c: the filter of a FETCH of the stream.
use ccoreconf_zcbor.Common.{
  ℕ, zero, suc, ◌+◌, List, [], ◌∷◌, ◌++◌, Bool, true, false, ◌||◌, Option, none, some, ltb, ◌==◌,
  if◌then◌else◌, length, take,
}
use ccoreconf_zcbor.Zcbor.{Decoder, pint, list, major_type, Run, ret, bad_read, out_of_fuel}
use ccoreconf_zcbor.Server.Stream.{StreamEvent, Stream, stream_encode_sequence}

unfoldable pub stream_sid_in_filter : ℕ → List ℕ → Bool
stream_sid_in_filter sid [] = false
stream_sid_in_filter sid (f ∷ filter_sids) = f == sid || stream_sid_in_filter sid filter_sids

module _ (zcbor : Decoder) where
  open zcbor use {
    State, new_decode_state, payload, uint64_decode, list_start_decode, list_end_decode,
    map_start_decode, map_end_decode, array_at_end, any_skip,
  }

  -- a SID and any other value in a list: the SID, where all went well
  unfoldable pub close_item : ℕ → State × Bool → State × Option ℕ
  close_item sid (s, false) = (s, none)
  close_item sid (s, true) =
      let (s', ended) = list_end_decode s in (s', if ended then some sid else none)

  unfoldable pub item_sid : State × Option ℕ → State × Option ℕ
  unfolding close_item
  item_sid (s, none) = (s, none)
  item_sid (s, some sid) = close_item sid (any_skip s)

  unfoldable pub open_item : State × Bool → State × Option ℕ
  unfolding item_sid
  open_item (s, false) = (s, none)
  open_item (s, true) = item_sid (uint64_decode s)

  -- An item of the filter, by its first byte; `none` for a `break`.
  unfoldable pub filter_item : ℕ → List ℕ → State × Option ℕ
  unfolding open_item
  filter_item header bytes =
      let s = new_decode_state 8 bytes 1 in
      elim (major_type header) [
        | pint ↦ uint64_decode s
        | list ↦ open_item (list_start_decode s)
        | _ ↦ (s, none)
      ]

  -- the loop, with the room left in the array
  unfoldable pub collect_sids : ℕ → List ℕ → List ℕ
  unfolding filter_item
  collect_sids zero bytes = []
  collect_sids (suc room) [] = []
  collect_sids (suc room) (b ∷ bytes) = elim ((filter_item b (b ∷ bytes)).1) [
    | none ↦ []
    | some sid ↦ sid ∷ collect_sids room (payload (filter_item b (b ∷ bytes)).0)
  ]

  -- The SIDs that a request of these bytes filters by; there are none where the code returns -1.
  unfoldable pub stream_collect_filter_sids : Option (List ℕ) → ℕ → List ℕ
  unfolding collect_sids
  stream_collect_filter_sids none out_cap = []
  stream_collect_filter_sids (some bytes) out_cap = collect_sids out_cap bytes

  -- The key of a pair: the failures behind a list's SID end the list first.
  unfoldable pub event_key_value : ℕ → State × Bool → State × Option ℕ
  event_key_value sid (s, false) = ((list_end_decode s).0, none)
  event_key_value sid (s, true) =
      let (s', ended) = list_end_decode s in (s', if ended then some sid else none)

  unfoldable pub event_key_sid : State × Option ℕ → State × Option ℕ
  unfolding event_key_value
  event_key_sid (s, none) = ((list_end_decode s).0, none)
  event_key_sid (s, some sid) = event_key_value sid (any_skip s)

  unfoldable pub event_key_list : State × Bool → State × Option ℕ
  unfolding event_key_sid
  event_key_list (s, false) = (s, none)
  event_key_list (s, true) = event_key_sid (uint64_decode s)

  unfoldable pub event_key : State → Run (State × Option ℕ)
  unfolding event_key_list
  event_key s = elim (payload s) [
    | [] ↦ bad_read
    | header ∷ _ ↦ elim (major_type header) [
      | pint ↦ ret (uint64_decode s)
      | list ↦ ret (event_key_list (list_start_decode s))
      | _ ↦ ret (s, none)
    ]
  ]

  -- The loop over the pairs of a map: `none` where a key is in the filter, or else the state behind.
  unfoldable pub match_pairs : ℕ → List ℕ → State → Run (Option State)
  unfolding event_key stream_sid_in_filter
  match_pairs zero filter_sids s = if array_at_end s then ret (some s) else out_of_fuel
  match_pairs (suc fuel) filter_sids s = elim (array_at_end s) [
    | true ↦ ret (some s)
    | false ↦ elim (event_key s) [
      | bad_read ↦ bad_read
      | out_of_fuel ↦ out_of_fuel
      | ret (s', o) ↦ elim o [
        | none ↦ ret (some s')
        | some sid ↦ elim (stream_sid_in_filter sid filter_sids) [
          | true ↦ ret none
          | false ↦ elim ((any_skip s').1) [
            | false ↦ ret (some (any_skip s').0)
            | true ↦ match_pairs fuel filter_sids (any_skip s').0
          ]
        ]
      ]
    ]
  ]

  -- the loop over the maps of an event
  unfoldable pub match_maps : ℕ → List ℕ → List ℕ → Run Bool
  unfolding match_pairs
  match_maps fuel filter_sids [] = ret false
  match_maps zero filter_sids (b ∷ bytes) = out_of_fuel
  match_maps (suc fuel) filter_sids (b ∷ bytes) =
      let (s, started) = map_start_decode (new_decode_state 16 (b ∷ bytes) 1) in
      elim started [
        | false ↦ ret false
        | true ↦ elim (match_pairs (length (b ∷ bytes)) filter_sids s) [
          | bad_read ↦ bad_read
          | out_of_fuel ↦ out_of_fuel
          | ret o ↦ elim o [
            | none ↦ ret true
            | some s' ↦ match_maps fuel filter_sids (payload (map_end_decode s').0)
          ]
        ]
      ]

  unfoldable pub stream_event_matches_filter : StreamEvent → List ℕ → Run Bool
  unfolding match_maps
  stream_event_matches_filter (some (b ∷ bytes)) (f ∷ filter_sids) =
      match_maps (length (b ∷ bytes)) (f ∷ filter_sids) (b ∷ bytes)
  stream_event_matches_filter event filter_sids = ret false

  -- What an event adds to the buffer: `none` for a `break`.
  unfoldable pub add_event : ℕ → List ℕ → StreamEvent → Option (List ℕ)
  add_event out_sz out none = some out
  add_event out_sz out (some bytes) =
      if ltb out_sz (length out + length bytes) then none else some (out ++ bytes)

  -- The loop over the events, with the number of events that may still be written.
  unfoldable pub encode_matching : ℕ → List ℕ → ℕ → List StreamEvent → List ℕ → Run (List ℕ)
  unfolding stream_event_matches_filter add_event
  encode_matching out_sz filter_sids zero es out = ret out
  encode_matching out_sz filter_sids (suc left) [] out = ret out
  encode_matching out_sz filter_sids (suc left) (e ∷ es) out =
      elim (stream_event_matches_filter e filter_sids) [
        | bad_read ↦ bad_read
        | out_of_fuel ↦ out_of_fuel
        | ret hit ↦ elim hit [
          | false ↦ encode_matching out_sz filter_sids (suc left) es out
          | true ↦ elim (add_event out_sz out e) [
            | none ↦ ret out
            | some out' ↦ encode_matching out_sz filter_sids left es out'
          ]
        ]
      ]

  -- `out` is its size, or `none` for NULL.
  unfoldable pub stream_encode_sequence_filtered : Option ℕ → ℕ → List ℕ → Stream → Run (List ℕ)
  unfolding encode_matching stream_encode_sequence
  stream_encode_sequence_filtered none max_items filter_sids s = ret []
  stream_encode_sequence_filtered (some out_sz) max_items [] s =
      ret (stream_encode_sequence (some out_sz) max_items s)
  stream_encode_sequence_filtered (some out_sz) max_items (f ∷ filter_sids) s =
      if out_sz == 0 || s.count == 0
      then ret []
      else (let items = if max_items == 0 || ltb s.count max_items then s.count else max_items in
          encode_matching out_sz (f ∷ filter_sids) items (take s.count s.events) [])
