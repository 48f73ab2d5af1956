-- ===== src/Server/Notify.antt =====
-- iot_containers/iot_apps/coreconf_server.c: what is pushed to the stream when the datastore changes.
-- A run is as in Zcbor; the data is `none` for NULL.
use ccoreconf_zcbor.Common.{
  ℕ, zero, suc, ◌-◌, List, [], ◌∷◌, Bool, true, false, not, ◌&&◌, Option, none, some, if◌then◌else◌,
  length, take,
}
use ccoreconf_zcbor.Zcbor.{
  Encoder, Decoder, Put, put, ◌>>◌, attempt, pint, list, major_type, Run, ret, bad_read,
  out_of_fuel, ◌>>=◌,
}
use ccoreconf_zcbor.Server.Uint.{stream_wrap_notification_instance}
use ccoreconf_zcbor.Server.Stream.{Stream, stream_push_event}

abbrev pub buffer_size : ℕ
buffer_size = 4096

unfoldable pub push_written : List ℕ → Stream → Stream
unfolding stream_push_event
push_written [] s = s
push_written (b ∷ wrapped) s = stream_push_event (some (b ∷ wrapped)) s

module _ (zcbor : Decoder) where
  open zcbor use {
    State, new_decode_state, payload, uint64_decode, list_start_decode, list_end_decode,
    map_start_decode, map_end_decode, array_at_end, any_skip,
  }

  unfoldable pub sid_or : ℕ → Option ℕ → ℕ
  sid_or fallback none = fallback
  sid_or fallback (some sid) = sid

  -- behind the SID in a list: the key is skipped, and the list ended in any case
  unfoldable pub listed_value : ℕ → State × Option ℕ → ℕ
  listed_value fallback (s, none) = fallback
  listed_value fallback (s, some sid) =
      let (s', skipped) = any_skip s in
      let (s'', ended) = list_end_decode s' in if skipped && ended then sid else fallback

  unfoldable pub listed_sid : ℕ → State × Bool → ℕ
  unfolding listed_value
  listed_sid fallback (s, false) = fallback
  listed_sid fallback (s, true) = listed_value fallback (uint64_decode s)

  unfoldable pub first_key : ℕ → State → Run ℕ
  unfolding sid_or listed_sid
  first_key fallback s = elim (payload s) [
    | [] ↦ bad_read
    | header ∷ _ ↦ elim (major_type header) [
      | pint ↦ ret (sid_or fallback (uint64_decode s).1)
      | list ↦ ret (listed_sid fallback (list_start_decode s))
      | _ ↦ ret fallback
    ]
  ]

  unfoldable pub stream_extract_first_sid_from_map : Option (List ℕ) → ℕ → Run ℕ
  unfolding first_key
  stream_extract_first_sid_from_map none fallback_sid = ret fallback_sid
  stream_extract_first_sid_from_map (some []) fallback_sid = ret fallback_sid
  stream_extract_first_sid_from_map (some (b ∷ map_data)) fallback_sid =
      let (s, started) = map_start_decode (new_decode_state 8 (b ∷ map_data) 1) in
      if started && not (array_at_end s) then first_key fallback_sid s else ret fallback_sid

  -- `sys_module` is the fallback, the SID of the system module.
  unfoldable pub stream_push_notification_map : ℕ → Option (List ℕ) → Stream → Run Stream
  unfolding stream_extract_first_sid_from_map stream_wrap_notification_instance push_written
  stream_push_notification_map sys_module none stream = ret stream
  stream_push_notification_map sys_module (some []) stream = ret stream
  stream_push_notification_map sys_module (some (b ∷ map_data)) stream =
      stream_extract_first_sid_from_map (some (b ∷ map_data)) sys_module >>= λ notif_sid. ret (
        push_written
          (stream_wrap_notification_instance (some buffer_size) notif_sid (some (b ∷ map_data)))
          stream)

  -- The loop that skips the pairs of a map. It is left where a value cannot be skipped.
  unfoldable pub skip_pairs : ℕ → State → Run State
  skip_pairs zero s = if array_at_end s then ret s else out_of_fuel
  skip_pairs (suc fuel) s = elim (array_at_end s) [
    | true ↦ ret s
    | false ↦ elim ((any_skip s).1) [
      | false ↦ ret (any_skip s).0
      | true ↦ elim ((any_skip (any_skip s).0).1) [
        | false ↦ ret (any_skip (any_skip s).0).0
        | true ↦ skip_pairs fuel (any_skip (any_skip s).0).0
      ]
    ]
  ]

  -- What a map at the front leaves of the bytes, `none` for a `break`.
  unfoldable pub behind_map : List ℕ → Run (Option (List ℕ))
  unfolding skip_pairs
  behind_map bytes =
      let (s, started) = map_start_decode (new_decode_state 8 bytes 1) in
      if started
      then (skip_pairs (length bytes) s >>= λ s'.
          let (s'', ended) = map_end_decode s' in ret (if ended then some (payload s'') else none))
      else ret none

  -- The map at the front is pushed, unless it has no bytes; `again` goes on behind it.
  unfoldable pub push_front : ℕ → (Stream → Run Stream) → List ℕ → Stream → Run Stream
  unfolding stream_push_notification_map
  push_front sys_module again [] stream = ret stream
  push_front sys_module again (b ∷ map_data) stream =
      stream_push_notification_map sys_module (some (b ∷ map_data)) stream >>= again

  unfoldable pub push_rest :
      ℕ → (List ℕ → Stream → Run Stream) → List ℕ → Stream → Option (List ℕ) → Run Stream
  unfolding push_front
  push_rest sys_module again bytes stream none = ret stream
  push_rest sys_module again bytes stream (some rest) =
      push_front sys_module (again rest) (take (length bytes - length rest) bytes) stream

  -- the loop over the maps
  unfoldable pub push_maps : ℕ → ℕ → List ℕ → Stream → Run Stream
  unfolding behind_map push_rest
  push_maps fuel sys_module [] stream = ret stream
  push_maps zero sys_module (b ∷ bytes) stream = out_of_fuel
  push_maps (suc fuel) sys_module (b ∷ bytes) stream =
      behind_map (b ∷ bytes) >>= push_rest sys_module (push_maps fuel sys_module) (b ∷ bytes) stream

  unfoldable pub stream_push_notification_sequence : ℕ → Option (List ℕ) → Stream → Run Stream
  unfolding push_maps
  stream_push_notification_sequence sys_module none stream = ret stream
  stream_push_notification_sequence sys_module (some bytes) stream =
      push_maps (length bytes) sys_module bytes stream

module _ (zcbor : Encoder) where
  open zcbor use {
    State, new_encode_state, written, uint64_put, tstr_encode, map_start_encode, map_end_encode,
  }

  -- The macro for literals takes the size of a pointer less one, 7, for the length of each text.
  unfoldable pub port_fault_map : List ℕ → List ℕ → Put State
  port_fault_map port_name port_fault =
      attempt (put (map_start_encode 2))
      >> attempt (put (uint64_put 1))
      >> attempt (put (tstr_encode (take 7 port_name)))
      >> attempt (put (uint64_put 2))
      >> attempt (put (tstr_encode (take 7 port_fault)))
      >> attempt (put (map_end_encode 2))

  -- `none` where the assertion fails
  unfoldable pub published : List ℕ → Stream → Option Stream
  unfolding stream_push_event
  published [] stream = none
  published (b ∷ wrapped) stream = some (stream_push_event (some (b ∷ wrapped)) stream)

  unfoldable pub publish_encoded : Option (State × Bool) → Stream → Option Stream
  unfolding published stream_wrap_notification_instance
  publish_encoded none stream = none
  publish_encoded (some (s, ok)) stream =
      published (stream_wrap_notification_instance (some 300) 60010 (some (written s))) stream

  -- The texts are followed by their NUL, and by at least as many bytes as are read. The result is
  -- `none` where the assertion fails.
  unfoldable pub publish_example_port_fault : List ℕ → List ℕ → Stream → Option Stream
  unfolding port_fault_map publish_encoded
  publish_example_port_fault port_name port_fault stream =
      publish_encoded (port_fault_map port_name port_fault (new_encode_state 4 256 1)) stream
