-- ===== src/Server/Fetch.antt =====
-- iot_containers/iot_apps/coreconf_server.c: `handle_fetch`.
use ccoreconf_zcbor.Common.{
  ℕ, zero, suc, ◌+◌, ◌-◌, List, [], ◌∷◌, Bool, true, false, Option, none, some, leb, ◌==◌,
  if◌then◌else◌, length,
}
use ccoreconf_zcbor.Common.Text.{ascii}
use ccoreconf_zcbor.Zcbor.{
  Encoder, Decoder, Put, put, ◌>>◌, succeed, attempt, pint, list, major_type, Run, ret, bad_read,
  ◌>>=◌,
}
use ccoreconf_zcbor.Value.{
  Value, Values, Ref, Chain, Table, HashMap, array, hashmap, no_elements, element, ref, chain_end,
  object, no_buckets, bucket, table,
}
use ccoreconf_zcbor.HashMap.{get_coreconf_hash_map}
use ccoreconf_zcbor.Serialization.Encode.{coreconf_to_cbor}
use ccoreconf_zcbor.Fetch.Resolve.{element_has, element_at}
use ccoreconf_zcbor.Ipatch.Raw.{key_buffer}
use ccoreconf_zcbor.Server.Notify.{buffer_size}
use ccoreconf_zcbor.Server.State.{
  Server, content, bad_request, not_found, unsupported_content_format, Reply, Handler,
  get_content_format, get_data, send_error, with_body, answer, cf_yang_identifiers,
  cf_yang_instances,
}
use ccoreconf_zcbor.Server.Datastore.{current_datastore, dashed}

-- an identifier of the request; the key is the text in its buffer
pub data Iid : Type 0 where
  iid_scalar : ℕ → Iid
  iid_list : ℕ → List ℕ → Iid

-- the index of the first element that is a map with the key as a string, counted from `i`
unfoldable pub fetch_find_from : ℕ → List ℕ → Values → Option ℕ
unfolding element_has
fetch_find_from i key no_elements = none
fetch_find_from i key (element v vs) =
    if element_has key v then some i else fetch_find_from (i + 1) key vs

-- `none` for -1
unfoldable pub fetch_find_list_entry : Value → List ℕ → Option ℕ
unfolding fetch_find_from
fetch_find_list_entry (array vs) key = fetch_find_from 0 key vs
fetch_find_list_entry _ key = none

-- `obj->key <= sid` and a map as its value: what the map has under the difference
unfoldable pub leaf_under : ℕ → ℕ → Ref → Option Value
leaf_under sid key (ref (hashmap m)) =
    if leb key sid then get_coreconf_hash_map m (sid - key) else none
leaf_under sid key r = none

unfoldable pub first_found : Option Value → Option Value → Option Value
first_found none later = later
first_found (some v) later = some v

-- the loops over the objects and the buckets, until a leaf is found
unfoldable pub leaf_in_chain : ℕ → Chain → Option Value
unfolding leaf_under first_found
leaf_in_chain sid chain_end = none
leaf_in_chain sid (object k r c) = first_found (leaf_under sid k r) (leaf_in_chain sid c)

unfoldable pub leaf_in_table : ℕ → Table → Option Value
unfolding leaf_in_chain first_found
leaf_in_table sid no_buckets = none
leaf_in_table sid (bucket c t) = first_found (leaf_in_chain sid c) (leaf_in_table sid t)

-- What a SID leads to: a value of the datastore, or a leaf of one of its maps.
unfoldable pub scalar_value : HashMap → ℕ → Option Value
unfolding leaf_in_table first_found
scalar_value m sid = first_found (get_coreconf_hash_map m sid) (leaf_in_table sid (table m))

unfoldable pub entry_at : Values → Option ℕ → Option Value
unfolding element_at
entry_at vs none = none
entry_at vs (some idx) = element_at idx vs

-- the entry of a list that a key names
unfoldable pub list_value : Option Value → List ℕ → Option Value
unfolding fetch_find_list_entry entry_at
list_value (some (array vs)) key = entry_at vs (fetch_find_list_entry (array vs) key)
list_value _ key = none

module _ (decoder : Decoder) where
  open decoder use {
    State, new_decode_state, payload, uint64_decode, tstr_decode, list_start_decode,
    list_end_decode,
  }

  unfoldable pub scalar_iid : State × Option ℕ → State × Option Iid
  scalar_iid (s, none) = (s, none)
  scalar_iid (s, some sid) = (s, some (iid_scalar sid))

  unfoldable pub end_iid : ℕ → List ℕ → State × Bool → State × Option Iid
  unfolding key_buffer
  end_iid sid zs (s, false) = (s, none)
  end_iid sid zs (s, true) = (s, some (iid_list sid (key_buffer zs)))

  unfoldable pub text_iid : ℕ → State × Option (List ℕ) → State × Option Iid
  unfolding end_iid
  text_iid sid (s, none) = (s, none)
  text_iid sid (s, some zs) = end_iid sid zs (list_end_decode s)

  unfoldable pub sid_iid : State × Option ℕ → State × Option Iid
  unfolding text_iid
  sid_iid (s, none) = (s, none)
  sid_iid (s, some sid) = text_iid sid (tstr_decode s)

  unfoldable pub list_iid : State × Bool → State × Option Iid
  unfolding sid_iid
  list_iid (s, false) = (s, none)
  list_iid (s, true) = sid_iid (uint64_decode s)

  unfoldable pub request_iid : ℕ → List ℕ → State × Option Iid
  unfolding scalar_iid list_iid
  request_iid header bytes =
      let s = new_decode_state 8 bytes 1 in
      elim (major_type header) [
        | pint ↦ scalar_iid (uint64_decode s)
        | list ↦ list_iid (list_start_decode s)
        | _ ↦ (s, none)
      ]

  -- the loop over the identifiers, with the room left in the array
  unfoldable pub request_iids : ℕ → List ℕ → List Iid
  unfolding request_iid
  request_iids zero bytes = []
  request_iids (suc room) [] = []
  request_iids (suc room) (b ∷ bytes) = elim ((request_iid b (b ∷ bytes)).1) [
    | none ↦ []
    | some iid ↦ iid ∷ request_iids room (payload (request_iid b (b ∷ bytes)).0)
  ]

module _ (encoder : Encoder) where
  open encoder use {
    State, new_encode_state, written, uint64_put, list_start_encode, list_end_encode,
    map_start_encode, map_end_encode,
  }

  -- The results of the calls of zcbor are dropped.
  unfoldable pub encode_scalar : ℕ → Option Value → Put State
  unfolding coreconf_to_cbor
  encode_scalar sid none = succeed
  encode_scalar sid (some v) =
      attempt (put (uint64_put sid)) >> attempt (coreconf_to_cbor encoder v)

  unfoldable pub encode_listed : ℕ → Option Value → Put State
  unfolding coreconf_to_cbor
  encode_listed sid none = succeed
  encode_listed sid (some v) =
      attempt (put (uint64_put sid))
      >> attempt (put (list_start_encode 1))
      >> attempt (coreconf_to_cbor encoder v)
      >> attempt (put (list_end_encode 1))

  unfoldable pub encode_iid_value : HashMap → Iid → Put State
  unfolding encode_scalar encode_listed scalar_value list_value
  encode_iid_value m (iid_scalar sid) = encode_scalar sid (scalar_value m sid)
  encode_iid_value m (iid_list sid key) =
      encode_listed sid (list_value (get_coreconf_hash_map m sid) key)

  unfoldable pub encode_iid_values : HashMap → List Iid → Put State
  unfolding encode_iid_value
  encode_iid_values m [] = succeed
  encode_iid_values m (iid ∷ iids) = encode_iid_value m iid >> encode_iid_values m iids

  unfoldable pub encode_response : HashMap → List Iid → Put State
  unfolding encode_iid_values
  encode_response m iids =
      attempt (put (map_start_encode (length iids)))
      >> encode_iid_values m iids
      >> attempt (put (map_end_encode (length iids)))

  -- what is written so far is sent, whether all of it went well or not
  unfoldable pub fetch_body : Option (State × Bool) → Run (List ℕ)
  fetch_body none = bad_read
  fetch_body (some (s, ok)) = ret (written s)

  module _ (decoder : Decoder) where
    unfoldable pub fetch_iids : Server → Value → List Iid → Run Reply
    unfolding encode_response fetch_body send_error answer with_body
    fetch_iids server v [] = ret (send_error server bad_request 1012 (ascii "no IIDs in request"))
    fetch_iids server (hashmap m) (iid ∷ iids) =
        fetch_body (encode_response m (iid ∷ iids) (new_encode_state 8 buffer_size 1)) >>= λ body.
        ret (answer server (with_body content cf_yang_instances body))
    fetch_iids server v (iid ∷ iids) = bad_read

    unfoldable pub fetch_from : Server → List ℕ → Option Value → Run Reply
    unfolding fetch_iids request_iids send_error dashed
    fetch_from server bytes none = ret (
        send_error server not_found 1019
          (dashed (ascii "datastore empty ") (ascii " use PUT /c first")))
    fetch_from server bytes (some v) = fetch_iids server v (request_iids decoder 64 bytes)

    unfoldable pub fetch_payload : Server → Option (List ℕ) → Run Reply
    unfolding fetch_from current_datastore send_error
    fetch_payload server none = ret (send_error server bad_request 1012 (ascii "missing IID list"))
    fetch_payload server (some bytes) = fetch_from server bytes (current_datastore server)

    unfoldable pub handle_fetch : Handler
    unfolding get_content_format get_data fetch_payload send_error
    handle_fetch server req =
        if get_content_format req == cf_yang_identifiers
        then fetch_payload server (get_data req)
        else ret (
            send_error server unsupported_content_format 1012
              (ascii "FETCH requires CF=141 (yang-identifiers+cbor-seq)"))
