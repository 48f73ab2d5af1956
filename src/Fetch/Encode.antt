-- ===== src/Fetch/Encode.antt =====
-- src/fetch.c: the functions that write requests and responses.
use ccoreconf_zcbor.Common.{ℕ, List, [], ◌∷◌, Option, none, some}
use ccoreconf_zcbor.Zcbor.{Encoder, Put, put, ◌>>◌, Buffer, sequence_loop}
use ccoreconf_zcbor.Value.{Value, Ref, hashmap, ref}
use ccoreconf_zcbor.HashMap.{get_coreconf_hash_map}
use ccoreconf_zcbor.Serialization.Encode.{coreconf_to_cbor}
use ccoreconf_zcbor.Fetch.Resolve.{
  InstanceIdentifier, iid_simple, iid_with_str_key, iid_with_int_key, sid, fetch_value_by_iid,
}

-- the value of a SID in the data source
unfoldable pub look_up : Ref → ℕ → Option Value
unfolding get_coreconf_hash_map
look_up (ref (hashmap m)) s = get_coreconf_hash_map m s
look_up data_source s = none

-- An array that may be NULL is `none`; an empty one is refused too.
module _ (zcbor : Encoder) where
  open zcbor use {
    State, uint64_put, int64_put, tstr_put_term, nil_put, list_start_encode, list_end_encode,
    map_start_encode, map_end_encode,
  }

  unfoldable pub create_fetch_request : Option ℕ → Option (List ℕ) → Buffer
  unfolding sequence_loop
  create_fetch_request (some buffer_size) (some (s ∷ sids)) =
      sequence_loop zcbor 5 (λ n. put (uint64_put n)) (s ∷ sids) buffer_size []
  create_fetch_request buffer sids = some []

  unfoldable pub encode_iid : InstanceIdentifier → Put State
  encode_iid (iid_simple s) = put (uint64_put s)
  encode_iid (iid_with_str_key s key) =
      put (list_start_encode 2)
      >> put (uint64_put s)
      >> put (tstr_put_term key)
      >> put (list_end_encode 2)
  encode_iid (iid_with_int_key s key) =
      put (list_start_encode 2)
      >> put (uint64_put s)
      >> put (int64_put key)
      >> put (list_end_encode 2)

  unfoldable pub create_fetch_request_with_iids :
      Option ℕ → Option (List InstanceIdentifier) → Buffer
  unfolding sequence_loop encode_iid
  create_fetch_request_with_iids (some buffer_size) (some (i ∷ iids)) =
      sequence_loop zcbor 5 encode_iid (i ∷ iids) buffer_size []
  create_fetch_request_with_iids buffer iids = some []

  unfoldable pub encode_found : Option Value → Put State
  encode_found none = put nil_put
  encode_found (some v) = coreconf_to_cbor zcbor v

  -- the map of one SID to its value, or to null
  unfoldable pub encode_pair : ℕ → Option Value → Put State
  unfolding encode_found
  encode_pair s value =
      put (map_start_encode 1) >> put (uint64_put s) >> encode_found value >> put (map_end_encode 1)

  unfoldable pub create_fetch_response : Option ℕ → Ref → Option (List ℕ) → Buffer
  unfolding sequence_loop encode_pair look_up
  create_fetch_response (some buffer_size) data_source (some (s ∷ sids)) =
      sequence_loop zcbor 5 (λ n. encode_pair n (look_up data_source n)) (s ∷ sids) buffer_size []
  create_fetch_response buffer data_source sids = some []

  unfoldable pub create_fetch_response_iids :
      Option ℕ → Ref → Option (List InstanceIdentifier) → Buffer
  unfolding sequence_loop encode_pair fetch_value_by_iid
  create_fetch_response_iids (some buffer_size) data_source (some (i ∷ iids)) =
      sequence_loop zcbor 5 (λ iid. encode_pair (sid iid) (fetch_value_by_iid data_source iid))
        (i ∷ iids) buffer_size []
  create_fetch_response_iids buffer data_source iids = some []
