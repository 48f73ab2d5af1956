-- ===== src/Get.antt =====
-- src/get.c: the GET response, a map of the whole datastore.
pub mod Bytes
use ccoreconf_zcbor.Common.{ℕ, List, [], ◌∷◌, Option, none, some, ◌==◌, if◌then◌else◌}
use ccoreconf_zcbor.Zcbor.{
  Encoder, Decoder, Put, put, ◌>>◌, succeed, Run, ret, ◌>>=◌, run_of, Buffer, finish_encoding,
}
use ccoreconf_zcbor.Value.{
  Value, Ref, Chain, Table, HashMap, hashmap, null_ref, ref, chain_end, object, no_buckets, bucket,
  map_of,
}
use ccoreconf_zcbor.Serialization.Encode.{coreconf_to_cbor}
use ccoreconf_zcbor.Serialization.Decode.{cbor_to_coreconf_value}

module _ (zcbor : Encoder) where
  open zcbor use {State, new_encode_state, uint64_put, nil_put, map_start_encode, map_end_encode}

  -- a value, or null for a NULL pointer
  unfoldable pub encode_value : Ref → Put State
  unfolding coreconf_to_cbor
  encode_value null_ref = put nil_put
  encode_value (ref v) = coreconf_to_cbor zcbor v

  -- the loop over the objects of a bucket, and the one over the buckets
  unfoldable pub encode_objects : Chain → Put State
  unfolding encode_value
  encode_objects chain_end = succeed
  encode_objects (object k r c) = put (uint64_put k) >> encode_value r >> encode_objects c

  unfoldable pub encode_buckets : Table → Put State
  unfolding encode_objects
  encode_buckets no_buckets = succeed
  encode_buckets (bucket c t) = encode_objects c >> encode_buckets t

  unfoldable pub encode_datastore : HashMap → Put State
  unfolding encode_buckets
  encode_datastore (map_of t entry_count) =
      if entry_count == 0
      then (put (map_start_encode 0) >> put (map_end_encode 0))
      else (put (map_start_encode entry_count)
          >> encode_buckets t
          >> put (map_end_encode entry_count))

  -- `buffer` is its size, or `none` for NULL. The pointer in a map value is never NULL.
  unfoldable pub create_get_response : Option ℕ → Ref → Buffer
  unfolding encode_datastore finish_encoding
  create_get_response (some buffer_size) (ref (hashmap m)) =
      finish_encoding zcbor (encode_datastore m (new_encode_state 8 buffer_size 1))
  create_get_response buffer datastore = some []

module _ (zcbor : Decoder) where
  open zcbor use {State, new_decode_state}

  -- `data` is `none` for NULL. No value is NULL.
  unfoldable pub parse_get_response : ℕ → Option (List ℕ) → Run (Option Value)
  unfolding cbor_to_coreconf_value
  parse_get_response fuel none = ret none
  parse_get_response fuel (some []) = ret none
  parse_get_response fuel (some (b ∷ bs)) =
      run_of (cbor_to_coreconf_value zcbor fuel 0 (new_decode_state 8 (b ∷ bs) 1)) >>= λ r. ret r.1
