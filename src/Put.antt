-- ===== src/Put.antt =====
-- src/put.c: the PUT request, a map of the whole datastore.
use ccoreconf_zcbor.Common.{ℕ, List, [], ◌∷◌, Option, none, some, ◌==◌, if◌then◌else◌}
use ccoreconf_zcbor.Zcbor.{
  Encoder, Decoder, Put, put, ◌>>◌, Run, ret, ◌>>=◌, run_of, Buffer, finish_encoding,
}
use ccoreconf_zcbor.Value.{Value, Ref, HashMap, hashmap, ref, map_of}
use ccoreconf_zcbor.Get.{encode_buckets}
use ccoreconf_zcbor.Serialization.Decode.{cbor_to_coreconf_value}

module _ (zcbor : Decoder) where
  open zcbor use {new_decode_state}

  unfoldable pub parse_put_request : ℕ → Option (List ℕ) → Run (Option Value)
  unfolding cbor_to_coreconf_value
  parse_put_request fuel none = ret none
  parse_put_request fuel (some []) = ret none
  parse_put_request fuel (some (b ∷ bs)) =
      run_of (cbor_to_coreconf_value zcbor fuel 0 (new_decode_state 8 (b ∷ bs) 1)) >>= λ r. ret r.1

module _ (zcbor : Encoder) where
  open zcbor use {State, new_encode_state, map_start_encode, map_end_encode}

  unfoldable pub put_entries : HashMap → Put State
  unfolding encode_buckets
  put_entries (map_of t entry_count) =
      if entry_count == 0
      then (put (map_start_encode 0) >> put (map_end_encode 0))
      else (put (map_start_encode entry_count)
          >> encode_buckets zcbor t
          >> put (map_end_encode entry_count))

  unfoldable pub create_put_request : Option ℕ → Ref → Buffer
  unfolding put_entries finish_encoding
  create_put_request (some buffer_size) (ref (hashmap m)) =
      finish_encoding zcbor (put_entries m (new_encode_state 8 buffer_size 1))
  create_put_request buffer datastore = some []
