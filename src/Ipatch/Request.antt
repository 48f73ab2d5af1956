-- ===== src/Ipatch/Request.antt =====
-- src/ipatch.c: the requests, and the decoding of one whose payload is a single map.
use ccoreconf_zcbor.Common.{ℕ, List, [], ◌∷◌, Option, none, some, ◌==◌, if◌then◌else◌}
use ccoreconf_zcbor.Zcbor.{
  Encoder, Decoder, Put, put, ◌>>◌, Run, ret, ◌>>=◌, run_of, Buffer, finish_encoding,
}
use ccoreconf_zcbor.Value.{Value, Ref, HashMap, hashmap, ref, map_of}
use ccoreconf_zcbor.Get.{encode_buckets, encode_value}
use ccoreconf_zcbor.Serialization.Decode.{cbor_to_coreconf_value}

module _ (zcbor : Decoder) where
  open zcbor use {new_decode_state}

  unfoldable pub parse_ipatch_request : ℕ → Option (List ℕ) → Run (Option Value)
  unfolding cbor_to_coreconf_value
  parse_ipatch_request fuel none = ret none
  parse_ipatch_request fuel (some []) = ret none
  parse_ipatch_request fuel (some (b ∷ bs)) =
      run_of (cbor_to_coreconf_value zcbor fuel 0 (new_decode_state 8 (b ∷ bs) 1)) >>= λ r. ret r.1

module _ (zcbor : Encoder) where
  open zcbor use {
    State, new_encode_state, uint64_put, tstr_encode, list_start_encode, list_end_encode,
    map_start_encode, map_end_encode,
  }

  unfoldable pub patch_entries : HashMap → Put State
  unfolding encode_buckets
  patch_entries (map_of t entry_count) =
      if entry_count == 0
      then (put (map_start_encode 0) >> put (map_end_encode 0))
      else (put (map_start_encode entry_count)
          >> encode_buckets zcbor t
          >> put (map_end_encode entry_count))

  unfoldable pub create_ipatch_request : Option ℕ → Ref → Buffer
  unfolding patch_entries finish_encoding
  create_ipatch_request (some buffer_size) (ref (hashmap m)) =
      finish_encoding zcbor (patch_entries m (new_encode_state 8 buffer_size 1))
  create_ipatch_request buffer patch = some []

  unfoldable pub encode_iid_entry : ℕ → List ℕ → Ref → Put State
  unfolding encode_value
  encode_iid_entry sid key_str val =
      put (map_start_encode 1)
      >> put (list_start_encode 2)
      >> put (uint64_put sid)
      >> put (tstr_encode key_str)
      >> put (list_end_encode 2)
      >> encode_value zcbor val
      >> put (map_end_encode 1)

  -- The key is `none` for NULL.
  unfoldable pub create_ipatch_iid_request : Option ℕ → ℕ → Option (List ℕ) → Ref → Buffer
  unfolding encode_iid_entry finish_encoding
  create_ipatch_iid_request (some buffer_size) sid (some key_str) val =
      finish_encoding zcbor (encode_iid_entry sid key_str val (new_encode_state 8 buffer_size 1))
  create_ipatch_iid_request buffer sid key_str val = some []
