-- ===== src/Serialization/Encode.antt =====
-- src/serialization.c: `coreconfToCBOR` and its callback.
use ccoreconf_zcbor.Common.{ℕ, suc, true, false, none}
use ccoreconf_zcbor.Zcbor.{Encoder, Put, put, ◌>>◌, succeed, attempt}
use ccoreconf_zcbor.Value.{
  Value, Values, Ref, Chain, Table, HashMap, array, string, real, int_8, int_16, int_32, int_64,
  uint_8, uint_16, uint_32, uint_64, true_value, false_value, null_value, hashmap, no_elements,
  element, null_ref, ref, chain_end, object, no_buckets, bucket, map_of,
}

unfoldable pub array_size : Values → ℕ
array_size no_elements = 0
array_size (element v vs) = suc (array_size vs)

module _ (zcbor : Encoder) where
  open zcbor use {
    State, uint32_put, uint64_put, int32_put, int64_put, float64_put, tstr_encode, bool_put,
    nil_put, list_start_encode, list_end_encode, map_start_encode, map_end_encode,
  }

  unfoldable mutual
    unfolding array_size

    pub coreconf_to_cbor : Value → Put State
    coreconf_to_cbor (hashmap m) = encode_map m
    coreconf_to_cbor (array vs) = do
      put (list_start_encode (array_size vs))
      encode_elements vs
      put (list_end_encode (array_size vs))
    coreconf_to_cbor (real d) = put (float64_put d)
    coreconf_to_cbor (int_8 z) = put (int32_put z)
    coreconf_to_cbor (int_16 z) = put (int32_put z)
    coreconf_to_cbor (int_32 z) = put (int32_put z)
    coreconf_to_cbor (int_64 z) = put (int64_put z)
    coreconf_to_cbor (uint_8 n) = put (uint32_put n)
    coreconf_to_cbor (uint_16 n) = put (uint32_put n)
    coreconf_to_cbor (uint_32 n) = put (uint32_put n)
    coreconf_to_cbor (uint_64 n) = put (uint64_put n)
    coreconf_to_cbor (string s) = put (tstr_encode s)
    coreconf_to_cbor true_value = put (bool_put true)
    coreconf_to_cbor false_value = put (bool_put false)
    coreconf_to_cbor null_value = put nil_put

    -- the loop over the elements of an array
    pub encode_elements : Values → Put State
    encode_elements no_elements = succeed
    encode_elements (element v vs) = coreconf_to_cbor v >> encode_elements vs

    pub encode_ref : Ref → Put State
    encode_ref null_ref s = none
    encode_ref (ref v) s = coreconf_to_cbor v s

    -- The iteration calls `serializeCoreconfObject` on each object, which drops both results.
    pub encode_chain : Chain → Put State
    encode_chain chain_end = succeed
    encode_chain (object k r c) =
        attempt (put (uint64_put k)) >> attempt (encode_ref r) >> encode_chain c

    pub encode_table : Table → Put State
    encode_table no_buckets = succeed
    encode_table (bucket c t) = encode_chain c >> encode_table t

    pub encode_map : HashMap → Put State
    encode_map (map_of t n) = do put (map_start_encode n); encode_table t; put (map_end_encode n)
