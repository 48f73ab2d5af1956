-- ===== src/Get/Bytes.antt =====
-- src/get.c, src/put.c and src/ipatch.c: the three functions that write a whole map.
use ccoreconf_zcbor.Common.{
  ℕ, zero, suc, ◌≤◌, ◌≡◌, refl, sym, List, [], false, some, ◌==◌, length, arith,
}
use ccoreconf_zcbor.Zcbor.{Encoder, Put}
use ccoreconf_zcbor.Zcbor.Laws.{EncoderLaws, Writes, put-Writes, succeed-Writes, then-Writes}
use ccoreconf_zcbor.Zcbor.Sequences.{finish-Writes}
use ccoreconf_zcbor.Value.{
  Ref, Chain, Table, HashMap, hashmap, null_ref, ref, chain_end, object, no_buckets, bucket, map_of,
}
use ccoreconf_zcbor.HashMap.Buckets.{length_chain, total, IsValid}
use ccoreconf_zcbor.Serialization.Bytes.{
  IsComplete, coreconf_to_cbor-Writes, ref_bytes, chain_bytes, table_bytes, map_bytes, cbor_bytes,
}
use ccoreconf_zcbor.Get.{
  encode_value, encode_objects, encode_buckets, encode_datastore, create_get_response,
}
use ccoreconf_zcbor.Put.{create_put_request}
use ccoreconf_zcbor.Ipatch.Request.{create_ipatch_request}

-- An object may hold NULL, its value may not have NULL inside.
abbrev pub RefIsPlain : Ref → Type 0
RefIsPlain null_ref = Unit
RefIsPlain (ref v) = IsComplete v

abbrev pub ChainIsPlain : Chain → Type 0
ChainIsPlain chain_end = Unit
ChainIsPlain (object k r c) = RefIsPlain r × ChainIsPlain c

abbrev pub TableIsPlain : Table → Type 0
TableIsPlain no_buckets = Unit
TableIsPlain (bucket c t) = ChainIsPlain c × TableIsPlain t

abbrev pub MapIsPlain : HashMap → Type 0
MapIsPlain (map_of t n) = TableIsPlain t

module _ {zcbor : Encoder} (laws : EncoderLaws zcbor) where
  abbrev W : Put (Encoder.State zcbor) → List ℕ → Type 0
  W = Writes laws

  pub encode_value-Writes : (r : Ref) → RefIsPlain r → W (encode_value zcbor r) (ref_bytes laws r)
  unfolding encode_value cbor_bytes
  encode_value-Writes null_ref h s fits = put-Writes laws _ _ laws.nil s fits
  encode_value-Writes (ref v) h s fits = coreconf_to_cbor-Writes laws v s h fits

  objects-Writes : (c : Chain) → ChainIsPlain c → W (encode_objects zcbor c) (chain_bytes laws c)
  unfolding encode_objects cbor_bytes
  objects-Writes chain_end h = succeed-Writes laws
  objects-Writes (object k r c) h =
      then-Writes laws _ _ _ _ (put-Writes laws _ _ (laws.uint64 k))
        (then-Writes laws _ _ _ _ (encode_value-Writes r h.0) (objects-Writes c h.1))

  buckets-Writes : (t : Table) → TableIsPlain t → W (encode_buckets zcbor t) (table_bytes laws t)
  unfolding encode_buckets cbor_bytes
  buckets-Writes no_buckets h = succeed-Writes laws
  buckets-Writes (bucket c t) h =
      then-Writes laws _ _ _ _ (objects-Writes c h.0) (buckets-Writes t h.1)

  table_bytes-empty : (t : Table) → total t ≡ 0 → table_bytes laws t ≡ []
  unfolding total length_chain cbor_bytes
  table_bytes-empty no_buckets h = refl
  table_bytes-empty (bucket chain_end t) h = table_bytes-empty t (omega arith)
  table_bytes-empty (bucket (object k r c) t) h = absurd (omega arith)

  -- An empty map gets its own branch, which comes to the same bytes.
  entries-Writes :
      (m : HashMap) → IsValid m → MapIsPlain m → W (encode_datastore zcbor m) (map_bytes laws m)
  unfolding encode_datastore cbor_bytes
  entries-Writes (map_of t zero) valid h = rw (table_bytes-empty t (sym valid.counted)) (
      then-Writes laws _ _ _ _ (put-Writes laws _ _ (laws.map_start 0))
        (put-Writes laws _ _ (laws.map_end 0)))
  entries-Writes (map_of t (suc n)) valid h =
      let more : (suc n == 0) ≡ false = ground arith in
      rw more (
        then-Writes laws _ _ _ _ (put-Writes laws _ _ (laws.map_start (suc n))) (
          then-Writes laws _ _ _ _ (buckets-Writes t h)
            (put-Writes laws _ _ (laws.map_end (suc n)))))

-- For a valid datastore without NULL pointers inside its values, the GET response, the PUT request
-- and the iPATCH request are each the bytes of the whole map, if they fit into the buffer.
pub create_get_response-bytes :
    {zcbor : Encoder} (laws : EncoderLaws zcbor) (buffer_size : ℕ) (m : HashMap)
    → IsValid m
    → MapIsPlain m
    → length (map_bytes laws m) ≤ buffer_size
    → (create_get_response zcbor (some buffer_size) (ref (hashmap m)) ≡ some (map_bytes laws m))
      × (create_put_request zcbor (some buffer_size) (ref (hashmap m)) ≡ some (map_bytes laws m))
      × (create_ipatch_request zcbor (some buffer_size) (ref (hashmap m)) ≡ some (map_bytes laws m))
create_get_response-bytes laws size (map_of t n) valid h fits =
    let whole = finish-Writes laws 8 size 1 _ _ (entries-Writes laws (map_of t n) valid h) fits in
    (
      unfold create_get_response encode_datastore in whole,
      unfold create_put_request encode_datastore in whole,
      unfold create_ipatch_request encode_datastore in whole,
    )
