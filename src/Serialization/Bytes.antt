-- ===== src/Serialization/Bytes.antt =====
-- src/serialization.c: the bytes of a value, and that `coreconfToCBOR` writes them.
use ccoreconf_zcbor.Common.{ℕ, ◌+◌, ◌≤◌, ◌≡◌, List, [], ◌++◌, true, false, some, length}
use ccoreconf_zcbor.Zcbor.{Encoder, Put}
use ccoreconf_zcbor.Zcbor.Laws.{
  EncoderLaws, Writes, put-Writes, succeed-Writes, then-Writes, attempt-Writes,
}
use ccoreconf_zcbor.Value.{
  Value, Values, Ref, Chain, Table, HashMap, array, string, real, int_8, int_16, int_32, int_64,
  uint_8, uint_16, uint_32, uint_64, true_value, false_value, null_value, hashmap, no_elements,
  element, null_ref, ref, chain_end, object, no_buckets, bucket, map_of,
}
use ccoreconf_zcbor.Serialization.Encode.{
  array_size, coreconf_to_cbor, encode_elements, encode_ref, encode_chain, encode_table, encode_map,
}

-- No pointer in the value is NULL.
unfoldable mutual
  pub IsComplete : Value → Type 0
  IsComplete (array vs) = AllComplete vs
  IsComplete (hashmap m) = MapIsComplete m
  IsComplete _ = Unit

  pub AllComplete : Values → Type 0
  AllComplete no_elements = Unit
  AllComplete (element v vs) = IsComplete v × AllComplete vs

  pub RefIsComplete : Ref → Type 0
  RefIsComplete null_ref = ⊥
  RefIsComplete (ref v) = IsComplete v

  pub ChainIsComplete : Chain → Type 0
  ChainIsComplete chain_end = Unit
  ChainIsComplete (object k r c) = RefIsComplete r × ChainIsComplete c

  pub TableIsComplete : Table → Type 0
  TableIsComplete no_buckets = Unit
  TableIsComplete (bucket c t) = ChainIsComplete c × TableIsComplete t

  pub MapIsComplete : HashMap → Type 0
  MapIsComplete (map_of t n) = TableIsComplete t

module _ {zcbor : Encoder} (laws : EncoderLaws zcbor) where
  open laws use {
    uint_bytes, int_bytes, float_bytes, text_bytes, bool_bytes, nil_bytes, list_open, list_close,
    map_open, map_close,
  }

  unfoldable mutual
    pub cbor_bytes : Value → List ℕ
    cbor_bytes (array vs) =
        list_open (array_size vs) ++ (elements_bytes vs ++ list_close (array_size vs))
    cbor_bytes (hashmap m) = map_bytes m
    cbor_bytes (real d) = float_bytes d
    cbor_bytes (int_8 z) = int_bytes z
    cbor_bytes (int_16 z) = int_bytes z
    cbor_bytes (int_32 z) = int_bytes z
    cbor_bytes (int_64 z) = int_bytes z
    cbor_bytes (uint_8 n) = uint_bytes n
    cbor_bytes (uint_16 n) = uint_bytes n
    cbor_bytes (uint_32 n) = uint_bytes n
    cbor_bytes (uint_64 n) = uint_bytes n
    cbor_bytes (string s) = text_bytes s
    cbor_bytes true_value = bool_bytes true
    cbor_bytes false_value = bool_bytes false
    cbor_bytes null_value = nil_bytes

    pub elements_bytes : Values → List ℕ
    elements_bytes no_elements = []
    elements_bytes (element v vs) = cbor_bytes v ++ elements_bytes vs

    pub ref_bytes : Ref → List ℕ
    ref_bytes null_ref = nil_bytes
    ref_bytes (ref v) = cbor_bytes v

    pub chain_bytes : Chain → List ℕ
    chain_bytes chain_end = []
    chain_bytes (object k r c) = uint_bytes k ++ (ref_bytes r ++ chain_bytes c)

    pub table_bytes : Table → List ℕ
    table_bytes no_buckets = []
    table_bytes (bucket c t) = chain_bytes c ++ table_bytes t

    pub map_bytes : HashMap → List ℕ
    map_bytes (map_of t n) = map_open n ++ (table_bytes t ++ map_close n)

  abbrev W : Put (Encoder.State zcbor) → List ℕ → Type 0
  W = Writes laws

  mutual
    unfolding coreconf_to_cbor cbor_bytes IsComplete

    value-Writes : (v : Value) → IsComplete v → W (coreconf_to_cbor zcbor v) (cbor_bytes v)
    value-Writes (array vs) h =
        then-Writes laws _ _ _ _ (put-Writes laws _ _ (laws.list_start (array_size vs))) (
          then-Writes laws _ _ _ _ (elements-Writes vs h)
            (put-Writes laws _ _ (laws.list_end (array_size vs))))
    value-Writes (hashmap m) h = map-Writes m h
    value-Writes (real d) h = put-Writes laws _ _ (laws.float64 d)
    value-Writes (int_8 z) h = put-Writes laws _ _ (laws.int32 z)
    value-Writes (int_16 z) h = put-Writes laws _ _ (laws.int32 z)
    value-Writes (int_32 z) h = put-Writes laws _ _ (laws.int32 z)
    value-Writes (int_64 z) h = put-Writes laws _ _ (laws.int64 z)
    value-Writes (uint_8 n) h = put-Writes laws _ _ (laws.uint32 n)
    value-Writes (uint_16 n) h = put-Writes laws _ _ (laws.uint32 n)
    value-Writes (uint_32 n) h = put-Writes laws _ _ (laws.uint32 n)
    value-Writes (uint_64 n) h = put-Writes laws _ _ (laws.uint64 n)
    value-Writes (string s) h = put-Writes laws _ _ (laws.text s)
    value-Writes true_value h = put-Writes laws _ _ (laws.bool true)
    value-Writes false_value h = put-Writes laws _ _ (laws.bool false)
    value-Writes null_value h = put-Writes laws _ _ laws.nil

    elements-Writes :
        (vs : Values) → AllComplete vs → W (encode_elements zcbor vs) (elements_bytes vs)
    elements-Writes no_elements h = succeed-Writes laws
    elements-Writes (element v vs) h =
        then-Writes laws _ _ _ _ (value-Writes v h.0) (elements-Writes vs h.1)

    ref-Writes : (r : Ref) → RefIsComplete r → W (encode_ref zcbor r) (ref_bytes r)
    ref-Writes null_ref h = absurd h
    ref-Writes (ref v) h = value-Writes v h

    chain-Writes : (c : Chain) → ChainIsComplete c → W (encode_chain zcbor c) (chain_bytes c)
    chain-Writes chain_end h = succeed-Writes laws
    chain-Writes (object k r c) h =
        then-Writes laws _ _ _ _ (attempt-Writes laws _ _ (put-Writes laws _ _ (laws.uint64 k))) (
          then-Writes laws _ _ _ _ (attempt-Writes laws _ _ (ref-Writes r h.0))
            (chain-Writes c h.1))

    table-Writes : (t : Table) → TableIsComplete t → W (encode_table zcbor t) (table_bytes t)
    table-Writes no_buckets h = succeed-Writes laws
    table-Writes (bucket c t) h = then-Writes laws _ _ _ _ (chain-Writes c h.0) (table-Writes t h.1)

    map-Writes : (m : HashMap) → MapIsComplete m → W (encode_map zcbor m) (map_bytes m)
    map-Writes (map_of t n) h =
        then-Writes laws _ _ _ _ (put-Writes laws _ _ (laws.map_start n))
          (then-Writes laws _ _ _ _ (table-Writes t h) (put-Writes laws _ _ (laws.map_end n)))

-- `coreconfToCBOR` of a value without NULL pointers, whose bytes fit into the buffer, never reads
-- through a NULL pointer, succeeds, and appends exactly the bytes of the value.
pub coreconf_to_cbor-Writes :
    {zcbor : Encoder} (laws : EncoderLaws zcbor) (v : Value) (s : Encoder.State zcbor)
    → IsComplete v
    → length (cbor_bytes laws v) ≤ EncoderLaws.room laws s
    → (s' : Encoder.State zcbor) × (coreconf_to_cbor zcbor v s ≡ some (s', true))
      × (Encoder.written zcbor s' ≡ Encoder.written zcbor s ++ cbor_bytes laws v)
      × (EncoderLaws.room laws s' + length (cbor_bytes laws v) ≡ EncoderLaws.room laws s)
coreconf_to_cbor-Writes laws v s h fits = value-Writes laws v h s fits
