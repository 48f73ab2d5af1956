-- ===== src/Serialization/KeyMapping/Written.antt =====
-- src/serialization.c: the bytes that `keyMappingHashMapToCBOR` writes.
use ccoreconf_zcbor.Common.{ℕ, ◌+◌, ◌≤◌, ◌≡◌, List, [], ◌∷◌, ◌++◌, some, true, length}
use ccoreconf_zcbor.Common.Int.{ℤ, to_uint64}
use ccoreconf_zcbor.Zcbor.{Encoder}
use ccoreconf_zcbor.Zcbor.Laws.{EncoderLaws, Writes, put-Writes, succeed-Writes, then-Writes}
use ccoreconf_zcbor.Zcbor.Sequences.{all_bytes}
use ccoreconf_zcbor.Serialization.KeyMapping.{
  KeyMap, encode_longs, encode_mapping, encode_mappings, key_mapping_hash_map_to_cbor,
}

module _ {zcbor : Encoder} (laws : EncoderLaws zcbor) where
  abbrev long_bytes : ℤ → List ℕ
  long_bytes z = laws.uint_bytes (to_uint64 z)

  -- a SID, and the list of its keys
  abbrev mapping_bytes : ℤ × List ℤ → List ℕ
  mapping_bytes (key, l) =
      long_bytes key
      ++ (laws.list_open (length l) ++ (all_bytes long_bytes l ++ laws.list_close (length l)))

  abbrev pub key_mapping_bytes : (m : KeyMap) → KeyMap.Map m → List ℕ
  key_mapping_bytes m map =
      laws.map_open (KeyMap.hashmap_count m map)
      ++ (all_bytes mapping_bytes (KeyMap.items m map)
          ++ laws.map_close (KeyMap.hashmap_count m map))

  longs-Writes : (l : List ℤ) → Writes laws (encode_longs zcbor l) (all_bytes long_bytes l)
  unfolding encode_longs
  longs-Writes [] = succeed-Writes laws
  longs-Writes (z ∷ l) =
      then-Writes laws _ _ _ _ (put-Writes laws _ _ (laws.uint64 (to_uint64 z))) (longs-Writes l)

  mapping-Writes :
      (key : ℤ) (l : List ℤ) → Writes laws (encode_mapping zcbor key l) (mapping_bytes (key, l))
  unfolding encode_mapping
  mapping-Writes key l =
      then-Writes laws _ _ _ _ (put-Writes laws _ _ (laws.uint64 (to_uint64 key))) (
        then-Writes laws _ _ _ _ (put-Writes laws _ _ (laws.list_start (length l))) (
          then-Writes laws _ _ _ _ (longs-Writes l)
            (put-Writes laws _ _ (laws.list_end (length l)))))

  mappings-Writes :
      (l : List (ℤ × List ℤ)) → Writes laws (encode_mappings zcbor l) (all_bytes mapping_bytes l)
  unfolding encode_mappings
  mappings-Writes [] = succeed-Writes laws
  mappings-Writes ((key, l) ∷ rest) =
      then-Writes laws _ _ _ _ (mapping-Writes key l) (mappings-Writes rest)

-- `keyMappingHashMapToCBOR` succeeds where its bytes fit, and writes the map of each SID to the list
-- of its keys, in the order in which the hash map yields them.
pub key_mapping_hash_map_to_cbor-Writes :
    {zcbor : Encoder} (laws : EncoderLaws zcbor) (m : KeyMap) (map : KeyMap.Map m)
    (s : Encoder.State zcbor)
    → length (key_mapping_bytes laws m map) ≤ EncoderLaws.room laws s
    → (s' : Encoder.State zcbor) × (key_mapping_hash_map_to_cbor zcbor m map s ≡ some (s', true))
      × (Encoder.written zcbor s' ≡ Encoder.written zcbor s ++ key_mapping_bytes laws m map)
      × (EncoderLaws.room laws s' + length (key_mapping_bytes laws m map) ≡ EncoderLaws.room laws s)
unfolding key_mapping_hash_map_to_cbor
key_mapping_hash_map_to_cbor-Writes laws m map s fits =
    let n = KeyMap.hashmap_count m map in
    then-Writes laws _ _ _ _ (put-Writes laws _ _ (laws.map_start n))
      (then-Writes laws _ _ _ _ (mappings-Writes laws (KeyMap.items m map))
        (put-Writes laws _ _ (laws.map_end n)))
      s fits
