-- ===== src/Tests/Keys.antt =====
-- The theorems on the lists of src/sid.c and on the key mappings of src/serialization.c.
use ccoreconf_zcbor.Common.{
  ◌+◌, ◌≤◌, ◌≡◌, refl, List, [], ◌∷◌, ◌++◌, true, ◌≢◌, Option, some, false, length, arith,
}
use ccoreconf_zcbor.Zcbor.{Encoder, ret}
use ccoreconf_zcbor.Zcbor.Laws.{EncoderLaws}
use ccoreconf_zcbor.Serialization.KeyMapping.{
  KeyMap, key_mapping_hash_map_to_cbor, cbor_to_key_mapping_hash_map,
}
use ccoreconf_zcbor.Serialization.KeyMapping.Ends.{cbor_to_key_mapping_hash_map-returns}
use ccoreconf_zcbor.Serialization.KeyMapping.Written.{
  key_mapping_bytes, key_mapping_hash_map_to_cbor-Writes,
}
use ccoreconf_zcbor.Tests.Codec.{encoder, decoder, laws}
use mathlib.Core.List.{Perm}
use ccoreconf_zcbor.Common.Int.{ℤ, pos, negsuc, to_uint64}
use ccoreconf_zcbor.Common.Text.{ascii}
use ccoreconf_zcbor.Sid.Text.{
  char2int64, int2str, remove_trailing_slash_from_path, get_substring_after_last_colon,
}
use ccoreconf_zcbor.Sid.Printed.{char2int64-int2str}
use ccoreconf_zcbor.Sid.{compare_dynamic_long_list}
use ccoreconf_zcbor.Sid.Compare.{compare_dynamic_long_list-Perm}

abbrev first_keys : List ℤ
first_keys = pos 1723 ∷ pos 1725 ∷ []

abbrev second_keys : List ℤ
second_keys = pos 1725 ∷ pos 1723 ∷ []

keys_agree : compare_dynamic_long_list first_keys second_keys ≡ true
unfolding compare_dynamic_long_list
keys_agree = refl

compare_dynamic_long_list-Perm_example : Perm first_keys second_keys × (first_keys ≢ [])
compare_dynamic_long_list-Perm_example =
    compare_dynamic_long_list-Perm first_keys second_keys keys_agree

-- the newest mapping first
abbrev key_map : KeyMap
key_map = record {
  Map = List (ℤ × List ℤ);
  hashmap_new = [];
  hashmap_set = λ m k l. (k, l) ∷ m;
  hashmap_count = length;
  items = λ m. m;
}

-- {1755: [1723, 1725]}
abbrev mappings : List (ℤ × List ℤ)
mappings = (pos 1755, first_keys) ∷ []

mappings_fit : length (key_mapping_bytes laws key_map mappings) ≤ 64
unfolding to_uint64
mappings_fit = omega arith

key_mapping_hash_map_to_cbor-Writes_example :
    (s' : Encoder.State encoder) × (key_mapping_hash_map_to_cbor encoder key_map mappings ([], 64)
      ≡ some (s', true))
    × (Encoder.written encoder s'
        ≡ Encoder.written encoder ([], 64) ++ key_mapping_bytes laws key_map mappings)
    × (EncoderLaws.room laws s' + length (key_mapping_bytes laws key_map mappings)
        ≡ EncoderLaws.room laws ([], 64))
key_mapping_hash_map_to_cbor-Writes_example =
    key_mapping_hash_map_to_cbor-Writes laws key_map mappings ([], 64) mappings_fit

-- {7: [8, 9]}
cbor_to_key_mapping_hash_map-returns_example :
    (o : Option (List (ℤ × List ℤ))) × (cbor_to_key_mapping_hash_map decoder key_map
        (191 ∷ 7 ∷ 159 ∷ 8 ∷ 9 ∷ 255 ∷ 255 ∷ [])
      ≡ ret o)
cbor_to_key_mapping_hash_map-returns_example =
    cbor_to_key_mapping_hash_map-returns decoder key_map (191 ∷ 7 ∷ 159 ∷ 8 ∷ 9 ∷ 255 ∷ 255 ∷ [])

-- -61: "-61 "
char2int64-int2str_example : char2int64 false (int2str (negsuc 60)) ≡ negsuc 60
char2int64-int2str_example = char2int64-int2str (negsuc 60) (omega arith)

minus_sixty_one : int2str (negsuc 60) ≡ ascii "-61 "
unfolding int2str
minus_sixty_one = refl

trailing_slash : remove_trailing_slash_from_path (ascii "a/b/") ≡ some (ascii "a/b")
unfolding remove_trailing_slash_from_path
trailing_slash = refl

last_colon : get_substring_after_last_colon (ascii "a:b:c") ≡ ascii "c"
unfolding get_substring_after_last_colon
last_colon = refl
