-- ===== src/Tests/Requests.antt =====
-- The theorems on POST and iPATCH, with the codec of Codec.antt.
use ccoreconf_zcbor.Common.{ℕ, ◌≤◌, ◌≡◌, refl, List, [], ◌∷◌, none, some, length, arith}
use ccoreconf_zcbor.Zcbor.{ret, major_type}
use ccoreconf_zcbor.Zcbor.Sequences.{all_bytes}
use ccoreconf_zcbor.Value.{
  HashMap, array, ref, null_ref, uint_64, hashmap, create_map, no_elements, element,
}
use ccoreconf_zcbor.HashMap.{
  insert_coreconf_hash_map, walk_chain, get_bucket, set_bucket, hash_key, find_object,
  get_coreconf_hash_map,
}
use ccoreconf_zcbor.HashMap.Buckets.{IsValid}
use ccoreconf_zcbor.Serialization.Decode.{cbor_to_coreconf_value, add_to_coreconf_array}
use ccoreconf_zcbor.Serialization.Bytes.{cbor_bytes}
use ccoreconf_zcbor.Ipatch.Request.{create_ipatch_iid_request}
use ccoreconf_zcbor.Ipatch.Raw.{apply_ipatch_raw, write_through}
use ccoreconf_zcbor.Ipatch.Valid.{apply_ipatch_raw-IsValid}
use ccoreconf_zcbor.Ipatch.Entries.{find_list_entry_by_key}
use ccoreconf_zcbor.Post.Items.{PostItem, post_iid_sid, post_iid_sid_str_key}
use ccoreconf_zcbor.Post.Encode.{create_post_items, create_post_request_action_str}
use ccoreconf_zcbor.Post.Bytes.{
  item_bytes, entry_bytes, keyed_bytes, create_post_items-bytes, create_ipatch_iid_request-bytes,
}
use ccoreconf_zcbor.Tests.Codec.{encoder, decoder, laws}
use ccoreconf_zcbor.Tests.Messages.{items, items-IsComplete, datastore, datastore-IsValid}

-- {1000: [8], [1000, "hi"]: null}
abbrev pub raw_patch : List ℕ
raw_patch =
    191 ∷ 27 ∷ 0 ∷ 0 ∷ 0 ∷ 0 ∷ 0 ∷ 0 ∷ 3 ∷ 232 ∷ 159 ∷ 8 ∷ 255 ∷ 159 ∷ 27 ∷ 0 ∷ 0 ∷ 0 ∷ 0 ∷ 0 ∷ 0
    ∷ 3 ∷ 232 ∷ 123 ∷ 0 ∷ 0 ∷ 0 ∷ 0 ∷ 0 ∷ 0 ∷ 0 ∷ 2 ∷ 104 ∷ 105 ∷ 255 ∷ 246 ∷ 255 ∷ []

abbrev patched : HashMap
patched =
    (insert_coreconf_hash_map create_map 1000 (ref (array (element (uint_64 8) no_elements)))).0

pub raw_patch_applies :
    apply_ipatch_raw decoder 20 (ref (hashmap datastore)) (some raw_patch)
    ≡ ret (ref (hashmap patched), some 2)
unfolding apply_ipatch_raw major_type cbor_to_coreconf_value insert_coreconf_hash_map
    get_coreconf_hash_map create_map walk_chain get_bucket hash_key set_bucket find_object
    write_through find_list_entry_by_key add_to_coreconf_array
raw_patch_applies = refl

apply_ipatch_raw-IsValid_example :
    (m' : HashMap) × (ref (hashmap patched) ≡ ref (hashmap m')) × IsValid m'
apply_ipatch_raw-IsValid_example =
    apply_ipatch_raw-IsValid decoder 20 datastore (some raw_patch) (ref (hashmap patched)) (some 2)
      datastore-IsValid raw_patch_applies

abbrev post_items : List PostItem
post_items =
    record { iid_type = post_iid_sid; sid = 60000; str_key = none; value = null_ref }
    ∷ record {
      iid_type = post_iid_sid_str_key;
      sid = 60001;
      str_key = some (104 ∷ 105 ∷ []);
      value = ref items;
    }
    ∷ []

items_bytes_fit : length (all_bytes (item_bytes laws) post_items) ≤ 200
unfolding cbor_bytes
items_bytes_fit = omega arith

create_post_items-bytes_example :
    create_post_items encoder (some 200) (some post_items)
    ≡ some (all_bytes (item_bytes laws) post_items)
create_post_items-bytes_example =
    create_post_items-bytes laws 200
      (record { iid_type = post_iid_sid; sid = 60000; str_key = none; value = null_ref })
      (record {
        iid_type = post_iid_sid_str_key;
        sid = 60001;
        str_key = some (104 ∷ 105 ∷ []);
        value = ref items;
      }
        ∷ [])
      (tt, tt, (tt, items-IsComplete, tt)) items_bytes_fit

entry_fits : length (entry_bytes laws (keyed_bytes laws 1000 (104 ∷ [])) (ref items)) ≤ 100
unfolding cbor_bytes
entry_fits = omega arith

create_ipatch_iid_request-bytes_example :
    (create_ipatch_iid_request encoder (some 100) 1000 (some (104 ∷ [])) (ref items)
      ≡ some (entry_bytes laws (keyed_bytes laws 1000 (104 ∷ [])) (ref items)))
    × (create_post_request_action_str encoder (some 100) 1000 (some (104 ∷ [])) (ref items)
        ≡ some (entry_bytes laws (keyed_bytes laws 1000 (104 ∷ [])) (ref items)))
create_ipatch_iid_request-bytes_example =
    create_ipatch_iid_request-bytes laws 100 1000 (104 ∷ []) (ref items) items-IsComplete entry_fits
