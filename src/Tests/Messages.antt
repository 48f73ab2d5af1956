-- ===== src/Tests/Messages.antt =====
-- The theorems on encoding and decoding, with the codec of Codec.antt.
use ccoreconf_zcbor.Common.{
  ℕ, zero, suc, ◌^◌, sym, ◌+◌, ◌≤◌, ◌≡◌, refl, inr, List, [], ◌∷◌, ◌++◌, true, none, some, length,
  arith,
}
use ccoreconf_zcbor.Common.Int.{pos}
use ccoreconf_zcbor.Zcbor.{Encoder, ret, tag, major_type}
use ccoreconf_zcbor.Zcbor.Laws.{EncoderLaws}
use ccoreconf_zcbor.Value.{
  Value, Ref, HashMap, array, ref, uint_64, string, null_value, hashmap, create_map, empty_table,
  no_elements, element, Table, Chain, no_buckets, bucket, chain_end, object, map_of,
}
use ccoreconf_zcbor.HashMap.{
  insert_coreconf_hash_map, walk_chain, get_bucket, set_bucket, hash_key, find_object,
  get_coreconf_hash_map,
}
use ccoreconf_zcbor.Serialization.Encode.{coreconf_to_cbor}
use ccoreconf_zcbor.Serialization.Decode.{cbor_to_coreconf_value, array_loop, add_to_coreconf_array}
use ccoreconf_zcbor.Serialization.Sound.{IsSound}
use ccoreconf_zcbor.Serialization.Sound.Decoded.{cbor_to_coreconf_value-Sound}
use ccoreconf_zcbor.Serialization.Stuck.{array_loop-stuck}
use ccoreconf_zcbor.Serialization.Bytes.{IsComplete, cbor_bytes, map_bytes, coreconf_to_cbor-Writes}
use ccoreconf_zcbor.Get.{create_get_response}
use ccoreconf_zcbor.Put.{create_put_request}
use ccoreconf_zcbor.Ipatch.Request.{create_ipatch_request}
use ccoreconf_zcbor.Get.Bytes.{create_get_response-bytes, TableIsPlain, ChainIsPlain, MapIsPlain}
use ccoreconf_zcbor.Fetch.Resolve.{
  InstanceIdentifier, iid_with_str_key, iid_with_int_key, fetch_value_by_iid,
}
use ccoreconf_zcbor.Fetch.Encode.{create_fetch_request, create_fetch_response_iids, look_up}
use ccoreconf_zcbor.Fetch.Parse.{parse_fetch_request}
use ccoreconf_zcbor.Fetch.Bytes.{
  create_fetch_response_iids-bytes, sids_bytes, iids_bytes, pair_bytes,
}
use ccoreconf_zcbor.Fetch.Leads.{AllFound}
use ccoreconf_zcbor.Fetch.RoundTrip.{AreWords, parse_fetch_request-create}
use ccoreconf_zcbor.Tests.Codec.{encoder, decoder, laws, reads_uint}
use ccoreconf_zcbor.HashMap.Lookup.{insert-IsValid}
use ccoreconf_zcbor.HashMap.Buckets.{IsValid, create_map-IsValid}
use mathlib.Core.Path.{subst}

-- [7, "hi", null]
abbrev pub items : Value
items =
    array (element (uint_64 7) (element (string (104 ∷ 105 ∷ [])) (element null_value no_elements)))

pub items-IsComplete : IsComplete items
unfolding IsComplete
items-IsComplete = (tt, (tt, (tt, tt)))

items_fit : length (cbor_bytes laws items) ≤ 100
unfolding cbor_bytes
items_fit = omega arith

coreconf_to_cbor-Writes_example :
    (s' : Encoder.State encoder) × (coreconf_to_cbor encoder items ([], 100) ≡ some (s', true))
    × (Encoder.written encoder s' ≡ Encoder.written encoder ([], 100) ++ cbor_bytes laws items)
    × (EncoderLaws.room laws s' + length (cbor_bytes laws items) ≡ EncoderLaws.room laws ([], 100))
coreconf_to_cbor-Writes_example =
    coreconf_to_cbor-Writes laws items ([], 100) items-IsComplete items_fit

-- {1: [2]}
abbrev message : List ℕ
message = 191 ∷ 1 ∷ 159 ∷ 2 ∷ 255 ∷ 255 ∷ []

abbrev decoded : Value
decoded =
    hashmap
      (insert_coreconf_hash_map create_map 1 (ref (array (element (uint_64 2) no_elements)))).0

message_decodes : cbor_to_coreconf_value decoder 20 0 message ≡ some ([], some decoded)
unfolding cbor_to_coreconf_value major_type add_to_coreconf_array
message_decodes = refl

cbor_to_coreconf_value-Sound_example : IsSound 0 decoded
cbor_to_coreconf_value-Sound_example =
    cbor_to_coreconf_value-Sound decoder 20 0 message [] decoded message_decodes

tag_starts : major_type 192 ≡ tag
unfolding major_type
tag_starts = refl

array_loop-stuck_example : array_loop decoder 1000 0 no_elements (192 ∷ 1 ∷ 255 ∷ []) ≡ none
array_loop-stuck_example =
    array_loop-stuck decoder 1000 0 no_elements (192 ∷ 1 ∷ 255 ∷ []) refl (inr tag_starts)

-- a datastore with the list under one SID
abbrev pub datastore : HashMap
datastore = (insert_coreconf_hash_map create_map 1000 (ref items)).0

pub datastore-IsValid : IsValid datastore
datastore-IsValid = insert-IsValid create_map 1000 (ref items) create_map-IsValid.0

empty_table-Plain : (n : ℕ) → TableIsPlain (empty_table n)
unfolding empty_table
empty_table-Plain zero = tt
empty_table-Plain (suc n) = (tt, empty_table-Plain n)

set_bucket-Plain :
    (t : Table) (i : ℕ) (c : Chain)
    → TableIsPlain t
    → ChainIsPlain c
    → TableIsPlain (set_bucket t i c)
unfolding set_bucket
set_bucket-Plain no_buckets i c h hc = tt
set_bucket-Plain (bucket d t) zero c h hc = (hc, h.1)
set_bucket-Plain (bucket d t) (suc i) c h hc = (h.0, set_bucket-Plain t i c h.1 hc)

datastore_eq :
    datastore
    ≡ map_of (set_bucket (empty_table 100) (hash_key 1000) (object 1000 (ref items) chain_end)) 1
unfolding insert_coreconf_hash_map create_map hash_key walk_chain get_bucket set_bucket
datastore_eq = refl

pub datastore-IsPlain : MapIsPlain datastore
datastore-IsPlain = subst MapIsPlain (sym datastore_eq) (
    set_bucket-Plain (empty_table 100) (hash_key 1000) (object 1000 (ref items) chain_end)
      (empty_table-Plain 100) (items-IsComplete, tt))

datastore_fits : length (map_bytes laws datastore) ≤ 200
unfolding cbor_bytes insert_coreconf_hash_map create_map hash_key walk_chain get_bucket set_bucket
datastore_fits = omega arith

create_get_response-bytes_example :
    (create_get_response encoder (some 200) (ref (hashmap datastore))
      ≡ some (map_bytes laws datastore))
    × (create_put_request encoder (some 200) (ref (hashmap datastore))
        ≡ some (map_bytes laws datastore))
    × (create_ipatch_request encoder (some 200) (ref (hashmap datastore))
        ≡ some (map_bytes laws datastore))
create_get_response-bytes_example =
    create_get_response-bytes laws 200 datastore datastore-IsValid datastore-IsPlain datastore_fits

abbrev source : Ref
source = ref (hashmap datastore)

sids_fit : length (sids_bytes laws source (1000 ∷ 5 ∷ [])) ≤ 200
unfolding pair_bytes look_up cbor_bytes insert_coreconf_hash_map create_map hash_key walk_chain
    get_bucket set_bucket find_object
sids_fit = omega arith

abbrev iids : List InstanceIdentifier
iids = iid_with_int_key 1000 (pos 1) ∷ iid_with_str_key 1000 (104 ∷ []) ∷ []

iids_fit : length (iids_bytes laws source iids) ≤ 200
unfolding pair_bytes fetch_value_by_iid get_coreconf_hash_map cbor_bytes insert_coreconf_hash_map
    create_map hash_key walk_chain get_bucket set_bucket find_object
iids_fit = omega arith

create_fetch_response_iids-bytes_example :
    (create_fetch_response_iids encoder (some 200) source (some iids)
      ≡ some (iids_bytes laws source iids))
    × AllFound source iids
create_fetch_response_iids-bytes_example =
    create_fetch_response_iids-bytes laws 200 source (iid_with_int_key 1000 (pos 1))
      (iid_with_str_key 1000 (104 ∷ []) ∷ []) datastore-IsPlain iids_fit

abbrev requested : List ℕ
requested = 1000 ∷ 7 ∷ 2 ^ 63 ∷ []

requested-AreWords : AreWords requested
requested-AreWords = (omega arith, (omega arith, (omega arith, tt)))

parse_fetch_request-create_example :
    (buffer : List ℕ) × (create_fetch_request encoder (some 64) (some requested) ≡ some buffer)
    × (parse_fetch_request decoder (some buffer) ≡ ret (some requested))
parse_fetch_request-create_example =
    parse_fetch_request-create laws decoder reads_uint 64 1000 (7 ∷ 2 ^ 63 ∷ []) requested-AreWords
      (omega arith)
