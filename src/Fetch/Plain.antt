-- ===== src/Fetch/Plain.antt =====
-- src/fetch.c: what a look-up finds in a data source without NULL pointers inside its values.
use ccoreconf_zcbor.Common.{ℕ, zero, suc, Option, none, some, inl, inr, Bool-cases, List, ◌==◌}
use ccoreconf_zcbor.Common.Int.{pos, negsuc}
use ccoreconf_zcbor.Value.{
  Value, Values, Ref, Chain, Table, HashMap, array, hashmap, null_ref, ref, chain_end, object,
  no_buckets, bucket, map_of, no_elements, element, deref,
}
use ccoreconf_zcbor.HashMap.{get_bucket, find_object, get_coreconf_hash_map, hash_key}
use ccoreconf_zcbor.Serialization.Bytes.{IsComplete, AllComplete}
use ccoreconf_zcbor.Get.Bytes.{RefIsPlain, ChainIsPlain, TableIsPlain, MapIsPlain}
use ccoreconf_zcbor.Fetch.Resolve.{
  InstanceIdentifier, iid_simple, iid_with_str_key, iid_with_int_key, sid, element_has,
  find_element, element_at, by_str_key, by_int_key, resolve, fetch_value_by_iid,
}
use ccoreconf_zcbor.Fetch.Encode.{look_up}

-- An object of the map may hold NULL, its value may not have NULL inside.
abbrev pub SourceIsPlain : Ref → Type 0
SourceIsPlain (ref (hashmap m)) = MapIsPlain m
SourceIsPlain _ = Unit

abbrev pub FoundIsComplete : Option Value → Type 0
FoundIsComplete none = Unit
FoundIsComplete (some v) = IsComplete v

get_bucket-Plain : (t : Table) (i : ℕ) → TableIsPlain t → ChainIsPlain (get_bucket t i)
unfolding get_bucket
get_bucket-Plain no_buckets i h = tt
get_bucket-Plain (bucket c t) zero h = h.0
get_bucket-Plain (bucket c t) (suc i) h = get_bucket-Plain t i h.1

abbrev OptionIsPlain : Option Ref → Type 0
OptionIsPlain none = Unit
OptionIsPlain (some r) = RefIsPlain r

pub find_object-Plain : (k : ℕ) (c : Chain) → ChainIsPlain c → OptionIsPlain (find_object k c)
unfolding find_object
find_object-Plain k chain_end h = tt
find_object-Plain k (object q r c) h = elim (Bool-cases (q == k)) [
  | inl here ↦ rw here h.0
  | inr there ↦ rw there (find_object-Plain k c h.1)
]

pub get-Complete :
    (m : HashMap) (k : ℕ) → MapIsPlain m → FoundIsComplete (get_coreconf_hash_map m k)
unfolding get_coreconf_hash_map
get-Complete (map_of t n) k h =
    of_found _ (find_object-Plain k _ (get_bucket-Plain t (hash_key k) h))
  where
    of_found :
        (o : Option Ref)
        → OptionIsPlain o
        → FoundIsComplete (elim o [ none ↦ none | some r ↦ deref r ])
    of_found none h = tt
    of_found (some null_ref) h = tt
    of_found (some (ref v)) h = h

pub look_up-Complete : (r : Ref) (s : ℕ) → SourceIsPlain r → FoundIsComplete (look_up r s)
unfolding look_up
look_up-Complete (ref (hashmap m)) s h = get-Complete m s h
look_up-Complete null_ref s h = tt
look_up-Complete (ref _) s h = tt

find_element-Complete :
    (key : List ℕ) (vs : Values) → AllComplete vs → FoundIsComplete (find_element key vs)
unfolding find_element IsComplete
find_element-Complete key no_elements h = tt
find_element-Complete key (element v vs) h = elim (Bool-cases (element_has key v)) [
  | inl here ↦ rw here h.0
  | inr there ↦ rw there (find_element-Complete key vs h.1)
]

pub element_at-Complete : (i : ℕ) (vs : Values) → AllComplete vs → FoundIsComplete (element_at i vs)
unfolding element_at IsComplete
element_at-Complete i no_elements h = tt
element_at-Complete zero (element v vs) h = h.0
element_at-Complete (suc i) (element v vs) h = element_at-Complete i vs h.1

resolve-Complete :
    (iid : InstanceIdentifier) (v : Value) → IsComplete v → FoundIsComplete (resolve iid v)
unfolding resolve by_str_key by_int_key IsComplete
resolve-Complete (iid_simple s) v h = h
resolve-Complete (iid_with_str_key s key) (array vs) h = find_element-Complete key vs h
resolve-Complete (iid_with_int_key s (pos i)) (array vs) h = element_at-Complete i vs h
resolve-Complete (iid_with_int_key s (negsuc i)) v h = tt
resolve-Complete (iid_with_str_key s key) _ h = tt
resolve-Complete (iid_with_int_key s (pos i)) _ h = tt

pub fetch_value_by_iid-Complete :
    (r : Ref) (iid : InstanceIdentifier)
    → SourceIsPlain r
    → FoundIsComplete (fetch_value_by_iid r iid)
unfolding fetch_value_by_iid
fetch_value_by_iid-Complete (ref (hashmap m)) iid h = of_value _ (get-Complete m (sid iid) h)
  where
    of_value :
        (o : Option Value)
        → FoundIsComplete o
        → FoundIsComplete (elim o [ none ↦ none | some v ↦ resolve iid v ])
    of_value none h = tt
    of_value (some v) h = resolve-Complete iid v h
fetch_value_by_iid-Complete null_ref iid h = tt
fetch_value_by_iid-Complete (ref _) iid h = tt
