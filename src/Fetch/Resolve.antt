-- ===== src/Fetch/Resolve.antt =====
-- src/fetch.c: `fetch_value_by_iid`, and the identifiers of include/fetch.h.
use ccoreconf_zcbor.Common.{
  ℕ, zero, suc, List, [], ◌∷◌, Bool, true, false, ◌&&◌, ◌||◌, Option, none, some, ◌==◌,
  if◌then◌else◌,
}
use ccoreconf_zcbor.Common.Int.{ℤ, pos}
use ccoreconf_zcbor.Value.{
  Value, Values, Ref, Chain, Table, array, string, hashmap, no_elements, element, ref, chain_end,
  object, no_buckets, bucket, map_of,
}
use ccoreconf_zcbor.HashMap.{get_coreconf_hash_map}

pub data InstanceIdentifier : Type 0 where
  iid_simple : ℕ → InstanceIdentifier
  iid_with_str_key : ℕ → List ℕ → InstanceIdentifier
  iid_with_int_key : ℕ → ℤ → InstanceIdentifier

abbrev pub sid : InstanceIdentifier → ℕ
sid (iid_simple s) = s
sid (iid_with_str_key s k) = s
sid (iid_with_int_key s k) = s

-- `strcmp(a, b) == 0`
unfoldable pub str_eq : List ℕ → List ℕ → Bool
str_eq [] [] = true
str_eq (a ∷ as') (b ∷ bs) = a == b && str_eq as' bs
str_eq _ _ = false

-- the test on one object: a string that equals the key
unfoldable pub is_string : List ℕ → Ref → Bool
unfolding str_eq
is_string key (ref (string s)) = str_eq s key
is_string key _ = false

unfoldable pub chain_has : List ℕ → Chain → Bool
unfolding is_string
chain_has key chain_end = false
chain_has key (object k r c) = is_string key r || chain_has key c

unfoldable pub table_has : List ℕ → Table → Bool
unfolding chain_has
table_has key no_buckets = false
table_has key (bucket c t) = chain_has key c || table_has key t

-- an element that is a map with such an object
unfoldable pub element_has : List ℕ → Value → Bool
unfolding table_has
element_has key (hashmap (map_of t n)) = table_has key t
element_has key _ = false

-- the loop over the elements of the array
unfoldable pub find_element : List ℕ → Values → Option Value
unfolding element_has
find_element key no_elements = none
find_element key (element v vs) = if element_has key v then some v else find_element key vs

-- `&arr->elements[i]` behind the test of the bounds
unfoldable pub element_at : ℕ → Values → Option Value
element_at i no_elements = none
element_at zero (element v vs) = some v
element_at (suc i) (element v vs) = element_at i vs

unfoldable pub by_str_key : List ℕ → Value → Option Value
unfolding find_element
by_str_key key (array vs) = find_element key vs
by_str_key key _ = none

unfoldable pub by_int_key : ℤ → Value → Option Value
unfolding element_at
by_int_key (pos i) (array vs) = element_at i vs
by_int_key _ _ = none

unfoldable pub resolve : InstanceIdentifier → Value → Option Value
unfolding by_str_key by_int_key
resolve (iid_simple s) value = some value
resolve (iid_with_str_key s key) value = by_str_key key value
resolve (iid_with_int_key s key) value = by_int_key key value

-- The identifier is not NULL.
unfoldable pub fetch_value_by_iid : Ref → InstanceIdentifier → Option Value
unfolding resolve
fetch_value_by_iid (ref (hashmap map)) iid = elim (get_coreconf_hash_map map (sid iid)) [
  | none ↦ none
  | some v ↦ resolve iid v
]
fetch_value_by_iid data_source iid = none
