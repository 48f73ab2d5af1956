-- ===== src/Ipatch/Entries.antt =====
-- src/ipatch.c: the entries of a list in the datastore, found by a string that they hold.
use ccoreconf_zcbor.Common.{
  ℕ, zero, suc, ◌+◌, ◌-◌, List, Bool, false, ◌||◌, Option, none, some, ltb, if◌then◌else◌,
}
use ccoreconf_zcbor.Value.{
  Value, Values, array, string, hashmap, no_elements, element, Ref, ref, Chain, Table, chain_end,
  object, no_buckets, bucket, map_of,
}
use ccoreconf_zcbor.Fetch.Resolve.{str_eq, element_at}

-- the loops over the objects of an entry
unfoldable pub holds_key : List ℕ → Ref → Bool
unfolding str_eq
holds_key key (ref (string s)) = str_eq s key
holds_key key _ = false

unfoldable pub objects_hold : List ℕ → Chain → Bool
unfolding holds_key
objects_hold key chain_end = false
objects_hold key (object k r c) = holds_key key r || objects_hold key c

unfoldable pub buckets_hold : List ℕ → Table → Bool
unfolding objects_hold
buckets_hold key no_buckets = false
buckets_hold key (bucket c t) = objects_hold key c || buckets_hold key t

unfoldable pub entry_holds : List ℕ → Value → Bool
unfolding buckets_hold
entry_holds key (hashmap (map_of t n)) = buckets_hold key t
entry_holds key _ = false

-- the loop over the entries, at the index `i`
unfoldable pub find_entry_from : ℕ → List ℕ → Values → Option ℕ
unfolding entry_holds
find_entry_from i key no_elements = none
find_entry_from i key (element v vs) =
    if entry_holds key v then some i else find_entry_from (i + 1) key vs

-- The index is `none` for -1.
unfoldable pub find_list_entry_by_key : Value → List ℕ → Option ℕ
unfolding find_entry_from
find_list_entry_by_key (array vs) key = find_entry_from 0 key vs
find_list_entry_by_key _ key = none

-- `elements[i] = v`
unfoldable pub set_element : Values → ℕ → Value → Values
set_element no_elements i v = no_elements
set_element (element w vs) zero v = element v vs
set_element (element w vs) (suc i) v = element w (set_element vs i v)

-- `elements[i] = elements[j]`
unfoldable pub copy_element : Values → ℕ → ℕ → Values
unfolding set_element element_at
copy_element vs i j = elim (element_at j vs) [ none ↦ vs | some v ↦ set_element vs i v ]

-- the loop that moves the entries behind `i` down, with the number of rounds that are left
unfoldable pub shift_elements : ℕ → ℕ → Values → Values
unfolding copy_element
shift_elements zero i vs = vs
shift_elements (suc n) i vs = shift_elements n (i + 1) (copy_element vs i (i + 1))

-- `size--`
unfoldable pub drop_last : Values → Values
drop_last no_elements = no_elements
drop_last (element v no_elements) = no_elements
drop_last (element v (element w vs)) = element v (drop_last (element w vs))

unfoldable pub number : Values → ℕ
number no_elements = 0
number (element v vs) = suc (number vs)

unfoldable pub remove_array_entry : Values → ℕ → Values
unfolding number shift_elements drop_last
remove_array_entry vs idx =
    if ltb idx (number vs) then drop_last (shift_elements (number vs - 1 - idx) idx vs) else vs
