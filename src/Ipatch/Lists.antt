-- ===== src/Ipatch/Lists.antt =====
-- src/ipatch.c: the loop that removes an entry of a list, and the search for an entry, which
-- src/fetch.c has too.
use ccoreconf_zcbor.Common.{
  ℕ, zero, suc, ◌+◌, ◌-◌, ◌<◌, ◌≤◌, ◌≡◌, refl, sym, ap, ◌∙◌, List, inl, inr, true, false,
  Bool-cases, Option-cases, Option, none, some, ltb, arith,
}
use ccoreconf_zcbor.Value.{
  Value, Values, array, string, hashmap, no_elements, element, Ref, ref, null_ref, Chain, Table,
  chain_end, object, no_buckets, bucket, map_of,
}
use ccoreconf_zcbor.Fetch.Resolve.{
  element_at, is_string, chain_has, table_has, element_has, find_element, by_str_key,
}
use ccoreconf_zcbor.Ipatch.Entries.{
  holds_key, objects_hold, buckets_hold, entry_holds, find_entry_from, find_list_entry_by_key,
  set_element, copy_element, shift_elements, drop_last, number, remove_array_entry,
}

-- the elements without the one at the index, if it is there
unfoldable pub remove_at : ℕ → Values → Values
remove_at i no_elements = no_elements
remove_at zero (element v vs) = vs
remove_at (suc i) (element v vs) = element v (remove_at i vs)

copy_element-suc :
    (i j : ℕ) (v : Value) (vs : Values)
    → copy_element (element v vs) (suc i) (suc j) ≡ element v (copy_element vs i j)
unfolding copy_element set_element element_at
copy_element-suc i j v vs = elim (Option-cases (element_at j vs)) [
  | inl gone ↦ rw (gone, copy_element) refl
  | inr (w, here) ↦ rw (here, copy_element) refl
]

shift_elements-suc :
    (k i : ℕ) (v : Value) (vs : Values)
    → shift_elements k (suc i) (element v vs) ≡ element v (shift_elements k i vs)
unfolding shift_elements
shift_elements-suc zero i v vs = refl
shift_elements-suc (suc k) i v vs =
    let next : suc i + 1 ≡ suc (i + 1) = omega arith in
    rw (next, copy_element-suc i (i + 1) v vs)
      (shift_elements-suc k (i + 1) v (copy_element vs i (i + 1)))

number-set_element : (vs : Values) (i : ℕ) (v : Value) → number (set_element vs i v) ≡ number vs
unfolding number set_element
number-set_element no_elements i v = refl
number-set_element (element w vs) zero v = refl
number-set_element (element w vs) (suc i) v = omega (arith, number-set_element vs i v)

number-copy_element : (vs : Values) (i j : ℕ) → number (copy_element vs i j) ≡ number vs
unfolding copy_element
number-copy_element vs i j = elim (Option-cases (element_at j vs)) [
  | inl gone ↦ rw (gone, copy_element) refl
  | inr (w, here) ↦ rw (here, copy_element) (number-set_element vs i w)
]

number-shift_elements : (k i : ℕ) (vs : Values) → number (shift_elements k i vs) ≡ number vs
unfolding shift_elements
number-shift_elements zero i vs = refl
number-shift_elements (suc k) i vs =
    number-shift_elements k (i + 1) (copy_element vs i (i + 1)) ∙ number-copy_element vs i (i + 1)

drop_last-element :
    (v : Value) (vs : Values) → 0 < number vs → drop_last (element v vs) ≡ element v (drop_last vs)
unfolding drop_last number
drop_last-element v no_elements h = absurd (omega arith)
drop_last-element v (element w vs) h = refl

removes_first :
    (vs : Values) (v : Value) → drop_last (shift_elements (number vs) 0 (element v vs)) ≡ vs
unfolding shift_elements copy_element set_element element_at number drop_last
removes_first no_elements v = refl
removes_first (element w ws) v =
    ap drop_last (shift_elements-suc (number ws) 0 w (element w ws))
    ∙ drop_last-element w (shift_elements (number ws) 0 (element w ws))
        (unfold number in omega (arith, number-shift_elements (number ws) 0 (element w ws)))
    ∙ ap (element w) (removes_first ws w)

removes :
    (vs : Values) (i : ℕ)
    → i < number vs
    → drop_last (shift_elements (number vs - 1 - i) i vs) ≡ remove_at i vs
unfolding remove_at number
removes no_elements i h = absurd (omega arith)
removes (element v vs) zero h =
    let rounds : suc (number vs) - 1 - 0 ≡ number vs = omega arith in rw rounds (removes_first vs v)
removes (element v vs) (suc i) h =
    let rounds : suc (number vs) - 1 - suc i ≡ number vs - 1 - i = omega arith in
    rw rounds (
      ap drop_last (shift_elements-suc (number vs - 1 - i) i v vs)
      ∙ drop_last-element v (shift_elements (number vs - 1 - i) i vs)
          (omega (arith, number-shift_elements (number vs - 1 - i) i vs))
      ∙ ap (element v) (removes vs i (omega arith)))

remove_at-over : (vs : Values) (i : ℕ) → number vs ≤ i → vs ≡ remove_at i vs
unfolding remove_at number
remove_at-over no_elements i h = refl
remove_at-over (element v vs) zero h = absurd (omega arith)
remove_at-over (element v vs) (suc i) h = ap (element v) (remove_at-over vs i (omega arith))

-- The loop of `remove_array_entry` takes out the entry at the index, keeps the others in their order,
-- and changes nothing where there is no such entry.
pub remove_array_entry-at : (vs : Values) (i : ℕ) → remove_array_entry vs i ≡ remove_at i vs
unfolding remove_array_entry
remove_array_entry-at vs i = elim (Bool-cases (ltb i (number vs))) [
  | inl there ↦ rw there (removes vs i (ground arith))
  | inr over ↦ rw over (remove_at-over vs i (ground arith))
]

holds_key-string : (key : List ℕ) (r : Ref) → holds_key key r ≡ is_string key r
unfolding holds_key is_string
holds_key-string key null_ref = refl
holds_key-string key (ref (string s)) = refl
holds_key-string key (ref _) = refl

objects_hold-chain : (key : List ℕ) (c : Chain) → objects_hold key c ≡ chain_has key c
unfolding objects_hold chain_has
objects_hold-chain key chain_end = refl
objects_hold-chain key (object k r c) = rw (holds_key-string key r, objects_hold-chain key c) refl

buckets_hold-table : (key : List ℕ) (t : Table) → buckets_hold key t ≡ table_has key t
unfolding buckets_hold table_has
buckets_hold-table key no_buckets = refl
buckets_hold-table key (bucket c t) = rw (objects_hold-chain key c, buckets_hold-table key t) refl

entry_holds-element : (key : List ℕ) (v : Value) → entry_holds key v ≡ element_has key v
unfolding entry_holds element_has
entry_holds-element key (hashmap (map_of t n)) = buckets_hold-table key t
entry_holds-element key _ = refl

abbrev entry_at : ℕ → Values → Option ℕ → Option Value
entry_at i vs none = none
entry_at i vs (some j) = element_at (j - i) vs

-- The index that a search from `i` on finds is `i` or lies behind it.
find_entry_from-le :
    (i j : ℕ) (key : List ℕ) (vs : Values) → find_entry_from i key vs ≡ some j → i ≤ j
unfolding find_entry_from
find_entry_from-le i j key no_elements h = cc
find_entry_from-le i j key (element v vs) h = elim (Bool-cases (entry_holds key v)) [
  | inl here ↦ let e = rw here at h in ground arith
  | inr there ↦ let e = rw there at h in omega (arith, find_entry_from-le (i + 1) j key vs e)
]

entry_at-behind :
    (i : ℕ) (key : List ℕ) (v : Value) (vs : Values)
    → entry_at i (element v vs) (find_entry_from (i + 1) key vs)
      ≡ entry_at (i + 1) vs (find_entry_from (i + 1) key vs)
unfolding element_at
entry_at-behind i key v vs = elim (Option-cases (find_entry_from (i + 1) key vs)) [
  | inl gone ↦ rw gone refl
  | inr (j, here) ↦
      let far = find_entry_from-le (i + 1) j key vs here in
      let up : j - i ≡ suc (j - (i + 1)) = omega arith in rw (here, up) refl
]

find_entry_from-find_element :
    (i : ℕ) (key : List ℕ) (vs : Values)
    → entry_at i vs (find_entry_from i key vs) ≡ find_element key vs
unfolding find_entry_from find_element element_at
find_entry_from-find_element i key no_elements = refl
find_entry_from-find_element i key (element v vs) = elim (Bool-cases (element_has key v)) [
  | inl here ↦
      let held : entry_holds key v ≡ true = entry_holds-element key v ∙ here in
      let start : i - i ≡ 0 = omega arith in rw (held, start) refl
  | inr there ↦
      let missed : entry_holds key v ≡ false = entry_holds-element key v ∙ there in
      rw missed (entry_at-behind i key v vs ∙ find_entry_from-find_element (i + 1) key vs)
]

-- `&elements[i]` of an array
unfoldable pub at_index : ℕ → Value → Option Value
at_index i (array vs) = element_at i vs
at_index i _ = none

-- FETCH and iPATCH agree on the entry that a text key names: what the one returns is what stands at
-- the index that the other finds, or nothing for both.
find_list_entry_by_key-by_str_key :
    (v : Value) (key : List ℕ)
    → by_str_key key v ≡ elim (find_list_entry_by_key v key) [ none ↦ none | some i ↦ at_index i v ]
unfolding by_str_key find_list_entry_by_key at_index
find_list_entry_by_key-by_str_key (array vs) key =
    sym (find_entry_from-find_element 0 key vs) ∙ elim (Option-cases (find_entry_from 0 key vs)) [
      | inl gone ↦ rw gone refl
      | inr (j, here) ↦ let same : j - 0 ≡ j = omega arith in rw (here, same) refl
    ]
find_list_entry_by_key-by_str_key _ key = refl
