-- ===== src/Manipulation/Examine.antt =====
-- src/coreconfManipulation.c: `examineCoreconfValue`, which follows a path into a tree of deltas.
use ccoreconf_zcbor.Common.{ℕ, List, [], ◌∷◌, true, false, Option, none, some, ◌==◌}
use ccoreconf_zcbor.Common.{if◌then◌else◌}
use ccoreconf_zcbor.Common.Int.{ℤ, pos, to_uint64, sub_uint64, int_eq}
use ccoreconf_zcbor.Value.{
  Value, Values, Ref, HashMap, array, hashmap, no_elements, element, null_ref, ref, create_map,
}
use ccoreconf_zcbor.Value.Number.{get_coreconf_value_as_uint64}
use ccoreconf_zcbor.HashMap.{insert_coreconf_hash_map, get_coreconf_hash_map}
use ccoreconf_zcbor.Sid.{
  pop_long, clone_dynamic_long_list, add_unique_long, compare_dynamic_long_list,
}
use ccoreconf_zcbor.Manipulation.Lookup.{PathNode}

-- `none` is a read through a NULL pointer, of the wrong member of a union, or of a list that was
-- never initialised.
abbrev Checked : Type 0 → Type 0
Checked A = Option A

unfoldable pub add_match : ℕ → ℕ → ℤ → List ℤ → List ℤ
unfolding add_unique_long
add_match found wanted key matches =
    if found == wanted then add_unique_long matches key else matches

-- The loop over the keys of a list: the rest of the requested keys, and the keys that match.
unfoldable pub match_keys : List ℤ → ℤ → HashMap → List ℤ → List ℤ → Checked (List ℤ × List ℤ)
unfolding add_match get_coreconf_value_as_uint64 pop_long sub_uint64 to_uint64
match_keys [] parent m request matches = some (request, matches)
match_keys (key ∷ keys) parent m request matches =
    elim (get_coreconf_hash_map m (sub_uint64 key parent)) [
      | none ↦ none
      | some v ↦
          match_keys keys parent m (pop_long request).0 (
            add_match (get_coreconf_value_as_uint64 v) (to_uint64 (pop_long request).1) key matches)
    ]

unfoldable pub element_keys : List ℤ → ℤ → List ℤ → Value → Checked (List ℤ × List ℤ)
unfolding match_keys clone_dynamic_long_list
element_keys keys parent request (hashmap m) = elim (clone_dynamic_long_list request none) [
  | none ↦ none
  | some clone ↦ match_keys keys parent m clone []
]
element_keys keys parent request _ = none

-- The loop over the elements: the one whose keys match, with the keys still requested, if any.
unfoldable pub find_match : List ℤ → ℤ → List ℤ → Values → Checked (Option (Value × List ℤ))
unfolding element_keys compare_dynamic_long_list
find_match keys parent request no_elements = some none
find_match keys parent request (element v vs) =
    let rest = find_match keys parent request vs in
    elim (element_keys keys parent request v) [
      | none ↦ none
      | some (left, matches) ↦ elim (compare_dynamic_long_list keys matches) [
        | false ↦ rest
        | true ↦ elim (clone_dynamic_long_list left (some request)) [
          | none ↦ none
          | some request' ↦ some (some (v, request'))
        ]
      ]
    ]

abbrev pub to_ref : Option Value → Ref
to_ref none = null_ref
to_ref (some v) = ref v

-- What a node with keys makes of the value under its SID; the inner `none` is a return of NULL.
unfoldable pub enter_list : List ℤ → ℤ → List ℤ → Option Value → Checked (Option (Value × List ℤ))
unfolding find_match
enter_list keys parent request none = none
enter_list keys parent request (some (array vs)) = elim (find_match keys parent request vs) [
  | none ↦ none
  | some found ↦ elim found [ none ↦ some (some (array vs, request)) | some r ↦ some (some r) ]
]
enter_list keys parent request (some _) = some none

-- The loop along the path: the subtree and the last SID, with the keys still requested.
unfoldable pub path_loop : List PathNode → Ref → ℤ → List ℤ → Checked (Option (Ref × ℤ × List ℤ))
unfolding enter_list int_eq sub_uint64
path_loop [] sub previous request = none
path_loop ((parent, keys) ∷ nodes) (ref (hashmap m)) previous request =
    let value = get_coreconf_hash_map m (sub_uint64 parent previous) in
    let onward = path_loop nodes (to_ref value) parent request in
    if int_eq parent (pos 0) then some (some (ref (hashmap m), previous, request)) else elim keys [
      | none ↦ onward
      | some ks ↦ elim ks [
        | [] ↦ onward
        | k ∷ ks' ↦ elim (enter_list (k ∷ ks') parent request value) [
          | none ↦ none
          | some r ↦ elim r [
            | none ↦ some none
            | some (v, request') ↦ path_loop nodes (ref v) parent request'
          ]
        ]
      ]
    ]
path_loop ((parent, keys) ∷ nodes) sub previous request =
    if int_eq parent (pos 0) then some (some (sub, previous, request)) else none

-- `coreconfModel` and `headNode` are `null_ref` and `none` for NULL. The result is a map with one
-- object, or NULL, with the keys that are left.
unfoldable pub examine_coreconf_value :
    Ref → List ℤ → Option (List PathNode) → Checked (Option HashMap × List ℤ)
unfolding path_loop to_uint64
examine_coreconf_value null_ref request head = some (none, request)
examine_coreconf_value (ref v) request none = some (none, request)
examine_coreconf_value (ref v) request (some path) = elim (path_loop path (ref v) (pos 0) request) [
  | none ↦ none
  | some r ↦ elim r [
    | none ↦ some (none, request)
    | some (sub, previous, request') ↦
        some (some (insert_coreconf_hash_map create_map (to_uint64 previous) sub).0, request')
  ]
]
