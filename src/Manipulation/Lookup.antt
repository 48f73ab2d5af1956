-- ===== src/Manipulation/Lookup.antt =====
-- src/coreconfManipulation.c: the index from SIDs to their parents, and the path to a SID.
use ccoreconf_zcbor.Common.{
  ℕ, zero, suc, ◌+◌, List, [], ◌∷◌, Option, none, some, ltb, if◌then◌else◌,
}
use ccoreconf_zcbor.Common.Int.{ℤ, pos, to_int64, add_int64, int_eq}
use ccoreconf_zcbor.Value.{
  Value, Values, Ref, Chain, Table, HashMap, array, hashmap, no_elements, element, null_ref, ref,
  chain_end, object, no_buckets, bucket, map_of,
}
use ccoreconf_zcbor.Sid.{add_unique_long, pop_long}

-- The generic hash map of src/hashmap.c, a copy of another project's library, as the code uses it:
-- from a number to a list of `long`s. A list that the code changes through the pointer in an entry
-- is stored anew.
pub record LongMap : Type 1 where
  pub Map : Type 0
  pub hashmap_get : Map → ℤ → Option (List ℤ)
  pub hashmap_set : Map → ℤ → List ℤ → Map

-- the list that an entry of the index has, which is only read where there is one
unfoldable pub known_parents : Option (List ℤ) → List ℤ
known_parents none = []
known_parents (some parents) = parents

abbrev pub max_coreconf_recursion_depth : ℕ
max_coreconf_recursion_depth = 50

-- a node of a path; the keys are `none` for NULL
abbrev pub PathNode : Type 0
PathNode = ℤ × Option (List ℤ)

module _ (lib : LongMap) where
  open lib use {Map, hashmap_get, hashmap_set}

  unfoldable pub add_parent : Map → ℤ → ℤ → Map
  unfolding add_unique_long
  add_parent m child parent = elim (hashmap_get m child) [
    | none ↦ hashmap_set m child (add_unique_long [] parent)
    | some parents ↦ hashmap_set m child (add_unique_long parents parent)
  ]

  -- `none` where the code reads through a NULL pointer. `depth` is the recursion's own count.
  unfoldable mutual
    unfolding add_parent

    pub build_clookup : Value → Map → ℤ → ℕ → Option Map
    build_clookup (hashmap h) m parent depth =
        let built = build_map h m parent depth in
        if ltb max_coreconf_recursion_depth depth then some m else built
    build_clookup (array vs) m parent depth =
        let built = build_elements vs m parent depth in
        if ltb max_coreconf_recursion_depth depth then some m else built
    build_clookup _ m parent depth = some m

    pub build_elements : Values → Map → ℤ → ℕ → Option Map
    build_elements no_elements m parent depth = some m
    build_elements (element v vs) m parent depth = elim (build_clookup v m parent (depth + 1)) [
      | none ↦ none
      | some m' ↦ build_elements vs m' parent depth
    ]

    -- A value behind a NULL pointer is read before the depth is looked at, unless that is passed.
    pub build_ref : Ref → Map → ℤ → ℕ → Option Map
    build_ref null_ref m parent depth =
        if ltb max_coreconf_recursion_depth depth then some m else none
    build_ref (ref v) m parent depth = build_clookup v m parent depth

    pub build_chain : Chain → Map → ℤ → ℕ → Option Map
    build_chain chain_end m parent depth = some m
    build_chain (object delta r c) m parent depth =
        let child = add_int64 delta parent in
        elim (build_ref r (add_parent m child parent) child (depth + 1)) [
          | none ↦ none
          | some m' ↦ build_chain c m' parent depth
        ]

    pub build_table : Table → Map → ℤ → ℕ → Option Map
    build_table no_buckets m parent depth = some m
    build_table (bucket c t) m parent depth = elim (build_chain c m parent depth) [
      | none ↦ none
      | some m' ↦ build_table t m' parent depth
    ]

    pub build_map : HashMap → Map → ℤ → ℕ → Option Map
    build_map (map_of t n) m parent depth = build_table t m parent depth

  -- The loop of `findRequirementForSID`: the index with the parents popped, and the path, `none`
  -- for NULL. The outer `none` is a run that the fuel does not cover.
  unfoldable pub requirement_loop :
      Map → ℕ → ℤ → Map → List PathNode → Option (Map × Option (List PathNode))
  unfolding pop_long int_eq known_parents
  requirement_loop keys zero current m path = none
  requirement_loop keys (suc fuel) current m path =
      let (rest, parent) = pop_long (known_parents (hashmap_get m current)) in
      let m' = hashmap_set m current rest in
      let more = requirement_loop keys fuel parent m' ((parent, hashmap_get keys parent) ∷ path) in
      if int_eq current (pos 0) then some (m, some path) else elim (hashmap_get m current) [
        | none ↦ some (m, none)
        | some _ ↦ if int_eq parent (pos 0) then some (m', some path) else more
      ]

  unfoldable pub find_requirement_for_sid :
      ℕ → ℕ → Map → Map → Option (Map × Option (List PathNode))
  unfolding requirement_loop to_int64
  find_requirement_for_sid fuel sid clookup keys =
      let current = to_int64 sid in
      requirement_loop keys fuel current clookup
        ((current, hashmap_get keys current) ∷ (pos 0, none) ∷ [])
