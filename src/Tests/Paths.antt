-- ===== src/Tests/Paths.antt =====
-- A hash map of numbers to lists for src/coreconfManipulation.c, and the theorems on paths at it.
use ccoreconf_zcbor.Common.{
  ℕ, ◌+◌, ◌<◌, ◌≡◌, refl, sym, List, [], ◌∷◌, Option, some, none, true, false, inl, inr, Bool-cases,
  if◌then◌else◌, length, arith,
}
use mathlib.Core.Path.{subst}
use ccoreconf_zcbor.Common.Int.{ℤ, pos, to_int64, int_eq}
use ccoreconf_zcbor.Sid.Compare.{int_eq-eq}
use ccoreconf_zcbor.Manipulation.Lookup.{LongMap, PathNode, find_requirement_for_sid}
use ccoreconf_zcbor.Manipulation.Path.{
  LongMapLaws, IsPath, IsTop, find_requirement_for_sid-IsPath, find_requirement_for_sid-returns,
}

abbrev Entries : Type 0
Entries = List (ℤ × List ℤ)

unfoldable find_longs : Entries → ℤ → Option (List ℤ)
find_longs [] k = none
find_longs ((k', l) ∷ m) k = let rest = find_longs m k in if int_eq k' k then some l else rest

unfoldable store_longs : Entries → ℤ → List ℤ → Entries
store_longs [] k l = (k, l) ∷ []
store_longs ((k', l') ∷ m) k l =
    let rest = store_longs m k l in if int_eq k' k then (k', l) ∷ m else (k', l') ∷ rest

unfoldable total_longs : Entries → ℕ
total_longs [] = 0
total_longs ((k, l) ∷ m) = length l + total_longs m

find_longs-store_longs :
    (m : Entries) (k k' : ℤ) (l : List ℤ)
    → find_longs (store_longs m k l) k' ≡ (if int_eq k k' then some l else find_longs m k')
unfolding find_longs store_longs
find_longs-store_longs [] k k' l = refl
find_longs-store_longs ((j, old) ∷ m) k k' l = elim (Bool-cases (int_eq j k)) [
  | inl same ↦
      let e : j ≡ k = int_eq-eq j k same in
      rw same (elim (Bool-cases (int_eq k k')) [
        | inl hit ↦
            let found : int_eq j k' ≡ true = subst (λ z. int_eq z k' ≡ true) (sym e) hit in
            rw (found, hit) refl
        | inr miss ↦
            let passed : int_eq j k' ≡ false = subst (λ z. int_eq z k' ≡ false) (sym e) miss in
            rw (passed, miss) refl
      ])
  | inr other ↦ elim (Bool-cases (int_eq j k')) [
    | inl hit ↦ elim (Bool-cases (int_eq k k')) [
      | inl equal ↦
          let again : int_eq j k ≡ true =
            subst (λ z. int_eq j z ≡ true) (sym (int_eq-eq k k' equal)) hit in
          absurd cc
      | inr apart ↦ rw (other, hit, apart) refl
    ]
    | inr miss ↦ rw (other, miss) (find_longs-store_longs m k k' l)
  ]
]

total_longs-store_longs :
    (m : Entries) (k : ℤ) (old l : List ℤ)
    → find_longs m k ≡ some old
    → total_longs (store_longs m k l) + length old ≡ total_longs m + length l
unfolding find_longs store_longs total_longs
total_longs-store_longs [] k old l h = absurd cc
total_longs-store_longs ((j, at_j) ∷ m) k old l h = elim (Bool-cases (int_eq j k)) [
  | inl same ↦
      let h' : some at_j ≡ some old = rw same at h in
      let e : at_j ≡ old = cc in rw (same, e) (omega arith)
  | inr other ↦
      let h' = rw other at h in
      let ih = total_longs-store_longs m k old l h' in rw other (omega (arith, ih))
]

abbrev long_map : LongMap
long_map = record { Map = Entries; hashmap_get = find_longs; hashmap_set = store_longs }

abbrev long_map_laws : LongMapLaws long_map
long_map_laws = record {
  total = total_longs;
  total-set = total_longs-store_longs;
  get-set = find_longs-store_longs;
}

-- 1755 below 1733, which is below the root
abbrev parents : Entries
parents = (pos 1755, pos 1733 ∷ []) ∷ (pos 1733, pos 0 ∷ []) ∷ []

abbrev parents_popped : Entries
parents_popped = (pos 1755, []) ∷ (pos 1733, []) ∷ []

-- the list 1733 has the key 1754
abbrev key_entries : Entries
key_entries = (pos 1733, pos 1754 ∷ []) ∷ []

abbrev path_of_1755 : List PathNode
path_of_1755 = (pos 1733, some (pos 1754 ∷ [])) ∷ (pos 1755, none) ∷ (pos 0, none) ∷ []

path_found :
    find_requirement_for_sid long_map 3 1755 parents key_entries
    ≡ some (parents_popped, some path_of_1755)
unfolding find_requirement_for_sid find_longs store_longs
path_found = refl

find_requirement_for_sid-IsPath_example :
    (top : ℤ) × IsPath long_map parents key_entries (to_int64 1755) top path_of_1755
    × IsTop long_map parents parents_popped top
find_requirement_for_sid-IsPath_example =
    find_requirement_for_sid-IsPath long_map_laws 3 1755 parents key_entries parents_popped
      path_of_1755 path_found

few_parents : total_longs parents < 3
unfolding total_longs
few_parents = omega arith

find_requirement_for_sid-returns_example :
    (m' : Entries) × (found : Option (List PathNode)) × (find_requirement_for_sid long_map 3 1755
        parents key_entries
      ≡ some (m', found))
find_requirement_for_sid-returns_example =
    find_requirement_for_sid-returns long_map_laws 3 1755 parents key_entries few_parents
