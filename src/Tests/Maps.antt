-- ===== src/Tests/Maps.antt =====
-- The theorems on hash maps, at small maps.
use ccoreconf_zcbor.Common.{ℕ, zero, suc, ◌+◌, ◌*◌, ◌^◌, ◌≡◌, refl, ◌↔◌, List, [], ◌∷◌, some, take}
use ccoreconf_zcbor.Value.{HashMap, ref, uint_64, null_value, hashmap, create_map, size, table}
use ccoreconf_zcbor.HashMap.{
  done, failed, hash_key, walk_chain, get_bucket, set_bucket, insert_coreconf_hash_map,
  delete_from_coreconf_hash_map, iterate_coreconf_hash_map,
}
use ccoreconf_zcbor.HashMap.Buckets.{IsValid, create_map-IsValid, view}
use ccoreconf_zcbor.HashMap.Insert.{IsFull, insert-Outcome, insert-failed_iff}
use ccoreconf_zcbor.HashMap.Insert as Insert
use ccoreconf_zcbor.HashMap.Delete.{delete-Outcome}
use ccoreconf_zcbor.HashMap.Delete as Delete
use ccoreconf_zcbor.Ipatch.{apply_ipatch}
use ccoreconf_zcbor.Ipatch.Apply.{merge_entry, apply_ipatch_merge}
use ccoreconf_zcbor.HashMap.Lookup.{insert-IsValid}
use ccoreconf_zcbor.HashMap.Iterate.{Shows, entries, iterate-Shows}
use ccoreconf_zcbor.Delete.{apply_delete, parse_delete_query, strtoull, query_round}
use ccoreconf_zcbor.Delete.Query.{fields, field_sids, parse_delete_query-fields}
use mathlib.Core.List.{foldl}
use ccoreconf_zcbor.Delete.Apply.{DeletesAll, apply_delete-DeletesAll}

-- a map of two, and one of `n` keys that share a bucket
abbrev two : HashMap
two =
    (insert_coreconf_hash_map (insert_coreconf_hash_map create_map 1000 (ref (uint_64 7))).0 1001
      (ref (uint_64 8))).0

two-IsValid : IsValid two
two-IsValid = insert-IsValid _ _ _ (insert-IsValid _ _ _ create_map-IsValid.0)

abbrev crowded : ℕ → HashMap
crowded zero = create_map
crowded (suc n) = (insert_coreconf_hash_map (crowded n) (n * 2 ^ 32) (ref (uint_64 n))).0

crowded-IsValid : (n : ℕ) → IsValid (crowded n)
crowded-IsValid zero = create_map-IsValid.0
crowded-IsValid (suc n) = insert-IsValid (crowded n) _ _ (crowded-IsValid n)

size-crowded : size (crowded 60) ≡ 52
unfolding insert_coreconf_hash_map create_map hash_key walk_chain get_bucket set_bucket
size-crowded = refl

insert-Outcome_example :
    Insert.Outcome two 1001 (ref (uint_64 9)) (insert_coreconf_hash_map two 1001 (ref (uint_64 9)))
insert-Outcome_example = insert-Outcome two 1001 (ref (uint_64 9)) two-IsValid

insert-failed_example :
    ((insert_coreconf_hash_map (crowded 60) 0 (ref (uint_64 9))).1 ≡ failed) ↔ IsFull (crowded 60) 0
insert-failed_example = insert-failed_iff (crowded 60) 0 (ref (uint_64 9)) (crowded-IsValid 60)

delete-Outcome_example : Delete.Outcome two 1000 (delete_from_coreconf_hash_map two 1000)
delete-Outcome_example = delete-Outcome two 1000 two-IsValid

abbrev patch : HashMap
patch = (insert_coreconf_hash_map two 1000 (ref null_value)).0

patch-IsValid : IsValid patch
patch-IsValid = insert-IsValid two 1000 (ref null_value) two-IsValid

patch_succeeds : (apply_ipatch (ref (hashmap two)) (ref (hashmap patch))).1 ≡ done
unfolding apply_ipatch insert_coreconf_hash_map create_map hash_key iterate_coreconf_hash_map
    walk_chain get_bucket set_bucket
patch_succeeds = refl

apply_ipatch_merge_example :
    (m : HashMap) × ((apply_ipatch (ref (hashmap two)) (ref (hashmap patch))).0 ≡ ref (hashmap m))
    × ((q : ℕ) → view m q ≡ merge_entry (view patch q) (view two q))
apply_ipatch_merge_example = apply_ipatch_merge two patch two-IsValid patch-IsValid patch_succeeds

apply_delete_example : DeletesAll two (1001 ∷ 5 ∷ []) (apply_delete two (1001 ∷ 5 ∷ [])) 0
apply_delete_example = apply_delete-DeletesAll two (1001 ∷ 5 ∷ []) two-IsValid

iterate-Shows_example :
    Shows two (entries (table two))
    × (iterate_coreconf_hash_map (λ k r s. k + s) two 0
        ≡ foldl (λ s e. e.0 + s) 0 (entries (table two)))
iterate-Shows_example = iterate-Shows (λ k r s. k + s) 0 two two-IsValid

-- "k=12&x=3&k=45"
abbrev query : List ℕ
query = 107 ∷ 61 ∷ 49 ∷ 50 ∷ 38 ∷ 120 ∷ 61 ∷ 51 ∷ 38 ∷ 107 ∷ 61 ∷ 52 ∷ 53 ∷ []

query_result : parse_delete_query (some query) (some 8) ≡ some (12 ∷ 45 ∷ [])
unfolding parse_delete_query strtoull query_round
query_result = refl

parse_delete_query-fields_example :
    parse_delete_query (some query) (some 8) ≡ some (take 8 (field_sids (fields (take 511 query))))
parse_delete_query-fields_example = parse_delete_query-fields query 8

two_inserts : (insert_coreconf_hash_map two 1002 (ref (uint_64 9))).1 ≡ done
unfolding insert_coreconf_hash_map create_map hash_key walk_chain get_bucket set_bucket
two_inserts = refl
