-- ===== src/HashMap.antt =====
-- src/coreconfTypes.c: the chained hash map from SIDs to values.
pub mod Buckets
pub mod Insert
pub mod Delete
pub mod Iterate
pub mod Lookup
use ccoreconf_zcbor.Common.{
  ℕ, zero, suc, ◌+◌, ◌-◌, ◌*◌, ◌/◌, ◌%◌, ◌^◌, Bool, true, false, Option, none, some, ltb, ◌==◌,
  if◌then◌else◌,
}
use ccoreconf_zcbor.Value.{
  Value, Ref, Chain, Table, HashMap, null_ref, ref, chain_end, object, no_buckets, bucket, map_of,
  hashmap_table_size, coreconf_max_loop, deref,
}

-- `0` and `-1`, as the functions return them
pub data Status : Type 0 where
  done failed : Status

-- `key * 2654435769` is a product of `long`s; where it passes 2^63 the shift brings in copies of
-- the sign bit, which the conversion to `size_t` keeps.
unfoldable pub hash_key : ℕ → ℕ
hash_key key =
    let product = key % 2 ^ 32 * 2654435769 % 2 ^ 64 in
    let shifted = product / 2 ^ 32 in
    (if ltb product (2 ^ 63) then shifted else shifted + (2 ^ 64 - 2 ^ 32)) % hashmap_table_size

-- `map->table[i]`
unfoldable pub get_bucket : Table → ℕ → Chain
get_bucket no_buckets i = chain_end
get_bucket (bucket c t) zero = c
get_bucket (bucket c t) (suc i) = get_bucket t i

-- `map->table[i] = c`
unfoldable pub set_bucket : Table → ℕ → Chain → Table
set_bucket no_buckets i d = no_buckets
set_bucket (bucket c t) zero d = bucket d t
set_bucket (bucket c t) (suc i) d = bucket c (set_bucket t i d)

-- The loop of an insertion: it gave up, it replaced the value of an object, or it met no object
-- with the key.
pub data Walk : Type 0 where
  exceeded : Walk
  replaced : Chain → Walk
  absent : Walk

unfoldable pub behind : ℕ → Ref → Walk → Walk
behind k v exceeded = exceeded
behind k v (replaced c) = replaced (object k v c)
behind k v absent = absent

unfoldable pub walk_chain : ℕ → ℕ → Ref → Chain → Walk
unfolding behind
walk_chain loop_count key value chain_end = absent
walk_chain loop_count key value (object k v next) =
    if ltb coreconf_max_loop loop_count
    then exceeded
    else if k == key
    then replaced (object k value next)
    else behind k v (walk_chain (loop_count + 1) key value next)

-- What follows the loop: a new object goes in front of the chain.
unfoldable pub finish_insert : Table → ℕ → ℕ → Ref → Walk → HashMap × Status
finish_insert t n key value exceeded = (map_of t n, failed)
finish_insert t n key value (replaced c) = (map_of (set_bucket t (hash_key key) c) n, done)
finish_insert t n key value absent =
    let index = hash_key key in
    (map_of (set_bucket t index (object key value (get_bucket t index))) (n + 1), done)

unfoldable pub insert_coreconf_hash_map : HashMap → ℕ → Ref → HashMap × Status
unfolding finish_insert
insert_coreconf_hash_map (map_of t n) key value =
    finish_insert t n key value (walk_chain 0 key value (get_bucket t (hash_key key)))

unfoldable pub keep_object : ℕ → Ref → Option Chain → Option Chain
keep_object k v none = none
keep_object k v (some c) = some (object k v c)

-- The loop of a deletion: the chain without the first object of the key, if there is one.
unfoldable pub unlink : ℕ → Chain → Option Chain
unfolding keep_object
unlink key chain_end = none
unlink key (object k v next) = if k == key then some next else keep_object k v (unlink key next)

unfoldable pub finish_delete : Table → ℕ → ℕ → Option Chain → HashMap × Status
finish_delete t n key none = (map_of t n, failed)
finish_delete t n key (some c) = (map_of (set_bucket t (hash_key key) c) (n - 1), done)

unfoldable pub delete_from_coreconf_hash_map : HashMap → ℕ → HashMap × Status
unfolding finish_delete
delete_from_coreconf_hash_map (map_of t n) key =
    finish_delete t n key (unlink key (get_bucket t (hash_key key)))

-- The first object with the key, with its pointer.
unfoldable pub find_object : ℕ → Chain → Option Ref
find_object key chain_end = none
find_object key (object k v next) = if k == key then some v else find_object key next

-- The caller sees NULL both for a missing key and for a key that holds NULL.
unfoldable pub get_coreconf_hash_map : HashMap → ℕ → Option Value
get_coreconf_hash_map (map_of t n) key = elim (find_object key (get_bucket t (hash_key key))) [
  | none ↦ none
  | some r ↦ deref r
]

-- `iterateCoreconfHashMap`: the callback sees every object, bucket by bucket. `S` is what `udata`
-- leads to.
module _ {ℓ} {S : Type ℓ} (f : ℕ → Ref → S → S) where
  unfoldable pub iterate_chain : Chain → S → S
  iterate_chain chain_end s = s
  iterate_chain (object k v next) s = iterate_chain next (f k v s)

  unfoldable pub iterate_table : Table → S → S
  iterate_table no_buckets s = s
  iterate_table (bucket c t) s = iterate_table t (iterate_chain c s)

  unfoldable pub iterate_coreconf_hash_map : HashMap → S → S
  unfolding iterate_chain iterate_table
  iterate_coreconf_hash_map (map_of t n) s = iterate_table t s
