-- ===== src/Client/Complete.antt =====
-- src/coreconfTypes.c: a map that values without NULL pointers are inserted into has none.
use ccoreconf_zcbor.Common.{ℕ, zero, suc, ◌+◌, inl, inr, Bool-cases, ltb, ◌==◌}
use ccoreconf_zcbor.Value.{
  Value, Ref, Chain, Table, HashMap, ref, chain_end, object, no_buckets, bucket, map_of, create_map,
  empty_table, hashmap_table_size,
}
use ccoreconf_zcbor.HashMap.{
  hash_key, get_bucket, set_bucket, Walk, exceeded, replaced, absent, behind, walk_chain,
  finish_insert, insert_coreconf_hash_map,
}
use ccoreconf_zcbor.Serialization.Bytes.{
  IsComplete, RefIsComplete, ChainIsComplete, TableIsComplete, MapIsComplete,
}

get_bucket-Complete : (t : Table) (j : ℕ) → TableIsComplete t → ChainIsComplete (get_bucket t j)
unfolding IsComplete get_bucket
get_bucket-Complete no_buckets j h = tt
get_bucket-Complete (bucket c t) zero h = h.0
get_bucket-Complete (bucket c t) (suc j) h = get_bucket-Complete t j h.1

set_bucket-Complete :
    (t : Table) (j : ℕ) (c : Chain)
    → TableIsComplete t
    → ChainIsComplete c
    → TableIsComplete (set_bucket t j c)
unfolding IsComplete set_bucket
set_bucket-Complete no_buckets j c h hc = tt
set_bucket-Complete (bucket d t) zero c h hc = (hc, h.1)
set_bucket-Complete (bucket d t) (suc j) c h hc = (h.0, set_bucket-Complete t j c h.1 hc)

empty_table-Complete : (n : ℕ) → TableIsComplete (empty_table n)
unfolding IsComplete empty_table
empty_table-Complete zero = tt
empty_table-Complete (suc n) = (tt, empty_table-Complete n)

pub create_map-Complete : MapIsComplete create_map
unfolding IsComplete create_map
create_map-Complete = empty_table-Complete hashmap_table_size

abbrev WalkIsComplete : Walk → Type 0
WalkIsComplete exceeded = Unit
WalkIsComplete absent = Unit
WalkIsComplete (replaced c) = ChainIsComplete c

behind-Complete :
    (k : ℕ) (r : Ref) (w : Walk)
    → RefIsComplete r
    → WalkIsComplete w
    → WalkIsComplete (behind k r w)
unfolding behind IsComplete
behind-Complete k r exceeded hr h = tt
behind-Complete k r absent hr h = tt
behind-Complete k r (replaced c) hr h = (hr, h)

walk_chain-Complete :
    (n k : ℕ) (v : Ref) (c : Chain)
    → RefIsComplete v
    → ChainIsComplete c
    → WalkIsComplete (walk_chain n k v c)
unfolding walk_chain IsComplete
walk_chain-Complete n k v chain_end hv h = tt
walk_chain-Complete n k v (object j r c) hv h = elim (Bool-cases (ltb 50 n)) [
  | inl e ↦ rw e tt
  | inr e ↦ elim (Bool-cases (j == k)) [
    | inl e' ↦ rw (e, e') (hv, h.1)
    | inr e' ↦ rw (e, e') (behind-Complete j r _ h.0 (walk_chain-Complete (n + 1) k v c hv h.1))
  ]
]

finish_insert-Complete :
    (t : Table) (n k : ℕ) (v : Ref) (w : Walk)
    → TableIsComplete t
    → RefIsComplete v
    → WalkIsComplete w
    → MapIsComplete (finish_insert t n k v w).0
unfolding finish_insert IsComplete
finish_insert-Complete t n k v exceeded h hv hw = h
finish_insert-Complete t n k v absent h hv hw =
    set_bucket-Complete t (hash_key k) _ h (hv, get_bucket-Complete t (hash_key k) h)
finish_insert-Complete t n k v (replaced c) h hv hw = set_bucket-Complete t (hash_key k) c h hw

pub insert-Complete :
    (m : HashMap) (k : ℕ) (v : Value)
    → MapIsComplete m
    → IsComplete v
    → MapIsComplete (insert_coreconf_hash_map m k (ref v)).0
unfolding insert_coreconf_hash_map IsComplete
insert-Complete (map_of t n) k v h hv =
    finish_insert-Complete t n k (ref v) _ h hv
      (walk_chain-Complete 0 k (ref v) _ hv (get_bucket-Complete t (hash_key k) h))
