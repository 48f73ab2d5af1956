-- ===== src/Serialization/Sound.antt =====
-- src/serialization.c: the values that `cborToCoreconfValue` builds, and how its steps keep them so.
pub mod Decoded
use ccoreconf_zcbor.Common.{
  ℕ, zero, suc, ◌+◌, ◌≤◌, ◌<◌, ◌≡◌, refl, sym, ap, inl, inr, Bool, true, false, Bool-cases,
  Option-cases, Option, none, some, List, [], ◌∷◌, ltb, ◌==◌, if◌then◌else◌, arith,
}
use mathlib.Core.Path.{subst}
use ccoreconf_zcbor.Zcbor.{
  Decoder, MajorType, pint, nint, bstr, tstr, list, map, tag, simple, major_type,
}
use ccoreconf_zcbor.Value.{
  Value, Values, Ref, Chain, Table, HashMap, array, string, real, int_8, int_16, int_32, int_64,
  uint_8, uint_16, uint_32, uint_64, true_value, false_value, null_value, hashmap, no_elements,
  element, null_ref, ref, chain_end, object, no_buckets, bucket, map_of, size, table, create_map,
  create_coreconf_string, create_coreconf_boolean, empty_table,
}
use ccoreconf_zcbor.HashMap.{
  Status, done, failed, hash_key, get_bucket, set_bucket, Walk, exceeded, replaced, absent, behind,
  walk_chain, finish_insert, insert_coreconf_hash_map,
}
use ccoreconf_zcbor.HashMap.Buckets.{IsValid, create_map-IsValid}
use ccoreconf_zcbor.HashMap.Insert.{Outcome, insert-Outcome}
use ccoreconf_zcbor.Serialization.Decode.{
  add_to_coreconf_array, add_decoded, insert_decoded, expect_nil, or_nil, or_bool, decode_plain,
  by_major, by_payload, cbor_to_coreconf_value, parse_array, array_loop, parse_map, map_loop,
}

-- A value at the nesting depth `i`: not below depth 20, every map in it valid and of 51 objects at
-- most, with no NULL pointer in it.
unfoldable mutual
  pub IsSound : ℕ → Value → Type 0
  IsSound i (array vs) = (i ≤ 20) × AllSound (suc i) vs
  IsSound i (hashmap m) = (i ≤ 20) × MapIsSound (suc i) m
  IsSound i _ = i ≤ 20

  pub AllSound : ℕ → Values → Type 0
  AllSound i no_elements = Unit
  AllSound i (element v vs) = IsSound i v × AllSound i vs

  pub RefIsSound : ℕ → Ref → Type 0
  RefIsSound i null_ref = ⊥
  RefIsSound i (ref v) = IsSound i v

  pub ChainIsSound : ℕ → Chain → Type 0
  ChainIsSound i chain_end = Unit
  ChainIsSound i (object k r c) = RefIsSound i r × ChainIsSound i c

  pub TableIsSound : ℕ → Table → Type 0
  TableIsSound i no_buckets = Unit
  TableIsSound i (bucket c t) = ChainIsSound i c × TableIsSound i t

  pub MapIsSound : ℕ → HashMap → Type 0
  MapIsSound i (map_of t n) = IsValid (map_of t n) × (n ≤ 51) × TableIsSound i t

-- A valid map of `n` objects at most, with values that are sound at the depth `i`.
abbrev pub IsBounded : ℕ → ℕ → HashMap → Type 0
IsBounded i n m = IsValid m × (size m ≤ n) × TableIsSound i (table m)

abbrev pub OptionSound : ℕ → Option Value → Type 0
OptionSound i none = Unit
OptionSound i (some v) = IsSound i v

module _ (i : ℕ) where
  get_bucket-Sound : (t : Table) (j : ℕ) → TableIsSound i t → ChainIsSound i (get_bucket t j)
  unfolding IsSound get_bucket
  get_bucket-Sound no_buckets j h = tt
  get_bucket-Sound (bucket c t) zero h = h.0
  get_bucket-Sound (bucket c t) (suc j) h = get_bucket-Sound t j h.1

  set_bucket-Sound :
      (t : Table) (j : ℕ) (c : Chain)
      → TableIsSound i t
      → ChainIsSound i c
      → TableIsSound i (set_bucket t j c)
  unfolding IsSound set_bucket
  set_bucket-Sound no_buckets j c h hc = tt
  set_bucket-Sound (bucket d t) zero c h hc = (hc, h.1)
  set_bucket-Sound (bucket d t) (suc j) c h hc = (h.0, set_bucket-Sound t j c h.1 hc)

  empty_table-Sound : (n : ℕ) → TableIsSound i (empty_table n)
  unfolding IsSound empty_table
  empty_table-Sound zero = tt
  empty_table-Sound (suc n) = (tt, empty_table-Sound n)

  abbrev WalkIsSound : Walk → Type 0
  WalkIsSound exceeded = Unit
  WalkIsSound absent = Unit
  WalkIsSound (replaced c) = ChainIsSound i c

  behind-Sound :
      (k : ℕ) (r : Ref) (w : Walk) → RefIsSound i r → WalkIsSound w → WalkIsSound (behind k r w)
  unfolding behind IsSound
  behind-Sound k r exceeded hr h = tt
  behind-Sound k r absent hr h = tt
  behind-Sound k r (replaced c) hr h = (hr, h)

  walk_chain-Sound :
      (n k : ℕ) (v : Ref) (c : Chain)
      → RefIsSound i v
      → ChainIsSound i c
      → WalkIsSound (walk_chain n k v c)
  unfolding walk_chain IsSound
  walk_chain-Sound n k v chain_end hv h = tt
  walk_chain-Sound n k v (object j r c) hv h = elim (Bool-cases (ltb 50 n)) [
    | inl e ↦ rw e tt
    | inr e ↦ elim (Bool-cases (j == k)) [
      | inl e' ↦ rw (e, e') (hv, h.1)
      | inr e' ↦ rw (e, e') (behind-Sound j r _ h.0 (walk_chain-Sound (n + 1) k v c hv h.1))
    ]
  ]

  finish_insert-Sound :
      (t : Table) (n k : ℕ) (v : Ref) (w : Walk)
      → TableIsSound i t
      → RefIsSound i v
      → WalkIsSound w
      → TableIsSound i (table (finish_insert t n k v w).0)
  unfolding finish_insert
  finish_insert-Sound t n k v exceeded h hv hw = h
  finish_insert-Sound t n k v absent h hv hw =
      set_bucket-Sound t (hash_key k) _ h
        (unfold IsSound in (hv, get_bucket-Sound t (hash_key k) h))
  finish_insert-Sound t n k v (replaced c) h hv hw = set_bucket-Sound t (hash_key k) c h hw

  Outcome-IsValid :
      (m : HashMap) (k : ℕ) (v : Ref) (r : HashMap × Status)
      → IsValid m
      → Outcome m k v r
      → IsValid r.0 × (size r.0 ≤ size m + 1)
  Outcome-IsValid m k v (m', done) valid h = (h.valid, ground (arith, h.sized))
  Outcome-IsValid m k v (m', failed) valid h =
      (subst IsValid (sym h.0) valid, omega (arith, ap size h.0))

  -- An insertion of a sound value.
  pub insert-Bounded :
      (n k : ℕ) (v : Value) (m : HashMap)
      → IsSound i v
      → IsBounded i n m
      → IsBounded i (n + 1) (insert_coreconf_hash_map m k (ref v)).0
  insert-Bounded n k v (map_of t l) hv (valid, few, h) =
      let o =
        Outcome-IsValid (map_of t l) k (ref v) _ valid
          (insert-Outcome (map_of t l) k (ref v) valid) in
      (
        o.0,
        omega (arith, o.1),
        unfold insert_coreconf_hash_map in
            finish_insert-Sound t l k (ref v) _ h (unfold IsSound in hv) (
              walk_chain-Sound 0 k (ref v) _ (unfold IsSound in hv)
                (get_bucket-Sound t (hash_key k) h)),
      )

  pub insert_decoded-Bounded :
      (n k : ℕ) (o : Option Value) (m : HashMap)
      → OptionSound i o
      → IsBounded i n m
      → IsBounded i (n + 1) (insert_decoded m k o)
  unfolding insert_decoded
  insert_decoded-Bounded n k none m hv (valid, few, h) = (valid, omega arith, h)
  insert_decoded-Bounded n k (some v) m hv h = insert-Bounded n k v m hv h

  add_to_coreconf_array-Sound :
      (vs : Values) (v : Value)
      → AllSound i vs
      → IsSound i v
      → AllSound i (add_to_coreconf_array vs v)
  unfolding IsSound add_to_coreconf_array
  add_to_coreconf_array-Sound no_elements v h hv = (hv, tt)
  add_to_coreconf_array-Sound (element w ws) v h hv = (h.0, add_to_coreconf_array-Sound ws v h.1 hv)

  pub add_decoded-Sound :
      (vs : Values) (o : Option Value)
      → AllSound i vs
      → OptionSound i o
      → AllSound i (add_decoded vs o)
  unfolding add_decoded
  add_decoded-Sound vs none h hv = h
  add_decoded-Sound vs (some v) h hv = add_to_coreconf_array-Sound vs v h hv

pub create_map-Bounded : (i : ℕ) → IsBounded i 0 create_map
unfolding create_map
create_map-Bounded i =
    (create_map-IsValid.0, omega (arith, create_map-IsValid.1), empty_table-Sound i 100)

pub array-Sound : (i : ℕ) (vs : Values) → i ≤ 20 → AllSound (suc i) vs → IsSound i (array vs)
unfolding IsSound
array-Sound i vs h hs = (h, hs)

pub map-Sound : (i : ℕ) (m : HashMap) → i ≤ 20 → IsBounded (suc i) 51 m → IsSound i (hashmap m)
unfolding IsSound
map-Sound i (map_of t n) h hs = (h, hs)

pub no_elements-Sound : (i : ℕ) → AllSound i no_elements
unfolding IsSound
no_elements-Sound i = tt
