-- ===== src/HashMap/Iterate.antt =====
-- src/coreconfTypes.c: what `iterateCoreconfHashMap` shows to its callback.
use ccoreconf_zcbor.Common.{
  ℕ, zero, suc, ◌+◌, ◌≤◌, ◌≡◌, refl, List, [], ◌∷◌, ◌++◌, Option, none, some, ◌==◌, to_nat,
  if◌then◌else◌, length, arith,
}
use mathlib.Core.List.{foldl}
use ccoreconf_zcbor.Value.{
  Ref, Chain, Table, HashMap, chain_end, object, no_buckets, bucket, map_of, table, size,
}
use ccoreconf_zcbor.HashMap.{
  hash_key, get_bucket, find_object, iterate_chain, iterate_table, iterate_coreconf_hash_map,
}
use ccoreconf_zcbor.HashMap.Buckets.{length_chain, total, count, view, IsValid}

abbrev pub Entries : Type 0
Entries = List (ℕ × Ref)

unfoldable pub entries_chain : Chain → Entries
entries_chain chain_end = []
entries_chain (object k v c) = (k, v) ∷ entries_chain c

-- the objects of a table, bucket by bucket
unfoldable pub entries : Table → Entries
unfolding entries_chain
entries no_buckets = []
entries (bucket c t) = entries_chain c ++ entries t

unfoldable pub find_entry : ℕ → Entries → Option Ref
find_entry q [] = none
find_entry q ((k, v) ∷ es) = if k == q then some v else find_entry q es

unfoldable pub count_entry : ℕ → Entries → ℕ
count_entry q [] = 0
count_entry q ((k, v) ∷ es) = to_nat (k == q) + count_entry q es

module _ {ℓ} {S : Type ℓ} (f : ℕ → Ref → S → S) where
  iterate_chain-append :
      (c : Chain) (es : Entries) (s : S)
      → foldl (λ s e. f e.0 e.1 s) s (entries_chain c ++ es)
        ≡ foldl (λ s e. f e.0 e.1 s) (iterate_chain f c s) es
  unfolding entries_chain iterate_chain
  iterate_chain-append chain_end es s = refl
  iterate_chain-append (object k v c) es s = iterate_chain-append c es (f k v s)

  iterate_table-foldl :
      (t : Table) (s : S) → iterate_table f t s ≡ foldl (λ s e. f e.0 e.1 s) s (entries t)
  unfolding entries iterate_table
  iterate_table-foldl no_buckets s = refl
  iterate_table-foldl (bucket c t) s =
      rw (iterate_chain-append c (entries t) s) (iterate_table-foldl t (iterate_chain f c s))

  -- The iteration is a left fold over the objects, bucket by bucket.
  pub iterate-foldl :
      (m : HashMap) (s : S)
      → iterate_coreconf_hash_map f m s ≡ foldl (λ s e. f e.0 e.1 s) s (entries (table m))
  unfolding iterate_coreconf_hash_map
  iterate-foldl (map_of t n) s = iterate_table-foldl t s

find_entry-append_none :
    (q : ℕ) (c : Chain) (es : Entries)
    → count q c ≡ 0
    → find_entry q (entries_chain c ++ es) ≡ find_entry q es
unfolding entries_chain find_entry count
find_entry-append_none q chain_end es h = refl
find_entry-append_none q (object k v c) es h = ground (arith, find_entry-append_none q c es)

find_entry-append_end :
    (q : ℕ) (c : Chain) (es : Entries)
    → find_entry q es ≡ none
    → find_entry q (entries_chain c ++ es) ≡ find_object q c
unfolding entries_chain find_entry find_object
find_entry-append_end q chain_end es h = h
find_entry-append_end q (object k v c) es h = ground (arith, find_entry-append_end q c es h)

count_entry-append :
    (q : ℕ) (c : Chain) (es : Entries)
    → count_entry q (entries_chain c ++ es) ≡ count q c + count_entry q es
unfolding entries_chain count_entry count
count_entry-append q chain_end es = omega arith
count_entry-append q (object k v c) es = omega (arith, count_entry-append q c es)

find_entry-empty :
    (q : ℕ) (t : Table)
    → ((i : ℕ) → count q (get_bucket t i) ≤ 0)
    → (find_entry q (entries t) ≡ none) × (count_entry q (entries t) ≡ 0)
unfolding entries get_bucket
find_entry-empty q no_buckets h = (unfold find_entry in refl, unfold count_entry in refl)
find_entry-empty q (bucket c t) h =
    let rest = find_entry-empty q t (λ i. h (suc i)) in
    (
      rw (find_entry-append_none q c (entries t) (omega (arith, h 0))) rest.0,
      rw (count_entry-append q c (entries t)) (omega (arith, h 0, rest.1)),
    )

find_entry-home :
    (q j : ℕ) (t : Table)
    → ((i : ℕ) → count q (get_bucket t i) ≤ to_nat (j == i))
    → (find_entry q (entries t) ≡ find_object q (get_bucket t j))
      × (count_entry q (entries t) ≡ count q (get_bucket t j))
unfolding entries get_bucket
find_entry-home q j no_buckets h =
    (unfold find_entry find_object in refl, unfold count_entry count in refl)
find_entry-home q zero (bucket c t) h =
    let rest = find_entry-empty q t (λ i. ground (arith, h (suc i))) in
    (
      find_entry-append_end q c (entries t) rest.0,
      rw (count_entry-append q c (entries t)) (omega (arith, rest.1)),
    )
find_entry-home q (suc j) (bucket c t) h =
    let rest = find_entry-home q j t (λ i. ground (arith, h (suc i))) in
    let gone : count q c ≡ 0 = ground (arith, h 0) in
    (
      rw (find_entry-append_none q c (entries t) gone) rest.0,
      rw (count_entry-append q c (entries t)) (omega (arith, rest.1)),
    )

length-entries_chain :
    (c : Chain) (es : Entries) → length (entries_chain c ++ es) ≡ length_chain c + length es
unfolding entries_chain length_chain
length-entries_chain chain_end es = omega arith
length-entries_chain (object k v c) es = omega (arith, length-entries_chain c es)

length-entries : (t : Table) → length (entries t) ≡ total t
unfolding entries total
length-entries no_buckets = refl
length-entries (bucket c t) = omega (arith, length-entries_chain c (entries t), length-entries t)

-- What the callback sees of a valid map: the object that a lookup finds for each key, no key
-- twice, and as many objects as the size says.
pub record Shows (m : HashMap) (es : Entries) : Type 0 where
  pub finds : (q : ℕ) → find_entry q es ≡ view m q
  pub once : (q : ℕ) → count_entry q es ≤ 1
  pub sized : length es ≡ size m

pub entries-Shows : (m : HashMap) → IsValid m → Shows m (entries (table m))
unfolding view
entries-Shows m valid = record {
  finds = λ q. (find_entry-home q (hash_key q) (table m) (λ i. valid.placed i q)).0;
  once = λ q. ground (
    arith,
    (find_entry-home q (hash_key q) (table m) (λ i. valid.placed i q)).1,
    valid.placed (hash_key q) q,
  );
  sized = omega (arith, length-entries (table m), valid.counted);
}

-- The iteration over a valid map folds the callback over a list of objects in which each key
-- stands once at most, with the pointer that the map holds for it, and which is as long as the
-- map's size says.
pub iterate-Shows {ℓ} :
    {S : Type ℓ} (f : ℕ → Ref → S → S) (s : S) (m : HashMap)
    → IsValid m
    → Shows m (entries (table m))
      × (iterate_coreconf_hash_map f m s ≡ foldl (λ s e. f e.0 e.1 s) s (entries (table m)))
iterate-Shows f s m valid = (entries-Shows m valid, iterate-foldl f m s)
