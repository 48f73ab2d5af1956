-- ===== src/HashMap/Buckets.antt =====
-- What a table means, and writes to one bucket.
use ccoreconf_zcbor.Common.{
  ℕ, zero, suc, ◌+◌, ◌≤◌, ◌<◌, ◌≡◌, refl, Option, none, ◌==◌, if◌then◌else◌, to_nat, arith,
}
use ccoreconf_zcbor.Value.{
  Ref, Chain, Table, HashMap, chain_end, object, no_buckets, bucket, map_of, hashmap_table_size,
  table, size, empty_table, create_map,
}
use ccoreconf_zcbor.HashMap.{hash_key, get_bucket, set_bucket, find_object}

unfoldable pub length_chain : Chain → ℕ
length_chain chain_end = 0
length_chain (object k v c) = suc (length_chain c)

unfoldable pub width : Table → ℕ
width no_buckets = 0
width (bucket c t) = suc (width t)

-- the number of objects in a table
unfoldable pub total : Table → ℕ
unfolding length_chain
total no_buckets = 0
total (bucket c t) = length_chain c + total t

-- the number of objects with a key
unfoldable pub count : ℕ → Chain → ℕ
count q chain_end = 0
count q (object k v c) = to_nat (k == q) + count q c

pub hash_key-lt : (k : ℕ) → hash_key k < 100
unfolding hash_key
hash_key-lt k = omega arith

pub get_bucket-set_bucket :
    (t : Table) (i j : ℕ) (c : Chain)
    → i < width t
    → get_bucket (set_bucket t i c) j ≡ (if i == j then c else get_bucket t j)
unfolding get_bucket set_bucket width
get_bucket-set_bucket no_buckets i j c h = absurd (omega arith)
get_bucket-set_bucket (bucket d t) zero zero c h = ground arith
get_bucket-set_bucket (bucket d t) zero (suc j) c h = ground arith
get_bucket-set_bucket (bucket d t) (suc i) zero c h = ground arith
get_bucket-set_bucket (bucket d t) (suc i) (suc j) c h =
    ground (arith, get_bucket-set_bucket t i j c)

pub width-set_bucket : (t : Table) (i : ℕ) (c : Chain) → width (set_bucket t i c) ≡ width t
unfolding set_bucket width
width-set_bucket no_buckets i c = refl
width-set_bucket (bucket d t) zero c = refl
width-set_bucket (bucket d t) (suc i) c = omega (arith, width-set_bucket t i c)

pub total-set_bucket :
    (t : Table) (i : ℕ) (c : Chain)
    → i < width t
    → total (set_bucket t i c) + length_chain (get_bucket t i) ≡ total t + length_chain c
unfolding set_bucket get_bucket width total
total-set_bucket no_buckets i c h = absurd (omega arith)
total-set_bucket (bucket d t) zero c h = omega arith
total-set_bucket (bucket d t) (suc i) c h = omega (arith, total-set_bucket t i c)

pub length_chain-le-total : (t : Table) (i : ℕ) → length_chain (get_bucket t i) ≤ total t
unfolding get_bucket total
length_chain-le-total no_buckets i = unfold length_chain in omega arith
length_chain-le-total (bucket d t) zero = omega arith
length_chain-le-total (bucket d t) (suc i) = omega (arith, length_chain-le-total t i)

-- The abstract map: which keys are there, and the pointer that each holds.
unfoldable pub view : HashMap → ℕ → Option Ref
view m k = find_object k (get_bucket (table m) (hash_key k))

-- A map that the operations keep: all hundred buckets, every object in the bucket of its key and
-- no key twice, no chain longer than an insertion can make it, and the right size.
pub record IsValid (m : HashMap) : Type 0 where
  pub wide : width (table m) ≡ hashmap_table_size
  pub placed : (i q : ℕ) → count q (get_bucket (table m) i) ≤ to_nat (hash_key q == i)
  pub short : (i : ℕ) → length_chain (get_bucket (table m) i) ≤ 52
  pub counted : size m ≡ total (table m)

-- A write to the bucket of `k` keeps a map valid, and changes its meaning at `k` alone, if the new
-- chain differs from the old one at `k` alone.
pub set_bucket-IsValid :
    (t : Table) (n n' k : ℕ) (c : Chain)
    → IsValid (map_of t n)
    → length_chain c ≤ 52
    → ((q : ℕ) → count q c ≤ to_nat (hash_key q == hash_key k))
    → n' + length_chain (get_bucket t (hash_key k)) ≡ n + length_chain c
    → IsValid (map_of (set_bucket t (hash_key k) c) n')
set_bucket-IsValid t n n' k c v few once sized =
    let home : hash_key k < width t = omega (arith, hash_key-lt k, v.wide) in
    record {
      wide = omega (arith, width-set_bucket t (hash_key k) c, v.wide);
      placed = λ i q.
          ground (arith, get_bucket-set_bucket t (hash_key k) i c home, v.placed i q, once q);
      short = λ i. ground (arith, get_bucket-set_bucket t (hash_key k) i c home, v.short i);
      counted = omega (arith, total-set_bucket t (hash_key k) c home, v.counted);
    }

pub view-set_bucket :
    (t : Table) (n n' k q : ℕ) (c : Chain)
    → width t ≡ 100
    → view (map_of (set_bucket t (hash_key k) c) n') q
      ≡ (if hash_key k == hash_key q then find_object q c else view (map_of t n) q)
unfolding view
view-set_bucket t n n' k q c w =
    ground
      (arith, get_bucket-set_bucket t (hash_key k) (hash_key q) c (omega (arith, hash_key-lt k, w)))

get_bucket-empty_table : (n i : ℕ) → get_bucket (empty_table n) i ≡ chain_end
unfolding empty_table get_bucket
get_bucket-empty_table zero i = refl
get_bucket-empty_table (suc n) zero = refl
get_bucket-empty_table (suc n) (suc i) = get_bucket-empty_table n i

width-empty_table : (n : ℕ) → width (empty_table n) ≡ n
unfolding empty_table width
width-empty_table zero = refl
width-empty_table (suc n) = omega (arith, width-empty_table n)

total-empty_table : (n : ℕ) → total (empty_table n) ≡ 0
unfolding empty_table total length_chain
total-empty_table zero = refl
total-empty_table (suc n) = omega (arith, total-empty_table n)

-- A new map is valid, has size 0 and holds no key.
pub create_map-IsValid :
    IsValid create_map × (size create_map ≡ 0) × ((k : ℕ) → view create_map k ≡ none)
unfolding create_map view
create_map-IsValid = (
  record {
    wide = width-empty_table 100;
    placed = λ i q. rw get_bucket-empty_table (unfold count in omega arith);
    short = λ i. rw get_bucket-empty_table (unfold length_chain in omega arith);
    counted = omega (arith, total-empty_table 100);
  },
  refl,
  λ k. rw get_bucket-empty_table (unfold find_object in refl),
)
