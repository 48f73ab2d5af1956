-- ===== src/HashMap/Insert.antt =====
-- src/coreconfTypes.c: what `insertCoreconfHashMap` does to the map, on each of its outcomes.
use ccoreconf_zcbor.Common.{
  ℕ, zero, suc, ◌+◌, ◌≤◌, ◌<◌, ◌≡◌, refl, ap, ◌≢◌, ◌↔◌, inl, inr, none, some, ◌==◌, if◌then◌else◌,
  ltb, Bool-cases, true, false, arith,
}
use ccoreconf_zcbor.Value.{
  Ref, Chain, Table, HashMap, chain_end, object, map_of, table, size, coreconf_max_loop,
}
use ccoreconf_zcbor.HashMap.{
  Status, done, failed, hash_key, get_bucket, set_bucket, find_object, Walk, exceeded, replaced,
  absent, behind, walk_chain, finish_insert, insert_coreconf_hash_map,
}
use ccoreconf_zcbor.HashMap.Buckets.{
  length_chain, count, view, IsValid, set_bucket-IsValid, view-set_bucket,
}

-- The first `n` objects of a chain.
unfoldable pub take_chain : ℕ → Chain → Chain
take_chain zero c = chain_end
take_chain (suc n) chain_end = chain_end
take_chain (suc n) (object k v c) = object k v (take_chain n c)

pub count-eq-zero : (q : ℕ) (c : Chain) → find_object q c ≡ none → count q c ≡ 0
unfolding count find_object
count-eq-zero q chain_end h = refl
count-eq-zero q (object k v c) h = ground (arith, count-eq-zero q c)

-- The outcome of the loop that starts with `left` rounds to go before it gives up.
abbrev Walked : ℕ → ℕ → Ref → Chain → Walk → Type 0
Walked left k v c exceeded = (left < length_chain c) × (find_object k (take_chain left c) ≡ none)
Walked left k v c absent = (length_chain c ≤ left) × (find_object k c ≡ none)
Walked left k v c (replaced c') =
    (length_chain c' ≡ length_chain c)
    × ((q : ℕ) → count q c' ≡ count q c)
    × ((q : ℕ) → find_object q c' ≡ (if k == q then some v else find_object q c))
    × (find_object k (take_chain left c) ≢ none)

behind-Walked :
    (left j k : ℕ) (u v : Ref) (c : Chain) (w : Walk)
    → (j == k) ≡ false
    → Walked left k v c w
    → Walked (suc left) k v (object j u c) (behind j u w)
unfolding behind length_chain count find_object take_chain
behind-Walked left j k u v c exceeded other h = ground arith
behind-Walked left j k u v c absent other h = ground arith
behind-Walked left j k u v c (replaced c') other h =
    (omega arith, λ q. omega (arith, h.1 q), λ q. ground (arith, h.2 q), λ e. h.3 (ground arith))

replaced_head :
    (left j k : ℕ) (u v : Ref) (c : Chain)
    → (j == k) ≡ true
    → Walked (suc left) k v (object j u c) (replaced (object j v c))
unfolding length_chain count find_object take_chain
replaced_head left j k u v c same = (refl, λ q. refl, λ q. ground arith, λ e. ground arith)

walk_chain-Walked :
    (n left k : ℕ) (v : Ref) (c : Chain) → n + left ≡ 51 → Walked left k v c (walk_chain n k v c)
unfolding walk_chain
walk_chain-Walked n left k v chain_end e = unfold length_chain find_object in ground arith
walk_chain-Walked n zero k v (object j u c) e =
    let over : ltb coreconf_max_loop n ≡ true = ground arith in
    rw over (unfold length_chain take_chain find_object in ground arith)
walk_chain-Walked n (suc left) k v (object j u c) e =
    let under : ltb coreconf_max_loop n ≡ false = ground arith in
    elim (Bool-cases (j == k)) [
      | inl same ↦ rw (under, same) (replaced_head left j k u v c same)
      | inr other ↦
          rw (under, other)
            (behind-Walked left j k u v c _ other
              (walk_chain-Walked (n + 1) left k v c (omega arith)))
    ]

find_object-take_chain :
    (n k : ℕ) (c : Chain) → find_object k c ≡ none → find_object k (take_chain n c) ≡ none
unfolding find_object take_chain
find_object-take_chain zero k c h = refl
find_object-take_chain (suc n) k chain_end h = refl
find_object-take_chain (suc n) k (object j u c) h = ground (arith, find_object-take_chain n k c)

-- The chain of a key has the most objects there can be, and the key is not among the first 51.
pub record IsFull (m : HashMap) (k : ℕ) : Type 0 where
  pub full : length_chain (get_bucket (table m) (hash_key k)) ≡ 52
  pub deep : find_object k (take_chain 51 (get_bucket (table m) (hash_key k))) ≡ none

-- `m'` is `m` with `v` under `k`, valid, and larger by one if the key is new.
pub record Inserts (m : HashMap) (k : ℕ) (v : Ref) (m' : HashMap) : Type 0 where
  pub valid : IsValid m'
  pub reads : (q : ℕ) → view m' q ≡ (if k == q then some v else view m q)
  pub sized : size m' ≡ size m + elim (view m k) [ none ↦ 1 | some _ ↦ 0 ]

abbrev pub Outcome : HashMap → ℕ → Ref → HashMap × Status → Type 0
Outcome m k v (m', done) = Inserts m k v m'
Outcome m k v (m', failed) = (m' ≡ m) × IsFull m k

pub home_congr : (k q : ℕ) → (k == q) ≡ true → (hash_key k == hash_key q) ≡ true
home_congr k q h = ground (arith, ap hash_key {x = k} {y = q} (ground arith))

module _ (t : Table) (n k : ℕ) (v : Ref) (valid : IsValid (map_of t n)) where
  chain : Chain
  chain = get_bucket t (hash_key k)

  chain-view :
      (q : ℕ) → (hash_key k == hash_key q) ≡ true → find_object q chain ≡ view (map_of t n) q
  unfolding chain view
  chain-view q h = ground arith

  -- What a write to the bucket of `k` means, from what it means for its chain.
  view_write :
      (n' : ℕ) (c : Chain)
      → ((q : ℕ) → find_object q c ≡ (if k == q then some v else find_object q chain))
      → (q : ℕ)
      → view (map_of (set_bucket t (hash_key k) c) n') q
        ≡ (if k == q then some v else view (map_of t n) q)
  view_write n' c finds q =
      rw (view-set_bucket t n n' k q c valid.wide)
        (ground (arith, finds q, home_congr k q, chain-view q))

  replaced-Inserts :
      (c : Chain)
      → Walked 51 k v chain (replaced c)
      → Inserts (map_of t n) k v (map_of (set_bucket t (hash_key k) c) n)
  unfolding chain view
  replaced-Inserts c (same, counts, finds, near) = record {
    valid =
        set_bucket-IsValid t n n k c valid (omega (arith, valid.short (hash_key k)))
          (λ q. omega (arith, counts q, valid.placed (hash_key k) q)) (omega arith);
    reads = view_write n c finds;
    sized = ground (arith, find_object-take_chain 51 k chain);
  }

  absent-Inserts :
      Walked 51 k v chain absent
      → Inserts (map_of t n) k v (map_of (set_bucket t (hash_key k) (object k v chain)) (n + 1))
  unfolding chain view length_chain count find_object
  absent-Inserts (few, missing) = record {
    valid =
        set_bucket-IsValid t n (n + 1) k (object k v chain) valid (omega arith)
          (λ q. ground (arith, count-eq-zero k chain missing, valid.placed (hash_key k) q))
          (omega arith);
    reads = view_write (n + 1) (object k v chain) (λ q. refl);
    sized = ground arith;
  }

  exceeded-IsFull : Walked 51 k v chain exceeded → IsFull (map_of t n) k
  unfolding chain
  exceeded-IsFull (long, deep) = record {
    full = omega (arith, valid.short (hash_key k));
    deep = deep;
  }

  finish_insert-Outcome :
      (w : Walk) → Walked 51 k v chain w → Outcome (map_of t n) k v (finish_insert t n k v w)
  unfolding finish_insert chain
  finish_insert-Outcome exceeded h = (refl, exceeded-IsFull h)
  finish_insert-Outcome absent h = absent-Inserts h
  finish_insert-Outcome (replaced c) h = replaced-Inserts c h

-- On a valid map an insertion either puts the value under its key, keeps every other key and the
-- validity, and counts a new key, or it fails, changes nothing, and the key's chain is full with
-- the key not among its first 51 objects.
pub insert-Outcome :
    (m : HashMap) (k : ℕ) (v : Ref) → IsValid m → Outcome m k v (insert_coreconf_hash_map m k v)
unfolding insert_coreconf_hash_map chain
insert-Outcome (map_of t n) k v valid =
    finish_insert-Outcome t n k v valid _ (walk_chain-Walked 0 51 k v _ refl)

full_walk :
    (t : Table) (n k : ℕ) (v : Ref) (w : Walk)
    → IsFull (map_of t n) k
    → Walked 51 k v (get_bucket t (hash_key k)) w
    → (finish_insert t n k v w).1 ≡ failed
unfolding finish_insert
full_walk t n k v exceeded h d = refl
full_walk t n k v absent h d = absurd (omega (arith, h.full))
full_walk t n k v (replaced c) h d = absurd (d.3 h.deep)

Outcome-failed :
    (m : HashMap) (k : ℕ) (v : Ref) (r : HashMap × Status)
    → Outcome m k v r
    → r.1 ≡ failed
    → IsFull m k
Outcome-failed m k v (m', done) h e = cc
Outcome-failed m k v (m', failed) h e = h.1

-- An insertion into a valid map fails exactly when the key's chain has 52 objects and the key is
-- not among the first 51 of them.
pub insert-failed_iff :
    (m : HashMap) (k : ℕ) (v : Ref)
    → IsValid m
    → ((insert_coreconf_hash_map m k v).1 ≡ failed) ↔ IsFull m k
unfolding insert_coreconf_hash_map chain
insert-failed_iff (map_of t n) k v valid = (
  Outcome-failed (map_of t n) k v _ (insert-Outcome (map_of t n) k v valid),
  λ h. full_walk t n k v _ h (walk_chain-Walked 0 51 k v _ refl),
)
