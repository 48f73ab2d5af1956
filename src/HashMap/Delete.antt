-- ===== src/HashMap/Delete.antt =====
-- src/coreconfTypes.c: what `deleteFromCoreconfHashMap` does to the map.
use ccoreconf_zcbor.Common.{
  ℕ, suc, ◌+◌, ◌-◌, ◌≤◌, ◌<◌, ◌≡◌, refl, ◌≢◌, inl, inr, Option, none, some, true, false, ◌==◌,
  Bool-cases, if◌then◌else◌, arith,
}
use ccoreconf_zcbor.Value.{Ref, Chain, Table, HashMap, chain_end, object, map_of, size}
use ccoreconf_zcbor.HashMap.{
  Status, done, failed, hash_key, get_bucket, set_bucket, find_object, unlink, keep_object,
  finish_delete, delete_from_coreconf_hash_map,
}
use ccoreconf_zcbor.HashMap.Buckets.{
  length_chain, count, length_chain-le-total, view, IsValid, set_bucket-IsValid, view-set_bucket,
}
use ccoreconf_zcbor.HashMap.Insert.{home_congr}

find-eq-none : (q : ℕ) (c : Chain) → count q c ≡ 0 → find_object q c ≡ none
unfolding count find_object
find-eq-none q chain_end h = refl
find-eq-none q (object j u c) h = ground (arith, find-eq-none q c)

-- The outcome of the loop on a chain that has the key once at most.
abbrev Unlinked : ℕ → Chain → Option Chain → Type 0
Unlinked k c none = find_object k c ≡ none
Unlinked k c (some c') =
    (suc (length_chain c') ≡ length_chain c)
    × ((q : ℕ) → count q c' ≤ count q c)
    × ((q : ℕ) → count q c ≤ 1 → find_object q c' ≡ (if k == q then none else find_object q c))
    × (find_object k c ≢ none)

unlink_head : (j k : ℕ) (u : Ref) (c : Chain) → (j == k) ≡ true → Unlinked k (object j u c) (some c)
unfolding length_chain count find_object
unlink_head j k u c same =
    (refl, λ q. omega arith, λ q once. ground (arith, find-eq-none q c), λ e. ground arith)

keep_object-Unlinked :
    (j k : ℕ) (u : Ref) (c : Chain) (o : Option Chain)
    → (j == k) ≡ false
    → Unlinked k c o
    → Unlinked k (object j u c) (keep_object j u o)
unfolding keep_object length_chain count find_object
keep_object-Unlinked j k u c none other h = ground arith
keep_object-Unlinked j k u c (some c') other h = (
  omega arith,
  λ q. omega (arith, h.1 q),
  λ q once. ground (arith, h.2 q),
  λ e. h.3 (ground arith),
)

unlink-Unlinked : (k : ℕ) (c : Chain) → Unlinked k c (unlink k c)
unfolding unlink
unlink-Unlinked k chain_end = unfold find_object in refl
unlink-Unlinked k (object j u c) = elim (Bool-cases (j == k)) [
  | inl same ↦ rw same (unlink_head j k u c same)
  | inr other ↦ rw other (keep_object-Unlinked j k u c _ other (unlink-Unlinked k c))
]

-- `m'` is `m` without `k`, valid, and smaller by one.
pub record Deletes (m : HashMap) (k : ℕ) (m' : HashMap) : Type 0 where
  pub valid : IsValid m'
  pub reads : (q : ℕ) → view m' q ≡ (if k == q then none else view m q)
  pub sized : size m' + 1 ≡ size m
  pub found : view m k ≢ none

abbrev pub Outcome : HashMap → ℕ → HashMap × Status → Type 0
Outcome m k (m', done) = Deletes m k m'
Outcome m k (m', failed) = (m' ≡ m) × (view m k ≡ none)

module _ (t : Table) (n k : ℕ) (valid : IsValid (map_of t n)) where
  chain : Chain
  chain = get_bucket t (hash_key k)

  once : (q : ℕ) → count q chain ≤ 1
  unfolding chain
  once q = ground (arith, valid.placed (hash_key k) q)

  chain-view :
      (q : ℕ) → (hash_key k == hash_key q) ≡ true → find_object q chain ≡ view (map_of t n) q
  unfolding chain view
  chain-view q h = ground arith

  some-Deletes :
      (c : Chain)
      → Unlinked k chain (some c)
      → Deletes (map_of t n) k (map_of (set_bucket t (hash_key k) c) (n - 1))
  unfolding chain
  some-Deletes c (shorter, fewer, finds, there) =
      let filled : 0 < n = omega (arith, length_chain-le-total t (hash_key k), valid.counted) in
      record {
        valid =
            set_bucket-IsValid t n (n - 1) k c valid (omega (arith, valid.short (hash_key k)))
              (λ q. omega (arith, fewer q, valid.placed (hash_key k) q)) (omega arith);
        reads = λ q.
            rw (view-set_bucket t n (n - 1) k q c valid.wide)
              (ground (arith, finds q (once q), home_congr k q, chain-view q));
        sized = omega arith;
        found = λ e. there (ground (arith, chain-view k));
      }

  finish_delete-Outcome :
      (o : Option Chain) → Unlinked k chain o → Outcome (map_of t n) k (finish_delete t n k o)
  unfolding finish_delete chain
  finish_delete-Outcome none h = (refl, ground (arith, chain-view k))
  finish_delete-Outcome (some c) h = some-Deletes c h

-- On a valid map a deletion either removes the key, keeps every other key and the validity, and
-- counts one less, or it fails, changes nothing, and the key was not there.
pub delete-Outcome :
    (m : HashMap) (k : ℕ) → IsValid m → Outcome m k (delete_from_coreconf_hash_map m k)
unfolding delete_from_coreconf_hash_map chain
delete-Outcome (map_of t n) k valid = finish_delete-Outcome t n k valid _ (unlink-Unlinked k _)
