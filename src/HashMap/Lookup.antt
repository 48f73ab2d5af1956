-- ===== src/HashMap/Lookup.antt =====
-- src/coreconfTypes.c: what an insertion and a deletion leave, and what `getCoreconfHashMap` reads
-- after them.
use ccoreconf_zcbor.Common.{
  ℕ, ◌≡◌, refl, sym, Option, none, some, inl, inr, Bool-cases, ◌==◌, if◌then◌else◌, arith,
}
use mathlib.Core.Path.{subst}
use ccoreconf_zcbor.Value.{Value, Ref, HashMap, map_of, deref}
use ccoreconf_zcbor.HashMap.{
  Status, done, failed, insert_coreconf_hash_map, delete_from_coreconf_hash_map,
  get_coreconf_hash_map,
}
use ccoreconf_zcbor.HashMap.Buckets.{IsValid, view}
use ccoreconf_zcbor.HashMap.Insert.{insert-Outcome}
use ccoreconf_zcbor.HashMap.Insert as Insert
use ccoreconf_zcbor.HashMap.Delete.{delete-Outcome}
use ccoreconf_zcbor.HashMap.Delete as Delete

-- what a caller makes of an entry
abbrev value_of : Option Ref → Option Value
value_of none = none
value_of (some r) = deref r

pub get_coreconf_hash_map-view :
    (m : HashMap) (q : ℕ) → get_coreconf_hash_map m q ≡ value_of (view m q)
unfolding get_coreconf_hash_map view
get_coreconf_hash_map-view (map_of t n) q = refl

inserted_reads :
    (m : HashMap) (k q : ℕ) (r : Ref) (o : HashMap × Status)
    → Insert.Outcome m k r o
    → o.1 ≡ done
    → get_coreconf_hash_map o.0 q ≡ (if k == q then deref r else get_coreconf_hash_map m q)
inserted_reads m k q r (m', failed) h e = cc
inserted_reads m k q r (m', done) h e =
    rw (get_coreconf_hash_map-view m' q, get_coreconf_hash_map-view m q, h.reads q)
      (elim (Bool-cases (k == q)) [ inl here ↦ rw here refl | inr there ↦ rw there refl ])

deleted_reads :
    (m : HashMap) (k q : ℕ) (o : HashMap × Status)
    → Delete.Outcome m k o
    → get_coreconf_hash_map o.0 q ≡ (if k == q then none else get_coreconf_hash_map m q)
deleted_reads m k q (m', done) h =
    rw (get_coreconf_hash_map-view m' q, get_coreconf_hash_map-view m q, h.reads q)
      (elim (Bool-cases (k == q)) [ inl here ↦ rw here refl | inr there ↦ rw there refl ])
deleted_reads m k q (m', failed) h =
    rw (get_coreconf_hash_map-view m' q, get_coreconf_hash_map-view m q, h.0)
      (elim (Bool-cases (k == q)) [
        | inl here ↦ let gone : view m q ≡ none = ground (arith, h.1) in rw (here, gone) refl
        | inr there ↦ rw there refl
      ])

inserted-IsValid :
    (m : HashMap) (k : ℕ) (r : Ref) (o : HashMap × Status)
    → IsValid m
    → Insert.Outcome m k r o
    → IsValid o.0
inserted-IsValid m k r (m', done) valid h = h.valid
inserted-IsValid m k r (m', failed) valid h = subst IsValid (sym h.0) valid

pub insert-IsValid :
    (m : HashMap) (k : ℕ) (r : Ref) → IsValid m → IsValid (insert_coreconf_hash_map m k r).0
insert-IsValid m k r valid = inserted-IsValid m k r _ valid (insert-Outcome m k r valid)

deleted-IsValid :
    (m : HashMap) (k : ℕ) (o : HashMap × Status) → IsValid m → Delete.Outcome m k o → IsValid o.0
deleted-IsValid m k (m', done) valid h = h.valid
deleted-IsValid m k (m', failed) valid h = subst IsValid (sym h.0) valid

pub delete-IsValid :
    (m : HashMap) (k : ℕ) → IsValid m → IsValid (delete_from_coreconf_hash_map m k).0
delete-IsValid m k valid = deleted-IsValid m k _ valid (delete-Outcome m k valid)

-- After an insertion into a valid map that returned 0, a lookup gives the inserted value under its
-- key, and what it gave before under every other key.
pub get-insert :
    (m : HashMap) (k q : ℕ) (r : Ref)
    → IsValid m
    → (insert_coreconf_hash_map m k r).1 ≡ done
    → get_coreconf_hash_map (insert_coreconf_hash_map m k r).0 q
      ≡ (if k == q then deref r else get_coreconf_hash_map m q)
get-insert m k q r valid e = inserted_reads m k q r _ (insert-Outcome m k r valid) e

-- After a deletion from a valid map, whatever it returned, a lookup gives NULL under the key, and
-- what it gave before under every other key.
pub get-delete :
    (m : HashMap) (k q : ℕ)
    → IsValid m
    → get_coreconf_hash_map (delete_from_coreconf_hash_map m k).0 q
      ≡ (if k == q then none else get_coreconf_hash_map m q)
get-delete m k q valid = deleted_reads m k q _ (delete-Outcome m k valid)
