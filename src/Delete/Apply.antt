-- ===== src/Delete/Apply.antt =====
-- src/delete.c: what `apply_delete` leaves in the datastore, and what it counts.
use ccoreconf_zcbor.Common.{
  ℕ, ◌+◌, ◌≡◌, refl, sym, ap, List, [], ◌∷◌, Bool, false, ◌||◌, none, ◌==◌, if◌then◌else◌, arith,
}
use mathlib.Core.Path.{subst}
use ccoreconf_zcbor.Value.{HashMap, size}
use ccoreconf_zcbor.HashMap.{Status, done, failed, delete_from_coreconf_hash_map}
use ccoreconf_zcbor.HashMap.Buckets.{view, IsValid}
use ccoreconf_zcbor.HashMap.Delete.{Outcome, delete-Outcome}
use ccoreconf_zcbor.Delete.{delete_all, apply_delete}

abbrev pub contains : List ℕ → ℕ → Bool
contains [] q = false
contains (s ∷ ss) q = s == q || contains ss q

-- `map'` is `map` without the SIDs of the list, valid, and smaller by the number that is counted.
pub record DeletesAll (map : HashMap) (sids : List ℕ) (r : HashMap × ℕ) (before : ℕ) : Type 0 where
  pub valid : IsValid r.0
  pub reads : (q : ℕ) → view r.0 q ≡ (if contains sids q then none else view map q)
  pub counted : size r.0 + r.1 ≡ size map + before

delete_all-DeletesAll :
    (sids : List ℕ) (map : HashMap) (n : ℕ)
    → IsValid map
    → DeletesAll map sids (delete_all sids map n) n
unfolding delete_all
delete_all-DeletesAll [] map n valid = record { valid = valid; reads = λ q. refl; counted = refl }
delete_all-DeletesAll (sid ∷ sids) map n valid =
    step (delete_from_coreconf_hash_map map sid) (delete-Outcome map sid valid)
      (λ m' k v. delete_all-DeletesAll sids m' k v)
  where
    step :
        (r : HashMap × Status)
        → Outcome map sid r
        → ((m' : HashMap) (k : ℕ) → IsValid m' → DeletesAll m' sids (delete_all sids m' k) k)
        → DeletesAll map
            (sid ∷ sids)
            (delete_all sids r.0 (elim r.1 [ done ↦ n + 1 | failed ↦ n ]))
            n
    step (m', done) h ih =
        let t = ih m' (n + 1) h.valid in
        record {
          valid = t.valid;
          reads = λ q. ground (arith, t.reads q, h.reads q);
          counted = omega (arith, t.counted, h.sized);
        }
    step (m', failed) h ih =
        let t = ih m' n (subst IsValid (sym h.0) valid) in
        record {
          valid = t.valid;
          reads = λ q. ground (arith, t.reads q, ap (λ m. view m q) h.0, h.1);
          counted = omega (arith, t.counted, ap size h.0);
        }

-- `apply_delete` on a valid datastore removes exactly the SIDs of the list, keeps it valid, and
-- returns by how many objects it has shrunk.
pub apply_delete-DeletesAll :
    (map : HashMap) (sids : List ℕ) → IsValid map → DeletesAll map sids (apply_delete map sids) 0
unfolding apply_delete
apply_delete-DeletesAll map sids valid = delete_all-DeletesAll sids map 0 valid
