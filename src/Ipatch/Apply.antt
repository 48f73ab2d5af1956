-- ===== src/Ipatch/Apply.antt =====
-- src/ipatch.c: `apply_ipatch` against a merge of two maps.
use ccoreconf_zcbor.Common.{
  ℕ, ◌≤◌, ◌≡◌, refl, sym, ap, ◌∙◌, [], ◌∷◌, Bool, true, false, Option, none, some, inl, inr,
  Bool-cases, ◌==◌, if◌then◌else◌, arith,
}
use mathlib.Core.List.{foldl}
use mathlib.Core.Path.{subst}
use ccoreconf_zcbor.Value.{Value, Ref, HashMap, null_ref, ref, null_value, hashmap, table}
use ccoreconf_zcbor.HashMap.{Status, done, failed}
use ccoreconf_zcbor.HashMap.Buckets.{view, IsValid}
use ccoreconf_zcbor.HashMap.Insert.{Inserts, insert-Outcome}
use ccoreconf_zcbor.HashMap.Insert as Insert
use ccoreconf_zcbor.HashMap.Delete.{Deletes, delete-Outcome}
use ccoreconf_zcbor.HashMap.Delete as Delete
use ccoreconf_zcbor.HashMap.Iterate.{
  Entries, entries, find_entry, count_entry, iterate-foldl, entries-Shows,
}
use ccoreconf_zcbor.Ipatch.{
  ApplyPatchCtx, copy_value, after_insert, apply_one_sid, apply_map, status_of, apply_ipatch,
}

-- What the patch makes of an entry: a NULL value deletes, a NULL pointer does nothing.
unfoldable pub merge_entry : Option Ref → Option Ref → Option Ref
merge_entry none old = old
merge_entry (some null_ref) old = old
merge_entry (some (ref null_value)) old = none
merge_entry (some (ref v)) old = some (ref (copy_value v))

-- One update took place on a valid target: without an error the key is merged and the others keep
-- their values; with one, the flag is up.
pub record Applies (k : ℕ) (r : Ref) (ctx ctx' : ApplyPatchCtx) : Type 0 where
  pub valid : IsValid ctx'.target
  pub sticky : ctx'.error ≡ false → ctx.error ≡ false
  pub reads :
      ctx'.error ≡ false
      → (q : ℕ)
      → view ctx'.target q
        ≡ (if k == q then merge_entry (some r) (view ctx.target q) else view ctx.target q)

inserted :
    (k : ℕ) (v : Value) (ctx : ApplyPatchCtx) (r : HashMap × Status)
    → IsValid ctx.target
    → Insert.Outcome ctx.target k (ref (copy_value v)) r
    → ((old : Option Ref) → merge_entry (some (ref v)) old ≡ some (ref (copy_value v)))
    → Applies k (ref v) ctx (after_insert ctx.error r)
unfolding after_insert
inserted k v ctx (m', done) valid h value = record {
  valid = h.valid;
  sticky = λ e. e;
  reads = λ e q. ground (arith, h.reads q, value (view ctx.target q));
}
inserted k v ctx (m', failed) valid h value = record {
  valid = subst IsValid (sym h.0) valid;
  sticky = λ e. cc;
  reads = λ e q. cc;
}

deleted :
    (k : ℕ) (ctx : ApplyPatchCtx) (r : HashMap × Status)
    → IsValid ctx.target
    → Delete.Outcome ctx.target k r
    → Applies k (ref null_value) ctx (record ctx { target = r.0 })
unfolding merge_entry
deleted k ctx (m', done) valid h = record {
  valid = h.valid;
  sticky = λ e. e;
  reads = λ e q. h.reads q;
}
deleted k ctx (m', failed) valid h = record {
  valid = subst IsValid (sym h.0) valid;
  sticky = λ e. e;
  reads = λ e q. ground (arith, ap (λ m. view m q) h.0, h.1);
}

apply_one_sid-Applies :
    (k : ℕ) (r : Ref) (ctx : ApplyPatchCtx)
    → IsValid ctx.target
    → Applies k r ctx (apply_one_sid k r ctx)
unfolding apply_one_sid merge_entry
apply_one_sid-Applies k null_ref ctx valid = record {
  valid = valid;
  sticky = λ e. e;
  reads = λ e q. ground arith;
}
apply_one_sid-Applies k (ref null_value) ctx valid =
    deleted k ctx _ valid (delete-Outcome ctx.target k valid)
apply_one_sid-Applies k (ref v) ctx valid =
    inserted k v ctx _ valid (insert-Outcome ctx.target k (ref (copy_value v)) valid) (λ old. refl)

abbrev step : ApplyPatchCtx → ℕ × Ref → ApplyPatchCtx
step ctx e = apply_one_sid e.0 e.1 ctx

-- The same for a list of updates that has no key twice.
pub record Merges (find : ℕ → Option Ref) (ctx ctx' : ApplyPatchCtx) : Type 0 where
  pub valid : IsValid ctx'.target
  pub sticky : ctx'.error ≡ false → ctx.error ≡ false
  pub reads :
      ctx'.error ≡ false → (q : ℕ) → view ctx'.target q ≡ merge_entry (find q) (view ctx.target q)

find_entry-none : (q : ℕ) (es : Entries) → count_entry q es ≡ 0 → find_entry q es ≡ none
unfolding find_entry count_entry
find_entry-none q [] h = refl
find_entry-none q ((k, v) ∷ es) h = ground (arith, find_entry-none q es)

foldl-Merges :
    (es : Entries) (ctx : ApplyPatchCtx)
    → IsValid ctx.target
    → ((q : ℕ) → count_entry q es ≤ 1)
    → Merges (λ q. find_entry q es) ctx (foldl step ctx es)
unfolding find_entry count_entry merge_entry
foldl-Merges [] ctx valid once = record { valid = valid; sticky = λ e. e; reads = λ e q. refl }
foldl-Merges ((k, r) ∷ es) ctx valid once =
    let a = apply_one_sid-Applies k r ctx valid in
    let rest = foldl-Merges es (apply_one_sid k r ctx) a.valid (λ q. omega (arith, once q)) in
    record {
      valid = rest.valid;
      sticky = λ e. a.sticky (rest.sticky e);
      reads = λ e q.
          rw (rest.reads e q, a.reads (rest.sticky e) q)
            (elim (Bool-cases (k == q)) [
              | inl here ↦ rw (here, find_entry-none q es (ground (arith, once q)))
              | inr there ↦ rw there
            ]);
    }

start : HashMap → ApplyPatchCtx
start target = record { target = target; error = false }

apply_map-Merges :
    (target patch : HashMap)
    → IsValid target
    → IsValid patch
    → Merges (view patch) (start target) (apply_map target patch)
unfolding apply_map start
apply_map-Merges target patch vt vp =
    let shown = entries-Shows patch vp in
    let m = foldl-Merges (entries (table patch)) (start target) vt shown.once in
    rw (iterate-foldl apply_one_sid patch (start target)) (record {
      valid = m.valid;
      sticky = m.sticky;
      reads = λ e q. m.reads e q ∙ ap (λ r. merge_entry r (view target q)) (shown.finds q);
    })

status_of-done : (b : Bool) → status_of b ≡ done → b ≡ false
unfolding status_of
status_of-done false h = refl
status_of-done true h = cc

-- `apply_ipatch` of a valid patch to a valid datastore leaves a valid datastore, whatever it
-- returns.
apply_ipatch-IsValid :
    (target patch : HashMap)
    → IsValid target
    → IsValid patch
    → (m : HashMap) × ((apply_ipatch (ref (hashmap target)) (ref (hashmap patch))).0
        ≡ ref (hashmap m))
      × IsValid m
unfolding apply_ipatch start
apply_ipatch-IsValid target patch vt vp =
    ((apply_map target patch).target, refl, (apply_map-Merges target patch vt vp).valid)

-- If `apply_ipatch` of a valid patch to a valid datastore returns 0, the datastore is the merge of
-- the two: a NULL value in the patch deletes its key, any other value stands under its key as a
-- copy, and keys that the patch does not name are as before.
pub apply_ipatch_merge :
    (target patch : HashMap)
    → IsValid target
    → IsValid patch
    → (apply_ipatch (ref (hashmap target)) (ref (hashmap patch))).1 ≡ done
    → (m : HashMap) × ((apply_ipatch (ref (hashmap target)) (ref (hashmap patch))).0
        ≡ ref (hashmap m))
      × ((q : ℕ) → view m q ≡ merge_entry (view patch q) (view target q))
unfolding apply_ipatch start
apply_ipatch_merge target patch vt vp e =
    let m = apply_map-Merges target patch vt vp in
    ((apply_map target patch).target, refl, m.reads (status_of-done _ e))
