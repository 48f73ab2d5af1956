-- ===== src/Ipatch.antt =====
-- src/ipatch.c: updates of the datastore by a patch that is a map.
pub mod Apply
pub mod Entries
pub mod Lists
pub mod Raw
pub mod Valid
pub mod Request
use ccoreconf_zcbor.Common.{ℕ, Bool, true, false, Option, none, some}
use ccoreconf_zcbor.Value.{
  Value, Ref, HashMap, null_ref, ref, string, hashmap, null_value, c_string,
}
use ccoreconf_zcbor.HashMap.{
  Status, done, failed, insert_coreconf_hash_map, delete_from_coreconf_hash_map,
  iterate_coreconf_hash_map,
}

-- `ApplyPatchCtx`
pub record ApplyPatchCtx : Type 0 where
  pub target : HashMap
  pub error : Bool

-- The `memcpy` of a value; a string is copied once more by `strdup`. The copy of an array or of a
-- map shares its storage with the patch, which does not show in its value.
unfoldable pub copy_value : Value → Value
unfolding c_string
copy_value (string s) = string (c_string s)
copy_value v = v

unfoldable pub after_insert : Bool → HashMap × Status → ApplyPatchCtx
after_insert error (map, done) = record { target = map; error = error }
after_insert error (map, failed) = record { target = map; error = true }

-- A NULL in the patch deletes; the result of that deletion is dropped.
unfoldable pub apply_one_sid : ℕ → Ref → ApplyPatchCtx → ApplyPatchCtx
unfolding copy_value after_insert
apply_one_sid key null_ref ctx = ctx
apply_one_sid key (ref null_value) ctx = record ctx {
  target = (delete_from_coreconf_hash_map ctx.target key).0;
}
apply_one_sid key (ref v) ctx =
    after_insert ctx.error (insert_coreconf_hash_map ctx.target key (ref (copy_value v)))

unfoldable pub apply_map : HashMap → HashMap → ApplyPatchCtx
unfolding apply_one_sid
apply_map target patch =
    iterate_coreconf_hash_map apply_one_sid patch (record { target = target; error = false })

unfoldable pub status_of : Bool → Status
status_of true = failed
status_of false = done

-- `datastore` and `patch` are NULL where they are `null_ref`.
unfoldable pub apply_ipatch : Ref → Ref → Ref × Status
unfolding apply_map status_of
apply_ipatch (ref (hashmap target)) (ref (hashmap patch)) =
    let ctx = apply_map target patch in (ref (hashmap ctx.target), status_of ctx.error)
apply_ipatch datastore patch = (datastore, failed)
