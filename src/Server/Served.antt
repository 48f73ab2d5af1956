-- ===== src/Server/Served.antt =====
-- iot_containers/iot_apps/coreconf_server.c: the variables of the server after any number of requests.
use ccoreconf_zcbor.Common.{
  ℕ, ◌≡◌, refl, sym, List, Bool, true, false, Option, none, some, ◌⊎◌, inl, inr, Bool-cases, ◌==◌,
}
use mathlib.Core.Path.{subst}
use ccoreconf_zcbor.Zcbor.{Encoder, Decoder, Run, ret, bad_read, out_of_fuel}
use ccoreconf_zcbor.Zcbor.Runs.{Returns, bind-Returns_after, Returns-eq}
use ccoreconf_zcbor.Value.{Ref, HashMap, hashmap, null_ref, ref}
use ccoreconf_zcbor.HashMap.Buckets.{IsValid}
use ccoreconf_zcbor.Ipatch.Raw.{apply_ipatch_raw}
use ccoreconf_zcbor.Ipatch.Valid.{apply_ipatch_raw-IsValid}
use ccoreconf_zcbor.Server.Sequence.{Reached}
use ccoreconf_zcbor.Server.State.{
  Server, Request, Reply, get_content_format, get_data, plain, cf_yang_instances,
}
use ccoreconf_zcbor.Server.Time.{Clock}
use ccoreconf_zcbor.Server.Effect.{
  is_error, Carries, HoldsMap, Effect, unchanged, stored, removed, HasEffect, push_sequence-Carries,
}
use ccoreconf_zcbor.Server.Answers.{handle_post-Effect, handle_fetch-Effect, stream_payload-Effect}
use ccoreconf_zcbor.Server.Changes.{handle_get-Effect, handle_put-Effect, handle_delete-Effect}
use ccoreconf_zcbor.Server.Datastore.{
  current_datastore, patched, patch_map, patch_from, patch_payload, handle_ipatch,
}
use ccoreconf_zcbor.Server.Observe.{handle_stream_get, handle_stream_fetch, handle_sid_info}
use ccoreconf_zcbor.Server.Handlers.{
  Method, post, fetch, get, ipatch, put, delete, stream_get, stream_fetch, sid_get, handle, Step,
  answers,
}

-- There is a valid map exactly where the flag says so.
pub data DatastoreIs : Ref → Bool → Type 0 where
  missing : DatastoreIs null_ref false
  there : (m : HashMap) → IsValid m → DatastoreIs (ref (hashmap m)) true

pub record IsConsistent (server : Server) : Type 0 where
  pub data_there : DatastoreIs server.datastore server.ds_exists
  pub stream_reached : Reached server.stream

known_datastore :
    (server : Server) (r : Ref) (b : Bool)
    → server.datastore ≡ r
    → server.ds_exists ≡ b
    → DatastoreIs r b
    → (current_datastore server ≡ none)
      ⊎ ((m : HashMap) × IsValid m
          × HoldsMap server m
          × (current_datastore server ≡ some (hashmap m)))
unfolding current_datastore
known_datastore server _ _ e f missing = inl (rw e refl)
known_datastore server _ _ e f (there m valid) = inr (m, valid, (e, f), rw (e, f) refl)

-- The handlers see no datastore, or a valid map.
pub current_datastore-IsConsistent :
    (server : Server)
    → IsConsistent server
    → (current_datastore server ≡ none)
      ⊎ ((m : HashMap) × IsValid m
          × HoldsMap server m
          × (current_datastore server ≡ some (hashmap m)))
current_datastore-IsConsistent server c = known_datastore server _ _ refl refl c.data_there

module _ (decoder : Decoder) where
  -- What is stored and, as nothing in the datastore has changed, what is not.
  patched-Effect :
      (server : Server) (bytes : List ℕ) (m : HashMap) (r : Ref) (o : Option ℕ)
      → HoldsMap server m
      → (m' : HashMap) × (r ≡ ref (hashmap m')) × IsValid m'
      → HasEffect server (patched decoder server bytes (r, o))
  unfolding patched plain
  patched-Effect server bytes m r none holds (m', e, valid) =
      stored m' valid (e, holds.1) (λ reached. reached) refl
  patched-Effect server bytes m r (some n) holds (m', e, valid) =
      bind-Returns_after (Carries server.stream) (Effect server) _ _
        (push_sequence-Carries decoder server.sys_sids.sys_module (some bytes) server.stream)
        (λ stream h. stored m' valid (e, holds.1) h refl)

  run-Returns :
      {A : Type 0} (P : A → Type 0) (p : Run A) → ((a : A) → p ≡ ret a → P a) → Returns P p
  run-Returns P (ret a) h = h a refl
  run-Returns P bad_read h = tt
  run-Returns P out_of_fuel h = tt

  patch_map-Effect :
      (fuel : ℕ) (server : Server) (bytes : List ℕ) (m : HashMap)
      → HoldsMap server m
      → IsValid m
      → HasEffect server (patch_map decoder fuel server bytes (hashmap m))
  unfolding patch_map
  patch_map-Effect fuel server bytes m holds valid =
      let p = apply_ipatch_raw decoder fuel (ref (hashmap m)) (some bytes) in
      bind-Returns_after
        (λ (r : Ref × Option ℕ). (m' : HashMap) × (r.0 ≡ ref (hashmap m')) × IsValid m')
        (Effect server) p (patched decoder server bytes)
        (run-Returns
          (λ (r : Ref × Option ℕ). (m' : HashMap) × (r.0 ≡ ref (hashmap m')) × IsValid m') p
          (λ r e. apply_ipatch_raw-IsValid decoder fuel m (some bytes) r.0 r.1 valid e))
        (λ r h. patched-Effect server bytes m r.0 r.1 holds h)

  patch_from-Effect :
      (fuel : ℕ) (server : Server) (bytes : List ℕ)
      → IsConsistent server
      → HasEffect server (patch_from decoder fuel server bytes (current_datastore server))
  unfolding patch_from
  patch_from-Effect fuel server bytes c = elim (current_datastore-IsConsistent server c) [
    | inl nothing ↦ rw nothing (unchanged refl refl refl)
    | inr (m, valid, holds, e) ↦ rw e (patch_map-Effect fuel server bytes m holds valid)
  ]

  handle_ipatch-Effect :
      (fuel : ℕ) (server : Server) (req : Request)
      → IsConsistent server
      → HasEffect server (handle_ipatch decoder fuel server req)
  unfolding handle_ipatch
  handle_ipatch-Effect fuel server req c =
      elim (Bool-cases (get_content_format req == cf_yang_instances)) [
        | inl right ↦ rw right (with_payload (get_data req))
        | inr wrong ↦ rw wrong (unchanged refl refl refl)
      ]
    where
      with_payload : (o : Option (List ℕ)) → HasEffect server (patch_payload decoder fuel server o)
      with_payload none = unfold patch_payload in unchanged refl refl refl
      with_payload (some bytes) = unfold patch_payload in patch_from-Effect fuel server bytes c

module _ (clock : Clock) (encoder : Encoder) (decoder : Decoder) where
  handle-Effect :
      (method : Method) (fuel : ℕ) (server : Server) (req : Request)
      → IsConsistent server
      → HasEffect server (handle encoder decoder clock method fuel server req)
  unfolding handle
  handle-Effect post fuel server req c = handle_post-Effect clock encoder decoder fuel server req
  handle-Effect fetch fuel server req c = handle_fetch-Effect clock encoder decoder server req
  handle-Effect get fuel server req c = handle_get-Effect encoder server req
  handle-Effect ipatch fuel server req c = handle_ipatch-Effect decoder fuel server req c
  handle-Effect put fuel server req c = handle_put-Effect decoder fuel server req
  handle-Effect delete fuel server req c = handle_delete-Effect decoder server req
  handle-Effect stream_get fuel server req c = unfold handle_stream_get in unchanged refl refl refl
  handle-Effect stream_fetch fuel server req c =
      unfold handle_stream_fetch in
      stream_payload-Effect clock encoder decoder server req (get_data req)
  handle-Effect sid_get fuel server req c = unfold handle_sid_info in unchanged refl refl refl

  Effect-IsConsistent :
      (server : Server) (r : Reply) → IsConsistent server → Effect server r → IsConsistent r.server
  Effect-IsConsistent server r c (unchanged same quiet silent) = subst IsConsistent (sym same) c
  Effect-IsConsistent server r c (stored m valid (e, f) carries good) = record {
    data_there = rw (e, f) (there m valid);
    stream_reached = carries c.stream_reached;
  }
  Effect-IsConsistent server r c (removed e f carries good) = record {
    data_there = rw (e, f) missing;
    stream_reached = carries c.stream_reached;
  }

  Effect-error :
      (server : Server) (r : Reply)
      → Effect server r
      → is_error r.response.code ≡ true
      → (r.server ≡ server) × (r.notified ≡ false) × (r.command ≡ none)
  Effect-error server r (unchanged same quiet silent) h = (same, quiet, silent)
  Effect-error server r (stored m valid held carries good) h = absurd cc
  Effect-error server r (removed e f carries good) h = absurd cc

  -- A request that is answered with an error changes no variable of the server, tells no observer and
  -- runs no command, whatever its method is and whatever the server holds, if it holds a valid map
  -- exactly where the flag says so.
  pub handle-error :
      (method : Method) (fuel : ℕ) (server : Server) (req : Request) (r : Reply)
      → IsConsistent server
      → handle encoder decoder clock method fuel server req ≡ ret r
      → is_error r.response.code ≡ true
      → (r.server ≡ server) × (r.notified ≡ false) × (r.command ≡ none)
  handle-error method fuel server req r c h e =
      Effect-error server r
        (Returns-eq (Effect server) _ r (handle-Effect method fuel server req c) h) e

  pub Step-IsConsistent :
      (server server' : Server)
      → Step encoder decoder clock server server'
      → IsConsistent server
      → IsConsistent server'
  Step-IsConsistent server server' (answers method fuel req r h e) c = subst IsConsistent (sym e) (
      Effect-IsConsistent server r c
        (Returns-eq (Effect server) _ r (handle-Effect method fuel server req c) h))
