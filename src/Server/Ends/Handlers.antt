-- ===== src/Server/Ends/Handlers.antt =====
-- iot_containers/iot_apps/coreconf_server.c: the handlers end.
use ccoreconf_zcbor.Common.{
  ℕ, zero, suc, ◌≡◌, refl, List, [], ◌∷◌, Bool, false, Option, none, some, inl, inr, Bool-cases,
  ◌==◌,
}
use ccoreconf_zcbor.Zcbor.{Encoder, Decoder, Run, ret, bad_read, out_of_fuel, ◌>>=◌, Buffer}
use ccoreconf_zcbor.Zcbor.Runs.{Ends, bind-EndsIn}
use ccoreconf_zcbor.Value.{Value, Ref, HashMap, hashmap, ref, null_ref, null_value}
use ccoreconf_zcbor.HashMap.{get_coreconf_hash_map}
use ccoreconf_zcbor.Put.{parse_put_request}
use ccoreconf_zcbor.Post.Items.{PostItem, PostIidType, post_iid_sid, post_iid_sid_str_key}
use ccoreconf_zcbor.Ipatch.Raw.{apply_ipatch_raw}
use ccoreconf_zcbor.Server.Notify.{buffer_size}
use ccoreconf_zcbor.Server.Sids.{RuntimeOperationSids}
use ccoreconf_zcbor.Server.State.{
  Server, Request, Code, created, deleted, changed, get_content_format, get_data, cf_yang_data_cbor,
  cf_yang_identifiers, cf_yang_instances,
}
use ccoreconf_zcbor.Server.Time.{Clock}
use ccoreconf_zcbor.Server.Datastore.{
  current_datastore, new_map, map_size, with_datastore, password_command, get_reply, get_sized,
  get_from, handle_get, pushed_map, put_datastore, put_payload, handle_put, post_datastore,
  post_unless, post_payload, post_create, delete_sized, delete_from, handle_delete, patched,
  patch_map, patch_from, patch_payload, handle_ipatch,
}
use ccoreconf_zcbor.Server.Operations.{
  Called, returned, refused, call_reboot, call_reset, call_sid, call_all,
}
use ccoreconf_zcbor.Server.Fetch.{
  Iid, fetch_body, encode_response, request_iids, fetch_iids, fetch_from, fetch_payload,
  handle_fetch,
}
use ccoreconf_zcbor.Server.Filter.{stream_collect_filter_sids, stream_encode_sequence_filtered}
use ccoreconf_zcbor.Server.Observe.{
  stream_filtered, stream_by_sids, stream_payload, handle_stream_fetch,
}
use ccoreconf_zcbor.Server.Ends.{Scans, push_map-Ends, push_sequence-Ends}
use ccoreconf_zcbor.Server.Ends.Filter.{filtered-Ends}

-- a run goes on with another that ends
pub then-Ends :
    {A B : Type 0} (p : Run A) (f : A → Run B) → Ends p → ((a : A) → Ends (f a)) → Ends (p >>= f)
then-Ends p f h k = bind-EndsIn (λ a. Unit) (λ b. Unit) p f h (λ a u. k a)

module _ (encoder : Encoder) where
  get_reply-Ends : (server : Server) (buffer : Buffer) → Ends (get_reply encoder server buffer)
  unfolding get_reply
  get_reply-Ends server none = tt
  get_reply-Ends server (some []) = tt
  get_reply-Ends server (some (b ∷ bytes)) = tt

  pub handle_get-Ends : (server : Server) (req : Request) → Ends (handle_get encoder server req)
  unfolding handle_get get_from get_sized
  handle_get-Ends server req = from (current_datastore server)
    where
      sized : (v : Value) (o : Option ℕ) → Ends (get_sized encoder server v o)
      sized v none = tt
      sized v (some zero) = tt
      sized v (some (suc n)) = get_reply-Ends server _

      from : (o : Option Value) → Ends (get_from encoder server o)
      from none = tt
      from (some v) = sized v (map_size v)

  pub handle_fetch-Ends :
      (decoder : Decoder) (server : Server) (req : Request)
      → Ends (handle_fetch encoder decoder server req)
  unfolding handle_fetch fetch_payload fetch_from fetch_iids
  handle_fetch-Ends decoder server req =
      elim (Bool-cases (get_content_format req == cf_yang_identifiers)) [
        | inl right ↦ rw right (with_payload (get_data req))
        | inr wrong ↦ rw wrong tt
      ]
    where
      body : (o : Option (Encoder.State encoder × Bool)) → Ends (fetch_body encoder o)
      body none = unfold fetch_body in tt
      body (some (s, ok)) = unfold fetch_body in tt

      from_iids : (v : Value) (iids : List Iid) → Ends (fetch_iids encoder decoder server v iids)
      from_iids v [] = tt
      from_iids (hashmap m) (iid ∷ iids) =
          let o =
            encode_response encoder m (iid ∷ iids)
              (Encoder.new_encode_state encoder 8 buffer_size 1) in
          bind-EndsIn (λ b. Unit) (λ r. Unit) (fetch_body encoder o) _ (body o) (λ b u. tt)
      from_iids _ (iid ∷ iids) = tt

      from : (bytes : List ℕ) (o : Option Value) → Ends (fetch_from encoder decoder server bytes o)
      from bytes none = tt
      from bytes (some v) = from_iids v (request_iids decoder 64 bytes)

      with_payload : (o : Option (List ℕ)) → Ends (fetch_payload encoder decoder server o)
      with_payload none = tt
      with_payload (some bytes) = from bytes (current_datastore server)

module _ (clock : Clock) (ops : RuntimeOperationSids) where
  call_sid-Ends : (t : PostIidType) (sid : ℕ) (value : Ref) → Ends (call_sid clock ops t sid value)
  unfolding call_sid
  call_sid-Ends post_iid_sid sid value = elim (Bool-cases (sid == ops.reboot_rpc_sid)) [
    | inl known ↦ rw known (reboot value)
    | inr unknown ↦ rw unknown tt
  ]
    where
      reboot : (value : Ref) → Ends (call_reboot value)
      reboot (ref (hashmap input)) = unfold call_reboot in tt
      reboot (ref null_value) = unfold call_reboot in tt
      reboot (ref _) = unfold call_reboot in tt
      reboot null_ref = unfold call_reboot in tt
  call_sid-Ends post_iid_sid_str_key sid value = elim (Bool-cases (sid == ops.reset_action_sid)) [
    | inl known ↦ rw known (reset value)
    | inr unknown ↦ rw unknown tt
  ]
    where
      reset : (value : Ref) → Ends (call_reset clock ops value)
      reset (ref (hashmap input)) = unfold call_reset in tt
      reset (ref _) = unfold call_reset in tt
      reset null_ref = unfold call_reset in tt

  pub call_all-Ends : (items : List PostItem) → Ends (call_all clock ops items)
  unfolding call_all
  call_all-Ends [] = tt
  call_all-Ends (item ∷ items) =
      called (call_all-Ends items) (call_sid clock ops item.iid_type item.sid item.value) refl
        (call_sid-Ends item.iid_type item.sid item.value)
    where
      called :
          Ends (call_all clock ops items)
          → (p : Run Called) → call_sid clock ops item.iid_type item.sid item.value ≡ p
          → Ends p
          → Ends (call_all clock ops (item ∷ items))
      called rest bad_read e h = rw (e, call_all) tt
      called rest out_of_fuel e h = absurd h
      called rest (ret (refused code esid msg)) e h = rw (e, call_all) tt
      called rest (ret (returned value)) e h =
          rw (e, call_all) (then-Ends (call_all clock ops items) _ rest (λ r. tt))

module _ (decoder : Decoder) (scans : Scans decoder) where
  pushed-Ends :
      (server : Server) (code : Code) (bytes : List ℕ) (command : Option (List ℕ))
      → Ends (pushed_map decoder server code bytes command)
  unfolding pushed_map
  pushed-Ends server code bytes command =
      then-Ends _ _
        (push_map-Ends decoder scans server.sys_sids.sys_module (some bytes) server.stream)
        (λ s. tt)

  pub handle_delete-Ends :
      (server : Server) (req : Request) → Ends (handle_delete decoder server req)
  unfolding handle_delete delete_from delete_sized
  handle_delete-Ends server req = from (current_datastore server)
    where
      sized : (o : Option ℕ) → Ends (delete_sized decoder server o)
      sized none = tt
      sized (some n) =
          pushed-Ends (record server { datastore = null_ref; ds_exists = false }) deleted (160 ∷ [])
            none

      from : (o : Option Value) → Ends (delete_from decoder server o)
      from none = tt
      from (some v) = sized (map_size v)

  pub handle_put-Ends :
      (fuel : ℕ) (server : Server) (req : Request)
      → ((bytes : List ℕ)
          → get_data req ≡ some bytes
          → Ends (parse_put_request decoder fuel (some bytes)))
      → Ends (handle_put decoder fuel server req)
  unfolding handle_put put_payload
  handle_put-Ends fuel server req decodes =
      elim (Bool-cases (get_content_format req == cf_yang_data_cbor)) [
        | inl right ↦ rw right (with_payload (get_data req) decodes)
        | inr wrong ↦ rw wrong tt
      ]
    where
      put_map : (bytes : List ℕ) (o : Option HashMap) → Ends (put_datastore decoder server bytes o)
      put_map bytes none = unfold put_datastore in tt
      put_map bytes (some m) =
          unfold put_datastore in
          pushed-Ends (with_datastore server m) changed bytes
            (password_command (get_coreconf_hash_map m 1735))

      with_payload :
          (o : Option (List ℕ))
          → ((bytes : List ℕ) → o ≡ some bytes → Ends (parse_put_request decoder fuel (some bytes)))
          → Ends (put_payload decoder fuel server o)
      with_payload none h = tt
      with_payload (some bytes) h =
          then-Ends (parse_put_request decoder fuel (some bytes)) _ (h bytes refl)
            (λ v. put_map bytes (new_map v))

  pub post_create-Ends :
      (fuel : ℕ) (server : Server) (req : Request)
      → ((bytes : List ℕ)
          → get_data req ≡ some bytes
          → Ends (parse_put_request decoder fuel (some bytes)))
      → Ends (post_create decoder fuel server req)
  unfolding post_create post_payload post_unless
  post_create-Ends fuel server req decodes = with_payload (get_data req) decodes
    where
      post_map :
          (bytes : List ℕ) (o : Option HashMap) → Ends (post_datastore decoder server bytes o)
      post_map bytes none = unfold post_datastore in tt
      post_map bytes (some m) =
          unfold post_datastore in pushed-Ends (with_datastore server m) created bytes none

      unless :
          (bytes : List ℕ) (o : Option Value)
          → Ends (parse_put_request decoder fuel (some bytes))
          → Ends (post_unless decoder fuel server bytes o)
      unless bytes (some v) h = tt
      unless bytes none h =
          then-Ends (parse_put_request decoder fuel (some bytes)) _ h
            (λ v. post_map bytes (new_map v))

      with_payload :
          (o : Option (List ℕ))
          → ((bytes : List ℕ) → o ≡ some bytes → Ends (parse_put_request decoder fuel (some bytes)))
          → Ends (post_payload decoder fuel server o)
      with_payload none h = tt
      with_payload (some bytes) h = unless bytes (current_datastore server) (h bytes refl)

  pub handle_ipatch-Ends :
      (fuel : ℕ) (server : Server) (req : Request)
      → ((m : HashMap) (bytes : List ℕ)
          → current_datastore server ≡ some (hashmap m)
          → get_data req ≡ some bytes
          → Ends (apply_ipatch_raw decoder fuel (ref (hashmap m)) (some bytes)))
      → Ends (handle_ipatch decoder fuel server req)
  unfolding handle_ipatch patch_payload patch_from patch_map patched
  handle_ipatch-Ends fuel server req decodes =
      elim (Bool-cases (get_content_format req == cf_yang_instances)) [
        | inl right ↦ rw right (with_payload (get_data req) decodes)
        | inr wrong ↦ rw wrong tt
      ]
    where
      pushed_behind :
          (bytes : List ℕ) (r : Ref) (o : Option ℕ) → Ends (patched decoder server bytes (r, o))
      pushed_behind bytes r none = tt
      pushed_behind bytes r (some n) =
          then-Ends _ _
            (push_sequence-Ends decoder scans server.sys_sids.sys_module (some bytes) server.stream)
            (λ s. tt)

      from :
          (bytes : List ℕ) (o : Option Value)
          → ((m : HashMap)
              → o ≡ some (hashmap m)
              → Ends (apply_ipatch_raw decoder fuel (ref (hashmap m)) (some bytes)))
          → Ends (patch_from decoder fuel server bytes o)
      from bytes none h = tt
      from bytes (some (hashmap m)) h =
          then-Ends (apply_ipatch_raw decoder fuel (ref (hashmap m)) (some bytes)) _ (h m refl)
            (λ r. pushed_behind bytes r.0 r.1)
      from bytes (some _) h = tt

      with_payload :
          (o : Option (List ℕ))
          → ((m : HashMap) (bytes : List ℕ)
              → current_datastore server ≡ some (hashmap m)
              → o ≡ some bytes
              → Ends (apply_ipatch_raw decoder fuel (ref (hashmap m)) (some bytes)))
          → Ends (patch_payload decoder fuel server o)
      with_payload none h = tt
      with_payload (some bytes) h = from bytes (current_datastore server) (λ m e. h m bytes e refl)

  pub handle_stream_fetch-Ends :
      (server : Server) (req : Request) → Ends (handle_stream_fetch decoder server req)
  unfolding handle_stream_fetch stream_payload stream_by_sids stream_filtered
  handle_stream_fetch-Ends server req = with_payload (get_data req)
    where
      filtered : (sids : List ℕ) → Ends (stream_filtered decoder server sids)
      filtered sids =
          then-Ends
            (stream_encode_sequence_filtered decoder (some buffer_size) 8 sids server.stream) _
            (filtered-Ends decoder scans (some buffer_size) 8 sids server.stream) (λ b. tt)

      by_sids : (sids : List ℕ) → Ends (stream_by_sids decoder server sids)
      by_sids [] = tt
      by_sids (f ∷ sids) = filtered (f ∷ sids)

      with_payload : (o : Option (List ℕ)) → Ends (stream_payload decoder server req o)
      with_payload none = filtered []
      with_payload (some bytes) =
          elim (Bool-cases (get_content_format req == cf_yang_identifiers)) [
            | inl right ↦ rw right (by_sids (stream_collect_filter_sids decoder (some bytes) 64))
            | inr wrong ↦ rw wrong tt
          ]
