-- ===== src/Server/Calls.antt =====
-- iot_containers/iot_apps/coreconf_server.c: the RPCs and actions that the server calls for a POST.
use ccoreconf_zcbor.Common.{
  ℕ, ◌≡◌, refl, ap, List, true, Option, none, some, inl, inr, Bool-cases, ◌==◌, arith,
}
use ccoreconf_zcbor.Zcbor.{ret}
use ccoreconf_zcbor.Zcbor.Runs.{Returns}
use ccoreconf_zcbor.Value.{
  Value, Ref, HashMap, string, null_value, hashmap, null_ref, ref, create_map,
  create_coreconf_string,
}
use ccoreconf_zcbor.HashMap.{Status, done, failed, insert_coreconf_hash_map, get_coreconf_hash_map}
use ccoreconf_zcbor.HashMap.Buckets.{create_map-IsValid}
use ccoreconf_zcbor.HashMap.Lookup.{get-insert}
use ccoreconf_zcbor.Post.Items.{PostIidType, post_iid_sid, post_iid_sid_str_key}
use ccoreconf_zcbor.Server.Sids.{RuntimeOperationSids}
use ccoreconf_zcbor.Server.Effect.{is_error}
use ccoreconf_zcbor.Server.Time.{Clock, format_utc_timestamp, three_later}
use ccoreconf_zcbor.Server.Operations.{
  Called, returned, refused, call_reboot, finished_map, reset_result, reset_base, reset_with,
  call_reset, call_sid,
}

module _ (clock : Clock) (ops : RuntimeOperationSids) where
  -- The calls that the server knows, with what they return. A reset says when it will be finished:
  -- three seconds behind the time of its input, or behind now where that is no time.
  pub data Calls (type_ : PostIidType) (sid : ℕ) (value result : Ref) : Type 0 where
    reboot :
        type_ ≡ post_iid_sid
        → sid ≡ ops.reboot_rpc_sid
        → result ≡ ref null_value
        → Calls type_ sid value result
    reset :
        (input m : HashMap) (reset_at text : List ℕ)
        → type_ ≡ post_iid_sid_str_key
        → sid ≡ ops.reset_action_sid
        → value ≡ ref (hashmap input)
        → get_coreconf_hash_map input ops.reset_input_reset_at ≡ some (string reset_at)
        → format_utc_timestamp clock 32 (three_later (reset_base clock reset_at)) ≡ some text
        → result ≡ ref (hashmap m)
        → get_coreconf_hash_map m ops.reset_output_finished_at ≡ some (create_coreconf_string text)
        → Calls type_ sid value result

  call_reboot-returned :
      (value result : Ref) → call_reboot value ≡ ret (returned result) → result ≡ ref null_value
  unfolding call_reboot
  call_reboot-returned (ref (hashmap input)) result h = cc
  call_reboot-returned (ref null_value) result h = cc
  call_reboot-returned (ref _) result h = cc
  call_reboot-returned null_ref result h = cc

  finished :
      (text : List ℕ) (r : HashMap × Status) (result : Ref)
      → insert_coreconf_hash_map create_map ops.reset_output_finished_at
          (ref (create_coreconf_string text))
        ≡ r
      → finished_map r ≡ returned result
      → (m : HashMap) × (result ≡ ref (hashmap m))
        × (get_coreconf_hash_map m ops.reset_output_finished_at
            ≡ some (create_coreconf_string text))
  unfolding finished_map
  finished text (m, done) result e h =
      let k = ops.reset_output_finished_at in
      let same : (k == k) ≡ true = ground arith in
      let found =
        get-insert create_map k k (ref (create_coreconf_string text)) create_map-IsValid.0
          (ap (λ r. r.1) e) in
      (m, cc, rw (e, same) at found)
  finished text (m, failed) result e h = cc

  -- The map that a reset returns.
  Finished : Ref → List ℕ → Type 0
  Finished result text =
      (m : HashMap) × (result ≡ ref (hashmap m))
      × (get_coreconf_hash_map m ops.reset_output_finished_at ≡ some (create_coreconf_string text))

  reset_result-returned :
      (o : Option (List ℕ)) (result : Ref)
      → reset_result ops o ≡ returned result
      → (text : List ℕ) × (o ≡ some text) × Finished result text
  unfolding reset_result Finished
  reset_result-returned none result h = cc
  reset_result-returned (some text) result h = (text, refl, finished text _ result refl h)

  reset_with-returned :
      (o : Option Value) (result : Ref)
      → reset_with clock ops o ≡ returned result
      → (reset_at text : List ℕ) × (o ≡ some (string reset_at))
        × (format_utc_timestamp clock 32 (three_later (reset_base clock reset_at)) ≡ some text)
        × Finished result text
  unfolding reset_with
  reset_with-returned (some (string reset_at)) result h =
      let (text, e, made) = reset_result-returned _ result h in (reset_at, text, refl, e, made)
  reset_with-returned none result h = cc
  reset_with-returned (some _) result h = cc

  call_reset-returned :
      (type_ : PostIidType) (sid : ℕ) (value result : Ref)
      → type_ ≡ post_iid_sid_str_key
      → sid ≡ ops.reset_action_sid
      → call_reset clock ops value ≡ ret (returned result)
      → Calls type_ sid value result
  unfolding call_reset Finished
  call_reset-returned type_ sid (ref (hashmap input)) result t s h =
      let (reset_at, text, found, made, whole) =
        reset_with-returned (get_coreconf_hash_map input ops.reset_input_reset_at) result (cc) in
      let (m, e, shown) = whole in reset input m reset_at text t s refl found made e shown
  call_reset-returned type_ sid (ref _) result t s h = cc
  call_reset-returned type_ sid null_ref result t s h = cc

  pub call_sid-Calls :
      (type_ : PostIidType) (sid : ℕ) (value result : Ref)
      → call_sid clock ops type_ sid value ≡ ret (returned result)
      → Calls type_ sid value result
  unfolding call_sid
  call_sid-Calls post_iid_sid sid value result h = elim (Bool-cases (sid == ops.reboot_rpc_sid)) [
    | inl known ↦ reboot refl (ground arith) (call_reboot-returned value result (rw known at h))
    | inr unknown ↦ let h' = rw unknown at h in absurd cc
  ]
  call_sid-Calls post_iid_sid_str_key sid value result h =
      elim (Bool-cases (sid == ops.reset_action_sid)) [
        | inl known ↦
            call_reset-returned post_iid_sid_str_key sid value result refl (ground arith)
              (rw known at h)
        | inr unknown ↦ let h' = rw unknown at h in absurd cc
      ]

  -- what is refused is refused with an error
  abbrev pub IsRefusal : Called → Type 0
  IsRefusal (returned result) = Unit
  IsRefusal (refused code esid msg) = is_error code ≡ true

  finished_map-IsRefusal : (r : HashMap × Status) → IsRefusal (finished_map r)
  unfolding finished_map
  finished_map-IsRefusal (m, done) = tt
  finished_map-IsRefusal (m, failed) = refl

  reset_result-IsRefusal : (o : Option (List ℕ)) → IsRefusal (reset_result ops o)
  unfolding reset_result
  reset_result-IsRefusal none = refl
  reset_result-IsRefusal (some text) = finished_map-IsRefusal _

  reset_with-IsRefusal : (o : Option Value) → IsRefusal (reset_with clock ops o)
  unfolding reset_with
  reset_with-IsRefusal (some (string reset_at)) = reset_result-IsRefusal _
  reset_with-IsRefusal none = refl
  reset_with-IsRefusal (some _) = refl

  call_reset-IsRefusal : (value : Ref) → Returns IsRefusal (call_reset clock ops value)
  unfolding call_reset
  call_reset-IsRefusal (ref (hashmap input)) = reset_with-IsRefusal _
  call_reset-IsRefusal (ref _) = refl
  call_reset-IsRefusal null_ref = tt

  call_reboot-IsRefusal : (value : Ref) → Returns IsRefusal (call_reboot value)
  unfolding call_reboot
  call_reboot-IsRefusal (ref (hashmap input)) = tt
  call_reboot-IsRefusal (ref null_value) = tt
  call_reboot-IsRefusal (ref _) = refl
  call_reboot-IsRefusal null_ref = tt

  pub call_sid-IsRefusal :
      (type_ : PostIidType) (sid : ℕ) (value : Ref)
      → Returns IsRefusal (call_sid clock ops type_ sid value)
  unfolding call_sid
  call_sid-IsRefusal post_iid_sid sid value = elim (Bool-cases (sid == ops.reboot_rpc_sid)) [
    | inl known ↦ rw known (call_reboot-IsRefusal value)
    | inr unknown ↦ rw unknown refl
  ]
  call_sid-IsRefusal post_iid_sid_str_key sid value =
      elim (Bool-cases (sid == ops.reset_action_sid)) [
        | inl known ↦ rw known (call_reset-IsRefusal value)
        | inr unknown ↦ rw unknown refl
      ]
