-- ===== src/Server/Operations.antt =====
-- iot_containers/iot_apps/coreconf_server.c: `handle_post`, which creates the datastore, or calls the
-- reboot RPC and the reset action.
use ccoreconf_zcbor.Common.{ℕ, List, [], ◌∷◌, Option, none, some, ◌==◌, if◌then◌else◌}
use ccoreconf_zcbor.Common.Text.{ascii}
use ccoreconf_zcbor.Common.Int.{ℤ}
use ccoreconf_zcbor.Zcbor.{Encoder, Decoder, Run, ret, bad_read, out_of_fuel, ◌>>=◌, Buffer}
use ccoreconf_zcbor.Value.{
  Value, Ref, HashMap, string, hashmap, null_value, null_ref, ref, create_map,
  create_coreconf_string,
}
use ccoreconf_zcbor.HashMap.{Status, done, failed, insert_coreconf_hash_map, get_coreconf_hash_map}
use ccoreconf_zcbor.Post.Items.{PostIidType, PostItem, post_iid_sid, post_iid_sid_str_key}
use ccoreconf_zcbor.Post.Parse.{parse_post_items}
use ccoreconf_zcbor.Post.Encode.{create_post_items}
use ccoreconf_zcbor.Server.Notify.{buffer_size}
use ccoreconf_zcbor.Server.Sids.{RuntimeOperationSids}
use ccoreconf_zcbor.Server.State.{
  Server, Code, changed, bad_request, not_found, unsupported_content_format, internal_error, Reply,
  Handler, get_content_format, get_data, send_error, with_body, answer, cf_yang_data_cbor,
  cf_yang_instances,
}
use ccoreconf_zcbor.Server.Datastore.{post_create}
use ccoreconf_zcbor.Server.Time.{Clock, parse_utc_timestamp, format_utc_timestamp, three_later}

-- the response to an item, or the error that ends the whole request
pub data Called : Type 0 where
  returned : Ref → Called
  refused : Code → ℕ → List ℕ → Called

-- The delay of a reboot is only printed.
unfoldable pub call_reboot : Ref → Run Called
call_reboot (ref (hashmap input)) = ret (returned (ref null_value))
call_reboot (ref null_value) = ret (returned (ref null_value))
call_reboot (ref v) = ret (refused bad_request 1012 (ascii "reboot RPC input must be map or null"))
call_reboot null_ref = bad_read

-- `reset_output_finished_at` with the time in a new map
unfoldable pub finished_map : HashMap × Status → Called
finished_map (m, done) = returned (ref (hashmap m))
finished_map (m, failed) =
    refused internal_error 1013 (ascii "failed to build reset action response")

unfoldable pub reset_result : RuntimeOperationSids → Option (List ℕ) → Called
unfolding finished_map create_coreconf_string
reset_result ops none =
    refused internal_error 1013 (ascii "failed to format reset completion timestamp")
reset_result ops (some text) = finished_map (
    insert_coreconf_hash_map create_map ops.reset_output_finished_at
      (ref (create_coreconf_string text)))

module _ (clock : Clock) where
  -- the time that the reset starts at: that of the input, or else now
  unfoldable pub reset_base : List ℕ → ℤ
  unfolding parse_utc_timestamp
  reset_base reset_at = elim (parse_utc_timestamp clock reset_at) [
    | none ↦ clock.time
    | some when ↦ when
  ]

  unfoldable pub reset_with : RuntimeOperationSids → Option Value → Called
  unfolding reset_result reset_base format_utc_timestamp three_later
  reset_with ops (some (string reset_at)) =
      reset_result ops (format_utc_timestamp clock 32 (three_later (reset_base reset_at)))
  reset_with ops _ =
      refused bad_request 1012 (ascii "reset action requires key 1 as string (reset-at)")

  unfoldable pub call_reset : RuntimeOperationSids → Ref → Run Called
  unfolding reset_with
  call_reset ops (ref (hashmap input)) =
      ret (reset_with ops (get_coreconf_hash_map input ops.reset_input_reset_at))
  call_reset ops (ref v) = ret (refused bad_request 1012 (ascii "reset action input must be a map"))
  call_reset ops null_ref = bad_read

  unfoldable pub call_sid : RuntimeOperationSids → PostIidType → ℕ → Ref → Run Called
  unfolding call_reboot call_reset
  call_sid ops post_iid_sid sid value =
      if sid == ops.reboot_rpc_sid
      then call_reboot value
      else ret (refused not_found 1012 (ascii "unsupported RPC/action IID"))
  call_sid ops post_iid_sid_str_key sid value =
      if sid == ops.reset_action_sid
      then call_reset ops value
      else ret (refused not_found 1012 (ascii "unsupported RPC/action IID"))

  -- `strdup(in->str_key ? in->str_key : "")` for an item with a key
  unfoldable pub response_key : PostIidType → Option (List ℕ) → Option (List ℕ)
  response_key post_iid_sid key = none
  response_key post_iid_sid_str_key none = some []
  response_key post_iid_sid_str_key (some key) = some key

  unfoldable pub response_item : PostItem → Ref → PostItem
  unfolding response_key
  response_item item value = record {
    iid_type = item.iid_type;
    sid = item.sid;
    str_key = response_key item.iid_type item.str_key;
    value = value;
  }

  -- The result of the loop over the requests: their responses, or the first error.
  pub data AllCalled : Type 0 where
    responses : List PostItem → AllCalled
    stopped : Code → ℕ → List ℕ → AllCalled

  unfoldable pub with_response : PostItem → AllCalled → AllCalled
  with_response item (responses items) = responses (item ∷ items)
  with_response item (stopped code esid msg) = stopped code esid msg

  unfoldable pub call_all : RuntimeOperationSids → List PostItem → Run AllCalled
  unfolding call_sid response_item with_response
  call_all ops [] = ret (responses [])
  call_all ops (item ∷ items) = elim (call_sid ops item.iid_type item.sid item.value) [
    | bad_read ↦ bad_read
    | out_of_fuel ↦ out_of_fuel
    | ret called ↦ elim called [
      | refused code esid msg ↦ ret (stopped code esid msg)
      | returned value ↦
          call_all ops items >>= λ rest. ret (with_response (response_item item value) rest)
    ]
  ]

  unfoldable pub encoded_reply : Server → Buffer → Run Reply
  unfolding send_error answer with_body
  encoded_reply server none = bad_read
  encoded_reply server (some []) =
      ret (send_error server internal_error 1013 (ascii "failed to encode POST response"))
  encoded_reply server (some (b ∷ out)) =
      ret (answer server (with_body changed cf_yang_instances (b ∷ out)))

  module _ (encoder : Encoder) (decoder : Decoder) where
    unfoldable pub called_reply : Server → AllCalled → Run Reply
    unfolding encoded_reply create_post_items send_error
    called_reply server (stopped code esid msg) = ret (send_error server code esid msg)
    called_reply server (responses items) =
        encoded_reply server (create_post_items encoder (some buffer_size) (some items))

    unfoldable pub call_requests : Server → Option (List PostItem) → Run Reply
    unfolding called_reply call_all send_error
    call_requests server (some (item ∷ items)) =
        call_all server.ops_sids (item ∷ items) >>= called_reply server
    call_requests server _ = ret (
        send_error server bad_request 1012
          (ascii "POST payload must be cbor-seq of single-pair maps"))

    unfoldable pub operations_payload : ℕ → Server → Option (List ℕ) → Run Reply
    unfolding call_requests parse_post_items send_error
    operations_payload fuel server none =
        ret (send_error server bad_request 1012 (ascii "missing payload"))
    operations_payload fuel server (some bytes) =
        parse_post_items decoder fuel (some bytes) >>= call_requests server

    unfoldable pub post_operations : ℕ → Handler
    unfolding get_data operations_payload
    post_operations fuel server req = operations_payload fuel server (get_data req)

    unfoldable pub handle_post : ℕ → Handler
    unfolding get_content_format post_create post_operations send_error
    handle_post fuel server req =
        if get_content_format req == cf_yang_data_cbor
        then post_create decoder fuel server req
        else if get_content_format req == cf_yang_instances
        then post_operations fuel server req
        else ret (
            send_error server unsupported_content_format 1012
              (ascii "POST requires CF=140 (yang-data+cbor) or CF=142 (yang-instances+cbor-seq)"))
