-- ===== src/Server/Ends/Requests.antt =====
-- iot_containers/iot_apps/coreconf_server.c: every request is worked off.
use ccoreconf_zcbor.Common.{ℕ, ◌≡◌, List, [], ◌∷◌, Option, none, some, inl, inr, Bool-cases, ◌==◌}
use ccoreconf_zcbor.Zcbor.{Encoder, Decoder, Buffer}
use ccoreconf_zcbor.Zcbor.Runs.{Ends}
use ccoreconf_zcbor.Value.{HashMap, hashmap, ref}
use ccoreconf_zcbor.Put.{parse_put_request}
use ccoreconf_zcbor.Post.Items.{PostItem}
use ccoreconf_zcbor.Post.Parse.{parse_post_items}
use ccoreconf_zcbor.Ipatch.Raw.{apply_ipatch_raw}
use ccoreconf_zcbor.Server.State.{
  Server, Request, get_content_format, get_data, cf_yang_data_cbor, cf_yang_instances,
}
use ccoreconf_zcbor.Server.Time.{Clock}
use ccoreconf_zcbor.Server.Datastore.{current_datastore}
use ccoreconf_zcbor.Server.Operations.{
  AllCalled, responses, stopped, encoded_reply, called_reply, call_all, call_requests,
  operations_payload, post_operations, handle_post,
}
use ccoreconf_zcbor.Server.Observe.{handle_stream_get, handle_sid_info}
use ccoreconf_zcbor.Server.Handlers.{
  Method, post, fetch, get, ipatch, put, delete, stream_get, stream_fetch, sid_get, handle,
}
use ccoreconf_zcbor.Server.Ends.{Scans}
use ccoreconf_zcbor.Server.Ends.Handlers.{
  then-Ends, handle_get-Ends, handle_fetch-Ends, call_all-Ends, handle_delete-Ends, handle_put-Ends,
  post_create-Ends, handle_ipatch-Ends, handle_stream_fetch-Ends,
}

module _ (clock : Clock) (encoder : Encoder) (decoder : Decoder) (scans : Scans decoder) where
  operations-Ends :
      (fuel : ℕ) (server : Server) (o : Option (List ℕ))
      → Ends (parse_post_items decoder fuel o)
      → Ends (operations_payload clock encoder decoder fuel server o)
  unfolding operations_payload
  operations-Ends fuel server none h = tt
  operations-Ends fuel server (some bytes) h =
      then-Ends (parse_post_items decoder fuel (some bytes)) _ h requests
    where
      encoded : (buffer : Buffer) → Ends (encoded_reply clock server buffer)
      encoded none = unfold encoded_reply in tt
      encoded (some []) = unfold encoded_reply in tt
      encoded (some (b ∷ out)) = unfold encoded_reply in tt

      called : (r : AllCalled clock) → Ends (called_reply clock encoder decoder server r)
      called (stopped code esid msg) = unfold called_reply in tt
      called (responses items) = unfold called_reply in encoded _

      requests : (o : Option (List PostItem)) → Ends (call_requests clock encoder decoder server o)
      requests none = unfold call_requests in tt
      requests (some []) = unfold call_requests in tt
      requests (some (item ∷ items)) =
          unfold call_requests in
          then-Ends (call_all clock server.ops_sids (item ∷ items))
            (called_reply clock encoder decoder server)
            (call_all-Ends clock server.ops_sids (item ∷ items)) called

  handle_post-Ends :
      (fuel : ℕ) (server : Server) (req : Request)
      → ((bytes : List ℕ)
          → get_data req ≡ some bytes
          → Ends (parse_put_request decoder fuel (some bytes)))
      → Ends (parse_post_items decoder fuel (get_data req))
      → Ends (handle_post clock encoder decoder fuel server req)
  unfolding handle_post post_operations
  handle_post-Ends fuel server req parses decodes =
      elim (Bool-cases (get_content_format req == cf_yang_data_cbor)) [
        | inl create ↦ rw create (post_create-Ends decoder scans fuel server req parses)
        | inr other ↦ elim (Bool-cases (get_content_format req == cf_yang_instances)) [
          | inl right ↦ rw (other, right) (operations-Ends fuel server (get_data req) decodes)
          | inr wrong ↦ rw (other, wrong) tt
        ]
      ]

  -- Every request ends, with an answer or with a read out of bounds, where the decoding of its payload
  -- as the datastore of a PUT, as the items of a POST and as a patch of the datastore ends: the loops
  -- of the server itself end, if a successful call of the decoder to start a map or to skip a value
  -- reads a byte, and no call goes back.
  pub handle-Ends :
      (method : Method) (fuel : ℕ) (server : Server) (req : Request)
      → Ends (parse_put_request decoder fuel (get_data req))
      → Ends (parse_post_items decoder fuel (get_data req))
      → ((m : HashMap)
          → current_datastore server ≡ some (hashmap m)
          → Ends (apply_ipatch_raw decoder fuel (ref (hashmap m)) (get_data req)))
      → Ends (handle encoder decoder clock method fuel server req)
  unfolding handle
  handle-Ends post fuel server req parses items patches =
      handle_post-Ends fuel server req (λ bytes e. rw e at parses) items
  handle-Ends fetch fuel server req parses items patches =
      handle_fetch-Ends encoder decoder server req
  handle-Ends get fuel server req parses items patches = handle_get-Ends encoder server req
  handle-Ends ipatch fuel server req parses items patches =
      handle_ipatch-Ends decoder scans fuel server req (λ m bytes held e. rw e at (patches m held))
  handle-Ends put fuel server req parses items patches =
      handle_put-Ends decoder scans fuel server req (λ bytes e. rw e at parses)
  handle-Ends delete fuel server req parses items patches =
      handle_delete-Ends decoder scans server req
  handle-Ends stream_get fuel server req parses items patches = unfold handle_stream_get in tt
  handle-Ends stream_fetch fuel server req parses items patches =
      handle_stream_fetch-Ends decoder scans server req
  handle-Ends sid_get fuel server req parses items patches = unfold handle_sid_info in tt
