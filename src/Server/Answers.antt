-- ===== src/Server/Answers.antt =====
-- iot_containers/iot_apps/coreconf_server.c: the effects of `handle_post` and of the handlers that only read.
use ccoreconf_zcbor.Common.{ℕ, refl, List, [], ◌∷◌, Option, none, some, inl, inr, Bool-cases, ◌==◌}
use ccoreconf_zcbor.Zcbor.{Encoder, Decoder, ret, Buffer}
use ccoreconf_zcbor.Zcbor.Runs.{bind-Returns}
use ccoreconf_zcbor.Value.{Value, hashmap}
use ccoreconf_zcbor.Post.Items.{PostItem}
use ccoreconf_zcbor.Server.Notify.{buffer_size}
use ccoreconf_zcbor.Server.State.{
  Server, Request, content, with_body, get_content_format, get_data, answer, cf_yang_data_cbor,
  cf_yang_identifiers, cf_yang_instances,
}
use ccoreconf_zcbor.Server.Time.{Clock}
use ccoreconf_zcbor.Server.Effect.{Effect, unchanged, HasEffect, answer-Effect}
use ccoreconf_zcbor.Server.Changes.{post_create-Effect}
use ccoreconf_zcbor.Server.Operations.{
  AllCalled, responses, stopped, encoded_reply, called_reply, call_requests, operations_payload,
  post_operations, handle_post,
}
use ccoreconf_zcbor.Server.Fetch.{
  Iid, fetch_body, encode_response, fetch_iids, fetch_from, fetch_payload, handle_fetch,
}
use ccoreconf_zcbor.Server.Observe.{stream_reply, stream_filtered, stream_by_sids, stream_payload}
use ccoreconf_zcbor.Server.Filter.{stream_encode_sequence_filtered}

module _ (clock : Clock) (encoder : Encoder) (decoder : Decoder) where
  encoded-Effect :
      (server : Server) (buffer : Buffer) → HasEffect server (encoded_reply clock server buffer)
  unfolding encoded_reply
  encoded-Effect server none = tt
  encoded-Effect server (some []) = unchanged refl refl refl
  encoded-Effect server (some (b ∷ bytes)) = unchanged refl refl refl

  called-Effect :
      (server : Server) (r : AllCalled clock)
      → HasEffect server (called_reply clock encoder decoder server r)
  unfolding called_reply
  called-Effect server (stopped code esid msg) = unchanged refl refl refl
  called-Effect server (responses items) = encoded-Effect server _

  requests-Effect :
      (server : Server) (o : Option (List PostItem))
      → HasEffect server (call_requests clock encoder decoder server o)
  unfolding call_requests
  requests-Effect server none = unchanged refl refl refl
  requests-Effect server (some []) = unchanged refl refl refl
  requests-Effect server (some (item ∷ items)) =
      bind-Returns (Effect server) _ (called_reply clock encoder decoder server)
        (called-Effect server)

  operations-Effect :
      (fuel : ℕ) (server : Server) (o : Option (List ℕ))
      → HasEffect server (operations_payload clock encoder decoder fuel server o)
  unfolding operations_payload
  operations-Effect fuel server none = unchanged refl refl refl
  operations-Effect fuel server (some bytes) =
      bind-Returns (Effect server) _ (call_requests clock encoder decoder server)
        (requests-Effect server)

  pub handle_post-Effect :
      (fuel : ℕ) (server : Server) (req : Request)
      → HasEffect server (handle_post clock encoder decoder fuel server req)
  unfolding handle_post post_operations
  handle_post-Effect fuel server req =
      elim (Bool-cases (get_content_format req == cf_yang_data_cbor)) [
        | inl creates ↦ rw creates (post_create-Effect decoder fuel server req)
        | inr calls ↦ elim (Bool-cases (get_content_format req == cf_yang_instances)) [
          | inl right ↦ rw (calls, right) (operations-Effect fuel server (get_data req))
          | inr wrong ↦ rw (calls, wrong) (unchanged refl refl refl)
        ]
      ]

  fetch_iids-Effect :
      (server : Server) (v : Value) (iids : List Iid)
      → HasEffect server (fetch_iids encoder decoder server v iids)
  unfolding fetch_iids
  fetch_iids-Effect server v [] = unchanged refl refl refl
  fetch_iids-Effect server (hashmap m) (iid ∷ iids) =
      bind-Returns (Effect server)
        (fetch_body encoder (
          encode_response encoder m (iid ∷ iids)
            (Encoder.new_encode_state encoder 8 buffer_size 1)))
        (λ body. ret (answer server (with_body content cf_yang_instances body)))
        (λ body. answer-Effect server _)
  fetch_iids-Effect server _ (iid ∷ iids) = tt

  fetch_from-Effect :
      (server : Server) (bytes : List ℕ) (o : Option Value)
      → HasEffect server (fetch_from encoder decoder server bytes o)
  unfolding fetch_from
  fetch_from-Effect server bytes none = unchanged refl refl refl
  fetch_from-Effect server bytes (some v) = fetch_iids-Effect server v _

  fetch_payload-Effect :
      (server : Server) (o : Option (List ℕ))
      → HasEffect server (fetch_payload encoder decoder server o)
  unfolding fetch_payload
  fetch_payload-Effect server none = unchanged refl refl refl
  fetch_payload-Effect server (some bytes) = fetch_from-Effect server bytes _

  pub handle_fetch-Effect :
      (server : Server) (req : Request) → HasEffect server (handle_fetch encoder decoder server req)
  unfolding handle_fetch
  handle_fetch-Effect server req =
      elim (Bool-cases (get_content_format req == cf_yang_identifiers)) [
        | inl right ↦ rw right (fetch_payload-Effect server (get_data req))
        | inr wrong ↦ rw wrong (unchanged refl refl refl)
      ]

  filtered-Effect :
      (server : Server) (sids : List ℕ) → HasEffect server (stream_filtered decoder server sids)
  unfolding stream_filtered
  filtered-Effect server sids =
      bind-Returns (Effect server)
        (stream_encode_sequence_filtered decoder (some buffer_size) 8 sids server.stream)
        (λ body. ret (stream_reply server body))
        (λ body. unfold stream_reply in answer-Effect server _)

  by_sids-Effect :
      (server : Server) (sids : List ℕ) → HasEffect server (stream_by_sids decoder server sids)
  unfolding stream_by_sids
  by_sids-Effect server [] = unchanged refl refl refl
  by_sids-Effect server (sid ∷ sids) = filtered-Effect server (sid ∷ sids)

  pub stream_payload-Effect :
      (server : Server) (req : Request) (o : Option (List ℕ))
      → HasEffect server (stream_payload decoder server req o)
  unfolding stream_payload
  stream_payload-Effect server req none = filtered-Effect server []
  stream_payload-Effect server req (some bytes) =
      elim (Bool-cases (get_content_format req == cf_yang_identifiers)) [
        | inl right ↦ rw right (by_sids-Effect server _)
        | inr wrong ↦ rw wrong (unchanged refl refl refl)
      ]
