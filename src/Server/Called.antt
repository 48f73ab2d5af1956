-- ===== src/Server/Called.antt =====
-- iot_containers/iot_apps/coreconf_server.c: what a POST of RPCs and actions returns.
use ccoreconf_zcbor.Common.{
  Option, none, ℕ, ◌≡◌, refl, sym, ap, ◌∙◌, List, [], ◌∷◌, true, false, some, ◌==◌, arith,
}
use ccoreconf_zcbor.Common.Text.{ascii}
use ccoreconf_zcbor.Zcbor.{Encoder, Decoder, Run, ret, bad_read, out_of_fuel, ◌>>=◌, Buffer}
use ccoreconf_zcbor.Zcbor.Runs.{Returns, bind-Returns_after, ret-injective}
use ccoreconf_zcbor.Value.{Ref}
use ccoreconf_zcbor.Post.Items.{PostIidType, post_iid_sid, post_iid_sid_str_key, PostItem}
use ccoreconf_zcbor.Post.Parse.{parse_post_items}
use ccoreconf_zcbor.Post.Encode.{create_post_items}
use ccoreconf_zcbor.Server.Sids.{RuntimeOperationSids}
use ccoreconf_zcbor.Server.State.{
  Server, Request, Reply, Code, get_content_format, get_data, internal_error, error_response,
  send_error, cf_yang_instances,
}
use ccoreconf_zcbor.Server.Effect.{is_error}
use ccoreconf_zcbor.Server.Time.{Clock}
use ccoreconf_zcbor.Server.Operations.{
  response_key, Called, returned, refused, call_sid, response_item, AllCalled, responses, stopped,
  with_response, call_all, encoded_reply, called_reply, call_requests, operations_payload,
  post_operations, handle_post,
}
use ccoreconf_zcbor.Server.Calls.{Calls, IsRefusal, call_sid-Calls, call_sid-IsRefusal}

module _ (clock : Clock) (ops : RuntimeOperationSids) where
  -- the key of a response: that of a request with a key, an empty one for NULL
  abbrev pub KeyAnswers : PostIidType → Option (List ℕ) → Option (List ℕ) → Type 0
  KeyAnswers post_iid_sid key out_key = out_key ≡ none
  KeyAnswers post_iid_sid_str_key none out_key = out_key ≡ some []
  KeyAnswers post_iid_sid_str_key (some key) out_key = out_key ≡ some key

  -- Each response answers the request in its place: it has its type, its SID and its key, and the
  -- result of its call.
  pub data Answers : List PostItem → List PostItem → Type 0 where
    no_more : Answers [] []
    and_more :
        {items outs : List PostItem} (item out : PostItem)
        → out.iid_type ≡ item.iid_type
        → out.sid ≡ item.sid
        → KeyAnswers item.iid_type item.str_key out.str_key
        → Calls clock ops item.iid_type item.sid item.value out.value
        → Answers items outs
        → Answers (item ∷ items) (out ∷ outs)

  response_key-KeyAnswers :
      (t : PostIidType) (key : Option (List ℕ)) → KeyAnswers t key (response_key clock t key)
  unfolding response_key
  response_key-KeyAnswers post_iid_sid key = refl
  response_key-KeyAnswers post_iid_sid_str_key none = refl
  response_key-KeyAnswers post_iid_sid_str_key (some key) = refl

  AllAnswer : List PostItem → AllCalled clock → Type 0
  AllAnswer items (responses outs) = Answers items outs
  AllAnswer items (stopped code esid msg) = is_error code ≡ true

  with_response-Answers :
      (item : PostItem) (result : Ref) (items : List PostItem) (r : AllCalled clock)
      → Calls clock ops item.iid_type item.sid item.value result
      → AllAnswer items r
      → AllAnswer (item ∷ items) (with_response clock (response_item clock item result) r)
  unfolding with_response response_item AllAnswer
  with_response-Answers item result items (responses outs) c h =
      and_more item (response_item clock item result) refl refl
        (response_key-KeyAnswers item.iid_type item.str_key) c h
  with_response-Answers item result items (stopped code esid msg) c h = h

  next_call :
      (item : PostItem) (items : List PostItem) (p : Run Called)
      → ((result : Ref)
          → p ≡ ret (returned result)
          → Calls clock ops item.iid_type item.sid item.value result)
      → Returns (IsRefusal clock ops) p
      → Returns (AllAnswer items) (call_all clock ops items)
      → Returns (AllAnswer (item ∷ items)) (elim p [
        | bad_read ↦ bad_read
        | out_of_fuel ↦ out_of_fuel
        | ret called ↦ elim called [
          | refused code esid msg ↦ ret (stopped code esid msg)
          | returned value ↦ call_all clock ops items >>= λ rest.
              ret (with_response clock (response_item clock item value) rest)
        ]
      ])
  unfolding AllAnswer
  next_call item items bad_read known bad rest = tt
  next_call item items out_of_fuel known bad rest = tt
  next_call item items (ret (refused code esid msg)) known bad rest = bad
  next_call item items (ret (returned value)) known bad rest =
      bind-Returns_after (AllAnswer items) (AllAnswer (item ∷ items)) (call_all clock ops items) _
        rest (λ r h. with_response-Answers item value items r (known value refl) h)

  call_all-Answers : (items : List PostItem) → Returns (AllAnswer items) (call_all clock ops items)
  unfolding call_all AllAnswer
  call_all-Answers [] = no_more
  call_all-Answers (item ∷ items) =
      next_call item items (call_sid clock ops item.iid_type item.sid item.value)
        (call_sid-Calls clock ops item.iid_type item.sid item.value)
        (call_sid-IsRefusal clock ops item.iid_type item.sid item.value) (call_all-Answers items)

error_response-code : (code : Code) (bytes : List ℕ) → (error_response code bytes).code ≡ code
unfolding error_response
error_response-code code [] = refl
error_response-code code (b ∷ bytes) = refl

refused_code :
    (server : Server) (code : Code) (esid : ℕ) (msg : List ℕ) (r : Reply)
    → ret (send_error server code esid msg) ≡ ret r
    → r.response.code ≡ code
unfolding send_error
refused_code server code esid msg r h =
    sym (ap (λ (q : Reply). q.response.code) (ret-injective h)) ∙ error_response-code code _

module _ (clock : Clock) (encoder : Encoder) (decoder : Decoder) where
  encoded_body :
      (server : Server) (buffer : Buffer) (r : Reply)
      → encoded_reply clock server buffer ≡ ret r
      → is_error r.response.code ≡ false
      → buffer ≡ some r.response.body
  unfolding encoded_reply
  encoded_body server none r h good = cc
  encoded_body server (some []) r h good =
      let e =
        refused_code server internal_error 1013 (ascii "failed to encode POST response") r h in
      absurd (let g = rw e at good in cc)
  encoded_body server (some (b ∷ out)) r h good =
      ap some (ap (λ (q : Reply). q.response.body) (ret-injective h))

  -- What a POST of requests that is answered without an error has called, and what it returns.
  Answered : Server → List PostItem → Reply → Type 0
  Answered server items r =
      (outs : List PostItem) × Answers clock server.ops_sids items outs
      × (create_post_items encoder (some 4096) (some outs) ≡ some r.response.body)

  called-Answered :
      (server : Server) (items : List PostItem) (p : Run (AllCalled clock)) (r : Reply)
      → Returns (AllAnswer clock server.ops_sids items) p
      → (p >>= called_reply clock encoder decoder server) ≡ ret r
      → is_error r.response.code ≡ false
      → Answered server items r
  unfolding called_reply AllAnswer Answered
  called-Answered server items bad_read r h e good = cc
  called-Answered server items out_of_fuel r h e good = cc
  called-Answered server items (ret (stopped code esid msg)) r h e good =
      let c = refused_code server code esid msg r e in absurd (let g = rw c at good in cc)
  called-Answered server items (ret (responses outs)) r h e good =
      (outs, h, encoded_body server _ r e good)

  -- A POST of RPCs and actions that is answered without an error has called all of them: the body is
  -- the sequence of one response to each request, in their order. A response has the type, the SID and
  -- the key of its request. It is null for the reboot; for the reset it is a map that holds the time,
  -- formatted, three seconds behind the one that the input gives, or behind now where that is no time.
  pub handle_post-Answers :
      (fuel : ℕ) (server : Server) (req : Request) (bytes : List ℕ) (item : PostItem)
      (items : List PostItem) (r : Reply)
      → get_content_format req ≡ cf_yang_instances
      → get_data req ≡ some bytes
      → parse_post_items decoder fuel (some bytes) ≡ ret (some (item ∷ items))
      → handle_post clock encoder decoder fuel server req ≡ ret r
      → is_error r.response.code ≡ false
      → (outs : List PostItem) × Answers clock server.ops_sids (item ∷ items) outs
        × (create_post_items encoder (some 4096) (some outs) ≡ some r.response.body)
  unfolding handle_post post_operations operations_payload call_requests Answered
  handle_post-Answers fuel server req bytes item items r format payload parsed h good =
      let other : (get_content_format req == 140) ≡ false = ground arith in
      let right : (get_content_format req == 142) ≡ true = ground arith in
      let h' = rw (other, right, payload, operations_payload, parsed) at h in
      called-Answered server (item ∷ items) (call_all clock server.ops_sids (item ∷ items)) r
        (call_all-Answers clock server.ops_sids (item ∷ items)) h' good
