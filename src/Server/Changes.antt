-- ===== src/Server/Changes.antt =====
-- iot_containers/iot_apps/coreconf_server.c: each handler has one of the three effects, and the states
-- of the server that follow from it.
use ccoreconf_zcbor.Common.{
  ℕ, zero, suc, ◌≡◌, refl, List, [], ◌∷◌, false, Option, none, some, inl, inr, Bool-cases, ◌==◌,
}
use ccoreconf_zcbor.Zcbor.{Encoder, Decoder, Buffer}
use ccoreconf_zcbor.Zcbor.Runs.{Returns, bind-Returns_after, run_of-Returns}
use ccoreconf_zcbor.Value.{Value, HashMap, hashmap, map_of}
use ccoreconf_zcbor.HashMap.Buckets.{IsValid}
use ccoreconf_zcbor.Serialization.Decode.{cbor_to_coreconf_value}
use ccoreconf_zcbor.Serialization.Sound.{IsSound, OptionSound}
use ccoreconf_zcbor.Serialization.Sound.Decoded.{cbor_to_coreconf_value-Sound}
use ccoreconf_zcbor.Put.{parse_put_request}
use ccoreconf_zcbor.Server.State.{
  Server, Request, Code, created, changed, get_content_format, get_data, plain, cf_yang_data_cbor,
}
use ccoreconf_zcbor.Server.Effect.{
  is_error, Carries, Effect, unchanged, stored, removed, HasEffect, send_error-Effect,
  push_map-Carries,
}
use ccoreconf_zcbor.Server.Datastore.{
  current_datastore, new_map, map_size, with_datastore, get_reply, no_datastore_get, get_sized,
  get_from, handle_get, pushed_map, put_datastore, put_payload, handle_put, post_datastore,
  post_unless, post_payload, post_create, delete_sized, delete_from, handle_delete,
}

module _ (encoder : Encoder) where
  get_reply-Effect :
      (server : Server) (buffer : Buffer) → HasEffect server (get_reply encoder server buffer)
  unfolding get_reply
  get_reply-Effect server none = tt
  get_reply-Effect server (some []) = send_error-Effect server _ _ _
  get_reply-Effect server (some (b ∷ bytes)) = unchanged refl refl refl

  get_from-Effect :
      (server : Server) (o : Option Value) → HasEffect server (get_from encoder server o)
  unfolding get_from no_datastore_get
  get_from-Effect server none = unchanged refl refl refl
  get_from-Effect server (some v) = sized (map_size v)
    where
      sized : (n : Option ℕ) → HasEffect server (get_sized encoder server v n)
      sized none = tt
      sized (some zero) = unchanged refl refl refl
      sized (some (suc n)) = get_reply-Effect server _

  pub handle_get-Effect :
      (server : Server) (req : Request) → HasEffect server (handle_get encoder server req)
  unfolding handle_get
  handle_get-Effect server req = get_from-Effect server (current_datastore server)

abbrev IsNewMap : Option HashMap → Type 0
IsNewMap none = Unit
IsNewMap (some m) = IsValid m

-- A map that the decoder returns is valid.
new_map-IsValid : (v : Value) → IsSound 0 v → IsNewMap (new_map (some v))
unfolding new_map IsSound
new_map-IsValid (hashmap (map_of t n)) h = h.1.0
new_map-IsValid _ h = tt

module _ (decoder : Decoder) where
  decoded-IsNewMap : (o : Option Value) → OptionSound 0 o → IsNewMap (new_map o)
  unfolding new_map
  decoded-IsNewMap none h = tt
  decoded-IsNewMap (some v) h = new_map-IsValid v h

  decoded-Sound :
      (fuel : ℕ) (s s' : Decoder.State decoder) (o : Option Value)
      → cbor_to_coreconf_value decoder fuel 0 s ≡ some (s', o)
      → OptionSound 0 o
  decoded-Sound fuel s s' none e = tt
  decoded-Sound fuel s s' (some v) e = cbor_to_coreconf_value-Sound decoder fuel 0 s s' v e

  parse-IsNewMap :
      (fuel : ℕ) (bytes : Option (List ℕ))
      → Returns (λ o. IsNewMap (new_map o)) (parse_put_request decoder fuel bytes)
  unfolding parse_put_request
  parse-IsNewMap fuel none = unfold new_map in tt
  parse-IsNewMap fuel (some []) = unfold new_map in tt
  parse-IsNewMap fuel (some (b ∷ bs)) =
      let s = Decoder.new_decode_state decoder 8 (b ∷ bs) 1 in
      bind-Returns_after (λ (r : Decoder.State decoder × Option Value). OptionSound 0 r.1)
        (λ o. IsNewMap (new_map o)) _ _
        (run_of-Returns (λ (r : Decoder.State decoder × Option Value). OptionSound 0 r.1)
          (cbor_to_coreconf_value decoder fuel 0 s) (λ r e. decoded-Sound fuel s r.0 r.1 e))
        (λ r h. decoded-IsNewMap r.1 h)

  -- A map is stored and pushed.
  stored-Effect :
      (server : Server) (m : HashMap) (code : Code) (bytes : List ℕ) (command : Option (List ℕ))
      → IsValid m
      → is_error code ≡ false
      → HasEffect server (pushed_map decoder (with_datastore server m) code bytes command)
  unfolding pushed_map with_datastore plain
  stored-Effect server m code bytes command valid good =
      bind-Returns_after (Carries server.stream) (Effect server) _ _
        (push_map-Carries decoder server.sys_sids.sys_module (some bytes) server.stream)
        (λ stream h. stored m valid (refl, refl) h good)

  put-Effect :
      (server : Server) (bytes : List ℕ) (o : Option HashMap)
      → IsNewMap o
      → HasEffect server (put_datastore decoder server bytes o)
  unfolding put_datastore
  put-Effect server bytes none h = unchanged refl refl refl
  put-Effect server bytes (some m) h = stored-Effect server m changed bytes _ h refl

  put_payload-Effect :
      (fuel : ℕ) (server : Server) (o : Option (List ℕ))
      → HasEffect server (put_payload decoder fuel server o)
  unfolding put_payload
  put_payload-Effect fuel server none = unchanged refl refl refl
  put_payload-Effect fuel server (some bytes) =
      bind-Returns_after (λ o. IsNewMap (new_map o)) (Effect server) _ _
        (parse-IsNewMap fuel (some bytes)) (λ o h. put-Effect server bytes (new_map o) h)

  pub handle_put-Effect :
      (fuel : ℕ) (server : Server) (req : Request)
      → HasEffect server (handle_put decoder fuel server req)
  unfolding handle_put
  handle_put-Effect fuel server req =
      elim (Bool-cases (get_content_format req == cf_yang_data_cbor)) [
        | inl right ↦ rw right (put_payload-Effect fuel server (get_data req))
        | inr wrong ↦ rw wrong (unchanged refl refl refl)
      ]

  post-Effect :
      (server : Server) (bytes : List ℕ) (o : Option HashMap)
      → IsNewMap o
      → HasEffect server (post_datastore decoder server bytes o)
  unfolding post_datastore
  post-Effect server bytes none h = unchanged refl refl refl
  post-Effect server bytes (some m) h = stored-Effect server m created bytes none h refl

  post_unless-Effect :
      (fuel : ℕ) (server : Server) (bytes : List ℕ) (o : Option Value)
      → HasEffect server (post_unless decoder fuel server bytes o)
  unfolding post_unless
  post_unless-Effect fuel server bytes (some v) = unchanged refl refl refl
  post_unless-Effect fuel server bytes none =
      bind-Returns_after (λ o. IsNewMap (new_map o)) (Effect server) _ _
        (parse-IsNewMap fuel (some bytes)) (λ o h. post-Effect server bytes (new_map o) h)

  pub post_create-Effect :
      (fuel : ℕ) (server : Server) (req : Request)
      → HasEffect server (post_create decoder fuel server req)
  unfolding post_create
  post_create-Effect fuel server req = with_payload (get_data req)
    where
      with_payload : (o : Option (List ℕ)) → HasEffect server (post_payload decoder fuel server o)
      with_payload none = unfold post_payload in unchanged refl refl refl
      with_payload (some bytes) =
          unfold post_payload in post_unless-Effect fuel server bytes (current_datastore server)

  delete_sized-Effect :
      (server : Server) (n : Option ℕ) → HasEffect server (delete_sized decoder server n)
  unfolding delete_sized pushed_map plain
  delete_sized-Effect server none = tt
  delete_sized-Effect server (some n) =
      bind-Returns_after (Carries server.stream) (Effect server) _ _
        (push_map-Carries decoder server.sys_sids.sys_module (some (160 ∷ [])) server.stream)
        (λ stream h. removed refl refl h refl)

  delete_from-Effect :
      (server : Server) (o : Option Value) → HasEffect server (delete_from decoder server o)
  unfolding delete_from
  delete_from-Effect server none = unchanged refl refl refl
  delete_from-Effect server (some v) = delete_sized-Effect server (map_size v)

  pub handle_delete-Effect :
      (server : Server) (req : Request) → HasEffect server (handle_delete decoder server req)
  unfolding handle_delete
  handle_delete-Effect server req = delete_from-Effect server (current_datastore server)
