-- ===== src/Server/Stored.antt =====
-- iot_containers/iot_apps/coreconf_server.c: what a PUT stores, a GET returns.
use ccoreconf_zcbor.Common.{
  ℕ, zero, suc, ◌≤◌, ◌<◌, ◌≡◌, refl, ap, ◌∙◌, List, [], ◌∷◌, true, Option, none, some, ◌==◌, length,
  arith,
}
use ccoreconf_zcbor.Zcbor.{Encoder, Decoder, ret, ◌>>=◌, run_of}
use ccoreconf_zcbor.Zcbor.Runs.{Returns, bind-Returns, Returns-eq}
use ccoreconf_zcbor.Zcbor.Laws.{EncoderLaws}
use ccoreconf_zcbor.Value.{
  Value, Values, Ref, Chain, Table, HashMap, array, hashmap, no_elements, element, null_ref, ref,
  chain_end, object, no_buckets, bucket, map_of, size,
}
use ccoreconf_zcbor.HashMap.Buckets.{IsValid}
use ccoreconf_zcbor.Serialization.Decode.{cbor_to_coreconf_value}
use ccoreconf_zcbor.Serialization.Sound.{
  IsSound, AllSound, RefIsSound, ChainIsSound, TableIsSound, MapIsSound,
}
use ccoreconf_zcbor.Serialization.Sound.Decoded.{cbor_to_coreconf_value-Sound}
use ccoreconf_zcbor.Serialization.Bytes.{
  IsComplete, AllComplete, RefIsComplete, ChainIsComplete, TableIsComplete, MapIsComplete,
  map_bytes,
}
use ccoreconf_zcbor.Get.{create_get_response}
use ccoreconf_zcbor.Get.Bytes.{
  RefIsPlain, ChainIsPlain, TableIsPlain, MapIsPlain, create_get_response-bytes,
}
use ccoreconf_zcbor.Put.{parse_put_request}
use ccoreconf_zcbor.Server.Notify.{stream_push_notification_map}
use ccoreconf_zcbor.Server.State.{
  Server, Request, Reply, Code, changed, content, get_content_format, get_data, with_body, answer,
  plain, cf_yang_data_cbor,
}
use ccoreconf_zcbor.Server.Effect.{HoldsMap}
use ccoreconf_zcbor.Server.Datastore.{
  current_datastore, with_datastore, map_size, new_map, get_reply, get_sized, get_from, handle_get,
  pushed_map, put_datastore, put_payload, handle_put,
}

-- A decoded value has no NULL pointer inside.
mutual
  unfolding IsSound IsComplete

  pub Sound-IsComplete : (i : ℕ) (v : Value) → IsSound i v → IsComplete v
  Sound-IsComplete i (array vs) h = Sound-AllComplete (suc i) vs h.1
  Sound-IsComplete i (hashmap m) h = Sound-MapIsComplete (suc i) m h.1
  Sound-IsComplete i _ h = tt

  pub Sound-AllComplete : (i : ℕ) (vs : Values) → AllSound i vs → AllComplete vs
  Sound-AllComplete i no_elements h = tt
  Sound-AllComplete i (element v vs) h = (Sound-IsComplete i v h.0, Sound-AllComplete i vs h.1)

  pub Sound-RefIsComplete : (i : ℕ) (r : Ref) → RefIsSound i r → RefIsComplete r
  Sound-RefIsComplete i null_ref h = absurd h
  Sound-RefIsComplete i (ref v) h = Sound-IsComplete i v h

  pub Sound-ChainIsComplete : (i : ℕ) (c : Chain) → ChainIsSound i c → ChainIsComplete c
  Sound-ChainIsComplete i chain_end h = tt
  Sound-ChainIsComplete i (object k r c) h =
      (Sound-RefIsComplete i r h.0, Sound-ChainIsComplete i c h.1)

  pub Sound-TableIsComplete : (i : ℕ) (t : Table) → TableIsSound i t → TableIsComplete t
  Sound-TableIsComplete i no_buckets h = tt
  Sound-TableIsComplete i (bucket c t) h =
      (Sound-ChainIsComplete i c h.0, Sound-TableIsComplete i t h.1)

  pub Sound-MapIsComplete : (i : ℕ) (m : HashMap) → MapIsSound i m → MapIsComplete m
  Sound-MapIsComplete i (map_of t n) h = Sound-TableIsComplete i t h.2

Complete-RefIsPlain : (r : Ref) → RefIsComplete r → RefIsPlain r
unfolding IsComplete
Complete-RefIsPlain null_ref h = absurd h
Complete-RefIsPlain (ref v) h = h

Complete-ChainIsPlain : (c : Chain) → ChainIsComplete c → ChainIsPlain c
unfolding IsComplete
Complete-ChainIsPlain chain_end h = tt
Complete-ChainIsPlain (object k r c) h = (Complete-RefIsPlain r h.0, Complete-ChainIsPlain c h.1)

pub Complete-TableIsPlain : (t : Table) → TableIsComplete t → TableIsPlain t
unfolding IsComplete
Complete-TableIsPlain no_buckets h = tt
Complete-TableIsPlain (bucket c t) h = (Complete-ChainIsPlain c h.0, Complete-TableIsPlain t h.1)

pub Sound-plain : (m : HashMap) → IsSound 0 (hashmap m) → IsValid m × MapIsPlain m
unfolding IsSound
Sound-plain (map_of t n) h = (h.1.0, Complete-TableIsPlain t (Sound-TableIsComplete 1 t h.1.2))

module _ (decoder : Decoder) where
  run-some :
      {A : Type 0} (o : Option (A × Option Value)) (v : Value)
      → (run_of o >>= λ r. ret r.1) ≡ ret (some v)
      → (a : A) × (o ≡ some (a, some v))
  run-some none v h = cc
  run-some (some (a, some w)) v h = (a, cc)
  run-some (some (a, none)) v h = cc

  pub parsed_map :
      (fuel : ℕ) (bytes : Option (List ℕ)) (m : HashMap)
      → parse_put_request decoder fuel bytes ≡ ret (some (hashmap m))
      → IsSound 0 (hashmap m)
  unfolding parse_put_request
  parsed_map fuel none m h = cc
  parsed_map fuel (some []) m h = cc
  parsed_map fuel (some (b ∷ bs)) m h =
      let s = Decoder.new_decode_state decoder 8 (b ∷ bs) 1 in
      let (s', e) = run-some (cbor_to_coreconf_value decoder fuel 0 s) (hashmap m) h in
      cbor_to_coreconf_value-Sound decoder fuel 0 s s' (hashmap m) e

  Keeps : HashMap → Code → Reply → Type 0
  Keeps m code r = HoldsMap r.server m × (r.response.code ≡ code)

  pushed-Keeps :
      (server : Server) (m : HashMap) (code : Code) (bytes : List ℕ) (command : Option (List ℕ))
      → Returns (Keeps m code) (pushed_map decoder (with_datastore server m) code bytes command)
  unfolding pushed_map with_datastore plain Keeps
  pushed-Keeps server m code bytes command =
      bind-Returns (Keeps m code)
        (stream_push_notification_map decoder server.sys_sids.sys_module (some bytes) server.stream)
        _ (λ stream. ((refl, refl), refl))

  put-Keeps :
      (fuel : ℕ) (server : Server) (req : Request) (bytes : List ℕ) (m : HashMap) (r : Reply)
      → get_content_format req ≡ cf_yang_data_cbor
      → get_data req ≡ some bytes
      → parse_put_request decoder fuel (some bytes) ≡ ret (some (hashmap m))
      → handle_put decoder fuel server req ≡ ret r
      → Keeps m changed r
  unfolding handle_put put_payload put_datastore new_map
  put-Keeps fuel server req bytes m r format payload parsed h =
      let right : (get_content_format req == cf_yang_data_cbor) ≡ true = ground arith in
      let h' = rw (right, payload, put_payload, parsed) at h in
      Returns-eq (Keeps m changed) _ r (pushed-Keeps server m changed bytes _) h'

module _ {encoder : Encoder} (laws : EncoderLaws encoder) where
  reply_shown :
      (server : Server) (bytes : List ℕ)
      → 0 < length bytes
      → get_reply encoder server (some bytes)
        ≡ ret (answer server (with_body content cf_yang_data_cbor bytes))
  unfolding get_reply
  reply_shown server [] h = absurd (omega arith)
  reply_shown server (b ∷ bytes) h = refl

  sized_reply :
      (server : Server) (v : Value) (n : ℕ)
      → 0 < n
      → get_sized encoder server v (some n)
        ≡ get_reply encoder server (create_get_response encoder (some 4096) (ref v))
  unfolding get_sized
  sized_reply server v zero h = absurd (omega arith)
  sized_reply server v (suc n) h = refl

  current-HoldsMap :
      (server : Server) (m : HashMap)
      → HoldsMap server m
      → current_datastore server ≡ some (hashmap m)
  unfolding current_datastore
  current-HoldsMap server m (e, f) = rw (e, f) refl

  pub holds-get :
      (server : Server) (m : HashMap) (req : Request)
      → HoldsMap server m
      → 0 < size m
      → 0 < length (map_bytes laws m)
      → create_get_response encoder (some 4096) (ref (hashmap m)) ≡ some (map_bytes laws m)
      → handle_get encoder server req
        ≡ ret (answer server (with_body content cf_yang_data_cbor (map_bytes laws m)))
  unfolding handle_get get_from map_size
  holds-get server m req holds sized shown made =
      ap (get_from encoder server) (current-HoldsMap server m holds)
      ∙ sized_reply server (hashmap m) (size m) sized
      ∙ ap (get_reply encoder server) made
      ∙ reply_shown server (map_bytes laws m) shown

  -- What a PUT stores, a GET returns: after a PUT in CF=140 whose payload decodes to a map of some
  -- objects, and that returns, the response is 2.04, and a GET is answered in CF=140 with the bytes of
  -- that map, if they fit into the buffer and are not none. The response is 2.04 also where there was
  -- no datastore, for which include/put.h says 2.01; for CF=140 it says 142, and include/get.h 112.
  pub handle_put-get :
      (decoder : Decoder) (fuel : ℕ) (server : Server) (req q : Request) (bytes : List ℕ)
      (m : HashMap) (r : Reply)
      → get_content_format req ≡ cf_yang_data_cbor
      → get_data req ≡ some bytes
      → parse_put_request decoder fuel (some bytes) ≡ ret (some (hashmap m))
      → handle_put decoder fuel server req ≡ ret r
      → 0 < size m
      → length (map_bytes laws m) ≤ 4096
      → 0 < length (map_bytes laws m)
      → (r.response.code ≡ changed)
        × (handle_get encoder r.server q
            ≡ ret (answer r.server (with_body content cf_yang_data_cbor (map_bytes laws m))))
  unfolding Keeps
  handle_put-get decoder fuel server req q bytes m r format payload parsed h sized fits shown =
      let (holds, code) = put-Keeps decoder fuel server req bytes m r format payload parsed h in
      let (valid, whole) = Sound-plain m (parsed_map decoder fuel (some bytes) m parsed) in
      (
        code,
        holds-get r.server m q holds sized shown
            ((create_get_response-bytes laws 4096 m valid whole fits).0),
      )
