-- ===== src/Server/Restored.antt =====
-- iot_containers/iot_apps/coreconf_server.c: a DELETE makes room for a POST, and what the POST creates
-- is served.
use ccoreconf_zcbor.Common.{
  ℕ, ◌≤◌, ◌<◌, ◌≡◌, refl, List, [], ◌∷◌, true, false, Option, none, some, inl, inr, ◌==◌, length,
}
use ccoreconf_zcbor.Common.Text.{ascii}
use ccoreconf_zcbor.Server.Uint.{stream_wrap_notification_instance}
use ccoreconf_zcbor.Zcbor.{Encoder, Decoder, ret}
use ccoreconf_zcbor.Zcbor.Laws.{EncoderLaws}
use ccoreconf_zcbor.Value.{HashMap, hashmap, null_ref, size}
use ccoreconf_zcbor.Serialization.Bytes.{map_bytes}
use ccoreconf_zcbor.Get.Bytes.{create_get_response-bytes}
use ccoreconf_zcbor.Put.{parse_put_request}
use ccoreconf_zcbor.Server.Notify.{
  buffer_size, push_written, stream_extract_first_sid_from_map, stream_push_notification_map,
}
use ccoreconf_zcbor.Server.Sids.{FileSystem}
use ccoreconf_zcbor.Server.Time.{Clock}
use ccoreconf_zcbor.Server.State.{
  Server, Request, Reply, Code, created, deleted, not_found, content, get_content_format, get_data,
  plain, with_body, answer, send_error, cf_yang_data_cbor,
}
use ccoreconf_zcbor.Server.Effect.{HoldsMap}
use ccoreconf_zcbor.Server.Datastore.{
  current_datastore, with_datastore, map_size, new_map, handle_get, pushed_map, post_datastore,
  post_unless, post_payload, post_create, delete_from, delete_sized, handle_delete,
}
use ccoreconf_zcbor.Server.Operations.{handle_post}
use ccoreconf_zcbor.Server.Served.{IsConsistent, current_datastore-IsConsistent}
use ccoreconf_zcbor.Server.Handlers.{Serves}
use ccoreconf_zcbor.Server.Start.{Serves-IsConsistent}
use ccoreconf_zcbor.Server.Stored.{Sound-plain, parsed_map, holds-get}

-- The first key of a payload is read, as what it is pushed under: no read goes past its end.
abbrev pub ReadsKey : Decoder → List ℕ → Type 0
ReadsKey decoder bytes =
    (fallback : ℕ)
    → (sid : ℕ) × (stream_extract_first_sid_from_map decoder (some bytes) fallback ≡ ret sid)

module _ (decoder : Decoder) where
  -- the datastore of a server, as it is behind a push, with the code of the answer
  abbrev Pushed : Server → Code → Reply → Type 0
  Pushed server code r =
      (r.server.datastore ≡ server.datastore)
      × (r.server.ds_exists ≡ server.ds_exists)
      × (r.response.code ≡ code)

  -- the answer behind a push
  abbrev pushed_reply : Server → Code → List ℕ → Option (List ℕ) → ℕ → Reply
  unfolding push_written stream_wrap_notification_instance plain
  pushed_reply server code bytes command sid = record {
    server = record server {
      stream =
          push_written (stream_wrap_notification_instance (some buffer_size) sid (some bytes))
            server.stream;
    };
    response = plain code;
    notified = true;
    command = command;
  }

  pushed_map-returns :
      (server : Server) (code : Code) (bytes : List ℕ) (command : Option (List ℕ))
      → ReadsKey decoder bytes
      → (r : Reply) × (pushed_map decoder server code bytes command ≡ ret r) × Pushed server code r
  unfolding pushed_map stream_push_notification_map plain
  pushed_map-returns server code [] command reads = (_, refl, (refl, refl, refl))
  pushed_map-returns server code (b ∷ bytes) command reads =
      let (sid, e) = reads server.sys_sids.sys_module in
      (
        pushed_reply server code (b ∷ bytes) command sid,
        rw (pushed_map, stream_push_notification_map, e) refl,
        (refl, refl, refl),
      )

  abbrev Emptied : Server → Request → Type 0
  Emptied server req =
      (r : Reply) × (handle_delete decoder server req ≡ ret r) × (current_datastore r.server ≡ none)

  no_datastore : (server : Server) → server.datastore ≡ null_ref → current_datastore server ≡ none
  unfolding current_datastore
  no_datastore server gone = rw (current_datastore, gone) refl

  delete-empties :
      (server : Server) (req : Request)
      → IsConsistent server
      → ReadsKey decoder (160 ∷ [])
      → Emptied server req
  unfolding handle_delete delete_from delete_sized map_size current_datastore send_error
  delete-empties server req c reads = elim (current_datastore-IsConsistent server c) [
    | inl nothing ↦ (
      send_error server not_found 1013 (ascii "datastore not found"),
      rw (handle_delete, nothing) refl,
      nothing,
    )
    | inr (m, valid, holds, e) ↦
        let (r, returns, (gone, off, code)) =
          pushed_map-returns (record server { datastore = null_ref; ds_exists = false }) deleted
            (160 ∷ []) none reads in
        (r, rw (handle_delete, e) returns, no_datastore r.server gone)
  ]

  abbrev Created : Clock → Encoder → ℕ → Server → Request → HashMap → Type 0
  Created clock encoder fuel server req m =
      (r : Reply) × (handle_post clock encoder decoder fuel server req ≡ ret r)
      × (r.response.code ≡ created)
      × HoldsMap r.server m

  post-creates :
      (clock : Clock) (encoder : Encoder) (fuel : ℕ) (server : Server) (req : Request)
      (bytes : List ℕ) (m : HashMap)
      → current_datastore server ≡ none
      → get_content_format req ≡ cf_yang_data_cbor
      → get_data req ≡ some bytes
      → parse_put_request decoder fuel (some bytes) ≡ ret (some (hashmap m))
      → ReadsKey decoder bytes
      → Created clock encoder fuel server req m
  unfolding handle_post post_create post_payload post_unless post_datastore new_map with_datastore
  post-creates clock encoder fuel server req bytes m nothing format payload parsed reads =
      let right : (get_content_format req == cf_yang_data_cbor) ≡ true = rw format refl in
      let (r, returns, (holds, on, code)) =
        pushed_map-returns (with_datastore server m) created bytes none reads in
      (r, rw (handle_post, right, payload, nothing, post_unless, parsed) returns, code, (holds, on))

module _ {encoder : Encoder} (laws : EncoderLaws encoder) where
  -- Whatever the server has answered before, a DELETE and then a POST of a datastore are answered, the
  -- POST with 2.01, and a GET behind them in CF=140 with the bytes of the map that the payload of the
  -- POST decodes to, and of nothing else: where that map has objects and its bytes fit into the buffer
  -- and are not none, and where no read goes past the payload of the POST, nor past the empty map of
  -- the DELETE, to find the key that is pushed to the stream. The DELETE deletes the whole datastore,
  -- also where its query names SIDs, which include/delete.h says are all that it deletes:
  -- `handle_delete` does not read its query. For CF=140, include/get.h says 112.
  pub handle_delete-handle_post :
      (decoder : Decoder) (clock : Clock) (fs : FileSystem) (fuel : ℕ) (server : Server)
      (d p g : Request) (bytes : List ℕ) (m : HashMap)
      → Serves encoder decoder clock fs server
      → get_content_format p ≡ cf_yang_data_cbor
      → get_data p ≡ some bytes
      → parse_put_request decoder fuel (some bytes) ≡ ret (some (hashmap m))
      → ReadsKey decoder (160 ∷ [])
      → ReadsKey decoder bytes
      → 0 < size m
      → length (map_bytes laws m) ≤ 4096
      → 0 < length (map_bytes laws m)
      → (r : Reply) × (r' : Reply) × (handle_delete decoder server d ≡ ret r)
        × (handle_post clock encoder decoder fuel r.server p ≡ ret r')
        × (r'.response.code ≡ created)
        × (handle_get encoder r'.server g
            ≡ ret (answer r'.server (with_body content cf_yang_data_cbor (map_bytes laws m))))
  handle_delete-handle_post decoder clock fs fuel server d p g bytes m serves format payload parsed
        reads_empty reads sized fits shown =
      let c = Serves-IsConsistent encoder decoder clock fs server serves in
      let (r, deletes, nothing) = delete-empties decoder server d c reads_empty in
      let (r', posts, code, holds) =
        post-creates decoder clock encoder fuel r.server p bytes m nothing format payload parsed
          reads in
      let (valid, whole) = Sound-plain m (parsed_map decoder fuel (some bytes) m parsed) in
      (
        r,
        r',
        deletes,
        posts,
        code,
        holds-get laws r'.server m g holds sized shown
            ((create_get_response-bytes laws 4096 m valid whole fits).0),
      )
