-- ===== src/Server/Datastore.antt =====
-- iot_containers/iot_apps/coreconf_server.c: the handlers that read or replace the whole datastore, and
-- the one that patches it. `fuel` is what the decoding of a value takes.
use ccoreconf_zcbor.Common.{
  ℕ, zero, suc, List, [], ◌∷◌, ◌++◌, true, false, Option, none, some, ◌==◌, if◌then◌else◌, take,
}
use ccoreconf_zcbor.Common.Text.{ascii}
use ccoreconf_zcbor.Zcbor.{Encoder, Decoder, Run, ret, bad_read, ◌>>=◌, Buffer}
use ccoreconf_zcbor.Value.{Value, Ref, HashMap, string, hashmap, null_ref, ref, size}
use ccoreconf_zcbor.HashMap.{get_coreconf_hash_map}
use ccoreconf_zcbor.Get.{create_get_response}
use ccoreconf_zcbor.Put.{parse_put_request}
use ccoreconf_zcbor.Ipatch.Raw.{apply_ipatch_raw}
use ccoreconf_zcbor.Server.Notify.{
  buffer_size, stream_push_notification_map, stream_push_notification_sequence,
}
use ccoreconf_zcbor.Server.State.{
  Server, Code, created, deleted, changed, content, bad_request, not_found, conflict,
  unsupported_content_format, internal_error, Reply, Handler, get_content_format, get_data,
  send_error, plain, with_body, answer, cf_yang_data_cbor, cf_yang_instances,
}

-- `!g_datastore || !g_ds_exists`: the datastore, if there is one
unfoldable pub current_datastore : Server → Option Value
current_datastore server = elim server.datastore [
  | null_ref ↦ none
  | ref v ↦ elim server.ds_exists [ true ↦ some v | false ↦ none ]
]

-- a text with a dash between two parts
unfoldable pub dashed : List ℕ → List ℕ → List ℕ
dashed a b = a ++ (226 ∷ 128 ∷ 148 ∷ b)

-- The map of a new datastore; `none` for NULL and for a value of another type.
unfoldable pub new_map : Option Value → Option HashMap
new_map (some (hashmap m)) = some m
new_map _ = none

unfoldable pub with_datastore : Server → HashMap → Server
with_datastore server m = record server { datastore = ref (hashmap m); ds_exists = true }

-- The command of `snprintf` into a buffer of 512 bytes: the password stands in it as it came.
unfoldable pub rotate_command : List ℕ → List ℕ
rotate_command password =
    take 511 (ascii "/usr/local/bin/rotate_password.sh iotadmin '" ++ (password ++ ascii "'"))

unfoldable pub password_command : Option Value → Option (List ℕ)
unfolding rotate_command
password_command (some (string password)) = some (rotate_command password)
password_command _ = none

-- the size of a map value; `none` where the code reads another value as a map
unfoldable pub map_size : Value → Option ℕ
map_size (hashmap m) = some (size m)
map_size _ = none

module _ (encoder : Encoder) where
  unfoldable pub get_reply : Server → Buffer → Run Reply
  unfolding with_body answer
  get_reply server none = bad_read
  get_reply server (some []) = ret (send_error server internal_error 1013 (ascii "serialize error"))
  get_reply server (some (b ∷ bytes)) =
      ret (answer server (with_body content cf_yang_data_cbor (b ∷ bytes)))

  unfoldable pub no_datastore_get : Server → Reply
  unfolding send_error dashed
  no_datastore_get server =
      send_error server not_found 1013
        (dashed (ascii "datastore empty ") (ascii " use PUT /c first"))

  unfoldable pub get_sized : Server → Value → Option ℕ → Run Reply
  unfolding get_reply no_datastore_get create_get_response
  get_sized server v none = bad_read
  get_sized server v (some zero) = ret (no_datastore_get server)
  get_sized server v (some (suc n)) =
      get_reply server (create_get_response encoder (some buffer_size) (ref v))

  unfoldable pub get_from : Server → Option Value → Run Reply
  unfolding get_sized no_datastore_get map_size
  get_from server none = ret (no_datastore_get server)
  get_from server (some v) = get_sized server v (map_size v)

  unfoldable pub handle_get : Handler
  unfolding current_datastore get_from
  handle_get server req = get_from server (current_datastore server)

module _ (decoder : Decoder) where
  -- The stream is told of a change, and then the observers.
  unfoldable pub pushed_map : Server → Code → List ℕ → Option (List ℕ) → Run Reply
  unfolding stream_push_notification_map plain
  pushed_map server code bytes command =
      stream_push_notification_map decoder server.sys_sids.sys_module (some bytes) server.stream
      >>= λ stream. ret (record {
        server = record server { stream = stream };
        response = plain code;
        notified = true;
        command = command;
      })

  unfoldable pub put_datastore : Server → List ℕ → Option HashMap → Run Reply
  unfolding pushed_map password_command send_error with_datastore
  put_datastore server bytes none =
      ret (send_error server bad_request 1012 (ascii "bad CBOR datastore"))
  put_datastore server bytes (some m) =
      pushed_map (with_datastore server m) changed bytes
        (password_command (get_coreconf_hash_map m 1735))

  unfoldable pub put_payload : ℕ → Server → Option (List ℕ) → Run Reply
  unfolding put_datastore new_map parse_put_request send_error
  put_payload fuel server none = ret (send_error server bad_request 1012 (ascii "missing payload"))
  put_payload fuel server (some bytes) =
      parse_put_request decoder fuel (some bytes) >>= λ o. put_datastore server bytes (new_map o)

  unfoldable pub handle_put : ℕ → Handler
  unfolding get_content_format get_data put_payload send_error
  handle_put fuel server req =
      if get_content_format req == cf_yang_data_cbor
      then put_payload fuel server (get_data req)
      else ret (
          send_error server unsupported_content_format 1012
            (ascii "PUT requires CF=140 (yang-data+cbor;id=sid)"))

  unfoldable pub post_datastore : Server → List ℕ → Option HashMap → Run Reply
  unfolding pushed_map send_error with_datastore
  post_datastore server bytes none =
      ret (send_error server bad_request 1012 (ascii "POST requires CBOR datastore map"))
  post_datastore server bytes (some m) = pushed_map (with_datastore server m) created bytes none

  unfoldable pub post_unless : ℕ → Server → List ℕ → Option Value → Run Reply
  unfolding post_datastore new_map parse_put_request send_error
  post_unless fuel server bytes (some v) =
      ret
        (send_error server conflict 1012 (ascii "datastore already exists - use PUT /c to replace"))
  post_unless fuel server bytes none =
      parse_put_request decoder fuel (some bytes) >>= λ o. post_datastore server bytes (new_map o)

  unfoldable pub post_payload : ℕ → Server → Option (List ℕ) → Run Reply
  unfolding post_unless current_datastore send_error
  post_payload fuel server none = ret (send_error server bad_request 1012 (ascii "missing payload"))
  post_payload fuel server (some bytes) = post_unless fuel server bytes (current_datastore server)

  -- `handle_post` for the content format of a datastore
  unfoldable pub post_create : ℕ → Handler
  unfolding get_data post_payload
  post_create fuel server req = post_payload fuel server (get_data req)

  -- The size is printed, for which the datastore is read as a map; its memory is freed.
  unfoldable pub delete_sized : Server → Option ℕ → Run Reply
  unfolding pushed_map
  delete_sized server none = bad_read
  delete_sized server (some n) =
      pushed_map (record server { datastore = null_ref; ds_exists = false }) deleted (160 ∷ []) none

  unfoldable pub delete_from : Server → Option Value → Run Reply
  unfolding delete_sized map_size send_error
  delete_from server none = ret (send_error server not_found 1013 (ascii "datastore not found"))
  delete_from server (some v) = delete_sized server (map_size v)

  unfoldable pub handle_delete : Handler
  unfolding current_datastore delete_from
  handle_delete server req = delete_from server (current_datastore server)

  -- Behind `apply_ipatch_raw`: the stream and the observers are told unless it has returned -1.
  unfoldable pub patched : Server → List ℕ → Ref × Option ℕ → Run Reply
  unfolding stream_push_notification_sequence plain answer
  patched server bytes (datastore, none) =
      ret (answer (record server { datastore = datastore }) (plain changed))
  patched server bytes (datastore, some n) =
      stream_push_notification_sequence decoder server.sys_sids.sys_module (some bytes)
        server.stream
      >>= λ stream. ret (record {
        server = record server { datastore = datastore; stream = stream };
        response = plain changed;
        notified = true;
        command = none;
      })

  -- the size is printed behind the patch, for which the datastore is read as a map
  unfoldable pub patch_map : ℕ → Server → List ℕ → Value → Run Reply
  unfolding patched apply_ipatch_raw
  patch_map fuel server bytes (hashmap m) =
      apply_ipatch_raw decoder fuel (ref (hashmap m)) (some bytes) >>= patched server bytes
  patch_map fuel server bytes _ = bad_read

  unfoldable pub patch_from : ℕ → Server → List ℕ → Option Value → Run Reply
  unfolding patch_map send_error dashed
  patch_from fuel server bytes none = ret (
      send_error server not_found 1019 (dashed (ascii "no datastore ") (ascii " use PUT /c first")))
  patch_from fuel server bytes (some v) = patch_map fuel server bytes v

  unfoldable pub patch_payload : ℕ → Server → Option (List ℕ) → Run Reply
  unfolding patch_from current_datastore send_error
  patch_payload fuel server none =
      ret (send_error server bad_request 1012 (ascii "missing payload"))
  patch_payload fuel server (some bytes) = patch_from fuel server bytes (current_datastore server)

  unfoldable pub handle_ipatch : ℕ → Handler
  unfolding get_content_format get_data patch_payload send_error
  handle_ipatch fuel server req =
      if get_content_format req == cf_yang_instances
      then patch_payload fuel server (get_data req)
      else ret (
          send_error server unsupported_content_format 1012
            (ascii "iPATCH requires CF=142 (yang-instances+cbor-seq)"))
