-- ===== src/Tests/Startup.antt =====
-- The theorems on the server's handlers, at the start of the server.
use ccoreconf_zcbor.Common.{
  ℕ, ◌≤◌, ◌<◌, ◌≡◌, refl, List, [], ◌∷◌, ◌++◌, true, false, Option, none, some, if◌then◌else◌,
  length, arith,
}
use ccoreconf_zcbor.Common.Text.{ascii}
use ccoreconf_zcbor.Common.Int.{pos}
use Prim.Native.String.{String}
use ccoreconf_zcbor.Server.Sequence.{initial_stream}
use ccoreconf_zcbor.Server.Sids.{FileSystem, starts_with}
use ccoreconf_zcbor.Zcbor.{Run, ret, major_type}
use ccoreconf_zcbor.Value.{HashMap, hashmap, uint_64, null_ref, ref, create_map, size}
use ccoreconf_zcbor.HashMap.{insert_coreconf_hash_map}
use ccoreconf_zcbor.Serialization.Bytes.{cbor_bytes, map_bytes}
use ccoreconf_zcbor.Put.{parse_put_request}
use ccoreconf_zcbor.Server.Notify.{stream_extract_first_sid_from_map}
use ccoreconf_zcbor.Server.Datastore.{handle_get, handle_delete}
use ccoreconf_zcbor.Server.Operations.{handle_post}
use ccoreconf_zcbor.Server.Restored.{ReadsKey, handle_delete-handle_post}
use ccoreconf_zcbor.Delete.{split_at, strtoull}
use ccoreconf_zcbor.Server.State.{
  Server, Request, Reply, created, content, with_body, answer, get_content_format, get_data,
}
use ccoreconf_zcbor.Server.Effect.{is_error}
use ccoreconf_zcbor.Server.Served.{IsConsistent, handle-error}
use ccoreconf_zcbor.Server.Start.{Serves-IsConsistent}
use ccoreconf_zcbor.Server.Handlers.{
  no_system_sids, no_interfaces_sids, no_operation_sids, start_server, handle, post, delete,
  answers, Serves, starts, goes_on,
}
use ccoreconf_zcbor.Server.Time.{Clock}
use ccoreconf_zcbor.Tests.Codec.{encoder, decoder, laws}

-- an identifier of a .sid file with its SID
abbrev entry : String → String → List ℕ
entry identifier sid = ascii identifier ++ (ascii "\" \"sid\": " ++ (ascii sid ++ (10 ∷ [])))

abbrev system_text : List ℕ
system_text =
    entry "\"identifier\": \"ietf-system" "1700"
    ++ (entry "/ietf-system:system-state/clock" "1717"
        ++ (entry "/ietf-system:system-state/clock/boot-datetime" "1718"
            ++ (entry "/ietf-system:system-state/clock/current-datetime" "1719"
                ++ (entry "/ietf-system:system/ntp/enabled" "1754"
                    ++ (entry "/ietf-system:system/ntp/server" "1755"
                        ++ (entry "/ietf-system:system/ntp/server/name" "1756"
                            ++ (entry "/ietf-system:system/ntp/server/prefer" "1758"
                                ++ (entry "/ietf-system:system/ntp/server/udp" "1761"
                                    ++ entry "/ietf-system:system/ntp/server/udp/address"
                                        "1762"))))))))

abbrev interfaces_text : List ℕ
interfaces_text =
    entry "\"identifier\": \"ietf-interfaces" "1500"
    ++ (entry "/ietf-interfaces:interfaces/interface" "1533"
        ++ (entry "/ietf-interfaces:interfaces/interface/description" "1534"
            ++ (entry "/ietf-interfaces:interfaces/interface/enabled" "1535"
                ++ (entry "/ietf-interfaces:interfaces/interface/name" "1537"
                    ++ (entry "/ietf-interfaces:interfaces/interface/type" "1538"
                        ++ (entry "/ietf-interfaces:interfaces/interface/oper-status" "1540"
                            ++ entry "\"identifier\": \"ethernetCsmacd" "1880"))))))

abbrev files : FileSystem
unfolding starts_with
files path =
    if starts_with (ascii "sid/ietf-system") path
    then some system_text
    else if starts_with (ascii "sid/ietf-interfaces") path
    then some interfaces_text
    else none

abbrev pub clock : Clock
clock = record {
  time = pos 1000;
  timegm = λ tm. tm.tm_sec;
  utc_text = λ t. some (ascii "1970-01-01T00:16:43Z");
}

abbrev pub no_server : Server
no_server = record {
  datastore = null_ref;
  ds_exists = false;
  stream = initial_stream;
  sys_sids = no_system_sids;
  if_sids = no_interfaces_sids;
  ops_sids = no_operation_sids;
  sid_fingerprint = 0;
}

abbrev from_some : {A : Type 0} → A → Option A → A
from_some a none = a
from_some a (some b) = b

abbrev pub from_ret : Reply → Run Reply → Reply
from_ret r (ret a) = a
from_ret r _ = r

-- the server as it comes up
abbrev server : Server
server = from_some no_server (start_server encoder files)

comes_up : start_server encoder files ≡ some server
unfolding start_server split_at strtoull
comes_up = refl

-- a POST of the map {5: 7}, where there is a datastore
abbrev pub create : Request
create = record { format_option = some 140; payload = some (191 ∷ 5 ∷ 7 ∷ 255 ∷ []) }

abbrev conflict_reply : Reply
conflict_reply =
    from_ret (answer server (with_body content 0 []))
      (handle encoder decoder clock post 9 server create)

conflicts : handle encoder decoder clock post 9 server create ≡ ret conflict_reply
unfolding handle start_server split_at strtoull
conflicts = refl

conflict_is_error : is_error conflict_reply.response.code ≡ true
unfolding handle start_server split_at strtoull
conflict_is_error = refl

server-Serves : Serves encoder decoder clock files server
server-Serves = starts comes_up

handle-error_example :
    (conflict_reply.server ≡ server)
    × (conflict_reply.notified ≡ false)
    × (conflict_reply.command ≡ none)
handle-error_example =
    handle-error clock encoder decoder post 9 server create conflict_reply
      (Serves-IsConsistent encoder decoder clock files server server-Serves) conflicts
      conflict_is_error

-- a DELETE, and the server behind it
abbrev delete_reply : Reply
delete_reply =
    from_ret (answer server (with_body content 0 []))
      (handle encoder decoder clock delete 9 server create)

deletes : handle encoder decoder clock delete 9 server create ≡ ret delete_reply
unfolding handle start_server split_at strtoull
deletes = refl

Serves-IsConsistent_example : IsConsistent delete_reply.server
Serves-IsConsistent_example =
    Serves-IsConsistent encoder decoder clock files delete_reply.server
      (goes_on server-Serves (answers delete 9 create delete_reply deletes refl))

-- what a POST of {5: 7} creates behind the DELETE
abbrev created_map : HashMap
created_map = (insert_coreconf_hash_map create_map 5 (ref (uint_64 7))).0

create_parses :
    parse_put_request decoder 9 (some (191 ∷ 5 ∷ 7 ∷ 255 ∷ [])) ≡ ret (some (hashmap created_map))
unfolding parse_put_request major_type
create_parses = refl

empty_key : ReadsKey decoder (160 ∷ [])
unfolding stream_extract_first_sid_from_map major_type
empty_key fallback = (fallback, refl)

created_key : ReadsKey decoder (191 ∷ 5 ∷ 7 ∷ 255 ∷ [])
unfolding stream_extract_first_sid_from_map major_type
created_key fallback = (5, refl)

created_sized : 0 < size created_map
unfolding insert_coreconf_hash_map create_map ccoreconf_zcbor.HashMap.walk_chain
    ccoreconf_zcbor.HashMap.get_bucket ccoreconf_zcbor.HashMap.hash_key
created_sized = omega arith

created_fits : length (map_bytes laws created_map) ≤ 4096
unfolding insert_coreconf_hash_map cbor_bytes create_map ccoreconf_zcbor.HashMap.walk_chain
    ccoreconf_zcbor.HashMap.get_bucket ccoreconf_zcbor.HashMap.hash_key
    ccoreconf_zcbor.HashMap.set_bucket
created_fits = omega arith

created_shown : 0 < length (map_bytes laws created_map)
unfolding insert_coreconf_hash_map cbor_bytes create_map ccoreconf_zcbor.HashMap.walk_chain
    ccoreconf_zcbor.HashMap.get_bucket ccoreconf_zcbor.HashMap.hash_key
created_shown = omega arith

handle_delete-handle_post_example :
    (r : Reply) × (r' : Reply) × (handle_delete decoder server create ≡ ret r)
    × (handle_post clock encoder decoder 9 r.server create ≡ ret r')
    × (r'.response.code ≡ created)
    × (handle_get encoder r'.server create
        ≡ ret (answer r'.server (with_body content 140 (map_bytes laws created_map))))
handle_delete-handle_post_example =
    handle_delete-handle_post laws decoder clock files 9 server create create create
      (191 ∷ 5 ∷ 7 ∷ 255 ∷ []) created_map server-Serves (unfold get_content_format in refl)
      (unfold get_data in refl) create_parses empty_key created_key created_sized created_fits
      created_shown
