-- ===== src/Tests/Handlers.antt =====
-- The theorems on the server's handlers, at small requests.
use ccoreconf_zcbor.Common.{
  ℕ, ◌≤◌, ◌<◌, ◌≡◌, refl, List, [], ◌∷◌, true, false, none, some, length, arith,
}
use ccoreconf_zcbor.Common.Text.{ascii}
use ccoreconf_zcbor.Server.Stream.{Stream, stream_push_event}
use ccoreconf_zcbor.Server.Sequence.{
  initial_stream, Reached, pushes, Reached-IsValid, flatten, newest,
}
use ccoreconf_zcbor.Server.Sequence as Sequence
use ccoreconf_zcbor.Server.Log.{log}
use ccoreconf_zcbor.Server.Filter.{stream_encode_sequence_filtered}
use mathlib.Core.List.{Memᴰ}
use mathlib.Core.List.Memᴰ.{head, tail}
use ccoreconf_zcbor.Server.Keys.{no_map, one_map, no_pair, one_pair, plain_key}
use ccoreconf_zcbor.Server.Picked.{
  Picked, nothing, picks, passes, stream_encode_sequence_filtered-Picked,
}
use ccoreconf_zcbor.Tests.Scans.{scans}
use ccoreconf_zcbor.Server.Load.{default_operation_sids}
use ccoreconf_zcbor.Zcbor.{ret, major_type}
use ccoreconf_zcbor.Value.{HashMap, uint_64, null_value, ref, hashmap, create_map, size}
use ccoreconf_zcbor.HashMap.{insert_coreconf_hash_map}
use ccoreconf_zcbor.Serialization.Bytes.{cbor_bytes, map_bytes}
use ccoreconf_zcbor.Post.Items.{PostItem, post_iid_sid}
use ccoreconf_zcbor.Post.Encode.{create_post_items}
use ccoreconf_zcbor.Post.Parse.{parse_post_items}
use ccoreconf_zcbor.Put.{parse_put_request}
use ccoreconf_zcbor.Server.State.{
  Server, Request, Reply, changed, content, with_body, answer, get_content_format, get_data,
}
use ccoreconf_zcbor.Server.Datastore.{current_datastore, handle_get, handle_put}
use ccoreconf_zcbor.Server.Operations.{handle_post}
use ccoreconf_zcbor.Server.Fetch.{Iid, iid_scalar, iid_list, request_iids, handle_fetch}
use ccoreconf_zcbor.Server.Effect.{is_error}
use ccoreconf_zcbor.Server.Stored.{handle_put-get}
use ccoreconf_zcbor.Server.Identifiers.{Identifiers, no_more, one_sid, one_entry}
use ccoreconf_zcbor.Server.Leads.{AllLead}
use ccoreconf_zcbor.Server.Found.{response_bytes, handle_fetch-bytes}
use ccoreconf_zcbor.Server.Called.{Answers, handle_post-Answers}
use ccoreconf_zcbor.Tests.Messages.{datastore, datastore-IsPlain}
use ccoreconf_zcbor.Tests.Codec.{encoder, decoder, laws}
use ccoreconf_zcbor.Tests.Startup.{no_server, from_ret, clock, create}

-- what a PUT of {5: 7} stores
abbrev put_map : HashMap
put_map = (insert_coreconf_hash_map create_map 5 (ref (uint_64 7))).0

put_map_parses :
    parse_put_request decoder 9 (some (191 ∷ 5 ∷ 7 ∷ 255 ∷ [])) ≡ ret (some (hashmap put_map))
unfolding parse_put_request major_type
put_map_parses = refl

abbrev put_reply : Reply
put_reply =
    from_ret (answer no_server (with_body content 0 [])) (handle_put decoder 9 no_server create)

puts : handle_put decoder 9 no_server create ≡ ret put_reply
unfolding handle_put major_type
puts = refl

map_sized : 0 < size put_map
unfolding insert_coreconf_hash_map create_map ccoreconf_zcbor.HashMap.walk_chain
    ccoreconf_zcbor.HashMap.get_bucket ccoreconf_zcbor.HashMap.hash_key
map_sized = omega arith

map_fits : length (map_bytes laws put_map) ≤ 4096
unfolding insert_coreconf_hash_map cbor_bytes create_map ccoreconf_zcbor.HashMap.walk_chain
    ccoreconf_zcbor.HashMap.get_bucket ccoreconf_zcbor.HashMap.hash_key
    ccoreconf_zcbor.HashMap.set_bucket
map_fits = omega arith

map_shown : 0 < length (map_bytes laws put_map)
unfolding insert_coreconf_hash_map cbor_bytes create_map ccoreconf_zcbor.HashMap.walk_chain
    ccoreconf_zcbor.HashMap.get_bucket ccoreconf_zcbor.HashMap.hash_key
map_shown = omega arith

handle_put-get_example :
    (put_reply.response.code ≡ changed)
    × (handle_get encoder put_reply.server create
        ≡ ret (answer put_reply.server (with_body content 140 (map_bytes laws put_map))))
handle_put-get_example =
    handle_put-get laws decoder 9 no_server create create (191 ∷ 5 ∷ 7 ∷ 255 ∷ []) put_map put_reply
      (unfold get_content_format in refl) (unfold get_data in refl) put_map_parses puts map_sized
      map_fits map_shown

-- a server that holds the datastore
abbrev holding : Server
holding = record no_server { datastore = ref (hashmap datastore); ds_exists = true }

-- [1000, "hi"], 1000
abbrev iid_request : List ℕ
iid_request =
    159 ∷ 27 ∷ 0 ∷ 0 ∷ 0 ∷ 0 ∷ 0 ∷ 0 ∷ 3 ∷ 232 ∷ 123 ∷ 0 ∷ 0 ∷ 0 ∷ 0 ∷ 0 ∷ 0 ∷ 0 ∷ 2 ∷ 104 ∷ 105
    ∷ 255 ∷ 27 ∷ 0 ∷ 0 ∷ 0 ∷ 0 ∷ 0 ∷ 0 ∷ 3 ∷ 232 ∷ []

abbrev fetch_request : Request
fetch_request = record { format_option = some 141; payload = some iid_request }

abbrev iids : List Iid
iids = iid_list 1000 (ascii "hi") ∷ iid_scalar 1000 ∷ []

iids_written : Identifiers decoder iid_request iids
unfolding major_type ccoreconf_zcbor.Ipatch.Raw.key_buffer
iids_written =
    one_entry 159 _ _ _ _ _ 1000 (ascii "hi") refl refl refl refl refl
      (one_sid 27 _ _ 1000 refl refl no_more)

response_fits : length (response_bytes laws datastore iids) ≤ 4096
unfolding insert_coreconf_hash_map cbor_bytes ccoreconf_zcbor.Server.Fetch.list_value
    ccoreconf_zcbor.HashMap.get_coreconf_hash_map create_map ccoreconf_zcbor.HashMap.walk_chain
    ccoreconf_zcbor.HashMap.get_bucket ccoreconf_zcbor.HashMap.hash_key
    ccoreconf_zcbor.HashMap.find_object ccoreconf_zcbor.HashMap.set_bucket
    ccoreconf_zcbor.Server.Fetch.scalar_value
response_fits = omega arith

handle_fetch-bytes_example :
    (handle_fetch encoder decoder holding fetch_request
      ≡ ret (answer holding (with_body content 142 (response_bytes laws datastore iids))))
    × AllLead datastore iids
handle_fetch-bytes_example =
    handle_fetch-bytes laws decoder holding fetch_request iid_request datastore
      (iid_list 1000 (ascii "hi")) (iid_scalar 1000 ∷ []) (unfold get_content_format in refl)
      (unfold get_data in refl) (unfold current_datastore in refl) datastore-IsPlain iids_written
      (omega arith) response_fits

-- a POST of the reboot
abbrev reboot_bytes : List ℕ
reboot_bytes = 191 ∷ 27 ∷ 0 ∷ 0 ∷ 0 ∷ 0 ∷ 0 ∷ 0 ∷ 238 ∷ 72 ∷ 246 ∷ 255 ∷ []

abbrev reboot_item : PostItem
reboot_item = record {
  iid_type = post_iid_sid;
  sid = 61000;
  str_key = none;
  value = ref null_value;
}

abbrev reboot_request : Request
reboot_request = record { format_option = some 142; payload = some reboot_bytes }

reboot_parses : parse_post_items decoder 9 (some reboot_bytes) ≡ ret (some (reboot_item ∷ []))
unfolding parse_post_items major_type ccoreconf_zcbor.Serialization.Decode.cbor_to_coreconf_value
reboot_parses = refl

-- a server with the operations that are built in
abbrev operating : Server
operating = record no_server { ops_sids = default_operation_sids }

abbrev reboot_reply : Reply
reboot_reply =
    from_ret (answer no_server (with_body content 0 []))
      (handle_post clock encoder decoder 9 operating reboot_request)

reboots : handle_post clock encoder decoder 9 operating reboot_request ≡ ret reboot_reply
unfolding handle_post major_type
reboots = refl

reboot_succeeds : is_error reboot_reply.response.code ≡ false
unfolding handle_post major_type
reboot_succeeds = refl

handle_post-Answers_example :
    (outs : List PostItem) × Answers clock default_operation_sids (reboot_item ∷ []) outs
    × (create_post_items encoder (some 4096) (some outs) ≡ some reboot_reply.response.body)
handle_post-Answers_example =
    handle_post-Answers clock encoder decoder 9 operating reboot_request reboot_bytes reboot_item []
      reboot_reply (unfold get_content_format in refl) (unfold get_data in refl) reboot_parses
      reboots reboot_succeeds

-- two events, of which the first has the key 5
abbrev two_events : Stream
two_events =
    stream_push_event (some (191 ∷ 5 ∷ 7 ∷ 255 ∷ []))
      (stream_push_event (some (191 ∷ 6 ∷ 8 ∷ 255 ∷ [])) initial_stream)

two_events-Reached : Reached two_events
two_events-Reached =
    Sequence.goes_on (Sequence.goes_on Sequence.starts (pushes (some (191 ∷ 6 ∷ 8 ∷ 255 ∷ []))))
      (pushes (some (191 ∷ 5 ∷ 7 ∷ 255 ∷ [])))

two_events-Picked : Picked decoder (5 ∷ []) (log two_events) (some (191 ∷ 5 ∷ 7 ∷ 255 ∷ []) ∷ [])
unfolding log stream_push_event initial_stream major_type
two_events-Picked =
    picks (some (191 ∷ 5 ∷ 7 ∷ 255 ∷ [])) (5 ∷ []) 5
      (one_map 191 (5 ∷ 7 ∷ 255 ∷ []) _ refl
        (one_pair 5 _ refl (plain_key 5 _ refl refl refl) refl (no_pair refl)) no_map)
      (head refl) (head refl)
      (passes (some (191 ∷ 6 ∷ 8 ∷ 255 ∷ [])) (6 ∷ [])
        (one_map 191 (6 ∷ 8 ∷ 255 ∷ []) _ refl
          (one_pair 6 _ refl (plain_key 6 _ refl refl refl) refl (no_pair refl)) no_map)
        only_six nothing)
  where
    only_6 : (sid : ℕ) → Memᴰ sid (6 ∷ []) → sid ≡ 6
    only_6 sid (head e) = e
    only_6 sid (tail m) = elim m [ ]

    only_5 : (sid : ℕ) → Memᴰ sid (5 ∷ []) → sid ≡ 5
    only_5 sid (head e) = e
    only_5 sid (tail m) = elim m [ ]

    only_six : (sid : ℕ) → Memᴰ sid (6 ∷ []) → ¬ Memᴰ sid (5 ∷ [])
    only_six sid m n = omega (arith, only_6 sid m, only_5 sid n)

two_fit : length (flatten (newest 0 (some (191 ∷ 5 ∷ 7 ∷ 255 ∷ []) ∷ []))) ≤ 100
two_fit = omega arith

stream_encode_sequence_filtered-Picked_example :
    stream_encode_sequence_filtered decoder (some 100) 0 (5 ∷ []) two_events
    ≡ ret (flatten (newest 0 (some (191 ∷ 5 ∷ 7 ∷ 255 ∷ []) ∷ [])))
stream_encode_sequence_filtered-Picked_example =
    stream_encode_sequence_filtered-Picked decoder 100 0 5 [] two_events
      (some (191 ∷ 5 ∷ 7 ∷ 255 ∷ []) ∷ []) scans (Reached-IsValid two_events two_events-Reached).0
      two_events-Picked two_fit
