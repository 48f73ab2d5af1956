-- ===== src/Server/Start.antt =====
-- iot_containers/iot_apps/coreconf_server.c: the server is consistent when it comes up, and stays so.
use ccoreconf_zcbor.Common.{
  ◌≡◌, ℕ, List, [], ◌∷◌, ◌++◌, Bool, false, ◌&&◌, Option, none, some, inl, inr, Bool-cases,
}
use ccoreconf_zcbor.Common.Text.{ascii}
use mathlib.Core.Path.{subst}
use ccoreconf_zcbor.Zcbor.{Encoder, Decoder}
use ccoreconf_zcbor.Value.{Value, HashMap, null_ref, ref}
use ccoreconf_zcbor.HashMap.Buckets.{IsValid, create_map-IsValid}
use ccoreconf_zcbor.HashMap.Lookup.{insert-IsValid}
use ccoreconf_zcbor.Server.Stream.{Stream}
use ccoreconf_zcbor.Server.Sequence.{Reached, initial_stream}
use ccoreconf_zcbor.Server.Sequence as Sequence
use ccoreconf_zcbor.Server.Sids.{
  RuntimeSystemSids, RuntimeInterfacesSids, RuntimeOperationSids, FileSystem,
  compute_sid_fingerprint,
}
use ccoreconf_zcbor.Server.Notify.{
  port_fault_map, published, publish_encoded, publish_example_port_fault,
}
use ccoreconf_zcbor.Server.State.{Server}
use ccoreconf_zcbor.Server.Time.{Clock}
use ccoreconf_zcbor.Server.Datastore.{with_datastore}
use ccoreconf_zcbor.Server.Example.{init_ietf_example_datastore, example_datastore, inserted}
use ccoreconf_zcbor.Server.Handlers.{
  Serves, starts, goes_on, second_event, example_events, load_all, start_with, start_server,
}
use ccoreconf_zcbor.Server.Served.{missing, there, IsConsistent, Step-IsConsistent}

inserted-IsValid : (key : ℕ) (v : Value) (m : HashMap) → IsValid m → IsValid (inserted key v m)
unfolding inserted
inserted-IsValid key v m valid = insert-IsValid m key (ref v) valid

example_datastore-IsValid :
    (sys : RuntimeSystemSids) (ifs : RuntimeInterfacesSids) → IsValid (example_datastore sys ifs)
unfolding example_datastore
example_datastore-IsValid sys ifs =
    inserted-IsValid _ _ _ (
      inserted-IsValid _ _ _ (inserted-IsValid _ _ _ (inserted-IsValid _ _ _ create_map-IsValid.0)))

init-IsConsistent :
    (server : Server) → IsConsistent server → IsConsistent (init_ietf_example_datastore server)
unfolding init_ietf_example_datastore with_datastore
init-IsConsistent server c = elim (Bool-cases (server.sys_sids.loaded && server.if_sids.loaded)) [
  | inl both ↦
      rw (both, init_ietf_example_datastore)
        (record {
          data_there = there _ (example_datastore-IsValid server.sys_sids server.if_sids);
          stream_reached = c.stream_reached;
        })
  | inr not_both ↦ rw (not_both, init_ietf_example_datastore) c
]

abbrev OptionReached : Option Stream → Type 0
OptionReached none = Unit
OptionReached (some s) = Reached s

published-Reached :
    (zcbor : Encoder) (bytes : List ℕ) (s : Stream)
    → Reached s
    → OptionReached (published zcbor bytes s)
unfolding published
published-Reached zcbor [] s r = tt
published-Reached zcbor (b ∷ bytes) s r = Sequence.goes_on r (Sequence.pushes (some (b ∷ bytes)))

publish_encoded-Reached :
    (zcbor : Encoder) (o : Option (Encoder.State zcbor × Bool)) (s : Stream)
    → Reached s
    → OptionReached (publish_encoded zcbor o s)
unfolding publish_encoded
publish_encoded-Reached zcbor none s r = tt
publish_encoded-Reached zcbor (some (st, ok)) s r = published-Reached zcbor _ s r

publish-Reached :
    (zcbor : Encoder) (name fault : List ℕ) (s : Stream)
    → Reached s
    → OptionReached (publish_example_port_fault zcbor name fault s)
unfolding publish_example_port_fault
publish-Reached zcbor name fault s r =
    publish_encoded-Reached zcbor
      (port_fault_map zcbor name fault (Encoder.new_encode_state zcbor 4 256 1)) s r

second_event-Reached :
    (zcbor : Encoder) (o : Option Stream) → OptionReached o → OptionReached (second_event zcbor o)
unfolding second_event
second_event-Reached zcbor none h = tt
second_event-Reached zcbor (some s) h =
    publish-Reached zcbor (ascii "1/4/21" ++ (0 ∷ [])) (ascii "Open pin 5" ++ (0 ∷ [])) s h

example_events-Reached : (zcbor : Encoder) → OptionReached (example_events zcbor)
unfolding example_events
example_events-Reached zcbor = second_event-Reached zcbor _ (
    publish-Reached zcbor (ascii "0/4/21" ++ (0 ∷ [])) (ascii "Open pin 2" ++ (0 ∷ []))
      initial_stream Sequence.starts)

start_with-IsConsistent :
    (o : Option Stream)
    (sids : Option (RuntimeSystemSids × RuntimeInterfacesSids × RuntimeOperationSids))
    (server : Server)
    → OptionReached o
    → start_with o sids ≡ some server
    → IsConsistent server
unfolding start_with
start_with-IsConsistent none sids server r h = cc
start_with-IsConsistent (some s) none server r h = cc
start_with-IsConsistent (some s) (some (sys, ifs, ops)) server r h =
    let empty : Server = record {
      datastore = null_ref;
      ds_exists = false;
      stream = s;
      sys_sids = sys;
      if_sids = ifs;
      ops_sids = ops;
      sid_fingerprint = compute_sid_fingerprint sys ifs ops;
    } in
    let e : init_ietf_example_datastore empty ≡ server = cc in
    subst IsConsistent e
      (init-IsConsistent empty (record { data_there = missing; stream_reached = r }))

-- Whatever requests it answers, the server is consistent: its flag says that there is a datastore
-- exactly where there is one, what is there is a valid map, and its stream is one that is reached by
-- pushing events.
pub Serves-IsConsistent :
    (encoder : Encoder) (decoder : Decoder) (clock : Clock) (fs : FileSystem) (server : Server)
    → Serves encoder decoder clock fs server
    → IsConsistent server
Serves-IsConsistent encoder decoder clock fs server (starts h) =
    unfold start_server in
    start_with-IsConsistent (example_events encoder) (load_all fs) server
      (example_events-Reached encoder) h
Serves-IsConsistent encoder decoder clock fs server (goes_on {server = before} r step) =
    Step-IsConsistent clock encoder decoder before server step
      (Serves-IsConsistent encoder decoder clock fs before r)
