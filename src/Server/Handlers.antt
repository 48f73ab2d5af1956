-- ===== src/Server/Handlers.antt =====
-- iot_containers/iot_apps/coreconf_server.c: the start of the server and its handlers by method and
-- resource, as a step relation on its variables.
use ccoreconf_zcbor.Common.{ℕ, ◌≡◌, [], ◌∷◌, ◌++◌, true, false, ◌&&◌, Option, none, some}
use ccoreconf_zcbor.Common.Text.{ascii}
use ccoreconf_zcbor.Zcbor.{Encoder, Decoder, ret}
use ccoreconf_zcbor.Value.{null_ref}
use ccoreconf_zcbor.Server.Stream.{Stream}
use ccoreconf_zcbor.Server.Sequence.{initial_stream}
use ccoreconf_zcbor.Server.Sids.{
  RuntimeSystemSids, RuntimeInterfacesSids, RuntimeOperationSids, FileSystem,
  compute_sid_fingerprint,
}
use ccoreconf_zcbor.Server.Load.{
  load_runtime_system_sids, load_runtime_interfaces_sids, load_runtime_operation_sids,
}
use ccoreconf_zcbor.Server.Notify.{publish_example_port_fault}
use ccoreconf_zcbor.Server.State.{Server, Request, Reply, Handler}
use ccoreconf_zcbor.Server.Time.{Clock}
use ccoreconf_zcbor.Server.Datastore.{handle_get, handle_put, handle_delete, handle_ipatch}
use ccoreconf_zcbor.Server.Operations.{handle_post}
use ccoreconf_zcbor.Server.Fetch.{handle_fetch}
use ccoreconf_zcbor.Server.Observe.{handle_stream_get, handle_stream_fetch, handle_sid_info}
use ccoreconf_zcbor.Server.Example.{init_ietf_example_datastore}

abbrev pub no_system_sids : RuntimeSystemSids
no_system_sids = record {
  sys_module = 0;
  clock = 0;
  clock_boot = 0;
  clock_current = 0;
  ntp_enabled = 0;
  ntp_server = 0;
  ntp_server_name = 0;
  ntp_server_prefer = 0;
  ntp_server_udp = 0;
  ntp_server_udp_address = 0;
  loaded = false;
}

abbrev pub no_interfaces_sids : RuntimeInterfacesSids
no_interfaces_sids = record {
  if_module = 0;
  iface = 0;
  iface_description = 0;
  iface_enabled = 0;
  iface_name = 0;
  iface_type = 0;
  iface_oper_status = 0;
  identity_ethernet_csmacd = 0;
  loaded = false;
}

abbrev pub no_operation_sids : RuntimeOperationSids
no_operation_sids = record {
  reboot_rpc_sid = 0;
  reboot_input_delay = 0;
  reset_action_sid = 0;
  reset_input_reset_at = 0;
  reset_output_finished_at = 0;
  loaded = false;
}

unfoldable pub second_event : Encoder → Option Stream → Option Stream
unfolding publish_example_port_fault
second_event zcbor none = none
second_event zcbor (some stream) =
    publish_example_port_fault zcbor (ascii "1/4/21" ++ (0 ∷ [])) (ascii "Open pin 5" ++ (0 ∷ []))
      stream

-- the example events in front of the loop: `none` where an assertion fails
unfoldable pub example_events : Encoder → Option Stream
unfolding publish_example_port_fault initial_stream second_event
example_events zcbor = second_event zcbor (
    publish_example_port_fault zcbor (ascii "0/4/21" ++ (0 ∷ [])) (ascii "Open pin 2" ++ (0 ∷ []))
      initial_stream)

-- all three dictionaries, `none` where one of them cannot be loaded
unfoldable pub load_all :
    FileSystem → Option (RuntimeSystemSids × RuntimeInterfacesSids × RuntimeOperationSids)
unfolding load_runtime_system_sids load_runtime_interfaces_sids load_runtime_operation_sids
load_all fs =
    let (sys, sys_ok) = load_runtime_system_sids fs no_system_sids in
    let (ifs, ifs_ok) = load_runtime_interfaces_sids fs no_interfaces_sids in
    let (ops, ops_ok) = load_runtime_operation_sids fs no_operation_sids in
    elim (sys_ok && ifs_ok && ops_ok) [ true ↦ some (sys, ifs, ops) | false ↦ none ]

unfoldable pub start_with :
    Option Stream
    → Option (RuntimeSystemSids × RuntimeInterfacesSids × RuntimeOperationSids)
    → Option Server
unfolding compute_sid_fingerprint init_ietf_example_datastore
start_with none sids = none
start_with (some stream) none = none
start_with (some stream) (some (sys, ifs, ops)) = some (
    init_ietf_example_datastore (record {
      datastore = null_ref;
      ds_exists = false;
      stream = stream;
      sys_sids = sys;
      if_sids = ifs;
      ops_sids = ops;
      sid_fingerprint = compute_sid_fingerprint sys ifs ops;
    }))

-- `main` in front of its loop, without the sockets: `none` where the server does not come up.
unfoldable pub start_server : Encoder → FileSystem → Option Server
unfolding example_events load_all start_with
start_server zcbor fs = start_with (example_events zcbor) (load_all fs)

-- the registered handlers: six of the resource `c`, two of `s`, one of `sid`
pub data Method : Type 0 where
  post fetch get ipatch put delete : Method
  stream_get stream_fetch sid_get : Method

module _ (encoder : Encoder) (decoder : Decoder) (clock : Clock) where
  unfoldable pub handle : Method → ℕ → Handler
  unfolding handle_post handle_fetch handle_get handle_ipatch handle_put handle_delete
      handle_stream_get handle_stream_fetch handle_sid_info
  handle post fuel = handle_post clock encoder decoder fuel
  handle fetch fuel = handle_fetch encoder decoder
  handle get fuel = handle_get encoder
  handle ipatch fuel = handle_ipatch decoder fuel
  handle put fuel = handle_put decoder fuel
  handle delete fuel = handle_delete decoder
  handle stream_get fuel = handle_stream_get
  handle stream_fetch fuel = handle_stream_fetch decoder
  handle sid_get fuel = handle_sid_info

  -- A request is answered.
  pub data Step (server server' : Server) : Type 0 where
    answers :
        (method : Method) (fuel : ℕ) (req : Request) (reply : Reply)
        → handle method fuel server req ≡ ret reply
        → server' ≡ reply.server
        → Step server server'

  -- the states after any number of requests
  pub data Serves (fs : FileSystem) : Server → Type 0 where
    starts : {server : Server} → start_server encoder fs ≡ some server → Serves fs server
    goes_on : {server server' : Server} → Serves fs server → Step server server' → Serves fs server'
