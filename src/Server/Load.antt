-- ===== src/Server/Load.antt =====
-- iot_containers/iot_apps/coreconf_server.c: the loading of the SIDs. The result of a loading function
-- is the record that it fills, and whether it returns 0. A record keeps what was found in front of a
-- failure.
use ccoreconf_zcbor.Common.{
  ℕ, List, [], ◌∷◌, ◌++◌, Bool, true, false, ◌&&◌, ◌||◌, Option, none, some,
}
use ccoreconf_zcbor.Common.Text.{ascii}
use ccoreconf_zcbor.Server.Sids.{
  RuntimeSystemSids, RuntimeInterfacesSids, RuntimeOperationSids, FileSystem,
  parse_sid_after_identifier, load_text_from_candidates, field_of,
}

unfoldable pub notification_candidates : List (List ℕ)
notification_candidates =
    ascii "sid/ietf-comi-notification.sid"
    ∷ ascii "../sid/ietf-comi-notification.sid"
    ∷ ascii "../../sid/ietf-comi-notification.sid"
    ∷ ascii "/app/sid/ietf-comi-notification.sid"
    ∷ []

-- the notification SID; `none` for -1
unfoldable pub load_notification_sid : FileSystem → Option ℕ
unfolding load_text_from_candidates parse_sid_after_identifier notification_candidates
load_notification_sid fs = elim (load_text_from_candidates fs notification_candidates) [
  | none ↦ none
  | some text ↦ parse_sid_after_identifier text (ascii "/ietf-comi-notification:notification")
]

-- the five places where a file of SIDs is looked for
unfoldable pub sid_candidates : List ℕ → List (List ℕ)
sid_candidates name =
    (ascii "sid/" ++ name)
    ∷ (ascii "../sid/" ++ name)
    ∷ (ascii "../../sid/" ++ name)
    ∷ (ascii "../../../sid/" ++ name)
    ∷ (ascii "/app/sid/" ++ name)
    ∷ []

unfoldable pub read_system_sids : List ℕ → RuntimeSystemSids → RuntimeSystemSids × Bool
unfolding field_of
read_system_sids text out =
    let (sys_module, f0) = field_of text (ascii "\"identifier\": \"ietf-system\"") out.sys_module in
    let (clock, f1) = field_of text (ascii "/ietf-system:system-state/clock\"") out.clock in
    let (clock_boot, f2) =
      field_of text (ascii "/ietf-system:system-state/clock/boot-datetime\"") out.clock_boot in
    let (clock_current, f3) =
      field_of text (ascii "/ietf-system:system-state/clock/current-datetime\"")
        out.clock_current in
    let (ntp_enabled, f4) =
      field_of text (ascii "/ietf-system:system/ntp/enabled\"") out.ntp_enabled in
    let (ntp_server, f5) =
      field_of text (ascii "/ietf-system:system/ntp/server\"") out.ntp_server in
    let (name, f6) =
      field_of text (ascii "/ietf-system:system/ntp/server/name\"") out.ntp_server_name in
    let (prefer, f7) =
      field_of text (ascii "/ietf-system:system/ntp/server/prefer\"") out.ntp_server_prefer in
    let (udp, f8) =
      field_of text (ascii "/ietf-system:system/ntp/server/udp\"") out.ntp_server_udp in
    let (address, f9) =
      field_of text (ascii "/ietf-system:system/ntp/server/udp/address\"")
        out.ntp_server_udp_address in
    let found = f0 && f1 && f2 && f3 && f4 && f5 && f6 && f7 && f8 && f9 in
    (
      record {
        sys_module = sys_module;
        clock = clock;
        clock_boot = clock_boot;
        clock_current = clock_current;
        ntp_enabled = ntp_enabled;
        ntp_server = ntp_server;
        ntp_server_name = name;
        ntp_server_prefer = prefer;
        ntp_server_udp = udp;
        ntp_server_udp_address = address;
        loaded = out.loaded || found;
      },
      found,
    )

unfoldable pub load_runtime_system_sids : FileSystem → RuntimeSystemSids → RuntimeSystemSids × Bool
unfolding load_text_from_candidates read_system_sids sid_candidates
load_runtime_system_sids fs out =
    elim (load_text_from_candidates fs (sid_candidates (ascii "ietf-system.sid"))) [
      | none ↦ (out, false)
      | some text ↦ read_system_sids text out
    ]

unfoldable pub read_interfaces_sids : List ℕ → RuntimeInterfacesSids → RuntimeInterfacesSids × Bool
unfolding field_of
read_interfaces_sids text out =
    let (if_module, f0) =
      field_of text (ascii "\"identifier\": \"ietf-interfaces\"") out.if_module in
    let (iface, f1) = field_of text (ascii "/ietf-interfaces:interfaces/interface\"") out.iface in
    let (description, f2) =
      field_of text (ascii "/ietf-interfaces:interfaces/interface/description\"")
        out.iface_description in
    let (enabled, f3) =
      field_of text (ascii "/ietf-interfaces:interfaces/interface/enabled\"") out.iface_enabled in
    let (name, f4) =
      field_of text (ascii "/ietf-interfaces:interfaces/interface/name\"") out.iface_name in
    let (type_, f5) =
      field_of text (ascii "/ietf-interfaces:interfaces/interface/type\"") out.iface_type in
    let (oper_status, f6) =
      field_of text (ascii "/ietf-interfaces:interfaces/interface/oper-status\"")
        out.iface_oper_status in
    let (ethernet, f7) =
      field_of text (ascii "\"identifier\": \"ethernetCsmacd\"") out.identity_ethernet_csmacd in
    let found = f0 && f1 && f2 && f3 && f4 && f5 && f6 && f7 in
    (
      record {
        if_module = if_module;
        iface = iface;
        iface_description = description;
        iface_enabled = enabled;
        iface_name = name;
        iface_type = type_;
        iface_oper_status = oper_status;
        identity_ethernet_csmacd = ethernet;
        loaded = out.loaded || found;
      },
      found,
    )

unfoldable pub load_runtime_interfaces_sids :
    FileSystem → RuntimeInterfacesSids → RuntimeInterfacesSids × Bool
unfolding load_text_from_candidates read_interfaces_sids sid_candidates
load_runtime_interfaces_sids fs out =
    elim (load_text_from_candidates fs (sid_candidates (ascii "ietf-interfaces.sid"))) [
      | none ↦ (out, false)
      | some text ↦ read_interfaces_sids text out
    ]

unfoldable pub read_operation_sids : List ℕ → RuntimeOperationSids → RuntimeOperationSids × Bool
unfolding field_of
read_operation_sids text out =
    let (reboot, f0) = field_of text (ascii "/ietf-coreconf-actions:reboot\"") out.reboot_rpc_sid in
    let (delay, f1) =
      field_of text (ascii "/ietf-coreconf-actions:reboot/input/delay\"") out.reboot_input_delay in
    let (reset, f2) = field_of text (ascii "/ietf-coreconf-actions:reset\"") out.reset_action_sid in
    let (reset_at, f3) =
      field_of text (ascii "/ietf-coreconf-actions:reset/input/reset-at\"")
        out.reset_input_reset_at in
    let (finished, f4) =
      field_of text (ascii "/ietf-coreconf-actions:reset/output/reset-finished-at\"")
        out.reset_output_finished_at in
    let found = f0 && f1 && f2 && f3 && f4 in
    (
      record {
        reboot_rpc_sid = reboot;
        reboot_input_delay = delay;
        reset_action_sid = reset;
        reset_input_reset_at = reset_at;
        reset_output_finished_at = finished;
        loaded = out.loaded || found;
      },
      found,
    )

-- the SIDs that are built in
abbrev pub default_operation_sids : RuntimeOperationSids
default_operation_sids = record {
  reboot_rpc_sid = 61000;
  reboot_input_delay = 1;
  reset_action_sid = 60002;
  reset_input_reset_at = 1;
  reset_output_finished_at = 2;
  loaded = true;
}

-- Where there is no file, this is not a failure.
unfoldable pub load_runtime_operation_sids :
    FileSystem → RuntimeOperationSids → RuntimeOperationSids × Bool
unfolding load_text_from_candidates read_operation_sids sid_candidates
load_runtime_operation_sids fs out =
    elim (load_text_from_candidates fs (sid_candidates (ascii "ietf-coreconf-actions.sid"))) [
      | none ↦ (default_operation_sids, true)
      | some text ↦ read_operation_sids text out
    ]
