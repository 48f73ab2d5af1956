-- ===== src/Server/Example.antt =====
-- iot_containers/iot_apps/coreconf_server.c: the datastore that the server starts with.
use ccoreconf_zcbor.Common.{ℕ, ◌+◌, ◌-◌, ◌%◌, ◌^◌, true, false, ◌&&◌}
use ccoreconf_zcbor.Common.Text.{ascii}
use ccoreconf_zcbor.Value.{
  Value, HashMap, array, uint_64, hashmap, no_elements, element, ref, create_map,
  create_coreconf_string, create_coreconf_boolean,
}
use ccoreconf_zcbor.HashMap.{insert_coreconf_hash_map}
use ccoreconf_zcbor.Server.Sids.{RuntimeSystemSids, RuntimeInterfacesSids}
use ccoreconf_zcbor.Server.State.{Server}
use ccoreconf_zcbor.Server.Datastore.{with_datastore}

-- the difference of two SIDs, as a `uint64_t`
unfoldable pub delta : ℕ → ℕ → ℕ
delta sid base = (sid + 2 ^ 64 - base) % 2 ^ 64

-- an insertion whose result is dropped
unfoldable pub inserted : ℕ → Value → HashMap → HashMap
inserted key v m = (insert_coreconf_hash_map m key (ref v)).0

unfoldable pub example_clock : RuntimeSystemSids → HashMap
unfolding inserted delta create_coreconf_string
example_clock sys =
    inserted (delta sys.clock_current sys.clock)
      (create_coreconf_string (ascii "2016-10-26T12:16:31Z"))
      (inserted (delta sys.clock_boot sys.clock)
        (create_coreconf_string (ascii "2014-10-05T09:00:00Z")) create_map)

unfoldable pub example_interface : RuntimeInterfacesSids → HashMap
unfolding inserted delta create_coreconf_string create_coreconf_boolean
example_interface ifs = inserted (delta ifs.iface_oper_status ifs.iface) (uint_64 3) (
    inserted (delta ifs.iface_enabled ifs.iface) (create_coreconf_boolean true) (
      inserted (delta ifs.iface_type ifs.iface) (uint_64 ifs.identity_ethernet_csmacd) (
        inserted (delta ifs.iface_description ifs.iface)
          (create_coreconf_string (ascii "Ethernet adaptor"))
          (inserted (delta ifs.iface_name ifs.iface) (create_coreconf_string (ascii "eth0"))
            create_map))))

unfoldable pub example_server : RuntimeSystemSids → HashMap
unfolding inserted delta create_coreconf_string create_coreconf_boolean
example_server sys =
    let udp =
      inserted (delta sys.ntp_server_udp_address sys.ntp_server_udp)
        (create_coreconf_string (ascii "128.100.49.105")) create_map in
    inserted (delta sys.ntp_server_udp sys.ntp_server) (hashmap udp) (
      inserted (delta sys.ntp_server_prefer sys.ntp_server) (create_coreconf_boolean false) (
        inserted (delta sys.ntp_server_name sys.ntp_server)
          (create_coreconf_string (ascii "tac.nrc.ca")) create_map))

unfoldable pub list_of_one : HashMap → Value
list_of_one m = array (element (hashmap m) no_elements)

unfoldable pub example_datastore : RuntimeSystemSids → RuntimeInterfacesSids → HashMap
unfolding inserted example_clock example_interface example_server list_of_one
    create_coreconf_boolean
example_datastore sys ifs = inserted sys.ntp_server (list_of_one (example_server sys)) (
    inserted sys.ntp_enabled (create_coreconf_boolean false) (
      inserted ifs.iface (list_of_one (example_interface ifs))
        (inserted sys.clock (hashmap (example_clock sys)) create_map)))

-- Without both dictionaries the datastore stays as it is.
unfoldable pub init_ietf_example_datastore : Server → Server
unfolding example_datastore with_datastore
init_ietf_example_datastore server = elim (server.sys_sids.loaded && server.if_sids.loaded) [
  | true ↦ with_datastore server (example_datastore server.sys_sids server.if_sids)
  | false ↦ server
]
