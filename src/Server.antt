-- ===== src/Server.antt =====
-- iot_containers/iot_apps/coreconf_server.c: the events of the stream, the dictionary of SIDs and the
-- handlers of the requests.
pub mod Uint
pub mod Stream
pub mod Reads
pub mod Log
pub mod Sequence
pub mod Sids
pub mod Load
pub mod Notify
pub mod Filter
pub mod State
pub mod Datastore
pub mod Time
pub mod Operations
pub mod Fetch
pub mod Observe
pub mod Example
pub mod Handlers
pub mod Effect
pub mod Changes
pub mod Answers
pub mod Served
pub mod Start
pub mod Stored
pub mod Identifiers
pub mod Leads
pub mod Found
pub mod Restored
pub mod Calls
pub mod Called
pub mod Filtered
pub mod Keys
pub mod Picked
pub mod Ends
