-- ===== src/Lib.antt =====
-- The CORECONF library of this repository: YANG data as values keyed by SIDs, its CBOR encoding, and
-- the CORECONF operations on a datastore.
--
-- The parts, and how they interact. A datastore is a `CoreconfValueT` that holds a hash map from
-- SIDs to values (src/coreconfTypes.c). src/serialization.c writes values as CBOR and reads them,
-- by calls of the zcbor library. Each operation has a file that writes its messages, reads them and
-- applies them to the datastore: src/get.c, src/put.c, src/fetch.c, src/post.c, src/ipatch.c and
-- src/delete.c. src/coreconfManipulation.c finds the path from the root to a SID and walks along
-- it, with the lists of src/sid.c. The server (iot_containers/iot_apps/coreconf_server.c) applies
-- the operations and keeps the latest notifications in a stream that clients read and observe. The
-- client (iot_containers/iot_apps/coreconf_cli.c) turns what the user types into requests.
--
-- The files. A function keeps its name, in snake case; the file of a component holds its definitions
-- or passes on its children.
--   Common         lists, Boolean tests, decimals and C's signed integers over the native numbers
--   Value          include/coreconfTypes.h and the create functions of src/coreconfTypes.c;
--                  Value/Number getCoreconfValueAsUint64
--   HashMap        insertCoreconfHashMap, deleteFromCoreconfHashMap, getCoreconfHashMap and
--                  iterateCoreconfHashMap; Buckets has the invariant `IsValid` and the abstract map
--                  `view`; Insert, Delete, Lookup and Iterate have the behaviour of each operation
--   Zcbor          the calls of zcbor as the records `Encoder` and `Decoder`; Laws what the encoding
--                  code relies on, Sequences the loops that write one item after the other
--   Serialization  Encode coreconfToCBOR, Decode cborToCoreconfValue with _parse_array and _parse_map;
--                  Bytes, Sound and Stuck their properties; KeyMapping the codec of key mappings, and
--                  its properties below it
--   Get, Put       src/get.c and src/put.c; Get/Bytes the messages that hold a whole map
--   Fetch          src/fetch.c: Resolve the identifiers, Encode and Parse the messages; Plain, Bytes,
--                  Leads, RoundTrip, Terminates and Agree their properties
--   Post           src/post.c: Items, Encode and Parse; Bytes the properties of the messages
--   Ipatch         src/ipatch.c: apply_ipatch; Entries the entries of lists, Raw apply_ipatch_raw,
--                  Request the messages; Apply, Lists and Valid their properties
--   Delete         src/delete.c; Query and Apply its properties
--   Sid            the dynamic lists of src/sid.c; Compare compareDynamicLongList; Text the SIDs and
--                  paths as texts, with the range error of `errno` as an argument; Printed their
--                  round trip
--   Manipulation   src/coreconfManipulation.c: Lookup and Examine; Path the property of
--                  the paths to SIDs
--   Server         iot_containers/iot_apps/coreconf_server.c. Uint the CBOR that it writes by hand,
--                  Stream the events; Reads, Log and Sequence their properties. Sids and Load the
--                  SIDs from its files, and their fingerprint. Notify what a change pushes, Filter
--                  the filter of a FETCH of the stream, Keys the keys of an event, and Filtered and
--                  Picked what it lets through. State the global variables with requests and
--                  responses. Datastore handle_get, handle_put, handle_delete, handle_ipatch and
--                  the creation in handle_post; Time the time stamps; Operations the calls of
--                  handle_post; Fetch handle_fetch; Observe the handlers of the stream and of the
--                  fingerprint. Example the first datastore, Handlers the start in main and the
--                  steps from request to request. Effect, Changes, Answers, Served and Start what a
--                  request does to the variables; Stored, Identifiers, Leads, Found, Restored,
--                  Calls and Called what it returns; Ends that its loops end
--   Client         iot_containers/iot_apps/coreconf_cli.c: Scan numbers in texts, Compat
--                  check_server_sid_compatibility, Values parse_value, Tokenize tokenize, Commands
--                  the commands up to the request that they send; Agree, Complete, Shorter, Parsed
--                  and Put their properties
--   Tests          the theorems at concrete inputs, on a codec that stands in for zcbor
--
-- How the code is rendered. A value owns what its pointers lead to; a pointer that may be NULL is a
-- `Ref`. Allocation does not fail, and freeing does not show. A C string is its bytes in front of the
-- NUL, a double its bits. Signed and unsigned integers keep their wrap-around where the code relies
-- on it. A buffer for output is its size, and what an encoding function returns is the bytes that it
-- leaves there, none for 0; `wrap_instance` of the server also has what is left in front of a 0. A
-- read through a NULL pointer, or of a byte behind the input, is a result of its own.
--
-- Fuel. `count_sids`, `count_iids` and the loops over the maps and items of a payload take the
-- number of its bytes: a round that goes on has read a byte. `query_loop` takes the length of the
-- query: a round drops a byte at least. `cbor_to_coreconf_value` takes its fuel as an argument, one
-- unit for each call and each round, since the loop of `_parse_array` has no bound of its own. The
-- loops of `cbor_to_key_mapping_hash_map` take 52 rounds each: each round adds to the counter that
-- stops both. `find_requirement_for_sid` takes more than the number of parents in the index: a
-- round takes one. The loops of the server over the maps and pairs of a payload or an event take
-- the number of its bytes. `parse_value` of the client takes one unit more than the bytes of the
-- text. A handler that decodes a value takes the fuel of `cbor_to_coreconf_value` as an argument.
--
-- The definitions follow the code where the headers of src/include say otherwise: the content formats
-- of the datastore and of patches, the code of a PUT that creates, the query of a DELETE, and the form
-- of the response to FETCH. A theorem that covers such a case names it.
--
-- Not modelled. zcbor (coreconf_zcbor_generated/) and the generic hash map (src/hashmap.c) are
-- copies of other projects, and are parameters. Of the client
-- (iot_containers/iot_apps/coreconf_cli.c) store and demo are left out, and the loop that reads
-- commands; `strtod` is a parameter. Of the server and the client, the sockets, DTLS and what is
-- printed are left out; the files are a function from paths to bytes, and the calendar of the
-- system is the record `Clock`. The callbacks of src/sid.c that hash or compare texts are left out
-- with the hash map that calls them. The print and free functions do output or release memory.
pub mod Common
pub mod Value
pub mod HashMap
pub mod Sid
pub mod Manipulation
pub mod Zcbor
pub mod Serialization
pub mod Get
pub mod Put
pub mod Fetch
pub mod Post
pub mod Ipatch
pub mod Delete
pub mod Server
pub mod Client
pub mod Tests
