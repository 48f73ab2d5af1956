-- ===== src/Fetch.antt =====
-- src/fetch.c: FETCH requests and responses, and the resolution of instance identifiers.
pub mod Resolve
pub mod Encode
pub mod Parse
pub mod Plain
pub mod Leads
pub mod Bytes
pub mod RoundTrip
pub mod Terminates
pub mod Agree
