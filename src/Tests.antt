-- ===== src/Tests.antt =====
-- The theorems at concrete inputs, and the codec that they run on.
pub mod Codec
pub mod Maps
pub mod Messages
pub mod Requests
pub mod Keys
pub mod Progress
pub mod Server
pub mod Paths
pub mod Startup
pub mod Handlers
pub mod Scans
pub mod Client
