-- ===== src/Serialization.antt =====
-- src/serialization.c: the values as CBOR, over the calls of zcbor.
pub mod Encode
pub mod Decode
pub mod KeyMapping
pub mod Sound
pub mod Stuck
pub mod Bytes
