-- ===== src/Post.antt =====
-- src/post.c: sequences of maps, each from an RPC or an action to its input or output.
pub mod Items
pub mod Encode
pub mod Parse
pub mod Bytes
