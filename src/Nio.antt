-- ===== src/Nio.antt =====
-- nio/codec.go: the frames of messages between nodes.
pub mod Codec
pub mod Handler
pub mod Session
pub mod Acceptor
mod Tests
