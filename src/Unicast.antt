-- ===== src/Unicast.antt =====
-- server/unicast/unicast.go: reliable unicast over UDP.
pub mod Datagram
pub mod Codec
pub mod Listener
pub mod Sender
pub mod EndToEnd
mod Runs
