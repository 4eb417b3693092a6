-- ===== src/Multicast.antt =====
-- server/multicast/multicast.go: the reliable, causally ordered multicast.
pub mod Datagram
pub mod Codec
pub mod Clock
pub mod HoldBack
pub mod Node
pub mod Send
pub mod Listen
pub mod Reach
pub mod Group
mod Runs
