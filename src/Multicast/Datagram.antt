-- ===== src/Multicast/Datagram.antt =====
-- Message of server/multicast/multicast.go.
use distributed_chat_applica.Prelude.{ℕ}
use distributed_chat_applica.Go.Text.{Bytes}
use distributed_chat_applica.Go.Map.{Map}

pub record Message : Type 0 where
  pub frame : ℕ  -- uint32
  pub ip : Bytes
  pub uuid : Bytes
  pub vector_clock : Map ℕ  -- map[string]uint32
  pub message : Bytes
