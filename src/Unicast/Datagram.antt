-- ===== src/Unicast/Datagram.antt =====
-- The message of server/unicast/unicast.go.
use distributed_chat_applica.Prelude.{ℕ}
use distributed_chat_applica.Go.Text.{Bytes}

pub record Message : Type 0 where
  pub response : ℕ  -- byte
  pub frame : ℕ  -- uint64
  pub tries : ℕ  -- uint8
  pub from_uuid : Bytes
  pub to_uuid : Bytes
  pub ip : Bytes
  pub message : Bytes
