-- ===== src/Multicast/Send.antt =====
-- SendMessage of server/multicast/multicast.go: what it does under its lock, and the goroutine it
-- starts, which writes the datagram again while an acknowledgement is missing.
pub mod Acks
pub mod Arrives
use distributed_chat_applica.Prelude.{
  ℕ, zero, suc, ◌+◌, ◌-◌, ◌%◌, ◌^◌, List, [], ◌∷◌, ◌++◌, Bool, true, false, none, some, ltb, ◌==◌,
  if◌then◌else◌, length, map, replicate,
}
use distributed_chat_applica.Go.Text.{Bytes, str_eq}
use distributed_chat_applica.Go.Map.{Map, get, put, delete}
use distributed_chat_applica.Go.FrameMap.{FrameMap, find, store, erase}
use distributed_chat_applica.Go.Result.{Result, ok, err, panic}
use distributed_chat_applica.Message as Body
use distributed_chat_applica.Message.New.{new_multicast_ack_message}
use distributed_chat_applica.Multicast.Datagram.{Message}
use distributed_chat_applica.Multicast.Codec.{encode_multicast_message, decode_multicast_message}
use distributed_chat_applica.Multicast.Clock.{tick}
use distributed_chat_applica.Multicast.HoldBack.{deliver_loop}
use distributed_chat_applica.Multicast.Node.{Multicaster, acks_for}

-- The loop of SendMessage over the other nodes.
unfoldable pub await_acks : FrameMap (Map Bool) → ℕ → List Bytes → FrameMap (Map Bool)
await_acks buffer frame [] = buffer
await_acks buffer frame (uid ∷ nodes) =
    await_acks (store buffer frame ((uid, false) ∷ [])) frame nodes

-- The message that SendMessage makes.
abbrev pub multicast_of : Multicaster → Bytes → Message
multicast_of m data_bytes = record {
  frame = m.frame;
  ip = [];
  uuid = m.id;
  vector_clock = tick m.vector_clock m.id;
  message = data_bytes;
}

-- The state after the part of SendMessage under its lock.
abbrev pub begin_multicast : Multicaster → Multicaster
begin_multicast m = record m {
  vector_clock = tick m.vector_clock m.id;
  buffer_ack = await_acks m.buffer_ack m.frame m.node_ids;
  frame = (m.frame + 1) % 2 ^ 32;
}

-- SendMessage up to the goroutine: the new state and the datagram. log.Fatal ends the process.
unfoldable pub send_message : Multicaster → Bytes → Result (Multicaster × Bytes)
send_message m data_bytes = elim (get m.vector_clock m.id) [
  | none ↦ panic
  | some _ ↦ ok (begin_multicast m, encode_multicast_message (multicast_of m data_bytes))
]

-- What the surroundings do in one round: m.quit is closed, the write fails, and other goroutines
-- change the state during the sleep.
pub record Round : Type 0 where
  pub quits : Bool
  pub write_fails : Bool
  pub others : Multicaster → Multicaster

-- The type in the log line is read from what the datagram decodes to; without a message there the
-- pointer is nil.
unfoldable pub logs : Bytes → Bool
logs datagram = elim (decode_multicast_message datagram (102 ∷ 111 ∷ 111 ∷ [])) [
  | ok msg ↦ elim (Body.decode msg.message) [ ok b ↦ true | err e ↦ false | panic ↦ false ]
  | err e ↦ false
  | panic ↦ false
]

-- The goroutine of SendMessage, with `rounds` left of its 20, from round `i` on: the state it
-- leaves and the datagrams it writes.
module _ (env : ℕ → Round) (datagram : Bytes) (frame : ℕ) where
  unfoldable pub rebroadcast : ℕ → ℕ → Multicaster → Result Multicaster × List Bytes
  rebroadcast zero i m = (ok m, [])
  rebroadcast (suc rounds) i m =
      let m' = (env i).others m in
      let again = rebroadcast rounds (i + 1) m' in
      let after_sleep : Result Multicaster × List Bytes =
        if ltb 0 (length (acks_for m'.buffer_ack frame))
        then again
        else (ok (record m' { buffer_ack = erase m'.buffer_ack frame }), []) in
      if (env i).quits
      then (ok m, [])
      else if (env i).write_fails
      then (panic, [])
      else if logs datagram
      then (after_sleep.0, datagram ∷ after_sleep.1)
      else (panic, datagram ∷ [])
