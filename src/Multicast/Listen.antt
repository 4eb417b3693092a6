-- ===== src/Multicast/Listen.antt =====
-- StartListener of server/multicast/multicast.go: one round for each datagram, and the goroutine
-- that it starts for each message.
pub mod Malformed
use distributed_chat_applica.Prelude.{
  ℕ, zero, suc, ◌+◌, ◌-◌, ◌%◌, ◌^◌, List, [], ◌∷◌, ◌++◌, Bool, true, false, none, some, ltb, ◌==◌,
  if◌then◌else◌, length, map, replicate, take,
}
use distributed_chat_applica.Go.Text.{Bytes, str_eq}
use distributed_chat_applica.Go.Map.{Map, get, put, delete}
use distributed_chat_applica.Go.FrameMap.{FrameMap, find, store, erase}
use distributed_chat_applica.Go.Result.{Result, ok, err, panic}
use distributed_chat_applica.Message as Body
use distributed_chat_applica.Message.New.{new_multicast_ack_message}
use distributed_chat_applica.Multicast.Datagram.{Message}
use distributed_chat_applica.Multicast.Codec.{encode_multicast_message, decode_multicast_message}
use distributed_chat_applica.Multicast.Clock.{tick}
use distributed_chat_applica.Multicast.HoldBack.{deliver_loop}
use distributed_chat_applica.Unicast.Codec.Malformed.{buffer_size}
use distributed_chat_applica.Multicast.Node.{
  Multicaster, deliver_messages, remove_dead_node, add_new_node,
}

pub data Event : Type 0 where
  ack : Bytes → Bytes → Bytes → Event  -- go m.unicast.SendMessage(ip, uuid, data)
  deliver : Message → Event  -- m.msgChan <- msg
  arrived : Message → Event  -- go func(msg Message)

-- The message beside an error of the decoder: &Message{}, up to the stamps it read before.
abbrev pub zero_message : Message
zero_message = record { frame = 0; ip = []; uuid = []; vector_clock = []; message = [] }

-- A new or a dead node that the message announces.
unfoldable pub on_body : Multicaster → Body.Message → Multicaster × List Event
on_body m body =
    let (m', sent) = if body.type == Body.new_node then add_new_node m body.uuid else (m, []) in
    (if body.type == Body.dead_node then remove_dead_node m' body.uuid else m', map deliver sent)

-- The round after the datagram is decoded. An error of message.Decode is not looked at, so the type
-- of a nil message is read.
unfoldable pub on_multicast : Multicaster → Message → Result (Multicaster × List Event)
on_multicast m msg =
    if str_eq msg.uuid m.id then ok (m, []) else elim (new_multicast_ack_message msg.frame) [
      | ok data_bytes ↦ elim (Body.decode msg.message) [
        | ok body ↦
            let (m', sent) = on_body m body in
            ok (m', ack msg.ip msg.uuid data_bytes ∷ (sent ++ (arrived msg ∷ [])))
        | err e ↦ panic
        | panic ↦ panic
      ]
      | err e ↦ panic
      | panic ↦ panic
    ]

unfoldable pub receive : Multicaster → Bytes → Bytes → Result (Multicaster × List Event)
receive m datagram ip = elim (decode_multicast_message (take buffer_size datagram) ip) [
  | ok msg ↦ on_multicast m msg
  | err e ↦ on_multicast m zero_message
  | panic ↦ panic
]

-- The goroutine for a message: into the queue, then deliver what can be.
unfoldable pub hold_back : Multicaster → Message → Multicaster × List Event
hold_back m msg =
    let (m', sent) =
      deliver_messages (record m { hold_back_queue = m.hold_back_queue ++ (msg ∷ []) }) in
    (m', map deliver sent)
