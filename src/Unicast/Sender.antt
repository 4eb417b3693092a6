-- ===== src/Unicast/Sender.antt =====
-- reliableSender of server/unicast/unicast.go: send, ackListener and handleDeadNode.
pub mod Retries
pub mod Send
pub mod DeadNode
use distributed_chat_applica.Prelude.{
  ℕ, zero, suc, ◌+◌, ◌%◌, ◌^◌, List, [], ◌∷◌, Bool, true, false, none, some, ◌==◌, if◌then◌else◌,
}
use distributed_chat_applica.Go.Text.{Bytes, has_prefix}
use distributed_chat_applica.Go.Map.{Map, get, put, delete, get_or}
use distributed_chat_applica.Go.Format.{sprintf}
use distributed_chat_applica.Go.Result.{ok, err, panic}
use distributed_chat_applica.Unicast.Datagram.{Message}
use distributed_chat_applica.Unicast.Codec.{encode_unicast_message, decode_unicast_message}

pub record Sender : Type 0 where
  pub uuid : Bytes
  pub msg_buf : Map Message
  pub peer_frame : Map ℕ
  pub ack_frame : Map Bool

-- The sender of NewReliableUnicast.
abbrev pub new_sender : Bytes → Sender
new_sender uuid = record { uuid = uuid; msg_buf = []; peer_frame = []; ack_frame = [] }

-- The frame that the next message to `uuid` gets; the count of a new peer starts at 0.
abbrev pub frame_for : Sender → Bytes → ℕ
frame_for s uuid = (get_or s.peer_frame uuid 0 + 1) % 2 ^ 64

abbrev pub message_for : Sender → Bytes → Bytes → Bytes → Message
message_for s ip uuid payload = record {
  response = 0;
  frame = frame_for s uuid;
  tries = 0;
  from_uuid = s.uuid;
  to_uuid = uuid;
  ip = ip;
  message = payload;
}

-- The part of send under its first lock.
unfoldable pub begin_send : Sender → Bytes → Bytes → Bytes → Sender
begin_send s ip uuid payload =
    let index = sprintf uuid (frame_for s uuid) in
    record s {
      peer_frame = put s.peer_frame uuid (frame_for s uuid);
      msg_buf = put s.msg_buf index (message_for s ip uuid payload);
      ack_frame = put s.ack_frame index false;
    }

-- The loop of handleDeadNode over the keys of ackFrame.
unfoldable pub forget : Map Bool → Bytes → Sender → Sender
forget [] uuid s = s
forget ((index, _) ∷ rest) uuid s = forget rest uuid (
    if has_prefix index uuid
    then record s { ack_frame = delete s.ack_frame index; msg_buf = delete s.msg_buf index }
    else s)

unfoldable pub handle_dead_node : Sender → Bytes → Sender
handle_dead_node s uuid =
    forget s.ack_frame uuid (record s { peer_frame = delete s.peer_frame uuid })

-- ackListener on sAckChan; on lAckChan it writes the encoded acknowledgement.
unfoldable pub on_s_ack : Sender → Bytes → Sender
on_s_ack s index = record s { ack_frame = delete s.ack_frame index }

unfoldable pub on_l_ack : Message → Bytes
on_l_ack m = encode_unicast_message m

-- What the surroundings do in one round of the retry loop: the write may fail, and other
-- goroutines change the sender's maps during the sleep.
pub record Round : Type 0 where
  pub write_fails : Bool
  pub others : Sender → Sender

-- `running` is no Go value: the loop has used up its fuel.
pub data Outcome : Type 0 where
  returned : Bool → Sender → Outcome
  panicked running : Outcome

-- The loop of send in round `i`, with the datagrams that were written. An address that does not resolve,
-- where sendUDP panics, is left out.
module _ (env : ℕ → Round) (ip uuid index : Bytes) where
  unfoldable pub send_loop : ℕ → ℕ → Sender → Bytes → Outcome × List Bytes
  send_loop zero i s datagram = (running, [])
  send_loop (suc fuel) i s datagram =
      let s' = (env i).others s in
      let dead : Outcome × List Bytes = (returned false (handle_dead_node s uuid), []) in
      let again = λ (m : Message).
        send_loop fuel (i + 1) s'
          (encode_unicast_message (record m { tries = (m.tries + 1) % 256 })) in
      let after_sleep : Outcome × List Bytes = elim (get s'.ack_frame index) [
        | none ↦ (returned true s', [])
        | some _ ↦ elim (decode_unicast_message datagram ip) [
          | ok m ↦ elim (m.tries == 20) [
            | true ↦ (returned false (handle_dead_node s' uuid), [])
            | false ↦ again m
          ]
          | err e ↦ (panicked, [])
          | panic ↦ (panicked, [])
        ]
      ] in
      if (env i).write_fails then dead else (after_sleep.0, datagram ∷ after_sleep.1)

-- send: at most 21 rounds.
unfoldable pub send : (ℕ → Round) → Sender → Bytes → Bytes → Bytes → Outcome × List Bytes
send env s ip uuid payload =
    send_loop env ip uuid (sprintf uuid (frame_for s uuid)) 21 0 (begin_send s ip uuid payload)
      (encode_unicast_message (message_for s ip uuid payload))
