-- ===== src/Unicast/Listener.antt =====
-- reliableListener of server/unicast/unicast.go: one round of `start` for each datagram.
-- What a round sends to the channels comes back as a list of events, in the order of the sends.
pub mod Frames
pub mod Filed
pub mod Order
pub mod Gaps
pub mod Once
use distributed_chat_applica.Prelude.{
  ℕ, zero, suc, ◌+◌, ◌%◌, ◌^◌, ◌≡◌, List, [], ◌∷◌, ◌++◌, Bool, none, some, ltb, ◌==◌, if◌then◌else◌,
  length, take, map,
}
use distributed_chat_applica.Go.Text.{Bytes, str_eq}
use distributed_chat_applica.Go.Map.{Map, get, put, delete, get_or}
use distributed_chat_applica.Go.Format.{sprintf}
use distributed_chat_applica.Go.Result.{Result, ok, err, panic, ◌>>=◌}
use distributed_chat_applica.Unicast.Datagram.{Message}
use distributed_chat_applica.Unicast.Codec.{decode_unicast_message}
use distributed_chat_applica.Unicast.Codec.Malformed.{buffer_size}

pub record Listener : Type 0 where
  pub uuid : Bytes
  pub msg_buf : Map Message
  pub peer_frame : Map ℕ

-- The listener of NewReliableUnicast.
abbrev pub new_listener : Bytes → Listener
new_listener uuid = record { uuid = uuid; msg_buf = []; peer_frame = [] }

pub data Event : Type 0 where
  s_ack : Bytes → Event  -- s.sAckChan <- msgIndex
  l_ack : Message → Event  -- s.lAckChan <- &Message{...}
  deliver : Message → Event  -- s.msgChan <- msg

-- s.peerFrame[uuid]: 0 for a new peer
unfoldable pub last_frame : Listener → Bytes → ℕ
last_frame l uuid = get_or l.peer_frame uuid 0

-- uint64 addition
abbrev pub next_frame : ℕ → ℕ
next_frame n = (n + 1) % 2 ^ 64

-- The acknowledgement of `m`.
unfoldable pub ack_for : Listener → Message → Message
ack_for l m = record {
  response = 1;
  frame = m.frame;
  tries = m.tries;
  from_uuid = l.uuid;
  to_uuid = m.from_uuid;
  ip = m.ip;
  message = [];
}

-- The loop over the buffered messages: look up the index of the peer's last frame, send what is
-- there and delete it.
unfoldable pub flush : ℕ → Listener → Bytes → Listener × List Event
flush zero l from = (l, [])
flush (suc fuel) l from = elim (get l.msg_buf (sprintf from (last_frame l from))) [
  | none ↦ (l, [])
  | some m ↦
      let (l', sent) =
        flush fuel (record l { msg_buf = delete l.msg_buf (sprintf from (last_frame l from)) })
          from in
      (l', deliver m ∷ sent)
]

-- if !ok { s.peerFrame[msg.FromUUID] = 0 }
unfoldable pub note_peer : Listener → Bytes → Listener
note_peer l from = elim (get l.peer_frame from) [
  | none ↦ record l { peer_frame = put l.peer_frame from 0 }
  | some _ ↦ l
]

-- s.peerFrame[msg.FromUUID] += 1
unfoldable pub advance : Listener → Bytes → Listener
advance l from = record l { peer_frame = put l.peer_frame from (next_frame (last_frame l from)) }

-- The frame that was awaited: it is sent on, then the loop runs if anything is buffered.
-- Two rounds of the loop are enough.
unfoldable pub accept : Listener → Message → Listener × List Event
accept l m =
    let l' = advance l m.from_uuid in
    let (l'', sent) = if ltb 0 (length l'.msg_buf) then flush 2 l' m.from_uuid else (l', []) in
    (l'', deliver m ∷ sent)

-- Buffer a frame that is ahead, drop one that is behind, accept the next one.
unfoldable pub in_order : Listener → Message → Listener × List Event
in_order l m =
    let next = next_frame (last_frame l m.from_uuid) in
    let l' = note_peer l m.from_uuid in
    if ltb next m.frame
    then (record l' { msg_buf = put l'.msg_buf (sprintf m.from_uuid m.frame) m }, [])
    else if ltb m.frame next
    then (l', [])
    else accept l' m

-- The round after the datagram is decoded.
unfoldable pub on_message : Listener → Message → Listener × List Event
on_message l m =
    if str_eq m.to_uuid l.uuid
    then if m.response == 1
      then (l, s_ack (sprintf m.from_uuid m.frame) ∷ [])
      else (let (l', sent) = in_order l m in (l', l_ack (ack_for l m) ∷ sent))
    else (l, [])

-- The message beside a decoding error, &Message{}.
abbrev pub zero_message : Message
zero_message = record {
  response = 0;
  frame = 0;
  tries = 0;
  from_uuid = [];
  to_uuid = [];
  ip = [];
  message = [];
}

-- The whole round: what does not fit the buffer is lost, and after a decoding error the round goes
-- on with the zero message.
unfoldable pub receive : Listener → Bytes → Bytes → Result (Listener × List Event)
receive l datagram ip = elim (decode_unicast_message (take buffer_size datagram) ip) [
  | ok m ↦ ok (on_message l m)
  | err e ↦ ok (on_message l zero_message)
  | panic ↦ panic
]

-- The rounds of the loop for the datagrams that come from one address.
unfoldable pub receive_all : Listener → Bytes → List Bytes → Result (Listener × List Event)
receive_all l ip [] = ok (l, [])
receive_all l ip (datagram ∷ datagrams) = receive l datagram ip >>= λ (l', sent).
    receive_all l' ip datagrams >>= λ (l'', more). ok (l'', sent ++ more)

-- The rounds of the loop for a sequence of decoded messages.
unfoldable pub run : Listener → List Message → Listener × List Event
run l [] = (l, [])
run l (m ∷ ms) =
    let (l', sent) = on_message l m in let (l'', more) = run l' ms in (l'', sent ++ more)
