-- ===== src/Multicast/Group.antt =====
-- Several nodes of server/multicast/multicast.go in one session, with the datagrams between them.
pub mod Sound
mod Sites
mod Heard
mod Start
mod Consistent
mod Sending
mod Kept
mod Settled
mod Settles
mod Complete
mod Places
pub mod Arrived
pub mod Session
mod Runs
pub mod Order
use distributed_chat_applica.Prelude.{
  ℕ, ◌+◌, ◌^◌, ◌≤◌, ◌<◌, ◌≡◌, ◌≢◌, List, [], ◌∷◌, ◌++◌, if◌then◌else◌, length, Occurs, true, false,
}
use distributed_chat_applica.Go.Text.{Bytes, str_eq}
use distributed_chat_applica.Go.Map.{Map, get, get_or}
use distributed_chat_applica.Go.FrameMap.{erase}
use distributed_chat_applica.Go.Result.{ok}
use distributed_chat_applica.Message as Body
use distributed_chat_applica.Multicast.Datagram.{Message}
use distributed_chat_applica.Multicast.Codec.RoundTrip.{IsSendable}
use distributed_chat_applica.Multicast.HoldBack.Picked.{Removed}
use distributed_chat_applica.Multicast.Node.{
  Multicaster, new_reliable_multicast, deliver_messages, on_ack, remove_dead_node,
}
use distributed_chat_applica.Multicast.Send.{multicast_of, send_message}
use distributed_chat_applica.Multicast.Listen.{Event, ack, deliver, arrived, receive}
use distributed_chat_applica.Multicast.Reach.Trace.{delivered}
use distributed_chat_applica.Unicast.Codec.Malformed.{buffer_size}

-- A node, and the goroutines that its listener started, by their messages: `waiting` have not begun,
-- `begun` have put the message into the queue, and have given the lock back, but have not called
-- DeliverMessages. All messages that the node has sent or delivered are in `log`, the last one first.
pub record Site : Type 0 where
  pub node : Multicaster
  pub waiting : List Message
  pub begun : List Message
  pub log : List Message

-- The nodes by their ids, the datagrams that were written, each with the address of its sender, and
-- the messages that were sent, as they arrive.
pub record World : Type 0 where
  pub site : Bytes → Site
  pub net : List (Bytes × Bytes)
  pub sent : List Message

unfoldable pub put_site : (Bytes → Site) → Bytes → Site → Bytes → Site
put_site sites i s k = if str_eq i k then s else sites k

abbrev pub logged : List Message → List Message → List Message
logged log [] = log
logged log (m ∷ ms) = logged (m ∷ log) ms

-- The messages for which the listener starts a goroutine.
abbrev pub arrivals : List Event → List Message
arrivals [] = []
arrivals (arrived m ∷ es) = m ∷ arrivals es
arrivals (deliver m ∷ es) = arrivals es
arrivals (ack ip uuid d ∷ es) = arrivals es

-- What a node can send: a message that fits its fields and the receive buffer, that Decode reads,
-- and that announces no new node, which no server does; and a count that does not wrap around.
pub record CanSend (m : Multicaster) (data_bytes datagram : Bytes) : Type 0 where
  pub fits : IsSendable (multicast_of m data_bytes)
  pub short : length datagram ≤ buffer_size
  pub body : Body.Message
  pub reads : Body.decode data_bytes ≡ ok body
  pub kind : body.type ≢ Body.new_node
  pub below : get_or m.vector_clock m.id 0 + 1 < 2 ^ 32

-- The world with another state of one node.
abbrev pub with_site : World → Bytes → Site → World
with_site w i s = record w { site = put_site w.site i s }

-- A node after a round of its listener, which left `m` and the events.
abbrev pub site_heard : Site → Multicaster → List Event → Site
site_heard s m es = record s {
  node = m;
  waiting = s.waiting ++ arrivals es;
  log = logged s.log (delivered es);
}

-- The two parts of the goroutine for a message, each under the lock; `rest` is what is left of the
-- goroutines that wait for this part.
abbrev pub site_queued : Site → Message → List Message → Site
site_queued s msg rest = record s {
  node = record s.node { hold_back_queue = s.node.hold_back_queue ++ (msg ∷ []) };
  waiting = rest;
  begun = msg ∷ s.begun;
}

abbrev pub site_delivered : Site → List Message → Site
site_delivered s rest = record s {
  node = (deliver_messages s.node).0;
  begun = rest;
  log = logged s.log (deliver_messages s.node).1;
}

-- The members of the session, and the address of each.
module _ (ids : List Bytes) (address : Bytes → Bytes) where
  abbrev pub message_at : Bytes → Multicaster → Bytes → Message
  message_at i m data_bytes = record (multicast_of m data_bytes) { ip = address i }

  -- The world after SendMessage, which left `m` and wrote the datagram.
  abbrev pub world_sent : World → Bytes → Bytes → Multicaster → Bytes → World
  world_sent w i data_bytes m datagram =
      let msg = message_at i (w.site i).node data_bytes in
      record {
        site = put_site w.site i (record (w.site i) { node = m; log = msg ∷ (w.site i).log });
        net = (datagram, address i) ∷ w.net;
        sent = msg ∷ w.sent;
      }

  -- One step of one member: the locked part of SendMessage, a round of the listener, the two
  -- parts of its goroutine for a message, an acknowledgement, the end of SendMessage's goroutine, and RemoveDeadNode of the
  -- leader. A datagram that was written may arrive at any member at any later time, any number of
  -- times, or never, and the goroutines of a listener run in any order.
  pub data Move (w : World) : World → Type 0 where
    sends :
        (i data_bytes datagram : Bytes) {m : Multicaster}
        → Occurs i ids
        → send_message (w.site i).node data_bytes ≡ ok (m, datagram)
        → CanSend (w.site i).node data_bytes datagram
        → Move w (world_sent w i data_bytes m datagram)
    hears :
        (i datagram ip : Bytes) (es : List Event) {m : Multicaster}
        → Occurs i ids
        → Occurs (datagram, ip) w.net
        → receive (w.site i).node datagram ip ≡ ok (m, es)
        → Move w (with_site w i (site_heard (w.site i) m es))
    queues :
        (i : Bytes) (msg : Message) (rest : List Message)
        → Occurs i ids
        → Removed msg rest (w.site i).waiting
        → Move w (with_site w i (site_queued (w.site i) msg rest))
    delivers :
        (i : Bytes) (msg : Message) (rest : List Message)
        → Occurs i ids
        → Removed msg rest (w.site i).begun
        → Move w (with_site w i (site_delivered (w.site i) rest))
    acked :
        (i uuid : Bytes) (frame : ℕ)
        → Occurs i ids
        → Move w (with_site w i (record (w.site i) { node = on_ack (w.site i).node uuid frame }))
    settles :
        (i : Bytes) (frame : ℕ)
        → Occurs i ids
        → Move w (
            with_site w i (record (w.site i) {
              node = record (w.site i).node { buffer_ack = erase (w.site i).node.buffer_ack frame };
            }))
    forgets :
        (i dead : Bytes)
        → Occurs i ids
        → Move w
            (with_site w i (record (w.site i) { node = remove_dead_node (w.site i).node dead }))

  pub data Run (w : World) : World → Type 0 where
    start : Run w w
    after : {u v : World} → Run w u → Move u v → Run w v

  -- The session begins: each member has made its multicaster with the ids of the members, in some
  -- order, and nothing is sent.
  pub record IsNew (w : World) : Type 0 where
    pub peers : Bytes → List Bytes
    pub made : (i : Bytes) → Occurs i ids → new_reliable_multicast i (peers i) ≡ ok (w.site i).node
    pub all_there : (i k : Bytes) → Occurs i ids → Occurs k ids → Occurs k (peers i)
    pub no_others : (i k : Bytes) → Occurs i ids → Occurs k (peers i) → Occurs k ids
    pub no_waiting : (i : Bytes) → Occurs i ids → (w.site i).waiting ≡ []
    pub no_begun : (i : Bytes) → Occurs i ids → (w.site i).begun ≡ []
    pub no_log : (i : Bytes) → Occurs i ids → (w.site i).log ≡ []
    pub no_net : w.net ≡ []
    pub no_sent : w.sent ≡ []
