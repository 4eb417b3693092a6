-- ===== src/Multicast/Send/Arrives.antt =====
-- SendMessage and StartListener of server/multicast/multicast.go together: a multicast from one
-- node at another one.
use distributed_chat_applica.Prelude.{
  ℕ, suc, ◌^◌, ◌<◌, ◌≤◌, length, take_all, ◌≡◌, refl, ◌∙◌, sym, ◌≢◌, List, [], ◌∷◌, ◌++◌, some, map,
  arith,
}
use distributed_chat_applica.Go.Text.{Bytes, str_eq_refl, str_eq_ne}
use distributed_chat_applica.Go.Map.{Map, get, get_or, get-put, Distinct}
use distributed_chat_applica.Go.Result.{ok}
use distributed_chat_applica.Multicast.Datagram.{Message}
use distributed_chat_applica.Multicast.Codec.{encode_multicast_message}
use distributed_chat_applica.Multicast.Codec.RoundTrip.{
  IsSendable, decode_multicast_message-encode_multicast_message,
}
use distributed_chat_applica.Multicast.Clock.{tick, next_stamp}
use distributed_chat_applica.Multicast.Clock.Causal.{Ready, Seen, can_deliver_iff}
use distributed_chat_applica.Multicast.HoldBack.Picked.{AllHeld}
use distributed_chat_applica.Multicast.Node.{Multicaster}
use distributed_chat_applica.Multicast.Node.Deliver.{deliver_messages_ready}
use distributed_chat_applica.Multicast.Send.{multicast_of, begin_multicast, send_message}
use distributed_chat_applica.Multicast.Listen.{
  deliver, ack, arrived, receive, on_multicast, on_body, hold_back,
}
use distributed_chat_applica.Message as Body
use distributed_chat_applica.Go.Binary.{put_be}
use distributed_chat_applica.Message.New.{new_multicast_ack_message}
use distributed_chat_applica.Unicast.Codec.Malformed.{buffer_size}

-- What a node with the clock `clock` knows of the sender: it has delivered all earlier messages of
-- the sender, and all that the sender has seen of the others.
pub record CaughtUp (s : Multicaster) (clock : Map ℕ) : Type 0 where
  pub count : ℕ
  pub sent : get s.vector_clock s.id ≡ some count
  pub delivered : get clock s.id ≡ some count
  pub fits : suc count < 2 ^ 32
  pub others : (k : Bytes) (n : ℕ) → k ≢ s.id → get clock k ≡ some n → Seen s.vector_clock k n

multicast-Ready :
    (s : Multicaster) (clock : Map ℕ) (data_bytes ip : Bytes)
    → CaughtUp s clock
    → Ready clock (record (multicast_of s data_bytes) { ip = ip })
unfolding tick
multicast-Ready s clock data_bytes ip c =
    let own = get-put s.vector_clock s.id in
    let stamp = next_stamp (get_or s.vector_clock s.id 0) in
    record {
      count = c.count;
      known = c.delivered;
      is_next = ground (arith, own s.id stamp, str_eq_refl s.id, c.sent, c.fits);
      fits = c.fits;
      others = λ k n ne e.
          let seen = c.others k n ne e in
          record {
            stamp = seen.stamp;
            stamped = own k stamp ∙ rw (str_eq_ne s.id k (λ p. ne (sym p))) seen.stamped;
            seen = seen.seen;
          };
    }

-- What a node that gets such a datagram does at once: it acknowledges the message, and starts a
-- goroutine for it.
receives :
    (s m : Multicaster) (data_bytes ip : Bytes) (body : Body.Message)
    → IsSendable (multicast_of s data_bytes)
    → length (encode_multicast_message (multicast_of s data_bytes)) ≤ buffer_size
    → s.id ≢ m.id
    → Body.decode data_bytes ≡ ok body
    → body.type ≢ Body.new_node
    → body.type ≢ Body.dead_node
    → let msg = record (multicast_of s data_bytes) { ip = ip } in
      (acked : Bytes) × (receive m (encode_multicast_message (multicast_of s data_bytes)) ip
        ≡ ok (m, ack ip s.id acked ∷ arrived msg ∷ []))
unfolding receive on_multicast on_body new_multicast_ack_message Body.encode
receives s m data_bytes ip body fits short other reads no_new no_dead =
    let datagram = encode_multicast_message (multicast_of s data_bytes) in
    let frame = (multicast_of s data_bytes).frame in
    (
      put_be 1 Body.multicast_ack ++ (put_be 4 frame ++ []),
      rw
          (
            receive,
            take_all buffer_size datagram short,
            decode_multicast_message-encode_multicast_message (multicast_of s data_bytes) ip fits,
            str_eq_ne s.id m.id other,
            reads,
          )
          (ground arith),
    )

-- A multicast arrives. A node that has caught up with the sender takes what SendMessage writes into its
-- buffer of 1024 bytes, acknowledges it, and starts a goroutine for the message; and when no message waits
-- there that could have been sent on before, the goroutine sends it on at once, before all others. The
-- datagram fits the buffer, and the message announces no new and no dead node.
pub send_message_arrives :
    (s m : Multicaster) (data_bytes ip : Bytes) (body : Body.Message)
    → IsSendable (multicast_of s data_bytes)
    → length (encode_multicast_message (multicast_of s data_bytes)) ≤ buffer_size
    → s.id ≢ m.id
    → Body.decode data_bytes ≡ ok body
    → body.type ≢ Body.new_node
    → body.type ≢ Body.dead_node
    → Distinct m.vector_clock
    → CaughtUp s m.vector_clock
    → AllHeld m.vector_clock m.hold_back_queue
    → (s' : Multicaster) × (datagram : Bytes) × (acked : Bytes) × (msg : Message) × (more : List
        Message)
      × (send_message s data_bytes ≡ ok (s', datagram))
      × (receive m datagram ip ≡ ok (m, ack ip s.id acked ∷ arrived msg ∷ []))
      × (msg.uuid ≡ s.id)
      × (msg.message ≡ data_bytes)
      × ((hold_back m msg).1 ≡ deliver msg ∷ map deliver more)
unfolding send_message hold_back
send_message_arrives s m data_bytes ip body fits short other reads no_new no_dead d c held =
    let msg = record (multicast_of s data_bytes) { ip = ip } in
    let ready =
      deliver_messages_ready (record m { hold_back_queue = m.hold_back_queue ++ (msg ∷ []) })
        m.hold_back_queue msg refl held
        ((can_deliver_iff m.vector_clock msg d).1
          (multicast-Ready s m.vector_clock data_bytes ip c)) in
    let (acked, received) = receives s m data_bytes ip body fits short other reads no_new no_dead in
    (
      begin_multicast s,
      encode_multicast_message (multicast_of s data_bytes),
      acked,
      msg,
      ready.0,
      ground (arith, c.sent),
      received,
      refl,
      refl,
      rw (ready.1),
    )
