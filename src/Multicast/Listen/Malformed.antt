-- ===== src/Multicast/Listen/Malformed.antt =====
-- StartListener of server/multicast/multicast.go on multicasts that are not what they should be.
use distributed_chat_applica.Prelude.{◌≡◌, refl, sym, ◌≢◌, ◌⊎◌, inl, inr, [], take, arith}
use distributed_chat_applica.Go.Text.{Bytes, str_eq_iff}
use distributed_chat_applica.Go.Result.{Error, eof, ok, err, panic, Result-cases}
use distributed_chat_applica.Go.Binary.{read_be}
use distributed_chat_applica.Message as Body
use distributed_chat_applica.Message.New.{new_multicast_ack_message}
use distributed_chat_applica.Unicast.Codec.Malformed.{buffer_size}
use distributed_chat_applica.Multicast.Datagram.{Message}
use distributed_chat_applica.Multicast.Codec.{decode_multicast_message}
use distributed_chat_applica.Multicast.Node.{Multicaster}
use distributed_chat_applica.Multicast.Listen.{on_multicast, receive, zero_message}

-- A multicast of another node whose payload is not a message makes the listener panic.
pub on_multicast_panics :
    (m : Multicaster) (msg : Message) (e : Error)
    → msg.uuid ≢ m.id
    → Body.decode msg.message ≡ err e
    → on_multicast m msg ≡ panic
unfolding on_multicast
on_multicast_panics m msg e other bad = elim (Result-cases (new_multicast_ack_message msg.frame)) [
  | inl (d, a) ↦ ground (arith, str_eq_iff msg.uuid m.id)
  | inr (inl (f, a)) ↦ ground (arith, str_eq_iff msg.uuid m.id)
  | inr (inr a) ↦ ground (arith, str_eq_iff msg.uuid m.id)
]

decode_nothing : Body.decode [] ≡ err eof
unfolding Body.decode read_be
decode_nothing = refl

-- One datagram to the multicast group that cannot be decoded, or whose payload cannot, and every
-- node that receives it panics, unless it comes under the node's own id.
pub receive_panics :
    (m : Multicaster) (datagram ip : Bytes)
    → m.id ≢ []
    → ((e : Error) × (decode_multicast_message (take buffer_size datagram) ip ≡ err e))
      ⊎ ((msg : Message) × (e : Error) × (decode_multicast_message (take buffer_size datagram) ip
            ≡ ok msg)
          × (msg.uuid ≢ m.id)
          × (Body.decode msg.message ≡ err e))
    → receive m datagram ip ≡ panic
unfolding receive
receive_panics m datagram ip named (inl (e, bad)) =
    rw (bad, receive) (on_multicast_panics m zero_message eof (λ p. named (sym p)) decode_nothing)
receive_panics m datagram ip named (inr (msg, e, good, other, bad)) =
    rw (good, receive) (on_multicast_panics m msg e other bad)
