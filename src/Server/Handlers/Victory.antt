-- ===== src/Server/Handlers/Victory.antt =====
-- What the election messages of other servers do: server/multicast.go and server/unicast.go.
use distributed_chat_applica.Prelude.{◌≡◌, refl, ◌≢◌, inl, inr, [], arith}
use distributed_chat_applica.Go.Text.{Bytes, str_eq_iff}
use distributed_chat_applica.Go.Result.{ok}
use distributed_chat_applica.Message as Body
use distributed_chat_applica.Unicast.Datagram as Unicast
use distributed_chat_applica.Multicast.Datagram as Multicast
use distributed_chat_applica.StateMachine.{
  State, start, init, leader, follower, become_leader, become_follower, election,
}
use distributed_chat_applica.StateMachine.Paths.{Electing}
use distributed_chat_applica.Server.{Server, request}
use distributed_chat_applica.Server.Handlers.{
  on_victory, on_multicast_message, dispatch, on_unicast_message,
}

on_victory-Electing :
    (s : Server) (uuid : Bytes)
    → Electing s.state
    → on_victory s uuid ≡ request (record s { leader_id = uuid }) follower
unfolding on_victory
on_victory-Electing s uuid (inl e) = rw e
on_victory-Electing s uuid (inr e) = rw e

on_victory_other :
    (s : Server) (uuid : Bytes) (state : State)
    → s.state ≡ state
    → (Electing state → ⊥)
    → on_victory s uuid ≡ (record s { leader_id = uuid }, [])
unfolding on_victory
on_victory_other s uuid start e h = rw e
on_victory_other s uuid init e h = rw e
on_victory_other s uuid leader e h = rw e
on_victory_other s uuid follower e h = absurd (h (inl refl))
on_victory_other s uuid become_leader e h = rw e
on_victory_other s uuid become_follower e h = rw e
on_victory_other s uuid election e h = absurd (h (inr refl))

-- A victory message of another server names the new leader in every state; a follower, and a
-- server in an election, asks for FOLLOWER, and any other state, LEADER too, stays as it is.
pub on_multicast_message_victory :
    (s : Server) (msg : Multicast.Message) (body : Body.Message)
    → msg.uuid ≢ s.id
    → Body.decode msg.message ≡ ok body
    → body.type ≡ Body.election_victory
    → let named = record s { leader_id = msg.uuid } in
      (Electing s.state → on_multicast_message s msg ≡ ok (request named follower))
      × ((Electing s.state → ⊥) → on_multicast_message s msg ≡ ok (named, []))
unfolding on_multicast_message
on_multicast_message_victory s msg body other read victory = (
  λ e. ground (arith, str_eq_iff msg.uuid s.id, on_victory-Electing s msg.uuid e),
  λ h. ground (arith, str_eq_iff msg.uuid s.id, on_victory_other s msg.uuid s.state refl h),
)

-- An election message is dropped in every state: no handler sees it and no answer is sent, so that
-- its acknowledgement is all that the asking server learns.
pub on_unicast_message-election :
    (s : Server) (msg : Unicast.Message) (body : Body.Message)
    → Body.decode msg.message ≡ ok body
    → body.type ≡ Body.election
    → on_unicast_message s msg ≡ ok (s, [])
unfolding on_unicast_message dispatch
on_unicast_message-election s msg body read asks = ground arith
