-- ===== src/Server/Actions/Failover.antt =====
-- What happens in server/server.go and server/state_listener.go after a leader is lost: an election,
-- a new leader, and a server that follows it.
mod Runs
use mathlib.Core.List.Perm
use distributed_chat_applica.Prelude.{
  length, ◌≤◌, arith, ◌≡◌, ◌≢◌, refl, sym, subst, ◌∙◌, List, [], ◌∷◌, Bool, true, false, none, map,
}
use distributed_chat_applica.Go.Text.{Bytes}
use distributed_chat_applica.Go.Map.{Distinct}
use distributed_chat_applica.Go.Result.{ok}
use distributed_chat_applica.Message as Body
use distributed_chat_applica.Broadcast.Sending.{InOrder}
use distributed_chat_applica.Multicast.Datagram as Multicast
use distributed_chat_applica.Multicast.Codec.{encode_multicast_message}
use distributed_chat_applica.Unicast.Codec.Malformed.{buffer_size}
use distributed_chat_applica.Multicast.Codec.RoundTrip.{IsSendable}
use distributed_chat_applica.Multicast.HoldBack.Picked.{AllHeld}
use distributed_chat_applica.Multicast.Send.{multicast_of}
use distributed_chat_applica.Multicast.Send.Arrives.{CaughtUp, send_message_arrives}
use distributed_chat_applica.Multicast.Listen.{deliver, ack, arrived, receive, hold_back}
use distributed_chat_applica.StateMachine.{follower, become_leader, election}
use distributed_chat_applica.StateMachine.Paths.{Electing}
use distributed_chat_applica.Server.{
  Server, multicast, attend, begin_election, wins, verdict, settle_election, request,
}
use distributed_chat_applica.Server.Election.{replies}
use distributed_chat_applica.Server.Election.Winner.{is_highest_id, asked, heard_verdict-highest}
use distributed_chat_applica.Server.Handlers.{on_multicast_message}
use distributed_chat_applica.Server.Handlers.Victory.{on_multicast_message_victory}
use distributed_chat_applica.Server.Actions.{Outside, settled, drive}
use distributed_chat_applica.Server.Actions.Rounds.{IsLeading, Settles}
use distributed_chat_applica.Server.Actions.Campaign.{
  campaigning, victory, victory_reads, drive_elects, drive_accepts, drive_wins,
}

-- Failover. A follower with the highest id that starts an election asks nobody and wins it; it then
-- multicasts its victory and settles in state LEADER, with one goroutine that broadcasts. A follower, or
-- a server in an election, that has caught up with it and holds no message back that could be sent on,
-- acknowledges the victory, gets it at once, and settles in state FOLLOWER with the winner as its leader.
-- This wants that the datagram of the victory, with the vector clock of the session, fits its fields and
-- the buffer of 1024 bytes; that the winner does not broadcast before; that both multicasters have the
-- ids of their servers; that the follower's clock has no id twice; and a count of messages that does
-- not wrap around.
pub failover :
    (is_uuid : Bytes → Bool) (s t : Server) (ip : Bytes) (first second third fourth : Outside)
    → s.sm ≡ follower
    → s.state ≡ follower
    → s.rm.id ≡ s.id
    → InOrder false s.broadcaster
    → is_highest_id s.peers s.id ≡ true
    → IsSendable (multicast_of s.rm victory)
    → length (encode_multicast_message (multicast_of s.rm victory)) ≤ buffer_size
    → t.rm.id ≡ t.id
    → t.sm ≡ t.state
    → Electing t.state
    → s.id ≢ t.id
    → Distinct t.rm.vector_clock
    → CaughtUp s.rm t.rm.vector_clock
    → AllHeld t.rm.vector_clock t.rm.hold_back_queue
    → let (begun, es) = begin_election (campaigning s) in
      let named = record t { leader_id = s.id } in
      (drive is_uuid (first ∷ []) election none s ≡ settled begun es)
      × (settle_election (verdict (replies begun (asked es))) begun ≡ request begun become_leader)
      × ((s' : Server) × (datagram : Bytes) × (acked : Bytes) × (msg : Multicast.Message)
          × (more : List Multicast.Message) × (drive is_uuid
                (second ∷ third ∷ [])
                become_leader
                none
                begun
              ≡ settled s' (multicast datagram ∷ attend ∷ []))
          × IsLeading s.id s'
          × (receive t.rm datagram ip ≡ ok (t.rm, ack ip s.id acked ∷ arrived msg ∷ []))
          × ((hold_back t.rm msg).1 ≡ deliver msg ∷ map deliver more)
          × (on_multicast_message t msg ≡ ok (request named follower)))
      × Settles
          (λ t'. (t'.state ≡ follower) × (t'.leader_id ≡ s.id))
          (drive is_uuid (fourth ∷ []) follower none named)
unfolding begin_election settle_election
failover is_uuid s t ip first second third fourth e i own rests highest fits short own' e' electing
      other d caught held =
    let (begun, es) = begin_election (campaigning s) in
    let won : verdict (replies begun (asked es)) ≡ wins =
      heard_verdict-highest (campaigning s) s.peers refl (Perm.refl s.peers) ∙ rw highest refl in
    let (rm, datagram, acked, msg, more, sent, back, by, carries, now) =
      send_message_arrives s.rm t.rm victory ip (Body.of_type Body.election_victory) fits short
        (λ p. other (sym own ∙ (p ∙ own'))) victory_reads (λ p. absurd (omega arith))
        (λ p. absurd (omega arith)) d caught held in
    let (s', leads, leading) =
      drive_wins is_uuid second third begun rm datagram refl refl rests sent in
    let by_s : msg.uuid ≡ s.id = by ∙ own in
    let reads : Body.decode msg.message ≡ ok (Body.of_type Body.election_victory) =
      rw carries victory_reads in
    let heard =
      (on_multicast_message_victory t msg (Body.of_type Body.election_victory)
          (λ p. other (sym by_s ∙ p)) reads refl).0
        electing in
    (
      drive_elects is_uuid first [] s e i,
      rw won refl,
      (
        s',
        datagram,
        acked,
        msg,
        more,
        leads,
        leading,
        subst (λ i. receive t.rm datagram ip ≡ ok (t.rm, ack ip i acked ∷ arrived msg ∷ [])) own
            back,
        now,
        subst (λ w. on_multicast_message t msg ≡ ok (request (record t { leader_id = w }) follower))
            by_s heard,
      ),
      drive_accepts is_uuid fourth [] t s.id e' electing,
    )
