-- ===== src/Server/Actions/Campaign.antt =====
-- The rounds of a server of server/server.go from FOLLOWER over ELECTION to LEADER, and back to
-- FOLLOWER.
use distributed_chat_applica.Prelude.{
  ◌≡◌, refl, ap, ◌∙◌, List, [], ◌∷◌, Bool, false, inl, inr, none,
}
use distributed_chat_applica.Go.Text.{Bytes}
use distributed_chat_applica.Go.Map.{get_or}
use distributed_chat_applica.Go.Result.{ok}
use distributed_chat_applica.Go.Binary.{put_be, read_be, be_value}
use distributed_chat_applica.Message as Body
use distributed_chat_applica.Message.New.{new_election_victory_message}
use distributed_chat_applica.Broadcast.Sending.{InOrder, start-InOrder}
use distributed_chat_applica.Multicast.Node.{Multicaster}
use distributed_chat_applica.Multicast.Send.{send_message}
use distributed_chat_applica.StateMachine.{
  leader, follower, become_leader, election, follower_to_election, election_to_become_leader,
  become_leader_to_leader, election_to_follower, follower_to_follower, change_to, transitions,
}
use distributed_chat_applica.StateMachine.Paths.{Electing}
use distributed_chat_applica.Server.{Server, Event, multicast, attend, beat, watch, begin_election}
use distributed_chat_applica.Server.Actions.{
  Outside, settled, preceded, drive, act, enter, leave, start_listener, announce_victory,
}
use distributed_chat_applica.Server.Actions.Rounds.{
  IsLeading, Settles, drive-act_next, drive-act_settled,
}

abbrev pub campaigning : Server → Server
campaigning s = record s { sm = election; state = election }

-- The victory message.
abbrev pub victory : Bytes
victory = 3 ∷ []

victory_message : new_election_victory_message ≡ ok victory
unfolding new_election_victory_message Body.encode put_be
victory_message = refl

pub victory_reads : Body.decode victory ≡ ok (Body.of_type Body.election_victory)
unfolding Body.decode Body.decode_body read_be be_value
victory_reads = refl

module _ (is_uuid : Bytes → Bool) (outside : Outside) (rest : List Outside) where
  -- A follower goes into an election, and asks the higher servers.
  pub drive_elects :
      (s : Server)
      → s.sm ≡ follower
      → s.state ≡ follower
      → let (s', es) = begin_election (campaigning s) in
        drive is_uuid (outside ∷ rest) election none s ≡ settled s' es
  unfolding act enter leave start_listener change_to transitions
  drive_elects s e i =
      let (s', es) = begin_election (campaigning s) in
      drive-act_settled is_uuid outside rest s s' election election follower_to_election none es
        (rw e refl) (rw i refl)

  -- A server that becomes leader after an election.
  drive_becomes_leader :
      (s : Server)
      → s.sm ≡ become_leader
      → s.state ≡ become_leader
      → InOrder false s.broadcaster
      → (s' : Server) × (drive is_uuid (outside ∷ rest) leader none s ≡ settled s' (attend ∷ []))
        × IsLeading s.id s'
  unfolding act enter leave start_listener change_to transitions
  drive_becomes_leader s e i rests =
      let (b, started, order) = start-InOrder false s.broadcaster rests in
      let s' : Server = record s {
        sm = leader;
        state = leader;
        leader_id = s.id;
        broadcaster = b;
      } in
      (
        s',
        drive-act_settled is_uuid outside rest s s' leader leader become_leader_to_leader none
            (attend ∷ []) (rw e refl) (rw (i, started) refl),
        record { sm = refl; state = refl; named = refl; sends = order.counted },
      )

  -- A follower, or a server in an election, that hears of a victory follows the winner.
  pub drive_accepts :
      (t : Server) (winner : Bytes)
      → t.sm ≡ t.state
      → Electing t.state
      → Settles
          (λ t'. (t'.state ≡ follower) × (t'.leader_id ≡ winner))
          (drive is_uuid (outside ∷ rest) follower none (record t { leader_id = winner }))
  unfolding act enter leave start_listener change_to transitions
  drive_accepts t winner e electing =
      let named = record t { leader_id = winner } in
      let s' : Server = record named { sm = follower; state = follower } in
      let es : List Event = beat (get_or t.peers winner []) t.id ∷ watch winner ∷ [] in
      let settles = drive-act_settled is_uuid outside rest named s' follower follower in
      elim electing [
        | inl i ↦ (
          s',
          es,
          settles follower_to_follower none es (rw (e, i) refl) (rw i refl),
          (refl, refl),
        )
        | inr i ↦ (
          s',
          es,
          settles election_to_follower none es (rw (e, i) refl) (rw i refl),
          (refl, refl),
        )
      ]

module _ (is_uuid : Bytes → Bool) (first second : Outside) where
  -- The winner of an election announces its victory and leads.
  pub drive_wins :
      (s : Server) (rm : Multicaster) (datagram : Bytes)
      → s.sm ≡ election
      → s.state ≡ election
      → InOrder false s.broadcaster
      → send_message s.rm victory ≡ ok (rm, datagram)
      → (s' : Server) × (drive is_uuid (first ∷ second ∷ []) become_leader none s
          ≡ settled s' (multicast datagram ∷ attend ∷ []))
        × IsLeading s.id s'
  unfolding act enter leave start_listener change_to transitions announce_victory
  drive_wins s rm datagram e i rests sent =
      let s1 : Server = record s { sm = become_leader; state = become_leader; rm = rm } in
      let (s', settles, leads) = drive_becomes_leader is_uuid second [] s1 refl refl rests in
      let announced =
        drive-act_next is_uuid first (second ∷ []) s s1 become_leader become_leader
          election_to_become_leader none (multicast datagram ∷ []) leader none (rw e refl)
          (rw (i, victory_message, sent) refl) in
      (s', announced ∙ ap (preceded (multicast datagram ∷ [])) settles, leads)
