-- ===== src/Server/Actions.antt =====
-- The methods of server/server.go that the transitions start, peerInfoFromLeader of
-- server/unicast.go, and the round of the main loop in Run, which takes a new state from
-- `stateChan`. That round is taken where the method sends the state.
pub mod Rounds
pub mod Boot
pub mod Follow
pub mod OnAir
pub mod Campaign
pub mod Failover
mod Runs
use distributed_chat_applica.Prelude.{
  List, [], ◌∷◌, ◌++◌, Bool, true, false, Option, none, some, ◌==◌, ◌&&◌,
}
use distributed_chat_applica.Go.Text.{Bytes, str_eq}
use distributed_chat_applica.Go.Map.{get_or}
use distributed_chat_applica.Go.Result.{Result, ok, err, panic, ◌>>=◌}
use distributed_chat_applica.Broadcast as Broadcast
use distributed_chat_applica.Broadcast.{Arrival, is_any_one_broadcasting}
use distributed_chat_applica.Message as Body
use distributed_chat_applica.Message.New.{
  new_connect_to_leader_message, new_election_victory_message,
}
use distributed_chat_applica.Unicast.Datagram as Unicast
use distributed_chat_applica.Multicast.Send.{send_message}
use distributed_chat_applica.StateMachine.{
  State, start, init, leader, follower, become_leader, become_follower, election, Action,
  start_to_init, init_to_become_follower, init_to_leader, become_follower_to_init,
  become_follower_to_follower, leader_to_init, follower_to_election, follower_to_follower,
  become_leader_to_leader, election_to_follower, election_to_become_leader, election_to_election,
  change_to,
}
use distributed_chat_applica.Server.{
  Server, Event, multicast, tell, serve, attend, beat, watch, begin_election,
}
use distributed_chat_applica.Server.Join.{add_peers_from_peer_info, join_multicast_from_peer_info}

pub record StateMachineMessage : Type 0 where
  pub broadcast : Option Broadcast.Message
  pub unicast : Option Unicast.Message
  pub election_id : Bytes

-- A target and its arguments: a call of ChangeTo that an action makes at its end.
abbrev pub Next : Type 0
Next = Option (State × Option StateMachineMessage)

abbrev pub Done : Type 0
Done = Server × List Event × Next

abbrev pub leader_state_stop : Server → Result Server
leader_state_stop s = Broadcast.stop s.broadcaster >>= λ b. ok (record s { broadcaster = b })

-- Stop of the listener of the state that the server leaves.
unfoldable pub leave : Server → Result Server
leave s = elim s.state [ leader ↦ leader_state_stop s | _ ↦ ok s ]

abbrev pub init_state_listener : Server → Server
init_state_listener s = record s { leader_id = [] }

-- LeaderStateStart up to its goroutines.
abbrev pub leader_state_start : Server → Result (Server × List Event)
leader_state_start s = Broadcast.start s.broadcaster >>= λ b.
    ok (record s { leader_id = s.id; broadcaster = b }, attend ∷ [])

-- FollowerStateStart up to its goroutine.
abbrev pub follower_state_start : Server → List Event
follower_state_start s = beat (get_or s.peers s.leader_id []) s.id ∷ watch s.leader_id ∷ []

-- Start of the listener of the state that the server is in.
unfoldable pub start_listener : Server → Result (Server × List Event)
start_listener s = elim s.state [
  | init ↦ ok (init_state_listener s, [])
  | leader ↦ leader_state_start s
  | follower ↦ ok (s, follower_state_start s)
  | election ↦ ok (begin_election s)
  | _ ↦ ok (s, [])
]

-- s.stateChan <- target
unfoldable pub enter : Server → State → Result (Server × List Event)
enter s target = leave s >>= λ s'. start_listener (record s' { state = target })

-- The messages on uMsgChan that come before the timer ends.
unfoldable pub peer_info_from_leader :
    Bytes → List Unicast.Message → Result (Option Unicast.Message)
peer_info_from_leader leader_uuid [] = ok none
peer_info_from_leader leader_uuid (msg ∷ inbox) = elim (Body.decode msg.message) [
  | ok body ↦ elim (body.type == Body.peer_info && str_eq msg.from_uuid leader_uuid) [
    | true ↦ ok (some msg)
    | false ↦ peer_info_from_leader leader_uuid inbox
  ]
  | err e ↦ panic
  | panic ↦ panic
]

-- What an action meets: the datagrams that the broadcaster's socket gets until its timer ends, what
-- s.ru.SendMessage returns, and the messages on uMsgChan.
pub record Outside : Type 0 where
  pub arrivals : List Arrival
  pub sent : Bool
  pub inbox : List Unicast.Message

abbrev pub plain : Option (State × Option StateMachineMessage) → Server × List Event → Result Done
plain next (s, events) = ok (s, events, next)

-- InitToBecomeFollower after the send of its state.
unfoldable pub join_leader : Option StateMachineMessage → Outside → Server → Result Done
join_leader none outside s = panic
join_leader (some args) outside s = elim args.broadcast [
  | none ↦ panic
  | some found ↦ new_connect_to_leader_message >>= λ data_bytes.
      let asked = tell found.ip found.uuid data_bytes ∷ [] in
      let again = ok (s, asked, some (init, none)) in
      elim outside.sent [
        | false ↦ again
        | true ↦ peer_info_from_leader found.uuid outside.inbox >>= λ answer. elim answer [
          | none ↦ again
          | some info ↦
              add_peers_from_peer_info (record s { leader_id = found.uuid }) info.message >>= λ s'.
              let args' : StateMachineMessage = record {
                broadcast = none;
                unicast = some info;
                election_id = [];
              } in
              ok (s', asked, some (follower, some args'))
        ]
      ]
]

-- BecomeFollowerToFollower after the send of its state.
unfoldable pub take_session : Option StateMachineMessage → Server → Result Server
take_session none s = panic
take_session (some args) s = elim args.unicast [
  | none ↦ panic
  | some info ↦ join_multicast_from_peer_info s info.message
]

-- ElectionToBecomeLeader after the send of its state.
unfoldable pub announce_victory : Server → Result Done
announce_victory s = new_election_victory_message >>= λ data_bytes.
    send_message s.rm data_bytes >>= λ (rm, datagram).
    ok (record s { rm = rm }, multicast datagram ∷ [], some (leader, none))

-- LeaderToInit after the send of its state.
unfoldable pub follow_other : Option StateMachineMessage → Server → List Event → Result Done
follow_other none s events = panic
follow_other (some args) s events =
    let args' : StateMachineMessage = record {
      broadcast = args.broadcast;
      unicast = none;
      election_id = [];
    } in
    ok (s, events, some (become_follower, some args'))

abbrev after : List Event → Done → Result Done
after events (s, events', next) = ok (s, events ++ events', next)

-- How StartToInit and BecomeFollowerToInit go on.
module _ (is_uuid : Bytes → Bool) where
  unfoldable pub seek : Outside → Server → State × Option StateMachineMessage
  seek outside s = elim (is_any_one_broadcasting is_uuid s.id outside.arrivals) [
    | none ↦ (leader, none)
    | some msg ↦
        (become_follower, some (record { broadcast = some msg; unicast = none; election_id = [] }))
  ]

  unfoldable pub act : Action → Option StateMachineMessage → Outside → Server → Result Done
  act start_to_init args outside s =
      enter s init >>= λ (s', events). ok (s', serve ∷ events, some (seek outside s'))
  act init_to_become_follower args outside s =
      enter s become_follower >>= λ (s', events). join_leader args outside s' >>= after events
  act init_to_leader args outside s = enter s leader >>= plain none
  act become_follower_to_init args outside s =
      enter s init >>= λ (s', events). ok (s', events, some (seek outside s'))
  act become_follower_to_follower args outside s = enter s follower >>= λ (s', events).
      take_session args s' >>= λ joined. ok (joined, events, none)
  act leader_to_init args outside s = enter s init >>= λ (s', events). follow_other args s' events
  act follower_to_election args outside s = enter s election >>= plain none
  act follower_to_follower args outside s = enter s follower >>= plain none
  act become_leader_to_leader args outside s = enter s leader >>= plain none
  act election_to_follower args outside s = enter s follower >>= plain none
  act election_to_become_leader args outside s =
      enter s become_leader >>= λ (s', events). announce_victory s' >>= after events
  act election_to_election args outside s = enter s election >>= plain none

-- A call of ChangeTo runs an action, which may end in a call of ChangeTo, and so on.
pub data Driven : Type 0 where
  settled : Server → List Event → Driven
  crashed : Driven
  unfinished : Driven

abbrev pub preceded : List Event → Driven → Driven
preceded events (settled s events') = settled s (events ++ events')
preceded events crashed = crashed
preceded events unfinished = unfinished

-- One element of the list for each action: the list is the fuel.
module _ (is_uuid : Bytes → Bool) where
  unfoldable pub drive : List Outside → State → Option StateMachineMessage → Server → Driven
  drive [] target args s = elim (change_to s.sm target).1 [
    | none ↦ settled s []
    | some action ↦ unfinished
  ]
  drive (outside ∷ rest) target args s = elim (change_to s.sm target).1 [
    | none ↦ settled s []
    | some action ↦
        elim (act is_uuid action args outside (record s { sm = (change_to s.sm target).0 })) [
          | ok (s', events, next) ↦ elim next [
            | none ↦ settled s' events
            | some (target', args') ↦ preceded events (drive rest target' args' s')
          ]
          | err e ↦ crashed
          | panic ↦ crashed
        ]
  ]
