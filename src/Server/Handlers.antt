-- ===== src/Server/Handlers.antt =====
-- The loops of startUnicastMessageListener in server/unicast.go and startMulticastMessageListener
-- in server/multicast.go: one round for each message.
pub mod Victory
use distributed_chat_applica.Prelude.{
  ℕ, List, [], ◌∷◌, Bool, true, false, none, some, ◌==◌, not, ◌&&◌, ◌||◌, if◌then◌else◌, length,
}
use distributed_chat_applica.Go.Text.{Bytes, str_eq}
use distributed_chat_applica.Go.Map.{Map, delete}
use distributed_chat_applica.Go.Result.{Result, ok, err, panic, ◌>>=◌}
use distributed_chat_applica.Message as Body
use distributed_chat_applica.Unicast.Datagram as Unicast
use distributed_chat_applica.Multicast.Datagram as Multicast
use distributed_chat_applica.Multicast.Node.{new_reliable_multicast, on_ack}
use distributed_chat_applica.StateMachine.{State, leader, follower, become_follower, election}
use distributed_chat_applica.Server.{
  Server, Event, forward, chat, request, collect_peers, shutdown_rm,
}

-- case message.ElectionVictory
unfoldable pub on_victory : Server → Bytes → Server × List Event
on_victory s uuid =
    let s' = record s { leader_id = uuid } in
    elim s.state [ follower ↦ request s' follower | election ↦ request s' follower | _ ↦ (s', []) ]

-- case message.PeerInfo
unfoldable pub on_peer_info : Server → Body.Message → Result (Server × List Event)
on_peer_info s body =
    if length body.peer_ids == length body.peer_ips
    then elim (collect_peers [] body.peer_ids body.peer_ips) [
      | ok peers ↦ ok (record s { peers = peers }, [])
      | err e ↦ err e
      | panic ↦ panic
    ]
    else panic

unfoldable pub on_multicast_message : Server → Multicast.Message → Result (Server × List Event)
on_multicast_message s msg =
    if str_eq msg.uuid s.id then ok (s, []) else elim (Body.decode msg.message) [
      | ok body ↦
          if body.type == Body.dead_node
          then ok (record s { peers = delete s.peers body.uuid }, [])
          else if body.type == Body.election_victory
          then ok (on_victory s msg.uuid)
          else if body.type == Body.application
          then ok (s, chat body.msg ∷ [])
          else if body.type == Body.peer_info
          then on_peer_info s body
          else ok (s, [])
      | err e ↦ ok (s, [])
      | panic ↦ panic
    ]

-- A change of the multicast session: new peers, and a new multicaster on the new port.
unfoldable pub change_session : Server → Body.Message → Result Server
change_session s body = elim (collect_peers [] body.peer_ids body.peer_ips) [
  | ok peers ↦ elim (new_reliable_multicast s.id body.peer_ids) [
    | ok rm ↦ shutdown_rm s >>= λ s'.
        ok (record s' { peers = peers; rm = rm; rm_closed = false; rm_port = body.multicast_port })
    | err e ↦ err e
    | panic ↦ panic
  ]
  | err e ↦ err e
  | panic ↦ panic
]

-- The message types that a state has a handler for; election messages were skipped before.
abbrev pub wanted : State → ℕ → Bool
wanted become_follower type = type == Body.peer_info
wanted follower type = (type == Body.election) || (type == Body.election_victory)
wanted leader type = (type == Body.connect_to_leader) || (type == Body.election_victory)
wanted _ type = false

unfoldable pub dispatch : Server → State → Unicast.Message → Body.Message → Server × List Event
dispatch s state msg body =
    let s' =
      if body.type == Body.multicast_ack
      then record s { rm = on_ack s.rm msg.from_uuid body.frame }
      else s in
    if body.type == Body.election
    then (s', [])
    else (s', if wanted state body.type then forward msg ∷ [] else [])

unfoldable pub on_unicast_message : Server → Unicast.Message → Result (Server × List Event)
on_unicast_message s msg = elim (Body.decode msg.message) [
  | ok body ↦ elim (body.type == Body.multicast_session_change) [
    | true ↦ elim (change_session s body) [
      | ok s' ↦ ok (dispatch s' s.state msg body)
      | err e ↦ panic
      | panic ↦ panic
    ]
    | false ↦ ok (dispatch s s.state msg body)
  ]
  | err e ↦ panic
  | panic ↦ panic
]
