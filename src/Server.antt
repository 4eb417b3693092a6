-- ===== src/Server.antt =====
-- server/server.go, server/unicast.go, server/multicast.go and server/state_listener.go: the state
-- of a server, its handlers of decoded messages, and its elections. What a handler sends to a
-- channel or starts as a goroutine comes back as a list of events.
pub mod Election
pub mod Handlers
pub mod Join
pub mod Actions
pub mod Heartbeats
pub mod Listeners
pub mod Clients
pub mod Address
pub mod Start
pub mod Process
pub mod Machine
mod Runs
use distributed_chat_applica.Prelude.{
  ℕ, List, [], ◌∷◌, ◌++◌, Bool, true, false, none, some, Option, ◌==◌, not, ◌&&◌, if◌then◌else◌,
  length,
}
use distributed_chat_applica.Go.Text.{Bytes, str_eq, str_lt}
use distributed_chat_applica.Go.Map.{Map, get, put, delete}
use distributed_chat_applica.Go.Result.{Result, ok, err, panic}
use distributed_chat_applica.Broadcast.{Broadcaster}
use distributed_chat_applica.Message as Body
use distributed_chat_applica.Message.New.{new_dead_node_message, new_election_victory_message}
use distributed_chat_applica.Unicast.Datagram as Unicast
use distributed_chat_applica.Multicast.Datagram as Multicast
use distributed_chat_applica.Multicast.Node.{
  Multicaster, new_reliable_multicast, on_ack, remove_dead_node,
}
use distributed_chat_applica.Multicast.Send.{send_message}
use distributed_chat_applica.StateMachine.{
  State, leader, follower, become_leader, become_follower, election, Action, change_to,
}

pub record Server : Type 0 where
  pub id : Bytes
  pub leader_id : Bytes
  pub sm : State  -- s.sm.state
  pub state : State
  pub rm : Multicaster
  pub rm_closed : Bool  -- s.rm.quit is closed
  pub rm_port : ℕ  -- uint32
  pub broadcaster : Broadcaster
  pub peers : Map Bytes
  pub election_map : Map Bool

pub data Event : Type 0 where
  action : Action → Event  -- go action(args)
  forward : Unicast.Message → Event  -- s.uMsgChan <- msg
  chat : Bytes → Event  -- s.applicationMsgChan <- string(decodedMsg.Msg)
  multicast : Bytes → Event  -- go func(encodedData []byte, frame uint32)
  tell : Bytes → Bytes → Bytes → Event  -- go s.ru.SendMessage(ip, uuid, data)
  ask : Bytes → Bytes → Event  -- go func(uuid string, ip string)
  serve : Event  -- the listeners that StartToInit starts
  attend : Event  -- the two goroutines of LeaderStateStart
  beat : Bytes → Bytes → Event  -- go st.server.StartHearbeat(ip, id, ...)
  watch : Bytes → Event  -- the goroutine of FollowerStateStart, with its leaderID

-- s.sm.ChangeTo(state, args)
abbrev pub request : Server → State → Server × List Event
request s target =
    let (sm', started) = change_to s.sm target in
    (record s { sm = sm' }, elim started [ none ↦ [] | some a ↦ action a ∷ [] ])

-- s.rm.Shutdown(), which closes the channel `quit` and the sockets; a second close panics.
unfoldable pub shutdown_rm : Server → Result Server
shutdown_rm s = if s.rm_closed then panic else ok (record s { rm_closed = true })

-- newPeers[uuid] = PeerIps[index] for each index; an address that is missing is out of range.
unfoldable pub collect_peers : Map Bytes → List Bytes → List Bytes → Result (Map Bytes)
collect_peers peers [] ips = ok peers
collect_peers peers (id ∷ ids) [] = panic
collect_peers peers (id ∷ ids) (ip ∷ ips) = collect_peers (put peers id ip) ids ips

-- The loop of ELectionStateStart over the peers: the entries, and the nodes that are asked.
unfoldable pub ask_higher : Map Bool → Map Bytes → Bytes → Map Bool × List Event
ask_higher entries [] id = (entries, [])
ask_higher entries ((uuid, ip) ∷ peers) id =
    let (entries', asked) = ask_higher (put entries uuid false) peers id in
    let rest = ask_higher entries peers id in
    if not (str_eq uuid id) && str_lt id uuid then (entries', ask uuid ip ∷ asked) else rest

unfoldable pub begin_election : Server → Server × List Event
begin_election s =
    let (entries, asked) = ask_higher [] s.peers s.id in
    (record s { election_map = entries }, asked)

-- The election message reached a node.
unfoldable pub on_election_sent : Server → Bytes → Server
on_election_sent s uuid = record s { election_map = put s.election_map uuid true }

pub data Verdict : Type 0 where
  left waits wins : Verdict

abbrev pub in_election : State → Bool
in_election election = true
in_election _ = false

unfoldable pub any_reached : Map Bool → Bool
any_reached [] = false
any_reached ((uuid, rcvd) ∷ entries) = if rcvd then true else any_reached entries

-- The check of ELectionStateStart after its first sleep.
unfoldable pub verdict : Server → Verdict
verdict s = if in_election s.state then if any_reached s.election_map then waits else wins else left

-- What ELectionStateStart does about it: at once if it wins, and after a second sleep if it waits;
-- `later` is the server at that time.
unfoldable pub settle_election : Verdict → Server → Server × List Event
settle_election left later = (later, [])
settle_election waits later =
    if in_election later.state then request later election else (later, [])
settle_election wins later = request later become_leader

unfoldable pub handle_dead_server : Server → Bytes → Result (Server × List Event)
handle_dead_server s uuid = elim (get s.peers uuid) [
  | none ↦ ok (s, [])
  | some ip ↦ elim (new_dead_node_message uuid ip) [
    | ok data_bytes ↦ elim (send_message (remove_dead_node s.rm uuid) data_bytes) [
      | ok (rm', datagram) ↦
          ok (record s { peers = delete s.peers uuid; rm = rm' }, multicast datagram ∷ [])
      | err e ↦ panic
      | panic ↦ panic
    ]
    | err e ↦ panic
    | panic ↦ panic
  ]
]
