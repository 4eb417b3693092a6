-- ===== src/Server/Join.antt =====
-- How a node joins a leader in server/server.go: connectToLeaderHandler on the leader, and
-- addPeersFromPeerInfo and joinMulticastFromPeerInfo on the node.
pub mod Peers
pub mod Session
pub mod Shutdown
mod Runs
use distributed_chat_applica.Prelude.{
  ℕ, List, [], ◌∷◌, Bool, true, false, ◌==◌, ◌||◌, if◌then◌else◌,
}
use distributed_chat_applica.Go.Text.{Bytes, str_eq}
use distributed_chat_applica.Go.Map.{Map, put, delete}
use distributed_chat_applica.Go.Result.{Result, ok, err, panic, ◌>>=◌}
use distributed_chat_applica.Message as Body
use distributed_chat_applica.Message.New.{
  new_peer_info_message, new_multicast_session_change_message,
}
use distributed_chat_applica.Multicast.Node.{new_reliable_multicast}
use distributed_chat_applica.Server.{Server, Event, tell, collect_peers, shutdown_rm}

-- The loop over the peers: their ids, their addresses, and a clock of 0 for each.
unfoldable pub peer_slices : Map Bytes → List Bytes × List Bytes × List ℕ
peer_slices [] = ([], [], [])
peer_slices ((uuid, ip) ∷ peers) =
    let (ids, ips, clocks) = peer_slices peers in (uuid ∷ ids, ip ∷ ips, 0 ∷ clocks)

-- The part of connectToLeaderHandler under its first lock.
unfoldable pub admit : Server → Bytes → Bytes → Server
admit s uuid ip = record s { peers = put s.peers uuid ip }

-- The message for the new node, by the peers that were listed under the lock.
unfoldable pub peer_info_for : Server → ℕ → Result Bytes
peer_info_for s port =
    let (ids, ips, clocks) = peer_slices s.peers in new_peer_info_message ids ips port clocks

-- The change of the session goes to all but the leader and the new node.
unfoldable pub tell_others : Bytes → Bytes → Bytes → List Bytes → List Bytes → List Event
tell_others leader_id uuid data_bytes [] ips = []
tell_others leader_id uuid data_bytes (id ∷ ids) [] = []
tell_others leader_id uuid data_bytes (id ∷ ids) (ip ∷ ips) =
    let rest = tell_others leader_id uuid data_bytes ids ips in
    if str_eq id leader_id || str_eq id uuid then rest else tell ip id data_bytes ∷ rest

-- The rest of connectToLeaderHandler, once it is known whether the message reached the new node:
-- `admitted` is the server when the peers were listed, and `s` the server now.
unfoldable pub after_peer_info : Server → Server → Bytes → ℕ → Bool → Result (Server × List Event)
after_peer_info admitted s uuid port false = ok (record s { peers = delete s.peers uuid }, [])
after_peer_info admitted s uuid port true =
    let (ids, ips, clocks) = peer_slices admitted.peers in
    elim (new_multicast_session_change_message ids ips clocks port) [
      | ok data_bytes ↦ elim (new_reliable_multicast admitted.id ids) [
        | ok rm ↦ shutdown_rm s >>= λ s'. ok (
          record s' { rm = rm; rm_closed = false; rm_port = port },
          tell_others admitted.id uuid data_bytes ids ips,
        )
        | err e ↦ err e
        | panic ↦ panic
      ]
      | err e ↦ err e
      | panic ↦ panic
    ]

-- The error of Decode is not looked at, so a nil message is read.
unfoldable pub add_peers_from_peer_info : Server → Bytes → Result Server
add_peers_from_peer_info s data_bytes = elim (Body.decode data_bytes) [
  | ok body ↦ elim (collect_peers [] body.peer_ids body.peer_ips) [
    | ok peers ↦ ok (record s { peers = peers })
    | err e ↦ err e
    | panic ↦ panic
  ]
  | err e ↦ panic
  | panic ↦ panic
]

-- The end of joinMulticastFromPeerInfo: a new multicaster, unless the port is the one in use.
unfoldable pub renew_session : Server → Body.Message → Result Server
renew_session s body =
    if s.rm_port == body.multicast_port
    then ok s
    else new_reliable_multicast s.id body.peer_ids >>= λ rm.
        ok (record s { rm = rm; rm_closed = false; rm_port = body.multicast_port })

-- The old multicaster is shut down in any case.
unfoldable pub join_multicast_from_peer_info : Server → Bytes → Result Server
join_multicast_from_peer_info s data_bytes = elim (Body.decode data_bytes) [
  | ok body ↦ elim (collect_peers [] body.peer_ids body.peer_ips) [
    | ok peers ↦ shutdown_rm (record s { peers = peers }) >>= λ joined. renew_session joined body
    | err e ↦ err e
    | panic ↦ panic
  ]
  | err e ↦ panic
  | panic ↦ panic
]
