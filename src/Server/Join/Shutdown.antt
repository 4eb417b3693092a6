-- ===== src/Server/Join/Shutdown.antt =====
-- A multicaster of server/server.go that was shut down and is still in use.
use distributed_chat_applica.Prelude.{◌⊎◌, ◌≡◌, refl, [], true, false, inl, inr, ◌==◌, arith}
use distributed_chat_applica.Go.Text.{Bytes}
use distributed_chat_applica.Go.Map.{Map, Distinct, Apart-nil}
use distributed_chat_applica.Go.Result.{Error, ok, err, panic, Result-cases}
use distributed_chat_applica.Message as Body
use distributed_chat_applica.Message.RoundTrip.{wire}
use distributed_chat_applica.Unicast.Datagram as Unicast
use distributed_chat_applica.Multicast.Node.{new_reliable_multicast}
use distributed_chat_applica.Server.{Server, collect_peers, shutdown_rm}
use distributed_chat_applica.Server.Join.{renew_session, join_multicast_from_peer_info}
use distributed_chat_applica.Server.Handlers.{change_session, on_unicast_message}
use distributed_chat_applica.Server.Join.Session.{shuts}
use distributed_chat_applica.Server.Join.Peers.{info, collect_peers-slices}

closed_changes :
    (s : Server) (body : Body.Message)
    → s.rm_closed ≡ true
    → ((e : Error) × (change_session s body ≡ err e)) ⊎ (change_session s body ≡ panic)
unfolding change_session shutdown_rm
closed_changes s body closed = ground (
  arith,
  Result-cases (collect_peers [] body.peer_ids body.peer_ips),
  Result-cases (new_reliable_multicast s.id body.peer_ids),
)

closed_panics :
    (s : Server) (msg : Unicast.Message) (body : Body.Message)
    → s.rm_closed ≡ true
    → Body.decode msg.message ≡ ok body
    → body.type ≡ Body.multicast_session_change
    → on_unicast_message s msg ≡ panic
unfolding on_unicast_message
closed_panics s msg body closed reads changes =
    let changing : (body.type == Body.multicast_session_change) ≡ true = ground arith in
    elim (closed_changes s body closed) [
      | inl (e, failed) ↦ rw (on_unicast_message, reads, changing, failed) refl
      | inr failed ↦ rw (on_unicast_message, reads, changing, failed) refl
    ]

-- A node that joins a session on the port that it uses shuts its multicaster down and keeps it, so that
-- the next change of the session panics, whatever the message for it says.
pub join_same_port :
    (t : Server) (data_bytes : Bytes) (peers : Map Bytes) (msg : Unicast.Message)
    (body : Body.Message)
    → Distinct peers
    → t.rm_closed ≡ false
    → Body.decode data_bytes ≡ ok (wire (info peers t.rm_port))
    → Body.decode msg.message ≡ ok body
    → body.type ≡ Body.multicast_session_change
    → let joined = record t { peers = peers; rm_closed = true } in
      (join_multicast_from_peer_info t data_bytes ≡ ok joined)
      × (on_unicast_message joined msg ≡ panic)
unfolding join_multicast_from_peer_info renew_session wire
join_same_port t data_bytes peers msg body d is_open back reads changes =
    let joined = record t { peers = peers; rm_closed = true } in
    let same_peers = collect_peers-slices [] peers d (Apart-nil peers) in
    let same : (t.rm_port == t.rm_port) ≡ true = ground arith in
    (
      rw
          (
            join_multicast_from_peer_info,
            back,
            same_peers,
            shuts (record t { peers = peers }) is_open,
          )
          (rw same refl),
      closed_panics joined msg body refl reads changes,
    )
