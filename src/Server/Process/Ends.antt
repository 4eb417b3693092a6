-- ===== src/Server/Process/Ends.antt =====
-- When a process of main.go ends well, and what the functions for tests and channels come to.
use distributed_chat_applica.Prelude.{
  ℕ, zero, suc, ◌≡◌, ◌≢◌, ◌↔◌, refl, [], true, false, List, ◌∷◌, arith, inl, inr,
}
use distributed_chat_applica.Go.Text.{Bytes}
use distributed_chat_applica.Go.Result.{ok, panic, Result-cases}
use distributed_chat_applica.Multicast.Node.{new_reliable_multicast}
use distributed_chat_applica.Broadcast as Broadcast
use distributed_chat_applica.Message as Body
use distributed_chat_applica.StateMachine.{
  State, start, init, leader, follower, become_leader, become_follower, election,
}
use distributed_chat_applica.Server.{Server, shutdown_rm, collect_peers}
use distributed_chat_applica.Server.Join.{join_multicast_from_peer_info, renew_session}
use distributed_chat_applica.Server.Start.{new_server}
use distributed_chat_applica.Server.Process.{
  Process, new_process, shutdown, exits, on_signal, kill_rounds, drain, broadcasts, empty_channel,
}

-- All channels that a Shutdown closes are open.
abbrev pub IsOpen : Process → Type 0
IsOpen p =
    (p.quit_closed ≡ false)
    × (p.clients_closed ≡ false)
    × (p.server.rm_closed ≡ false)
    × (p.unicast_closed ≡ false)

-- A signal ends the process well if and only if all these channels are open.
pub on_signal-exits : (p : Process) → (on_signal p ≡ exits) ↔ IsOpen p
unfolding shutdown shutdown_rm on_signal
on_signal-exits p = ground arith

-- A signal ends a new server well.
new_process-exits :
    (id ip : Bytes) (port : ℕ) (s : Server)
    → new_server id ip port ≡ ok s
    → on_signal (new_process s) ≡ exits
unfolding new_server
new_process-exits id ip port s h =
    ground
      (arith, Result-cases (new_reliable_multicast id (id ∷ [])), on_signal-exits (new_process s))

-- Nothing can be shut down twice.
shutdown_twice : (p q : Process) → shutdown p ≡ ok q → shutdown q ≡ panic
unfolding shutdown shutdown_rm
shutdown_twice p q h = ground arith

renewed_closed :
    (u t : Server) (body : Body.Message)
    → u.rm_closed ≡ true
    → renew_session u body ≡ ok t
    → (t.rm_closed ≡ false) ↔ (u.rm_port ≢ body.multicast_port)
unfolding renew_session
renewed_closed u t body closed h =
    ground (arith, Result-cases (new_reliable_multicast u.id body.peer_ids))

-- A server that joins a session has not shut down its multicaster before, and keeps what it has shut
-- down if and only if the port is the one in use.
joined_closed :
    (s t : Server) (data_bytes : Bytes) (body : Body.Message)
    → Body.decode data_bytes ≡ ok body
    → join_multicast_from_peer_info s data_bytes ≡ ok t
    → (s.rm_closed ≡ false) × ((t.rm_closed ≡ false) ↔ (s.rm_port ≢ body.multicast_port))
unfolding join_multicast_from_peer_info shutdown_rm
joined_closed s t data_bytes body reads joins =
    elim (Result-cases (collect_peers [] body.peer_ids body.peer_ips)) [
      | inl (peers, e) ↦
          let left = renewed_closed (record s { peers = peers; rm_closed = true }) t body refl in
          ground (arith, reads, e, joins, left)
      | inr other ↦ ground (arith, reads, other, joins)
    ]

-- A process that joins a session and then gets a signal: it ends well if and only if it would have
-- ended well before, and the session is not on the port that the server used; otherwise Shutdown panics.
pub signal_after_join :
    (p : Process) (t : Server) (data_bytes : Bytes) (body : Body.Message)
    → Body.decode data_bytes ≡ ok body
    → join_multicast_from_peer_info p.server data_bytes ≡ ok t
    → (on_signal (record p { server = t }) ≡ exits)
      ↔ (IsOpen p × (p.server.rm_port ≢ body.multicast_port))
signal_after_join p t data_bytes body reads joins = ground (
  arith,
  on_signal-exits p,
  on_signal-exits (record p { server = t }),
  joined_closed p.server t data_bytes body reads joins,
)

-- KillFollowerAfter reads the state once, so its loop ends the process in the first round or never.
kill_rounds_once : (n : ℕ) (state : State) → kill_rounds (suc n) state ≡ kill_rounds 1 state
unfolding kill_rounds
kill_rounds_once zero state = refl
kill_rounds_once (suc n) follower = refl
kill_rounds_once (suc n) start = kill_rounds_once n start
kill_rounds_once (suc n) init = kill_rounds_once n init
kill_rounds_once (suc n) leader = kill_rounds_once n leader
kill_rounds_once (suc n) become_leader = kill_rounds_once n become_leader
kill_rounds_once (suc n) become_follower = kill_rounds_once n become_follower
kill_rounds_once (suc n) election = kill_rounds_once n election

drain_lem : {A : Type 0} → (xs : List A) → drain xs ≡ []
drain_lem [] = refl
drain_lem (x ∷ xs) = drain_lem xs

-- The messages of broadcasters that are left from an earlier state are thrown away.
empty_channel-broadcasts :
    (ms : List Broadcast.Message) → empty_channel {Any = Bytes} (broadcasts ms) ≡ broadcasts []
unfolding empty_channel
empty_channel-broadcasts ms = rw (drain_lem ms) refl
