-- ===== src/Server/Process.antt =====
-- The process of a server, from main.go: Shutdown of server/server.go and what it shuts down, and the
-- functions of server/server.go that end a process or empty a channel.
pub mod Ends
use distributed_chat_applica.Prelude.{
  ℕ, zero, suc, List, [], ◌∷◌, Bool, true, false, ltb, if◌then◌else◌,
}
use distributed_chat_applica.Go.Text.{Bytes}
use distributed_chat_applica.Go.Result.{Result, ok, err, panic, ◌>>=◌}
use distributed_chat_applica.Broadcast as Broadcast
use distributed_chat_applica.Unicast.Datagram as Unicast
use distributed_chat_applica.StateMachine.{State, leader, follower}
use distributed_chat_applica.Server.{Server, shutdown_rm}

-- The server, and which of its `quit` channels are closed: its own, that of the client server, and that
-- of the unicast; and whether the socket of the broadcaster is closed.
pub record Process : Type 0 where
  pub server : Server
  pub quit_closed : Bool
  pub broadcast_closed : Bool
  pub clients_closed : Bool
  pub unicast_closed : Bool

-- NewServer makes the channels.
abbrev pub new_process : Server → Process
new_process s = record {
  server = s;
  quit_closed = false;
  broadcast_closed = false;
  clients_closed = false;
  unicast_closed = false;
}

-- close(quit): whether it is closed; a second close panics.
abbrev pub close_quit : Bool → Result Bool
close_quit closed = if closed then panic else ok true

-- Shutdown of the broadcaster: the error of a second Close is not looked at.
abbrev pub shutdown_broadcaster : Process → Process
shutdown_broadcaster p = record p { broadcast_closed = true }

abbrev pub shutdown_clients : Process → Result Process
shutdown_clients p =
    close_quit p.clients_closed >>= λ closed. ok (record p { clients_closed = closed })

abbrev pub shutdown_unicast : Process → Result Process
shutdown_unicast p =
    close_quit p.unicast_closed >>= λ closed. ok (record p { unicast_closed = closed })

-- Server.Shutdown
unfoldable pub shutdown : Process → Result Process
shutdown p = close_quit p.quit_closed >>= λ closed.
    shutdown_clients (shutdown_broadcaster (record p { quit_closed = closed })) >>= λ p'.
    shutdown_rm p'.server >>= λ s. shutdown_unicast (record p' { server = s })

-- What a signal does: the process exits with 0, or with the panic of Shutdown.
pub data Exit : Type 0 where
  exits panics : Exit

unfoldable pub on_signal : Process → Exit
on_signal p = elim (shutdown p) [ ok p' ↦ exits | err e ↦ panics | panic ↦ panics ]

-- KillLeaderAfter, with the state when its sleep ends: whether the process ends.
unfoldable pub kill_leader_after : State → Bool
kill_leader_after leader = true
kill_leader_after _ = false

-- The rounds of the loop of KillFollowerAfter: whether one of them ends the process.
unfoldable pub kill_rounds : ℕ → State → Bool
kill_rounds zero state = false
kill_rounds (suc n) state =
    let later = kill_rounds n state in elim state [ follower ↦ true | _ ↦ later ]

-- KillFollowerAfter: what rand.IntN(10) gives, and the state when its sleep ends.
unfoldable pub kill_follower_after : ℕ → State → ℕ → Bool
kill_follower_after random state rounds = if ltb random 7 then false else kill_rounds rounds state

-- A channel with what is buffered in it.
pub data Channel (Any : Type 0) : Type 0 where
  broadcasts : List Broadcast.Message → Channel Any
  unicasts : List Unicast.Message → Channel Any
  bools : List Bool → Channel Any
  anything : List Any → Channel Any
  other_type : Channel Any

-- for len(v) > 0 { <-v }
abbrev pub drain : {A : Type 0} → List A → List A
drain [] = []
drain (x ∷ xs) = drain xs

unfoldable pub empty_channel : {Any : Type 0} → Channel Any → Channel Any
empty_channel (broadcasts ms) = broadcasts (drain ms)
empty_channel (unicasts ms) = unicasts (drain ms)
empty_channel (bools bs) = bools (drain bs)
empty_channel (anything xs) = anything (drain xs)
empty_channel other_type = other_type
