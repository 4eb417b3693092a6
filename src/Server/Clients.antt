-- ===== src/Server/Clients.antt =====
-- server/client.go: the sessions of the chat clients at a server; and what feeds them,
-- getRandomPeerID of server/server.go and startMutlicastSender of server/multicast.go.
pub mod Sessions
pub mod Accept
mod Runs
use distributed_chat_applica.Prelude.{
  ℕ, zero, suc, List, [], ◌∷◌, ◌++◌, Bool, true, false, Option, none, some, ◌==◌, ltb, not, ◌&&◌,
  ◌||◌, if◌then◌else◌, length,
}
use distributed_chat_applica.Go.Text.{Bytes, str_eq}
use distributed_chat_applica.Go.Map.{Map}
use distributed_chat_applica.Go.Result.{Result, ok, err, panic, ◌>>=◌}
use distributed_chat_applica.Message.New.{new_application_message}
use distributed_chat_applica.Multicast.Send.{send_message}
use distributed_chat_applica.StateMachine.{State, leader, follower}
use distributed_chat_applica.Server.{Server}

-- A connection is known by a number.
pub record ClientServer : Type 0 where
  pub ip : Bytes
  pub clients : List ℕ

unfoldable pub add_client : ClientServer → ℕ → ClientServer
add_client s conn = record s { clients = s.clients ++ (conn ∷ []) }

-- The loop of removeClient: whether the connection was there, and the rest.
unfoldable pub remove_conn : List ℕ → ℕ → Bool × List ℕ
remove_conn [] conn = (false, [])
remove_conn (c ∷ cs) conn =
    let (removed, rest) = remove_conn cs conn in
    if c == conn then (true, cs) else (removed, c ∷ rest)

unfoldable pub remove_client : ClientServer → ℕ → Bool × ClientServer
remove_client s conn =
    let (removed, rest) = remove_conn s.clients conn in (removed, record s { clients = rest })

abbrev pub write_all : List ℕ → Bytes → List (ℕ × Bytes)
write_all [] data_bytes = []
write_all (c ∷ cs) data_bytes = (c, data_bytes) ∷ write_all cs data_bytes

-- sendMessageToConnectedClients: what is written to which connection.
unfoldable pub send_message_to_connected_clients : ClientServer → Bytes → List (ℕ × Bytes)
send_message_to_connected_clients s msg = write_all s.clients (msg ++ (10 ∷ []))

-- The address at a place of the peers.
abbrev pub nth_ip : Map Bytes → ℕ → Bytes
nth_ip [] place = []
nth_ip ((uuid, ip) ∷ peers) zero = ip
nth_ip ((uuid, ip) ∷ peers) (suc place) = nth_ip peers place

-- getRandomPeerID with its random number; there is none below the length of an empty map.
unfoldable pub get_random_peer_id : Map Bytes → ℕ → Result Bytes
get_random_peer_id peers place = elim peers [
  | [] ↦ panic
  | peer ∷ rest ↦ ok (nth_ip (peer ∷ rest) place)
]

-- What becomes of a connection.
pub data Accepted : Type 0 where
  refused session : Accepted
  redirected : Bytes → Accepted

-- log prints the first four bytes of both addresses.
abbrev pub offer_peer : ℕ → Bytes → Bytes → Result Accepted
offer_peer n own_ip random_peer_id =
    if ltb (length random_peer_id) 4 || ltb (length own_ip) 4
    then panic
    else if ltb 1 n && not (str_eq random_peer_id own_ip)
    then ok (redirected random_peer_id)
    else ok session

-- A round of the loop of Start, from Accept on; `place` is the random number.
unfoldable pub on_accept : ClientServer → Server → ℕ → Result Accepted
on_accept s server place = elim server.state [
  | leader ↦ get_random_peer_id server.peers place >>= offer_peer (length server.peers) s.ip
  | follower ↦ ok session
  | _ ↦ ok refused
]

-- The turns of the goroutines: handleConn begins, reads a line and ends, and a message comes from
-- applicationMsgChan.
pub data Turn : Type 0 where
  opens ends : ℕ → Turn
  reads : ℕ → Bytes → Turn
  chats : Bytes → Turn

pub data Deed : Type 0 where
  to_servers to_clients : Bytes → Deed  -- s.clientMsgChan <- message, s.applicationMsgChan <- message
  writes : ℕ → Bytes → Deed
  closes : ℕ → Deed

abbrev pub written_deeds : List (ℕ × Bytes) → List Deed
written_deeds [] = []
written_deeds ((c, data_bytes) ∷ ws) = writes c data_bytes ∷ written_deeds ws

unfoldable pub on_turn : Turn → ClientServer → ClientServer × List Deed
on_turn (opens conn) s = (add_client s conn, [])
on_turn (ends conn) s =
    let (removed, s') = remove_client s conn in (s', if removed then closes conn ∷ [] else [])
on_turn (reads conn message) s = (s, to_servers message ∷ to_clients message ∷ [])
on_turn (chats msg) s = (s, written_deeds (send_message_to_connected_clients s msg))

unfoldable pub run_turns : List Turn → ClientServer → List Deed
run_turns [] s = []
run_turns (t ∷ turns) s = let (s', deeds) = on_turn t s in deeds ++ run_turns turns s'

-- The end of startMutlicastSender for one message from clientMsgChan.
unfoldable pub send_chat : Server → Bytes → Result (Server × Bytes)
send_chat s msg =
    let text : Bytes = elim msg [ [] ↦ 32 ∷ [] | c ∷ cs ↦ c ∷ cs ] in
    new_application_message text >>= λ data_bytes.
    send_message s.rm data_bytes >>= λ (rm, datagram). ok (record s { rm = rm }, datagram)

abbrev may_send : State → Bool
may_send leader = true
may_send follower = true
may_send _ = false

-- startMutlicastSender for one message, with the server each time the state is looked at: the message
-- is held until the server may send.
unfoldable pub send_held : List Server → Bytes → Option (Result (Server × Bytes))
send_held [] msg = none
send_held (s ∷ later) msg =
    let rest = send_held later msg in if may_send s.state then some (send_chat s msg) else rest
