-- ===== src/Server/Start.antt =====
-- NewServer of server/server.go: the state that a server starts with, and the random port of its
-- first multicast session.
use distributed_chat_applica.Prelude.{
  ℕ, zero, suc, ◌+◌, ◌≤◌, ◌<◌, ◌≡◌, refl, List, [], ◌∷◌, Bool, true, false, Option, none, some,
  if◌then◌else◌, length, All, inl, arith,
}
use distributed_chat_applica.Go.Text.{Bytes, str_eq_refl}
use distributed_chat_applica.Go.Map.{put}
use distributed_chat_applica.Go.Result.{Result, ok, ◌>>=◌}
use distributed_chat_applica.Broadcast.{new_broadcaster}
use distributed_chat_applica.Broadcast.Sending.{new-InOrder}
use distributed_chat_applica.Multicast.Node.{Multicaster, new_reliable_multicast, fill_nodes}
use distributed_chat_applica.StateMachine.{start, init}
use distributed_chat_applica.Server.{Server}
use distributed_chat_applica.Server.Join.Session.{new_multicaster}
use distributed_chat_applica.Server.Actions.Rounds.{Seeks}

-- The tries of getRandomUDPPort: what rand.IntN gives, and whether the port is free.
unfoldable pub try_ports : ℕ → List (ℕ × Bool) → Option ℕ
try_ports zero tries = none
try_ports (suc n) [] = none
try_ports (suc n) ((random, is_free) ∷ tries) =
    let rest = try_ports n tries in if is_free then some (random + 5010) else rest

-- getRandomUDPPort; `none` is its error, with port 0.
unfoldable pub get_random_udp_port : List (ℕ × Bool) → Option ℕ
get_random_udp_port = try_ports 20

abbrev fresh : Bytes → Bytes → ℕ → Multicaster → Server
fresh id ip port rm = record {
  id = id;
  leader_id = [];
  sm = start;
  state = init;
  rm = rm;
  rm_closed = false;
  rm_port = port;
  broadcaster = new_broadcaster id;
  peers = put [] id ip;
  election_map = [];
}

-- NewServer, when all sockets are there.
unfoldable pub new_server : Bytes → Bytes → ℕ → Result Server
new_server id ip port = new_reliable_multicast id (id ∷ []) >>= λ rm. ok (fresh id ip port rm)

-- A new server looks for a leader, if its id has four bytes.
pub new_server-Seeks :
    (id ip : Bytes) (port : ℕ)
    → 4 ≤ length id
    → (s : Server) × (new_server id ip port ≡ ok s) × Seeks s
unfolding new_server fill_nodes
new_server-Seeks id ip port long =
    let own : fill_nodes 0 id (id ∷ []) ≡ ok [] = rw (fill_nodes, str_eq_refl id) refl in
    let (rm, made) = new_multicaster id id [] [] long own in
    (
      fresh id ip port rm,
      rw made refl,
      record { asks = inl refl; quiet = λ e. absurd (ground arith); rests = new-InOrder id },
    )

try_ports-bounds :
    (n : ℕ) (tries : List (ℕ × Bool)) (port : ℕ)
    → All (λ t. t.0 < 60526) tries
    → try_ports n tries ≡ some port
    → (5010 ≤ port) × (port ≤ 65535)
unfolding try_ports
try_ports-bounds zero tries port h e = absurd (ground arith)
try_ports-bounds (suc n) [] port h e = absurd (ground arith)
try_ports-bounds (suc n) ((random, true) ∷ tries) port h e =
    let same : random + 5010 ≡ port = ground arith in (omega arith, omega (arith, h.0))
try_ports-bounds (suc n) ((random, false) ∷ tries) port h e = try_ports-bounds n tries port h.1 e

-- A port that is found is above those of the fixed sockets, 5000 to 5006, and is a port.
pub get_random_udp_port-bounds :
    (tries : List (ℕ × Bool)) (port : ℕ)
    → All (λ t. t.0 < 60526) tries
    → get_random_udp_port tries ≡ some port
    → (5010 ≤ port) × (port ≤ 65535)
unfolding get_random_udp_port
get_random_udp_port-bounds tries port h e = try_ports-bounds 20 tries port h e
