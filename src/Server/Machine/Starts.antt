-- ===== src/Server/Machine/Starts.antt =====
-- From the start of main.go to a leader.
use distributed_chat_applica.Prelude.{
  ℕ, ◌≤◌, ◌≡◌, refl, sym, ap, ◌∙◌, List, [], ◌∷◌, ◌++◌, Bool, true, none, some, All, length, arith,
  Bool-cases, Option-cases, inl, inr, subst, not, ◌&&◌,
}
use distributed_chat_applica.Go.Text.{Bytes}
use distributed_chat_applica.Go.Result.{ok, Result-cases}
use distributed_chat_applica.Broadcast.Discovery.{IsNoise}
use distributed_chat_applica.Multicast.Node.{new_reliable_multicast}
use distributed_chat_applica.StateMachine.{init}
use distributed_chat_applica.Server.{Server}
use distributed_chat_applica.Server.Address.{Address, local_ip, broadcast_ip}
use distributed_chat_applica.Server.Start.{get_random_udp_port, new_server, new_server-Seeks}
use distributed_chat_applica.Server.Actions.{Outside, drive}
use distributed_chat_applica.Server.Actions.Rounds.{Settles, IsLeading}
use distributed_chat_applica.Server.Actions.Boot.{Misses, in_turn, drive-IsLeading}
use distributed_chat_applica.Server.Machine.{
  Machine, local_ip_of, open_server, new_server_on, main, before_slash,
}

-- All sockets can be opened.
abbrev pub IsFree : Machine → Type 0
IsFree m =
    (m.heartbeat_sender ≡ true)
    × (m.heartbeat_listener ≡ true)
    × (m.unicast_sender ≡ true)
    × (m.unicast_listener ≡ true)
    × (m.multicast_sockets ≡ true)
    × (m.broadcast_socket ≡ true)
    × (m.client_socket ≡ true)

local_ip-IsSome :
    (addrs : List Address) (addr : Address)
    → local_ip addrs ≡ some addr
    → (ip : Bytes) × (addr.ip ≡ some ip)
unfolding local_ip
local_ip-IsSome [] addr h = absurd (ground arith)
local_ip-IsSome (a ∷ addrs) addr h = elim (Option-cases a.ip) [
  | inr (ip, e) ↦ elim (Bool-cases (a.is_ip_net && not a.is_loopback)) [
    | inl serves ↦ let same : a ≡ addr = ground arith in (ip, subst (λ b. b.ip ≡ some ip) same e)
    | inr passes ↦ local_ip-IsSome addrs addr (ground arith)
  ]
  | inl e ↦ local_ip-IsSome addrs addr (ground arith)
]

opens_server :
    (m : Machine) (id ip : Bytes) (port : ℕ) (s : Server)
    → IsFree m
    → get_random_udp_port m.ports ≡ some port
    → new_server id ip port ≡ ok s
    → open_server m id ip ≡ ok s
unfolding open_server
opens_server m id ip port s (a, b, c, d, e, f, g) found made =
    rw (a, b, c, d, found, e, made, f, g) refl

-- NewServer succeeds only if all sockets can be opened and a random port is free.
open_server-IsFree :
    (m : Machine) (id ip : Bytes) (s : Server)
    → open_server m id ip ≡ ok s
    → IsFree m × ((port : ℕ) × (get_random_udp_port m.ports ≡ some port))
unfolding open_server
open_server-IsFree m id ip s h = elim (Option-cases (get_random_udp_port m.ports)) [
  | inl e ↦ absurd (ground arith)
  | inr (port, e) ↦ (ground (arith, Result-cases (new_server id ip port)), (port, e))
]

new_server-id : (id ip : Bytes) (port : ℕ) (s : Server) → new_server id ip port ≡ ok s → s.id ≡ id
unfolding new_server
new_server-id id ip port s h = ground (arith, Result-cases (new_reliable_multicast id (id ∷ [])))

module _ (to_string : Address → Bytes) (is_uuid : Bytes → Bool) where
  makes_server :
      (m : Machine) (id ip mask : Bytes) (addr : Address) (s : Server)
      → local_ip_of m.addrs ≡ some addr
      → addr.ip ≡ some ip
      → addr.mask ≡ some mask
      → open_server m id (before_slash (to_string addr)) ≡ ok s
      → new_server_on to_string m id ≡ some (ok s)
  unfolding new_server_on broadcast_ip
  makes_server m id ip mask addr s first known masked opened =
      rw (new_server_on, first, broadcast_ip, known, masked, opened) refl

  -- From the start of the process to a leader. On a machine with an IPv4 address that is no loopback,
  -- where all sockets can be opened and one of the tries for a random port is free, main starts a
  -- server; if it finds nobody, or leaders that do not answer any number of times and then nobody, it
  -- settles in state LEADER, names itself as leader, and has one goroutine that broadcasts.
  pub starts-IsLeading :
      (m : Machine) (id : Bytes) (addrs : List Address) (addr : Address) (mask : Bytes) (port : ℕ)
      (misses : List (Outside × Outside)) (quiet last : Outside)
      → m.addrs ≡ some addrs
      → local_ip addrs ≡ some addr
      → addr.mask ≡ some mask
      → IsFree m
      → get_random_udp_port m.ports ≡ some port
      → 4 ≤ length id
      → All (Misses is_uuid id) misses
      → All (IsNoise is_uuid id) quiet.arrivals
      → Settles (IsLeading id) (main to_string is_uuid m id (in_turn misses ++ quiet ∷ last ∷ []))
  unfolding main local_ip_of
  starts-IsLeading m id addrs addr mask port misses quiet last there first masked free found long
        missed noise =
      let (ip, known) = local_ip-IsSome addrs addr first in
      let text = before_slash (to_string addr) in
      let (s, made, seeks) = new_server-Seeks id text port long in
      let named = new_server-id id text port s made in
      let started =
        makes_server m id ip mask addr s (ap local_ip_of there ∙ first) known masked
          (opens_server m id text port s free found made) in
      let leads =
        drive-IsLeading is_uuid quiet last misses s none seeks
          (subst (λ i. All (Misses is_uuid i) misses) (sym named) missed)
          (subst (λ i. All (IsNoise is_uuid i) quiet.arrivals) (sym named) noise) in
      rw (main, started)
        (subst
          (λ i.
            Settles (IsLeading i) (drive is_uuid (in_turn misses ++ quiet ∷ last ∷ []) init none s))
          named leads)
