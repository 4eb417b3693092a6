-- ===== src/Server/Machine.antt =====
-- main.go and NewServer of server/server.go on a machine, with the errors of its addresses and sockets,
-- and Run of server/server.go up to the call of ChangeTo.
pub mod Starts
use distributed_chat_applica.Prelude.{
  ℕ, List, [], ◌∷◌, Bool, true, false, Option, none, some, if◌then◌else◌,
}
use distributed_chat_applica.Go.Text.{Bytes}
use distributed_chat_applica.Go.Result.{Result, ok, err, panic, ◌>>=◌}
use distributed_chat_applica.Go.Scanner.{split_2}
use distributed_chat_applica.StateMachine.{init}
use distributed_chat_applica.Server.{Server}
use distributed_chat_applica.Server.Address.{Address, local_ip, broadcast_ip}
use distributed_chat_applica.Server.Start.{get_random_udp_port, new_server}
use distributed_chat_applica.Server.Actions.{Outside, Driven, crashed, drive}

-- What net.InterfaceAddrs gives, `none` for its error; whether each socket can be opened; and the tries
-- for a random port.
pub record Machine : Type 0 where
  pub addrs : Option (List Address)
  pub heartbeat_sender : Bool
  pub heartbeat_listener : Bool
  pub unicast_sender : Bool
  pub unicast_listener : Bool
  pub ports : List (ℕ × Bool)
  pub multicast_sockets : Bool
  pub broadcast_socket : Bool
  pub client_socket : Bool

-- if err != nil { log.Panic(err) }
abbrev pub needs {ℓ} : {A : Type ℓ} → Bool → Result A → Result A
needs true r = r
needs false r = panic

-- LocalIP with the error of net.InterfaceAddrs.
unfoldable pub local_ip_of : Option (List Address) → Option Address
local_ip_of none = none
local_ip_of (some addrs) = local_ip addrs

-- strings.Split(text, "/")[0]
abbrev pub before_slash : Bytes → Bytes
before_slash text = elim (split_2 47 text) [ [] ↦ [] | first ∷ rest ↦ first ]

-- The sockets of NewServer, in turn.
unfoldable pub open_server : Machine → Bytes → Bytes → Result Server
open_server m id ip = needs m.heartbeat_sender (
    needs m.heartbeat_listener (
      needs m.unicast_sender (
        needs m.unicast_listener (elim (get_random_udp_port m.ports) [
          | none ↦ panic
          | some port ↦ needs m.multicast_sockets (
              new_server id ip port >>= λ s.
              needs m.broadcast_socket (needs m.client_socket (ok s)))
        ]))))

-- String of a *net.IPNet.
module _ (to_string : Address → Bytes) where
  -- NewServer with the id that uuid.New gives; `none` is an error that it returns.
  unfoldable pub new_server_on : Machine → Bytes → Option (Result Server)
  new_server_on m id = elim (local_ip_of m.addrs) [
    | none ↦ none
    | some addr ↦ elim (broadcast_ip addr) [
      | none ↦ none
      | some broadcast ↦ some (broadcast >>= λ ip. open_server m id (before_slash (to_string addr)))
    ]
  ]

  -- main, until the calls of ChangeTo that begin in Run have ended.
  module _ (is_uuid : Bytes → Bool) where
    unfoldable pub main : Machine → Bytes → List Outside → Driven
    main m id outside = elim (new_server_on m id) [
      | none ↦ crashed
      | some r ↦ elim r [
        | ok s ↦ drive is_uuid outside init none s
        | err e ↦ crashed
        | panic ↦ crashed
      ]
    ]
