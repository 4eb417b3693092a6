-- ===== src/Server/Address.antt =====
-- server/utils.go: the address of the node and the address that reaches all nodes of its network.
pub mod Network
mod Runs
use distributed_chat_applica.Prelude.{
  ℕ, zero, suc, ◌+◌, ◌-◌, ◌*◌, ◌/◌, ◌%◌, ◌^◌, List, [], ◌∷◌, Bool, true, false, Option, none, some,
  not, ◌&&◌, ◌==◌, if◌then◌else◌,
}
use distributed_chat_applica.Go.Text.{Bytes}
use distributed_chat_applica.Go.Binary.{be_value, put_be}
use distributed_chat_applica.Go.Result.{Result, ok, err, panic}

-- One of net.InterfaceAddrs(): whether it is a *net.IPNet, whether its IP is a loopback, and what To4
-- gives for its IP and for its mask, nil for what has no four bytes.
pub record Address : Type 0 where
  pub is_ip_net : Bool
  pub is_loopback : Bool
  pub ip : Option Bytes
  pub mask : Option Bytes

abbrev is_some : Option Bytes → Bool
is_some none = false
is_some (some _) = true

-- LocalIP, without the error of net.InterfaceAddrs: the first address that serves.
unfoldable pub local_ip : List Address → Option Address
local_ip [] = none
local_ip (addr ∷ addrs) =
    let rest = local_ip addrs in
    if addr.is_ip_net && (not addr.is_loopback && is_some addr.ip) then some addr else rest

-- a | b on the low bits.
unfoldable pub bit_or : ℕ → ℕ → ℕ → ℕ
bit_or zero a b = 0
bit_or (suc bits) a b = (if a % 2 + b % 2 == 0 then 0 else 1) + 2 * bit_or bits (a / 2) (b / 2)

-- BroadcastIP: the bits of the address and the bits that the mask lacks; `none` is the error for an
-- address that is not IPv4, and reading a nil mask panics.
unfoldable pub broadcast_ip : Address → Option (Result Bytes)
broadcast_ip addr = elim addr.ip [
  | none ↦ none
  | some ip ↦ elim addr.mask [
    | none ↦ some panic
    | some mask ↦ some (ok (put_be 4 (bit_or 32 (be_value 0 ip) (2 ^ 32 - 1 - be_value 0 mask))))
  ]
]
