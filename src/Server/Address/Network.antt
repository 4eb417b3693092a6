-- ===== src/Server/Address/Network.antt =====
-- BroadcastIP of server/utils.go gives one address for all nodes of a network.
use distributed_chat_applica.Prelude.{
  ℕ, zero, suc, ◌+◌, ◌-◌, ◌*◌, ◌/◌, ◌%◌, ◌^◌, ◌≤◌, ◌<◌, ◌≡◌, refl, some, arith,
}
use distributed_chat_applica.Go.Text.{Bytes}
use distributed_chat_applica.Go.Binary.{be_value, put_be}
use distributed_chat_applica.Go.Result.{ok}
use distributed_chat_applica.Server.Address.{Address, bit_or, broadcast_ip}

-- A number followed by k bits of zeros.
abbrev pub shift : ℕ → ℕ → ℕ
shift zero net = net
shift (suc k) net = 2 * shift k net

-- k bits of ones.
abbrev pub ones : ℕ → ℕ
ones zero = 0
ones (suc k) = 2 * ones k + 1

bit_or_zero : (bits a : ℕ) → a ≤ ones bits → bit_or bits a 0 ≡ a
unfolding bit_or
bit_or_zero zero a h = omega arith
bit_or_zero (suc bits) a h = ground (arith, bit_or_zero bits (a / 2) (omega arith))

bit_or-ones :
    (k bits net host : ℕ)
    → k ≤ bits
    → host ≤ ones k
    → shift k net + host ≤ ones bits
    → bit_or bits (shift k net + host) (ones k) ≡ shift k net + ones k
unfolding bit_or
bit_or-ones zero bits net host few fits all =
    let alone : host ≡ 0 = omega arith in rw (alone) (bit_or_zero bits (net + 0) (omega arith))
bit_or-ones (suc k) zero net host few fits all = absurd (omega arith)
bit_or-ones (suc k) (suc bits) net host few fits all =
    let half : (shift (suc k) net + host) / 2 ≡ shift k net + host / 2 = omega arith in
    let low : (2 * ones k + 1) / 2 ≡ ones k = omega arith in
    let ih = bit_or-ones k bits net (host / 2) (omega arith) (omega arith) (omega arith) in
    let one : (2 * ones k + 1) % 2 ≡ 1 = omega arith in ground (arith, half, low, one, ih)

-- All nodes of a network get the same broadcast address, the one whose bits for the node are all ones,
-- whatever their own address in the network is; the mask leaves k bits for the node, and addresses
-- have 32 bits.
pub broadcast_ip_lem :
    (addr : Address) (k net host : ℕ) (ip mask : Bytes)
    → addr.ip ≡ some ip
    → addr.mask ≡ some mask
    → k ≤ 32
    → be_value 0 mask + ones k ≡ 2 ^ 32 - 1
    → be_value 0 ip ≡ shift k net + host
    → host ≤ ones k
    → shift k net + ones k < 2 ^ 32
    → broadcast_ip addr ≡ some (ok (put_be 4 (shift k net + ones k)))
unfolding broadcast_ip
broadcast_ip_lem addr k net host ip mask e e' few masks reads inside fits =
    let free : 2 ^ 32 - 1 - be_value 0 mask ≡ ones k = omega arith in
    rw (broadcast_ip, e, e', reads, free, bit_or-ones k 32 net host few inside (omega arith)) refl
