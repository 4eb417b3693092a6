-- ===== src/Server/Clients/Accept.antt =====
-- Which chat clients of server/client.go stay at a server, and where the others are sent.
use distributed_chat_applica.Prelude.{
  ℕ, zero, suc, ◌≡◌, ◌≢◌, ◌<◌, ◌≤◌, sym, subst, ◌⊎◌, inl, inr, [], ◌∷◌, Bool, true, false, ◌||◌,
  length, arith,
}
use distributed_chat_applica.Go.Text.{Bytes, str_eq, str_eq_iff, str_eq_refl}
use distributed_chat_applica.Go.Map.{Map}
use distributed_chat_applica.Go.Result.{ok, ◌>>=◌}
use distributed_chat_applica.StateMachine.{State, leader}
use distributed_chat_applica.Server.{Server}
use distributed_chat_applica.Server.Clients.{
  ClientServer, nth_ip, offer_peer, get_random_peer_id, redirected, on_accept,
}

abbrev pub has_address : Bytes → Map Bytes → Bool
has_address ip [] = false
has_address ip ((uuid, ip') ∷ peers) = str_eq ip' ip || has_address ip peers

nth_ip_address :
    (peers : Map Bytes) (place : ℕ)
    → 1 ≤ length (nth_ip peers place)
    → has_address (nth_ip peers place) peers ≡ true
nth_ip_address [] place h = absurd (omega arith)
nth_ip_address ((uuid, ip) ∷ peers) zero h = ground (arith, str_eq_refl ip)
nth_ip_address ((uuid, ip) ∷ peers) (suc place) h = ground (arith, nth_ip_address peers place h)

offer-redirected :
    (n : ℕ) (own_ip random_peer_id ip : Bytes)
    → offer_peer n own_ip random_peer_id ≡ ok (redirected ip)
    → (random_peer_id ≡ ip) × (1 < n) × (ip ≢ own_ip) × (1 ≤ length ip)
offer-redirected n own_ip random_peer_id ip h = ground (arith, str_eq_iff random_peer_id own_ip)

leader-redirected :
    (peers : Map Bytes) (own_ip : Bytes) (place : ℕ) (ip : Bytes)
    → (get_random_peer_id peers place >>= offer_peer (length peers) own_ip) ≡ ok (redirected ip)
    → (1 < length peers) × (ip ≢ own_ip) × (has_address ip peers ≡ true)
unfolding get_random_peer_id
leader-redirected [] own_ip place ip h = absurd (ground arith)
leader-redirected (peer ∷ peers) own_ip place ip h =
    let all = peer ∷ peers in
    let (same, many, other, some_text) =
      offer-redirected (length all) own_ip (nth_ip all place) ip h in
    (
      many,
      other,
      subst (λ a. has_address a all ≡ true) same
          (nth_ip_address all place (subst (λ a. 1 ≤ length a) (sym same) some_text)),
    )

-- A chat client is sent away only by a leader that has other peers, and to the address of one of its
-- peers that is not its own.
pub on_accept-redirected :
    (s : ClientServer) (server : Server) (place : ℕ) (ip : Bytes)
    → on_accept s server place ≡ ok (redirected ip)
    → (server.state ≡ leader)
      × (1 < length server.peers)
      × (ip ≢ s.ip)
      × (has_address ip server.peers ≡ true)
unfolding on_accept get_random_peer_id
on_accept-redirected s server place ip h = elim (leads server.state) [
  | inl e ↦
      let (many, other, known) = leader-redirected server.peers s.ip place ip (ground arith) in
      (e, many, other, known)
  | inr other ↦ absurd (ground arith)
]
  where
    leads : (state : State) → (state ≡ leader) ⊎ (state ≢ leader)
    leads state = ground arith
