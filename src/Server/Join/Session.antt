-- ===== src/Server/Join/Session.antt =====
-- The multicast session that a new node starts by the message of its leader, in
-- joinMulticastFromPeerInfo of server/server.go.
use distributed_chat_applica.Prelude.{
  ℕ, zero, suc, ◌<◌, ◌≤◌, ◌≡◌, ◌≢◌, refl, sym, subst, List, [], ◌∷◌, true, false, replicate,
  le→not_ltb, Bool-cases, inl, inr, length, some, ◌==◌, arith, if◌then◌else◌,
}
use distributed_chat_applica.Go.Text.{Bytes, str_eq}
use distributed_chat_applica.Go.Map.{Map, get, put, Distinct, Apart-nil}
use distributed_chat_applica.Go.Result.{ok}
use distributed_chat_applica.Message as Body
use distributed_chat_applica.Message.RoundTrip.{wire}
use distributed_chat_applica.Multicast.Node.{
  Multicaster, new_reliable_multicast, fill_nodes, zero_clocks,
}
use distributed_chat_applica.Server.{Server, shutdown_rm}
use distributed_chat_applica.Server.Join.{peer_slices, renew_session, join_multicast_from_peer_info}
use distributed_chat_applica.Server.Join.Peers.{info, collect_peers-slices}

-- How many of the ids are not the node's own.
abbrev others : Bytes → List Bytes → ℕ
others id [] = 0
others id (p ∷ peers) = if str_eq p id then others id peers else suc (others id peers)

below : (n : ℕ) → 1 ≤ n → (k : ℕ) × (n ≡ suc k)
below zero h = absurd (omega arith)
below (suc k) h = (k, refl)

others-le-length : (id : Bytes) (peers : List Bytes) → others id peers ≤ length peers
others-le-length id [] = omega arith
others-le-length id (p ∷ peers) = ground (arith, others-le-length id peers)

fill_nodes_own :
    (slots : ℕ) (id p : Bytes) (peers nodes : List Bytes)
    → str_eq p id ≡ true
    → fill_nodes slots id peers ≡ ok nodes
    → fill_nodes slots id (p ∷ peers) ≡ ok nodes
unfolding fill_nodes
fill_nodes_own slots id p peers nodes own e = rw (fill_nodes, own) e

fill_nodes_other :
    (k : ℕ) (id p : Bytes) (peers nodes : List Bytes)
    → str_eq p id ≡ false
    → fill_nodes k id peers ≡ ok nodes
    → fill_nodes (suc k) id (p ∷ peers) ≡ ok (p ∷ nodes)
unfolding fill_nodes
fill_nodes_other k id p peers nodes other e = rw (fill_nodes, other, e) refl

fill_nodes_fits :
    (id : Bytes) (peers : List Bytes) (slots : ℕ)
    → others id peers ≤ slots
    → (nodes : List Bytes) × (fill_nodes slots id peers ≡ ok nodes)
unfolding fill_nodes
fill_nodes_fits id [] slots h = (replicate slots [], refl)
fill_nodes_fits id (p ∷ peers) slots h = elim (Bool-cases (str_eq p id)) [
  | inl own ↦
      let (nodes, e) = fill_nodes_fits id peers slots (ground arith) in
      (nodes, fill_nodes_own slots id p peers nodes own e)
  | inr other ↦
      let (k, same) = below slots (ground arith) in
      let (nodes, e) = fill_nodes_fits id peers k (ground arith) in
      (
        p ∷ nodes,
        subst (λ n. fill_nodes n id (p ∷ peers) ≡ ok (p ∷ nodes)) (sym same)
            (fill_nodes_other k id p peers nodes other e),
      )
]

others-slices :
    (peers : Map Bytes) (id ip : Bytes)
    → get peers id ≡ some ip
    → let (ids, _, _) = peer_slices peers in others id ids < length ids
unfolding peer_slices get
others-slices [] id ip h = absurd (ground arith)
others-slices ((uuid, ip') ∷ peers) id ip h =
    let (ids, _, _) = peer_slices peers in
    ground (arith, others-slices peers id ip, others-le-length id ids)

pub new_multicaster :
    (id p : Bytes) (rest nodes : List Bytes)
    → 4 ≤ length id
    → fill_nodes (length rest) id (p ∷ rest) ≡ ok nodes
    → (rm : Multicaster) × (new_reliable_multicast id (p ∷ rest) ≡ ok rm)
unfolding new_reliable_multicast
new_multicaster id p rest nodes long e =
    let rm : Multicaster = record {
      id = id;
      frame = 0;
      vector_clock = zero_clocks (put [] id 0) id (p ∷ rest);
      hold_back_queue = [];
      node_ids = nodes;
      buffer_ack = [];
    } in
    (rm, rw (le→not_ltb (length id) 4 long, e) refl)

-- A node that is among the peers, and whose id has four bytes, gets a multicaster for them.
pub new_session :
    (peers : Map Bytes) (id ip : Bytes)
    → get peers id ≡ some ip
    → 4 ≤ length id
    → let (ids, _, _) = peer_slices peers in
      (rm : Multicaster) × (new_reliable_multicast id ids ≡ ok rm)
unfolding peer_slices get
new_session [] id ip h long = absurd (ground arith)
new_session ((uuid, ip') ∷ peers) id ip h long =
    let (ids, _, _) = peer_slices peers in
    let few = others-slices ((uuid, ip') ∷ peers) id ip h in
    let (nodes, e) = fill_nodes_fits id (uuid ∷ ids) (length ids) (ground arith) in
    new_multicaster id uuid ids nodes long e

pub shuts : (s : Server) → s.rm_closed ≡ false → shutdown_rm s ≡ ok (record s { rm_closed = true })
unfolding shutdown_rm
shuts s is_open = rw is_open refl

renews :
    (t : Server) (peers : Map Bytes) (port : ℕ) (rm : Multicaster)
    → t.rm_port ≢ port
    → let (ids, _, _) = peer_slices peers in
      new_reliable_multicast t.id ids ≡ ok rm
      → renew_session t (wire (info peers port))
        ≡ ok (record t { rm = rm; rm_closed = false; rm_port = port })
unfolding renew_session wire
renews t peers port rm fresh made =
    let differs : (t.rm_port == port) ≡ false = ground arith in rw (differs, made) refl

-- A node that gets a message with other peers and a port other than its own starts a session there.
pub join_session :
    (t : Server) (data_bytes : Bytes) (peers : Map Bytes) (port : ℕ) (rm : Multicaster)
    → Distinct peers
    → t.rm_closed ≡ false
    → t.rm_port ≢ port
    → let (ids, _, _) = peer_slices peers in
      new_reliable_multicast t.id ids ≡ ok rm
      → Body.decode data_bytes ≡ ok (wire (info peers port))
      → join_multicast_from_peer_info t data_bytes
        ≡ ok (record t { peers = peers; rm = rm; rm_closed = false; rm_port = port })
unfolding join_multicast_from_peer_info wire
join_session t data_bytes peers port rm d is_open fresh made back =
    let closed = record t { peers = peers; rm_closed = true } in
    let same_peers = collect_peers-slices [] peers d (Apart-nil peers) in
    rw (join_multicast_from_peer_info, back, same_peers, shuts (record t { peers = peers }) is_open)
      (renews closed peers port rm fresh made)
