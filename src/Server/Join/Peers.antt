-- ===== src/Server/Join/Peers.antt =====
-- The peers that a leader sends in server/server.go are the peers that the new node takes over.
use distributed_chat_applica.Prelude.{
  ℕ, suc, ◌^◌, ◌<◌, ◌≡◌, refl, ◌∙◌, ap, [], ◌∷◌, ◌++◌, length, All, append_assoc, append-nil, arith,
}
use distributed_chat_applica.Go.Text.{Bytes}
use distributed_chat_applica.Go.Map.{
  Map, put, Distinct, Apart, put_new, put-Apart, Apart-nil, put-Distinct,
}
use distributed_chat_applica.Go.Result.{ok}
use distributed_chat_applica.Message as Body
use distributed_chat_applica.Message.New.{new_peer_info_message}
use distributed_chat_applica.Message.RoundTrip.{PeersFit, IsSendable, wire, decode-encode}
use distributed_chat_applica.Server.{Server, collect_peers}
use distributed_chat_applica.Server.Join.{
  peer_slices, admit, peer_info_for, add_peers_from_peer_info,
}

-- Ids and addresses whose lengths fit their fields.
abbrev pub AreShort : Map Bytes → Type 0
AreShort = All (λ e. (length (e.0) < 2 ^ 32) × (length (e.1) < 2 ^ 32))

pub collect_peers-slices :
    (acc peers : Map Bytes)
    → Distinct peers
    → Apart acc peers
    → let (ids, ips, _) = peer_slices peers in collect_peers acc ids ips ≡ ok (acc ++ peers)
unfolding collect_peers peer_slices
collect_peers-slices acc [] d a = rw (append-nil acc)
collect_peers-slices acc ((uuid, ip) ∷ peers) d a =
    collect_peers-slices (put acc uuid ip) peers d.1 (put-Apart acc peers uuid ip d.0 a.1)
    ∙ rw (put_new acc uuid ip a.0, append_assoc acc ((uuid, ip) ∷ []) peers)

slices-PeersFit :
    (peers : Map Bytes)
    → AreShort peers
    → let (ids, ips, clocks) = peer_slices peers in PeersFit ids ips clocks
unfolding peer_slices
slices-PeersFit [] h = tt
slices-PeersFit ((uuid, ip) ∷ peers) h = (h.0.0, h.0.1, omega arith, slices-PeersFit peers h.1)

pub length-slices :
    (peers : Map Bytes) → let (ids, _, _) = peer_slices peers in length ids ≡ length peers
unfolding peer_slices
length-slices [] = refl
length-slices ((uuid, ip) ∷ peers) = ap suc (length-slices peers)

abbrev pub info : Map Bytes → ℕ → Body.Message
info peers port =
    let (ids, ips, clocks) = peer_slices peers in
    record (Body.of_type Body.peer_info) {
      peer_ids = ids;
      peer_ips = ips;
      multicast_port = port;
      clock = clocks;
    }

info-IsSendable :
    (peers : Map Bytes) (port : ℕ)
    → AreShort peers
    → length peers < 2 ^ 32
    → port < 2 ^ 32
    → IsSendable (info peers port)
info-IsSendable peers port short few fits = record {
  type_fits = omega arith;
  frame_fits = omega arith;
  msg_fits = omega arith;
  msg_nonempty = λ e. absurd (omega arith);
  uuid_fits = omega arith;
  ip_fits = omega arith;
  ip_nonempty = λ e. cc;
  count_fits = omega (arith, length-slices peers);
  port_fits = fits;
  peers_fit = slices-PeersFit peers short;
}

pub add_peers_read :
    (t : Server) (data_bytes : Bytes) (peers : Map Bytes) (port : ℕ)
    → Distinct peers
    → Body.decode data_bytes ≡ ok (wire (info peers port))
    → add_peers_from_peer_info t data_bytes ≡ ok (record t { peers = peers })
unfolding add_peers_from_peer_info wire
add_peers_read t data_bytes peers port d back =
    rw (back, add_peers_from_peer_info, collect_peers-slices [] peers d (Apart-nil peers))

-- The message for a new node, and what it decodes to.
pub peer_info_for-decode :
    (s : Server) (port : ℕ)
    → AreShort s.peers
    → length s.peers < 2 ^ 32
    → port < 2 ^ 32
    → (data_bytes : Bytes) × (peer_info_for s port ≡ ok data_bytes)
      × (Body.decode data_bytes ≡ ok (wire (info s.peers port)))
unfolding peer_info_for new_peer_info_message
peer_info_for-decode s port short few fits =
    let (bs, e, back) =
      decode-encode (info s.peers port) (info-IsSendable s.peers port short few fits) in
    (bs, rw e refl, back)

-- Joining. The message that a leader makes for a new node, after it has taken the node into its
-- peers, makes the node's peers the same as the leader's, whatever peers the node had before; this
-- wants lengths and a number of peers that fit their fields.
pub join_peers :
    (s t : Server) (uuid ip : Bytes) (port : ℕ)
    → Distinct s.peers
    → AreShort (admit s uuid ip).peers
    → length (admit s uuid ip).peers < 2 ^ 32
    → port < 2 ^ 32
    → (data_bytes : Bytes) × (peer_info_for (admit s uuid ip) port ≡ ok data_bytes)
      × (add_peers_from_peer_info t data_bytes ≡ ok (record t { peers = (admit s uuid ip).peers }))
unfolding admit
join_peers s t uuid ip port d short few fits =
    let admitted = admit s uuid ip in
    let (bs, e, back) = peer_info_for-decode admitted port short few fits in
    (bs, e, add_peers_read t bs admitted.peers port (put-Distinct s.peers uuid ip d) back)
