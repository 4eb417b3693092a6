-- ===== src/Server/Actions/Follow.antt =====
-- A server of server/server.go that finds a leader which answers becomes its follower.
use distributed_chat_applica.Prelude.{
  ℕ, ◌≡◌, ◌≢◌, ◌≤◌, ◌<◌, ◌^◌, refl, ◌∙◌, List, [], ◌∷◌, ◌++◌, Bool, true, false, some, none, All,
  Option, arith, length,
}
use distributed_chat_applica.Go.Text.{Bytes, str_eq_refl, str_eq_iff}
use distributed_chat_applica.Go.Map.{Map, get_or, get, put, get-put, put-Distinct, Distinct}
use distributed_chat_applica.Go.Result.{ok}
use distributed_chat_applica.Broadcast as Broadcast
use distributed_chat_applica.Broadcast.{Arrival, datagram}
use distributed_chat_applica.Broadcast.Sending.{InOrder}
use distributed_chat_applica.Broadcast.Discovery.{IsNoise, is_any_one_broadcasting_lem}
use distributed_chat_applica.Message as Body
use distributed_chat_applica.Message.RoundTrip.{wire}
use distributed_chat_applica.Unicast.Datagram as Unicast
use distributed_chat_applica.StateMachine.{
  init, follower, become_follower, init_to_become_follower, become_follower_to_follower, change_to,
  transitions,
}
use distributed_chat_applica.Server.{Server, Event, tell, beat, watch}
use distributed_chat_applica.Server.Join.{admit, peer_info_for}
use distributed_chat_applica.Server.Join.Peers.{
  AreShort, info, add_peers_read, peer_info_for-decode,
}
use distributed_chat_applica.Server.Join.Session.{new_session, join_session}
use distributed_chat_applica.Server.Actions.{
  StateMachineMessage, Outside, preceded, drive, seek, act, enter, leave, start_listener,
  join_leader, take_session, peer_info_from_leader,
}
use distributed_chat_applica.Server.Actions.Rounds.{
  Settles, preceded-Settles, seek-Settles, Seeks, seeking, found_by, drive-act_next,
  drive-act_settled, connect_message,
}

-- A server that has become follower of a leader, with its peers and on its multicast port, and does
-- not broadcast.
pub record IsFollowing (leader_id : Bytes) (peers : Map Bytes) (port : ℕ) (s : Server)
    : Type 0 where
  pub sm : s.sm ≡ follower
  pub state : s.state ≡ follower
  pub named : s.leader_id ≡ leader_id
  pub same_peers : s.peers ≡ peers
  pub same_port : s.rm_port ≡ port
  pub silent : s.broadcaster.senders ≡ 0

-- The message of a leader is found in the inbox, and gives the follower its peers and its session.
pub record IsWelcome (found : Broadcast.Message) (peers : Map Bytes) (port : ℕ)
    (answer : Unicast.Message) : Type 0 where
  pub distinct : Distinct peers
  pub from_leader : answer.from_uuid ≡ found.uuid
  pub reads : Body.decode answer.message ≡ ok (wire (info peers port))

answered :
    (found : Broadcast.Message) (peers : Map Bytes) (port : ℕ) (answer : Unicast.Message)
    (later : List Unicast.Message)
    → IsWelcome found peers port answer
    → peer_info_from_leader found.uuid (answer ∷ later) ≡ ok (some answer)
unfolding peer_info_from_leader wire
answered found peers port answer later w =
    let same = (str_eq_iff answer.from_uuid found.uuid).1 w.from_leader in
    rw (peer_info_from_leader, w.reads, same) refl

abbrev pub given : Unicast.Message → Option StateMachineMessage
given answer = some (record { broadcast = none; unicast = some answer; election_id = [] })

module _ (is_uuid : Bytes → Bool) (found : Broadcast.Message) (peers : Map Bytes) (port : ℕ)
    (answer : Unicast.Message) where
  abbrev pub connecting : Server → Server
  connecting s = record s {
    sm = become_follower;
    state = become_follower;
    leader_id = found.uuid;
    peers = peers;
  }

  join-answered :
      (s : Server) (outside : Outside) (later : List Unicast.Message)
      → outside.sent ≡ true
      → outside.inbox ≡ answer ∷ later
      → IsWelcome found peers port answer
      → join_leader (found_by found) outside s
        ≡ ok (
          record s { leader_id = found.uuid; peers = peers },
          tell found.ip found.uuid (0 ∷ []) ∷ [],
          some (follower, given answer),
        )
  unfolding join_leader
  join-answered s outside later reached first w =
      rw
        (
          connect_message,
          reached,
          first,
          answered found peers port answer later w,
          add_peers_read (record s { leader_id = found.uuid }) answer.message peers port w.distinct
              w.reads,
        )
        refl

  pub drive_answered :
      (s : Server) (outside : Outside) (rest : List Outside) (later : List Unicast.Message)
      → s.sm ≡ init
      → s.state ≡ init
      → outside.sent ≡ true
      → outside.inbox ≡ answer ∷ later
      → IsWelcome found peers port answer
      → drive is_uuid (outside ∷ rest) become_follower (found_by found) s
        ≡ preceded
            (tell found.ip found.uuid (0 ∷ []) ∷ [])
            (drive is_uuid rest follower (given answer) (connecting s))
  unfolding act enter leave start_listener change_to transitions
  drive_answered s outside rest later e i reached first w =
      let joined =
        join-answered (record s { sm = become_follower; state = become_follower }) outside later
          reached first w in
      drive-act_next is_uuid outside rest s (connecting s) become_follower become_follower
        init_to_become_follower (found_by found) (tell found.ip found.uuid (0 ∷ []) ∷ []) follower
        (given answer) (rw e refl) (rw (i, joined) refl)

  pub drive_follow :
      (s : Server) (ip : Bytes) (outside : Outside) (rest : List Outside)
      → IsWelcome found peers port answer
      → get peers s.id ≡ some ip
      → 4 ≤ length s.id
      → s.rm_closed ≡ false
      → s.rm_port ≢ port
      → InOrder false s.broadcaster
      → Settles
          (IsFollowing found.uuid peers port)
          (drive is_uuid (outside ∷ rest) follower (given answer) (connecting s))
  unfolding act enter leave start_listener change_to transitions take_session
  drive_follow s ip outside rest w here long is_open fresh o =
      let (rm, made) = new_session peers s.id ip here long in
      let t : Server = record (connecting s) { sm = follower; state = follower } in
      let s' : Server = record t { rm = rm; rm_closed = false; rm_port = port } in
      let joined =
        join_session t answer.message peers port rm w.distinct is_open fresh made w.reads in
      let events : List Event = beat (get_or peers found.uuid []) s.id ∷ watch found.uuid ∷ [] in
      (
        s',
        events,
        drive-act_settled is_uuid outside rest (connecting s) s' follower follower
            become_follower_to_follower (given answer) events refl (rw joined refl),
        record {
          sm = refl;
          state = refl;
          named = refl;
          same_peers = refl;
          same_port = refl;
          silent = o.counted;
        },
      )

-- A server that starts, and finds a leader whatever noise comes before its broadcast, becomes its
-- follower: it settles in state FOLLOWER, with the leader's id, the peers of the leader after it took
-- the server in, and the new multicast port, and does not broadcast. This wants that the
-- server's message reaches the leader, that the leader's answer is the next message, ids and
-- addresses that fit their fields, a multicaster that is not shut down, and a port other than its own.
pub drive-IsFollowing :
    (is_uuid : Bytes → Bool) (s l : Server) (ip leader_ip : Bytes) (port : ℕ)
    (answer : Unicast.Message) (hearing attempt last : Outside) (noise rest : List Arrival)
    (later : List Unicast.Message) (args : Option StateMachineMessage)
    → Seeks s
    → is_uuid l.id ≡ true
    → l.id ≢ s.id
    → length l.id ≤ 1024
    → 4 ≤ length s.id
    → s.rm_closed ≡ false
    → s.rm_port ≢ port
    → Distinct l.peers
    → AreShort (admit l s.id ip).peers
    → length (admit l s.id ip).peers < 2 ^ 32
    → port < 2 ^ 32
    → All (IsNoise is_uuid s.id) noise
    → hearing.arrivals ≡ noise ++ datagram (some leader_ip) l.id ∷ rest
    → attempt.sent ≡ true
    → attempt.inbox ≡ answer ∷ later
    → answer.from_uuid ≡ l.id
    → peer_info_for (admit l s.id ip) port ≡ ok answer.message
    → Settles
        (IsFollowing l.id (admit l s.id ip).peers port)
        (drive is_uuid (hearing ∷ attempt ∷ last ∷ []) init args s)
unfolding seek admit
drive-IsFollowing is_uuid s l ip leader_ip port answer hearing attempt last noise rest later args h
      valid other fits long is_open fresh d short few port_fits quiet heard reached first from
      made =
    let found : Broadcast.Message = record { uuid = l.id; ip = leader_ip } in
    let peers = put l.peers s.id ip in
    let (bs, e, back) = peer_info_for-decode (admit l s.id ip) port short few port_fits in
    let same : answer.message ≡ bs = ground arith in
    let w : IsWelcome found peers port answer = record {
      distinct = put-Distinct l.peers s.id ip d;
      from_leader = from;
      reads = rw same back;
    } in
    let here : get peers s.id ≡ some ip =
      get-put l.peers s.id s.id ip ∙ rw (str_eq_refl s.id) refl in
    let settles =
      drive_follow is_uuid found peers port answer s ip last [] w here long is_open fresh h.rests in
    let joins =
      drive_answered is_uuid found peers port answer (seeking s) attempt (last ∷ []) later refl refl
        reached first w in
    let lem =
      is_any_one_broadcasting_lem is_uuid s.id l.id leader_ip noise rest quiet valid other fits in
    seek-Settles is_uuid (IsFollowing l.id peers port) s hearing (attempt ∷ last ∷ []) args
      (become_follower, found_by found) h (rw (seek, heard, lem) refl)
      (rw joins (
        preceded-Settles (IsFollowing l.id peers port) (tell leader_ip l.id (0 ∷ []) ∷ [])
          (drive is_uuid (last ∷ []) follower (given answer)
            (connecting is_uuid found peers port answer s))
          settles))
