-- ===== src/Server/Actions/Runs.antt =====
-- Servers that start, and a leader that gives way, at concrete nodes.
use distributed_chat_applica.Prelude.{
  ◌≡◌, refl, [], ◌∷◌, Bool, true, false, some, none, ◌==◌, length, replicate, inl, inr, arith,
  if◌then◌else◌,
}
use distributed_chat_applica.Go.Text.{Bytes, str_eq, str_ne}
use distributed_chat_applica.Go.Map.{get, put}
use distributed_chat_applica.Go.Result.{ok}
use distributed_chat_applica.Broadcast.{new_broadcaster, datagram}
use distributed_chat_applica.Broadcast.Sending.{new-InOrder}
use distributed_chat_applica.Broadcast.Discovery.{is_any_one_broadcasting_lem}
use distributed_chat_applica.Unicast.Datagram as Unicast
use distributed_chat_applica.StateMachine as Machine
use distributed_chat_applica.StateMachine.{init, leader, follower, election}
use distributed_chat_applica.Server.{Server}
use distributed_chat_applica.Server.Join.{admit, peer_info_for}
use distributed_chat_applica.Server.Join.Peers.{AreShort, peer_info_for-decode}
use distributed_chat_applica.Server.Machine as Host
use distributed_chat_applica.Server.Machine.Starts.{starts-IsLeading}
use distributed_chat_applica.Server.Address.{Address, local_ip}
use distributed_chat_applica.Server.Start.{get_random_udp_port, try_ports}
use distributed_chat_applica.Server.Actions.{Outside, drive}
use distributed_chat_applica.Server.Actions.Rounds.{Seeks, Settles, IsLeading}
use distributed_chat_applica.Server.Actions.Boot.{Misses, drive-IsLeading}
use distributed_chat_applica.Server.Actions.Follow.{IsFollowing, drive-IsFollowing}
use distributed_chat_applica.Server.Actions.OnAir.{enter_all, leading, enter_all-OnAir}

abbrev node_a : Bytes
node_a = replicate 36 97

abbrev node_b : Bytes
node_b = replicate 36 98

abbrev address_a : Bytes
address_a = 49 ∷ []

abbrev address_b : Bytes
address_b = 50 ∷ []

abbrev has_uuid_length : Bytes → Bool
has_uuid_length bs = length bs == 36

abbrev alone : Bytes → Bytes → Server
alone id ip = record {
  id = id;
  leader_id = [];
  sm = Machine.start;
  state = init;
  rm = record {
    id = id;
    frame = 0;
    vector_clock = (id, 0) ∷ [];
    hold_back_queue = [];
    node_ids = [];
    buffer_ack = [];
  };
  rm_closed = false;
  rm_port = 5010;
  broadcaster = new_broadcaster id;
  peers = (id, ip) ∷ [];
  election_map = [];
}

alone-Seeks : (id ip : Bytes) → Seeks (alone id ip)
alone-Seeks id ip = record {
  asks = inl refl;
  quiet = λ e. absurd (ground arith);
  rests = new-InOrder id;
}

-- Node b broadcasts, but the message of node a does not reach it; then only a's own broadcast comes.
abbrev hears_b : Outside
hears_b = record {
  arrivals = datagram (some address_a) node_a ∷ datagram (some address_b) node_b ∷ [];
  sent = false;
  inbox = [];
}

abbrev hears_itself : Outside
hears_itself = record { arrivals = datagram (some address_a) node_a ∷ []; sent = false; inbox = [] }

hears_b-Misses : Misses has_uuid_length node_a (hears_b, hears_itself)
unfolding str_eq
hears_b-Misses = (
  record { uuid = node_b; ip = address_b },
  is_any_one_broadcasting_lem has_uuid_length node_a node_b address_b
      (datagram (some address_a) node_a ∷ []) [] (inr refl, tt) refl (str_ne node_b node_a refl)
      (omega arith),
  inl refl,
)

drive-IsLeading_example : Settles (IsLeading node_a) (
    drive has_uuid_length
      (hears_b ∷ hears_itself ∷ hears_itself ∷ hears_itself ∷ [])
      init
      none
      (alone node_a address_a))
drive-IsLeading_example =
    drive-IsLeading has_uuid_length hears_itself hears_itself ((hears_b, hears_itself) ∷ [])
      (alone node_a address_a) none (alone-Seeks node_a address_a) (hears_b-Misses, tt)
      (inr refl, tt)

-- A machine with a loopback and an IPv4 address, where the first random port is taken.
abbrev loopback : Address
loopback = record {
  is_ip_net = true;
  is_loopback = true;
  ip = some (127 ∷ 0 ∷ 0 ∷ 1 ∷ []);
  mask = some (255 ∷ 0 ∷ 0 ∷ 0 ∷ []);
}

abbrev ethernet : Address
ethernet = record {
  is_ip_net = true;
  is_loopback = false;
  ip = some (10 ∷ 0 ∷ 0 ∷ 7 ∷ []);
  mask = some (255 ∷ 0 ∷ 0 ∷ 0 ∷ []);
}

abbrev machine : Host.Machine
machine = record {
  addrs = some (loopback ∷ ethernet ∷ []);
  heartbeat_sender = true;
  heartbeat_listener = true;
  unicast_sender = true;
  unicast_listener = true;
  ports = (7, false) ∷ (990, true) ∷ [];
  multicast_sockets = true;
  broadcast_socket = true;
  client_socket = true;
}

-- A stand-in for the text of an address: `10.0.0.7/8`.
abbrev to_string : Address → Bytes
to_string addr = 49 ∷ 48 ∷ 46 ∷ 48 ∷ 46 ∷ 48 ∷ 46 ∷ 55 ∷ 47 ∷ 56 ∷ []

starts-IsLeading_example : Settles (IsLeading node_a) (
    Host.main to_string has_uuid_length machine node_a
      (hears_b ∷ hears_itself ∷ hears_itself ∷ hears_itself ∷ []))
unfolding local_ip get_random_udp_port try_ports
starts-IsLeading_example =
    starts-IsLeading to_string has_uuid_length machine node_a (loopback ∷ ethernet ∷ []) ethernet
      (255 ∷ 0 ∷ 0 ∷ 0 ∷ []) 6000 ((hears_b, hears_itself) ∷ []) hears_itself hears_itself refl refl
      refl (refl, refl, refl, refl, refl, refl, refl) refl (omega arith) (hears_b-Misses, tt)
      (inr refl, tt)

-- Node b leads and answers.
abbrev leader_b : Server
leader_b = record (alone node_b address_b) { sm = leader; state = leader; leader_id = node_b }

peers-AreShort : AreShort (admit leader_b node_a address_a).peers
unfolding admit put str_eq
peers-AreShort = ((omega arith, omega arith), ((omega arith, omega arith), tt))

abbrev told : Bytes
unfolding admit put str_eq
told =
    (peer_info_for-decode (admit leader_b node_a address_a) 6000 peers-AreShort (omega arith)
      (omega arith)).0

told_by_b : peer_info_for (admit leader_b node_a address_a) 6000 ≡ ok told
unfolding admit put str_eq
told_by_b =
    (peer_info_for-decode (admit leader_b node_a address_a) 6000 peers-AreShort (omega arith)
      (omega arith)).1

abbrev answer : Unicast.Message
answer = record {
  response = 0;
  frame = 1;
  tries = 0;
  from_uuid = node_b;
  to_uuid = node_a;
  ip = address_b;
  message = told;
}

abbrev answers : Outside
answers = record { arrivals = []; sent = true; inbox = answer ∷ [] }

drive-IsFollowing_example :
    Settles (IsFollowing node_b (admit leader_b node_a address_a).peers 6000) (
      drive has_uuid_length
        (hears_b ∷ answers ∷ hears_itself ∷ [])
        init
        none
        (alone node_a address_a))
unfolding admit put str_eq get
drive-IsFollowing_example =
    drive-IsFollowing has_uuid_length (alone node_a address_a) leader_b address_a address_b 6000
      answer hears_b answers hears_itself (datagram (some address_a) node_a ∷ []) [] [] none
      (alone-Seeks node_a address_a) refl (str_ne node_b node_a refl) (omega arith) (omega arith)
      refl (λ e. absurd (omega arith)) (refl, tt) peers-AreShort (omega arith) (omega arith)
      (inr refl, tt) refl refl refl refl told_by_b

enter_all-OnAir_example :
    (s' : Server) × (enter_all (leader ∷ init ∷ leader ∷ []) (alone node_a address_a) ≡ ok s')
    × (s'.state ≡ leader)
    × (s'.broadcaster.senders ≡ (if leading s'.state then 1 else 0))
enter_all-OnAir_example =
    enter_all-OnAir (leader ∷ init ∷ leader ∷ []) (alone node_a address_a) (new-InOrder node_a)
