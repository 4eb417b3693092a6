-- ===== src/Server/Listeners/Runs.antt =====
-- Leaders and followers that wait, at concrete nodes.
use distributed_chat_applica.Prelude.{
  ◌≡◌, refl, [], ◌∷◌, ◌++◌, List, true, false, ◌==◌, length, replicate, arith,
}
use distributed_chat_applica.Go.Text.{Bytes, str_eq}
use distributed_chat_applica.Go.Map.{get}
use distributed_chat_applica.Broadcast as Broadcast
use distributed_chat_applica.Unicast.Datagram as Unicast
use distributed_chat_applica.StateMachine.{init, leader}
use distributed_chat_applica.Server.{Server}
use distributed_chat_applica.Server.Join.Peers.{AreShort, peer_info_for-decode}
use distributed_chat_applica.Server.Actions.{Outside, drive}
use distributed_chat_applica.Server.Actions.Rounds.{Settles, found_by}
use distributed_chat_applica.Server.Actions.Follow.{IsFollowing, IsWelcome}
use distributed_chat_applica.Server.Listeners.{
  FollowerTurn, timer, hears, watching, elects, watch_leader,
}
use distributed_chat_applica.Server.Listeners.Patience.{watch_leader_lem}
use distributed_chat_applica.Server.Listeners.Yields.{drive_yields}

abbrev node_a : Bytes
node_a = replicate 36 97

abbrev node_b : Bytes
node_b = replicate 36 98

-- Leader b is heard at 1900 and then no more; the timer ends at 2000 and at 3000.
abbrev steady : List FollowerTurn
steady = hears node_b 1900 ∷ timer 2000 node_b ∷ []

watch_leader_lem_example :
    (watch_leader node_b steady 0 ≡ watching)
    × (watch_leader node_b (steady ++ timer 3000 node_b ∷ []) 0 ≡ elects)
unfolding str_eq
watch_leader_lem_example =
    watch_leader_lem node_b node_b steady [] 0 3000 (omega arith, tt) (omega arith)

abbrev a_broadcasts : Broadcast.Message
a_broadcasts = record { uuid = node_a; ip = 49 ∷ [] }

abbrev b_broadcasts : Broadcast.Message
b_broadcasts = record { uuid = node_b; ip = 50 ∷ [] }

-- Both lead; a gives way, and b answers.
abbrev leading_node : Bytes → Bytes → Server
leading_node id ip = record {
  id = id;
  leader_id = id;
  sm = leader;
  state = leader;
  rm = record {
    id = id;
    frame = 0;
    vector_clock = (id, 0) ∷ [];
    hold_back_queue = [];
    node_ids = [];
    buffer_ack = [];
  };
  rm_closed = false;
  rm_port = 5010;
  broadcaster = record { id = id; stopping = false; stop_closed = false; senders = 1 };
  peers = (id, ip) ∷ [];
  election_map = [];
}

-- Leader b with node a among its peers.
abbrev joined : Server
joined = record (leading_node node_b (50 ∷ [])) {
  peers = (node_b, 50 ∷ []) ∷ (node_a, 49 ∷ []) ∷ [];
}

joined-AreShort : AreShort joined.peers
joined-AreShort = ((omega arith, omega arith), ((omega arith, omega arith), tt))

abbrev answer : Unicast.Message
answer = record {
  response = 0;
  frame = 1;
  tries = 0;
  from_uuid = node_b;
  to_uuid = node_a;
  ip = 50 ∷ [];
  message = (peer_info_for-decode joined 6000 joined-AreShort (omega arith) (omega arith)).0;
}

answer-IsWelcome : IsWelcome b_broadcasts joined.peers 6000 answer
unfolding get str_eq
answer-IsWelcome = record {
  distinct = (refl, (refl, tt));
  from_leader = refl;
  reads = (peer_info_for-decode joined 6000 joined-AreShort (omega arith) (omega arith)).2;
}

abbrev answers : Outside
answers = record { arrivals = []; sent = true; inbox = answer ∷ [] }

drive_yields_example : Settles (IsFollowing node_b joined.peers 6000) (
    drive
      (λ bs. length bs == 36)
      (answers ∷ answers ∷ answers ∷ [])
      init
      (found_by b_broadcasts)
      (leading_node node_a (49 ∷ [])))
unfolding get str_eq
drive_yields_example =
    drive_yields (λ bs. length bs == 36) b_broadcasts joined.peers 6000 answer
      (leading_node node_a (49 ∷ [])) (49 ∷ []) answers answers answers [] refl refl
      (record { closed = refl; at_rest = λ e. absurd (ground arith); counted = refl }) refl
      (omega arith) refl (λ e. absurd (omega arith)) refl refl answer-IsWelcome
