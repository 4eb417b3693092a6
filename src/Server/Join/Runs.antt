-- ===== src/Server/Join/Runs.antt =====
-- A node that is told twice of the same port.
use distributed_chat_applica.Prelude.{◌≢◌, ◌↔◌, ◌≡◌, refl, [], ◌∷◌, true, false, arith}
use distributed_chat_applica.Go.Text.{Bytes, str_eq}
use distributed_chat_applica.Go.Map.{get}
use distributed_chat_applica.Go.Result.{ok}
use distributed_chat_applica.Broadcast.{new_broadcaster}
use distributed_chat_applica.Message as Body
use distributed_chat_applica.Message.RoundTrip.{IsSendable, wire, decode-encode}
use distributed_chat_applica.Unicast.Datagram as Unicast
use distributed_chat_applica.StateMachine.{follower}
use distributed_chat_applica.Server.{Server}
use distributed_chat_applica.Server.Join.{join_multicast_from_peer_info}
use distributed_chat_applica.Server.Join.Peers.{info, AreShort, peer_info_for-decode}
use distributed_chat_applica.Server.Join.Shutdown.{join_same_port}
use distributed_chat_applica.Server.Process.{Process, new_process, exits, on_signal}
use distributed_chat_applica.Server.Process.Ends.{IsOpen, signal_after_join}

abbrev node_a : Bytes
node_a = 97 ∷ []

abbrev node_b : Bytes
node_b = 98 ∷ []

abbrev member : Server
member = record {
  id = node_b;
  leader_id = node_a;
  sm = follower;
  state = follower;
  rm = record {
    id = node_b;
    frame = 0;
    vector_clock = [];
    hold_back_queue = [];
    node_ids = [];
    buffer_ack = [];
  };
  rm_closed = false;
  rm_port = 5010;
  broadcaster = new_broadcaster node_b;
  peers = (node_a, 49 ∷ []) ∷ (node_b, 50 ∷ []) ∷ [];
  election_map = [];
}

member-AreShort : AreShort member.peers
member-AreShort = ((omega arith, omega arith), ((omega arith, omega arith), tt))

abbrev told : Bytes
told = (peer_info_for-decode member 5010 member-AreShort (omega arith) (omega arith)).0

-- A change of the session without any peers.
abbrev change : Body.Message
change = Body.of_type Body.multicast_session_change

change-IsSendable : IsSendable change
change-IsSendable = record {
  type_fits = omega arith;
  frame_fits = omega arith;
  msg_fits = omega arith;
  msg_nonempty = λ e. absurd (omega arith);
  uuid_fits = omega arith;
  ip_fits = omega arith;
  ip_nonempty = λ e. cc;
  count_fits = omega arith;
  port_fits = omega arith;
  peers_fit = tt;
}

abbrev changes : Unicast.Message
changes = record {
  response = 0;
  frame = 1;
  tries = 0;
  from_uuid = node_a;
  to_uuid = node_b;
  ip = 49 ∷ [];
  message = (decode-encode change change-IsSendable).0;
}

abbrev joined : Server
joined = record member { rm_closed = true }

member_joins : join_multicast_from_peer_info member told ≡ ok joined
unfolding get str_eq wire
member_joins =
    (join_same_port member told member.peers changes (wire change) (refl, (refl, tt)) refl
      ((peer_info_for-decode member 5010 member-AreShort (omega arith) (omega arith)).2)
      ((decode-encode change change-IsSendable).2) refl).0

-- The process of the member.
abbrev process : Process
process = new_process member

signal_after_join_example :
    (on_signal (record process { server = joined }) ≡ exits)
    ↔ (IsOpen process × (member.rm_port ≢ 5010))
unfolding wire get
signal_after_join_example =
    signal_after_join process joined told (wire (info member.peers 5010))
      ((peer_info_for-decode member 5010 member-AreShort (omega arith) (omega arith)).2)
      member_joins
