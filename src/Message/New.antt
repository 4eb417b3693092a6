-- ===== src/Message/New.antt =====
-- The New...Message functions of server/message/message.go: Encode, and log.Panic on an error.
use distributed_chat_applica.Prelude.{ℕ, List}
use distributed_chat_applica.Go.Text.{Bytes}
use distributed_chat_applica.Go.Result.{Result, ok, err, panic}
use distributed_chat_applica.Message.{
  of_type, connect_to_leader, election, election_alive, election_victory, heartbeat, application,
  dead_node, new_node, peer_info, multicast_session_change, multicast_ack, encode,
}

-- if err != nil { log.Panic(err) }
abbrev or_panic : Result Bytes → Result Bytes
or_panic (ok bs) = ok bs
or_panic (err e) = panic
or_panic panic = panic

unfoldable pub new_connect_to_leader_message : Result Bytes
new_connect_to_leader_message = or_panic (encode (of_type connect_to_leader))

unfoldable pub new_election_message : Result Bytes
new_election_message = or_panic (encode (of_type election))

unfoldable pub new_election_victory_message : Result Bytes
new_election_victory_message = or_panic (encode (of_type election_victory))

unfoldable pub new_election_alive_message : Result Bytes
new_election_alive_message = or_panic (encode (of_type election_alive))

unfoldable pub new_heartbeat_message : Result Bytes
new_heartbeat_message = or_panic (encode (of_type heartbeat))

unfoldable pub new_application_message : Bytes → Result Bytes
new_application_message msg = or_panic (encode (record (of_type application) { msg = msg }))

unfoldable pub new_dead_node_message : Bytes → Bytes → Result Bytes
new_dead_node_message uuid ip =
    or_panic (encode (record (of_type dead_node) { uuid = uuid; ip = ip }))

unfoldable pub new_new_node_message : Bytes → Bytes → Result Bytes
new_new_node_message uuid ip =
    or_panic (encode (record (of_type new_node) { uuid = uuid; ip = ip }))

unfoldable pub new_multicast_session_change_message :
    List Bytes → List Bytes → List ℕ → ℕ → Result Bytes
new_multicast_session_change_message ids ips clock port = or_panic (
    encode (record (of_type multicast_session_change) {
      peer_ids = ids;
      peer_ips = ips;
      clock = clock;
      multicast_port = port;
    }))

unfoldable pub new_peer_info_message : List Bytes → List Bytes → ℕ → List ℕ → Result Bytes
new_peer_info_message ids ips port clock = or_panic (
    encode (record (of_type peer_info) {
      peer_ids = ids;
      peer_ips = ips;
      multicast_port = port;
      clock = clock;
    }))

unfoldable pub new_multicast_ack_message : ℕ → Result Bytes
new_multicast_ack_message frame =
    or_panic (encode (record (of_type multicast_ack) { frame = frame }))
