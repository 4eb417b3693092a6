-- ===== src/Message.antt =====
-- server/message/message.go: the messages that servers exchange, Encode and Decode.
-- A `MessageType` is the byte on the wire, so that an unknown one is a value too.
pub mod RoundTrip
pub mod Malformed
pub mod New
mod Runs
use distributed_chat_applica.Prelude.{
  ℕ, zero, suc, ◌+◌, ◌≡◌, List, [], ◌∷◌, ◌++◌, Bool, ◌||◌, ◌==◌, if◌then◌else◌, length,
}
use distributed_chat_applica.Go.Text.{Bytes}
use distributed_chat_applica.Go.Result.{Result, ok, err, panic}
use distributed_chat_applica.Go.Binary.{put_be, Reader, ◌>>=◌, pure, read_be, read_new}

abbrev pub connect_to_leader : ℕ
connect_to_leader = 0

abbrev pub election : ℕ
election = 1

abbrev pub election_alive : ℕ
election_alive = 2

abbrev pub election_victory : ℕ
election_victory = 3

abbrev pub heartbeat : ℕ
heartbeat = 4

abbrev pub application : ℕ
application = 5

abbrev pub dead_node : ℕ
dead_node = 6

abbrev pub new_node : ℕ
new_node = 7

abbrev pub peer_info : ℕ
peer_info = 8

abbrev pub multicast_session_change : ℕ
multicast_session_change = 9

abbrev pub multicast_ack : ℕ
multicast_ack = 10

pub record Message : Type 0 where
  pub type : ℕ  -- uint8
  pub uuid : Bytes
  pub ip : Bytes
  pub frame : ℕ  -- uint32
  pub msg : Bytes
  pub peer_ids : List Bytes
  pub peer_ips : List Bytes
  pub multicast_port : ℕ  -- uint32
  pub clock : List ℕ  -- []uint32
  pub old_leader_id : Bytes

-- Message{Type: t}: all other fields have their zero values.
abbrev pub of_type : ℕ → Message
of_type t = record {
  type = t;
  uuid = [];
  ip = [];
  frame = 0;
  msg = [];
  peer_ids = [];
  peer_ips = [];
  multicast_port = 0;
  clock = [];
  old_leader_id = [];
}

-- The conditions on the type in Encode and Decode.
abbrev pub has_no_body : ℕ → Bool
has_no_body t = t == connect_to_leader || t == election || t == election_alive || t == heartbeat

abbrev pub names_node : ℕ → Bool
names_node t = t == dead_node || t == new_node

abbrev pub lists_peers : ℕ → Bool
lists_peers t = t == multicast_session_change || t == peer_info

-- The loop of Encode over len(PeerIds); PeerIps[index] and Clock[index] may be out of range.
unfoldable pub encode_peers : List Bytes → List Bytes → List ℕ → Result Bytes
encode_peers [] ips clocks = ok []
encode_peers (id ∷ ids) [] clocks = panic
encode_peers (id ∷ ids) (ip ∷ ips) [] = panic
encode_peers (id ∷ ids) (ip ∷ ips) (c ∷ clocks) = elim (encode_peers ids ips clocks) [
  | ok rest ↦
      ok (put_be 4 (length id) ++ (id ++ (put_be 4 (length ip) ++ (ip ++ (put_be 4 c ++ rest)))))
  | err e ↦ err e
  | panic ↦ panic
]

-- The part of Encode for MulticastSessionChange and PeerInfo.
unfoldable pub encode_session : Message → Result Bytes
encode_session m = elim (encode_peers m.peer_ids m.peer_ips m.clock) [
  | ok peers ↦
      ok (put_be 1 m.type ++ (put_be 4 (length m.peer_ids) ++ (peers ++ put_be 4 m.multicast_port)))
  | err e ↦ err e
  | panic ↦ panic
]

-- Encode. Writes to a bytes.Buffer do not fail.
unfoldable pub encode : Message → Result Bytes
encode m =
    if has_no_body m.type
    then ok (put_be 1 m.type)
    else if m.type == multicast_ack
    then ok (put_be 1 m.type ++ (put_be 4 m.frame ++ m.msg))
    else if m.type == application
    then ok (put_be 1 m.type ++ (put_be 4 (length m.msg) ++ m.msg))
    else if names_node m.type
    then ok (
        put_be 1 m.type
        ++ (put_be 4 (length m.uuid) ++ (m.uuid ++ (put_be 4 (length m.ip) ++ m.ip))))
    else if m.type == election_victory
    then ok (put_be 1 m.type)
    else if lists_peers m.type
    then encode_session m
    else ok (put_be 1 m.type)

-- The loop of Decode over `count`. `make` of a uint32 length never exceeds what can be allocated.
unfoldable pub decode_peers : ℕ → Reader (List Bytes × List Bytes × List ℕ)
decode_peers zero = pure ([], [], [])
decode_peers (suc n) = do
  id_len ← read_be 4
  id ← read_new id_len
  ip_len ← read_be 4
  ip ← read_new ip_len
  c ← read_be 4
  (ids, ips, clocks) ← decode_peers n
  pure (id ∷ ids, ip ∷ ips, c ∷ clocks)

unfoldable pub decode_ack : ℕ → Reader Message
decode_ack t = do frame ← read_be 4; pure (record (of_type t) { frame = frame })

unfoldable pub decode_application : ℕ → Reader Message
decode_application t = do
  msg_len ← read_be 4
  msg ← read_new msg_len
  pure (record (of_type t) { msg = msg })

unfoldable pub decode_node : ℕ → Reader Message
decode_node t = do
  id_len ← read_be 4
  id ← read_new id_len
  ip_len ← read_be 4
  ip ← read_new ip_len
  pure (record (of_type t) { uuid = id; ip = ip })

unfoldable pub decode_session : ℕ → Reader Message
decode_session t = do
  count ← read_be 4
  (ids, ips, clocks) ← decode_peers count
  port ← read_be 4
  pure
      (record (of_type t) { peer_ids = ids; peer_ips = ips; clock = clocks; multicast_port = port })

-- What Decode does once it has the type; a type that it does not know has no body.
unfoldable pub decode_body : ℕ → Reader Message
decode_body t =
    if has_no_body t
    then pure (of_type t)
    else if t == multicast_ack
    then decode_ack t
    else if t == application
    then decode_application t
    else if names_node t
    then decode_node t
    else if lists_peers t
    then decode_session t
    else pure (of_type t)

-- Decode. On an error the message is nil.
unfoldable pub decode : Bytes → Result Message
decode s = elim ((read_be 1 >>= decode_body) s) [
  | ok (m, rest) ↦ ok m
  | err e ↦ err e
  | panic ↦ panic
]
