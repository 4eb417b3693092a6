-- ===== src/Message/Runs.antt =====
-- Tests of server/message/message.go, and the theorems at concrete messages.
use distributed_chat_applica.Prelude.{◌≡◌, refl, ◌≢◌, [], ◌∷◌, arith}
use distributed_chat_applica.Go.Text.{Bytes}
use distributed_chat_applica.Go.Result.{ok, err, panic, eof}
use distributed_chat_applica.Go.Binary.{put_be, read_be, be_value, read_new}
use distributed_chat_applica.Message.{
  Message, of_type, peer_info, new_node, encode, decode, decode_body, decode_application,
  decode_node,
}
use distributed_chat_applica.Message.New.{new_application_message}
use distributed_chat_applica.Message.RoundTrip.{wire, IsSendable, decode-encode}
use distributed_chat_applica.Message.Malformed.{decode-ne-panic}

abbrev two_peers : Message
two_peers = record (of_type peer_info) {
  peer_ids = (97 ∷ 98 ∷ []) ∷ (99 ∷ []) ∷ [];
  peer_ips = (49 ∷ []) ∷ (50 ∷ []) ∷ [];
  clock = 0 ∷ 7 ∷ [];
  multicast_port = 5010;
  frame = 3;
}

two_peers-IsSendable : IsSendable two_peers
two_peers-IsSendable = record {
  type_fits = omega arith;
  frame_fits = omega arith;
  msg_fits = omega arith;
  msg_nonempty = λ e. absurd (omega arith);
  uuid_fits = omega arith;
  ip_fits = omega arith;
  ip_nonempty = λ e. cc;
  count_fits = omega arith;
  port_fits = omega arith;
  peers_fit = omega arith;
}

decode-encode_example :
    (bs : Bytes) × (encode two_peers ≡ ok bs) × (decode bs ≡ ok (wire two_peers))
decode-encode_example = decode-encode two_peers two_peers-IsSendable

-- Encode writes the type, the lengths and the texts in network order.
encode_application :
    new_application_message (104 ∷ 105 ∷ []) ≡ ok (5 ∷ 0 ∷ 0 ∷ 0 ∷ 2 ∷ 104 ∷ 105 ∷ [])
unfolding new_application_message encode put_be
encode_application = refl

decode-new_node :
    decode (7 ∷ 0 ∷ 0 ∷ 0 ∷ 1 ∷ 97 ∷ 0 ∷ 0 ∷ 0 ∷ 1 ∷ 49 ∷ [])
    ≡ ok (record (of_type new_node) { uuid = 97 ∷ []; ip = 49 ∷ [] })
unfolding decode decode_body decode_node read_be be_value read_new
decode-new_node = refl

decode-ne-panic_example : decode (8 ∷ 255 ∷ 255 ∷ 255 ∷ 255 ∷ 1 ∷ []) ≢ panic
decode-ne-panic_example = decode-ne-panic (8 ∷ 255 ∷ 255 ∷ 255 ∷ 255 ∷ 1 ∷ []) (omega arith)

abbrev short_clock : Message
short_clock = record two_peers { clock = 0 ∷ [] }

decode_empty : decode (5 ∷ 0 ∷ 0 ∷ 0 ∷ 0 ∷ []) ≡ err eof
unfolding decode decode_body decode_application read_be be_value read_new
decode_empty = refl
