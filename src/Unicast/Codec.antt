-- ===== src/Unicast/Codec.antt =====
-- encodeUnicastMessage and decodeUnicastMessage of server/unicast/unicast.go.
pub mod RoundTrip
pub mod Malformed
use distributed_chat_applica.Prelude.{ℕ, ◌≡◌, [], ◌++◌, ◌==◌, if◌then◌else◌, length, replicate}
use distributed_chat_applica.Go.Text.{Bytes}
use distributed_chat_applica.Go.Result.{Result, ok, err, panic}
use distributed_chat_applica.Go.Binary.{put_be, Reader, ◌>>=◌, pure, read_be, read_into, read_new}
use distributed_chat_applica.Wire.{fixed_id}
use distributed_chat_applica.Unicast.Datagram.{Message}

-- What follows the header: nothing for an acknowledgement, else the payload by its length.
unfoldable pub encode_payload : Message → Bytes
encode_payload m = if m.response == 1 then [] else put_be 8 (length m.message) ++ m.message

-- Writes to a bytes.Buffer do not fail, so there is no error to return.
unfoldable pub encode_unicast_message : Message → Bytes
encode_unicast_message m =
    put_be 1 m.response
    ++ (put_be 8 m.frame
        ++ (put_be 1 m.tries ++ (fixed_id m.from_uuid ++ (fixed_id m.to_uuid ++ encode_payload m))))

-- The fields of a message with response 1.
unfoldable pub ack_of : ℕ → ℕ → Bytes → Bytes → Bytes → Message
ack_of frame tries from to ip = record {
  response = 1;
  frame = frame;
  tries = tries;
  from_uuid = from;
  to_uuid = to;
  ip = ip;
  message = [];
}

-- The fields of any other message; Response is left at zero.
unfoldable pub data_of : ℕ → ℕ → Bytes → Bytes → Bytes → Bytes → Message
data_of frame tries from to ip payload = record {
  response = 0;
  frame = frame;
  tries = tries;
  from_uuid = from;
  to_uuid = to;
  ip = ip;
  message = payload;
}

unfoldable pub decode_payload : ℕ → ℕ → Bytes → Bytes → Bytes → Reader Message
decode_payload frame tries from to ip = do
  msg_len ← read_be 8
  payload ← read_new msg_len
  pure (data_of frame tries from to ip payload)

unfoldable pub decode_rest : ℕ → ℕ → ℕ → Bytes → Bytes → Bytes → Reader Message
decode_rest response frame tries from to ip =
    if response == 1
    then pure (ack_of frame tries from to ip)
    else decode_payload frame tries from to ip

-- One buffer of 36 bytes is read into twice, so a short second id keeps the tail of the first.
unfoldable pub decode_message : Bytes → Reader Message
decode_message ip = do
  response ← read_be 1
  frame ← read_be 8
  tries ← read_be 1
  from ← read_into (replicate 36 0)
  to ← read_into from
  decode_rest response frame tries from to ip

-- On an error the message beside it is the zero value.
unfoldable pub decode_unicast_message : Bytes → Bytes → Result Message
decode_unicast_message s ip = elim (decode_message ip s) [
  | ok (m, rest) ↦ ok m
  | err e ↦ err e
  | panic ↦ panic
]
