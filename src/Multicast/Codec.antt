-- ===== src/Multicast/Codec.antt =====
-- encodeMulticastMessage and decodeMulticastMessage of server/multicast/multicast.go.

pub mod RoundTrip
use distributed_chat_applica.Prelude.{ℕ, zero, suc, [], ◌∷◌, ◌++◌, length, replicate}
use distributed_chat_applica.Go.Text.{Bytes}
use distributed_chat_applica.Go.Map.{Map, put}
use distributed_chat_applica.Go.Result.{Result, ok, err, panic}
use distributed_chat_applica.Go.Binary.{put_be, Reader, ◌>>=◌, pure, read_be, read_into, read_new}
use distributed_chat_applica.Wire.{fixed_id}
use distributed_chat_applica.Multicast.Datagram.{Message}

-- The loop over the vector clock.
unfoldable pub encode_clock : Map ℕ → Bytes
encode_clock [] = []
encode_clock ((id, clock) ∷ rest) = put_be 4 clock ++ (fixed_id id ++ encode_clock rest)

-- Writes to a bytes.Buffer do not fail, so there is no error to return.
unfoldable pub encode_multicast_message : Message → Bytes
encode_multicast_message m =
    put_be 4 m.frame
    ++ (fixed_id m.uuid
        ++ (put_be 4 (length m.vector_clock)
            ++ (encode_clock m.vector_clock ++ (put_be 8 (length m.message) ++ m.message))))

-- The loop that reads the vector clock; all ids are read into one buffer, so a short id at the end
-- keeps the tail of the one before.
unfoldable pub decode_clock : ℕ → Bytes → Map ℕ → Reader (Map ℕ)
decode_clock zero buf m = pure m
decode_clock (suc n) buf m = do
  clock ← read_be 4
  id ← read_into buf
  decode_clock n id (put m id clock)

unfoldable pub decode_payload : Bytes → ℕ → Bytes → Map ℕ → Reader Message
decode_payload ip frame uuid clocks = do
  msg_len ← read_be 8
  payload ← read_new msg_len
  pure record { frame = frame; ip = ip; uuid = uuid; vector_clock = clocks; message = payload }

unfoldable pub decode_message : Bytes → Reader Message
decode_message ip = do
  frame ← read_be 4
  uuid ← read_into (replicate 36 0)
  count ← read_be 4
  clocks ← decode_clock count uuid []
  decode_payload ip frame uuid clocks

unfoldable pub decode_multicast_message : Bytes → Bytes → Result Message
decode_multicast_message s ip = elim (decode_message ip s) [
  | ok (m, rest) ↦ ok m
  | err e ↦ err e
  | panic ↦ panic
]
