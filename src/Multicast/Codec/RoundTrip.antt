-- ===== src/Multicast/Codec/RoundTrip.antt =====
-- Decoding what server/multicast/multicast.go encodes.
use distributed_chat_applica.Prelude.{
  ℕ, ◌^◌, ◌≤◌, ◌<◌, ◌≡◌, refl, sym, ◌∙◌, [], ◌∷◌, ◌++◌, none, length, replicate, append-nil,
  append_assoc, arith, subst,
}
use distributed_chat_applica.Go.Text.{Bytes}
use distributed_chat_applica.Go.Map.{Map, get, put, Apart, put_new, put-Apart, Apart-nil}
use distributed_chat_applica.Go.Result.{ok}
use distributed_chat_applica.Go.Binary.{put_be, read_be, read_into, read_new, max_alloc}
use distributed_chat_applica.Go.Binary.Laws.{
  bind_ok, read_be-put_be, read_into-append, read_new-append,
}
use distributed_chat_applica.Wire.{fixed_id, fixed_id-eq_self}
use distributed_chat_applica.Multicast.Datagram.{Message}
use distributed_chat_applica.Multicast.Codec.{
  encode_clock, encode_multicast_message, decode_clock, decode_payload, decode_message,
  decode_multicast_message,
}

-- A vector clock as it can be sent: ids of 36 bytes, no two the same, and uint32 counts.
abbrev pub IsClock : Map ℕ → Type 0
IsClock [] = Unit {0}
IsClock ((id, c) ∷ rest) = (length id ≡ 36) × (c < 2 ^ 32) × (get rest id ≡ none) × IsClock rest

decode_clock-encode_clock :
    (vc acc : Map ℕ) (buf rest : Bytes)
    → length buf ≡ 36
    → IsClock vc
    → Apart acc vc
    → decode_clock (length vc) buf acc (encode_clock vc ++ rest) ≡ ok (acc ++ vc, rest)
unfolding decode_clock encode_clock
decode_clock-encode_clock [] acc buf rest lb h a = rw (append-nil acc)
decode_clock-encode_clock ((id, c) ∷ vc) acc buf rest lb h a =
    rw
      (
        append_assoc (put_be 4 c) (fixed_id id ++ encode_clock vc) rest,
        append_assoc (fixed_id id) (encode_clock vc) rest,
        fixed_id-eq_self id h.0,
      )
      (bind_ok (read_be 4) _ (read_be-put_be 4 c _ (omega arith) (omega (arith, h.1)))
        ∙ bind_ok (read_into buf) _
            (read_into-append buf id (encode_clock vc ++ rest) (h.0 ∙ sym lb) (omega (arith, h.0)))
        ∙ decode_clock-encode_clock vc (put acc id c) id rest h.0 h.3
            (put-Apart acc vc id c h.2 a.1)
        ∙ rw (put_new acc id c a.0, append_assoc acc ((id, c) ∷ []) vc))

-- The integers have their widths, the ids 36 bytes, and the payload is not empty.
pub record IsSendable (m : Message) : Type 0 where
  pub frame_fits : m.frame < 2 ^ 32
  pub id_fixed : length m.uuid ≡ 36
  pub clock_fits : length m.vector_clock < 2 ^ 32
  pub is_clock : IsClock m.vector_clock
  pub payload_fits : length m.message ≤ max_alloc
  pub payload_nonempty : 0 < length m.message

payload_read :
    (m : Message) (ip : Bytes)
    → IsSendable m
    → decode_payload ip m.frame m.uuid m.vector_clock (put_be 8 (length m.message) ++ m.message)
      ≡ ok (record m { ip = ip }, [])
unfolding decode_payload
payload_read m ip s =
    bind_ok (read_be 8) _
      (read_be-put_be 8 (length m.message) m.message (omega arith) (omega (arith, s.payload_fits)))
    ∙ bind_ok (read_new (length m.message)) _ last
  where
    last : read_new (length m.message) m.message ≡ ok (m.message, [])
    last =
        subst (λ b. read_new (length m.message) b ≡ ok (m.message, [])) (append-nil m.message)
          (read_new-append (length m.message) m.message [] refl s.payload_fits
            (omega (arith, s.payload_nonempty)))

message_read :
    (m : Message) (ip : Bytes)
    → IsSendable m
    → decode_message ip (encode_multicast_message m) ≡ ok (record m { ip = ip }, [])
unfolding decode_message encode_multicast_message
message_read m ip s =
    let tail = put_be 8 (length m.message) ++ m.message in
    let count = put_be 4 (length m.vector_clock) ++ (encode_clock m.vector_clock ++ tail) in
    rw (fixed_id-eq_self m.uuid s.id_fixed) (
      bind_ok (read_be 4) _ (read_be-put_be 4 m.frame _ (omega arith) (omega (arith, s.frame_fits)))
      ∙ bind_ok (read_into (replicate 36 0)) _
          (read_into-append (replicate 36 0) m.uuid count s.id_fixed (omega (arith, s.id_fixed)))
      ∙ bind_ok (read_be 4) _
          (read_be-put_be 4 (length m.vector_clock) _ (omega arith) (omega (arith, s.clock_fits)))
      ∙ bind_ok (decode_clock (length m.vector_clock) m.uuid []) _ (
          decode_clock-encode_clock m.vector_clock [] m.uuid tail s.id_fixed s.is_clock
            (Apart-nil m.vector_clock))
      ∙ payload_read m ip s)

-- Decoding an encoded multicast gives back the whole message, its vector clock included, with the
-- address that the datagram came from; this wants ids of 36 bytes, no id twice in the clock, and a
-- payload that is not empty.
pub decode_multicast_message-encode_multicast_message :
    (m : Message) (ip : Bytes)
    → IsSendable m
    → decode_multicast_message (encode_multicast_message m) ip ≡ ok (record m { ip = ip })
unfolding decode_multicast_message
decode_multicast_message-encode_multicast_message m ip s =
    rw (message_read m ip s, decode_multicast_message)
