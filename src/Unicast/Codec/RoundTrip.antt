-- ===== src/Unicast/Codec/RoundTrip.antt =====
-- Decoding what server/unicast/unicast.go encodes.
use distributed_chat_applica.Prelude.{
  ℕ, ◌^◌, ◌≤◌, ◌<◌, ◌≡◌, refl, sym, ◌∙◌, ◌≢◌, inl, inr, [], ◌++◌, ◌==◌, if◌then◌else◌, length,
  replicate, append-nil, arith, Bool-cases, subst,
}
use distributed_chat_applica.Go.Text.{Bytes}
use distributed_chat_applica.Go.Result.{ok, err, panic}
use distributed_chat_applica.Go.Binary.{put_be, read_be, read_into, read_new, max_alloc}
use distributed_chat_applica.Go.Binary.Laws.{
  bind_ok, read_be-put_be, read_into-append, read_new-append,
}
use distributed_chat_applica.Wire.{fixed_id, length-fixed_id}
use distributed_chat_applica.Unicast.Datagram.{Message}
use distributed_chat_applica.Unicast.Codec.{
  encode_payload, encode_unicast_message, ack_of, data_of, decode_payload, decode_rest,
  decode_message, decode_unicast_message,
}

-- The bytes of a datagram up to the payload.
abbrev pub header : ℕ → ℕ → ℕ → Bytes → Bytes → Bytes → Bytes
header response frame tries from to rest =
    put_be 1 response ++ (put_be 8 frame ++ (put_be 1 tries ++ (from ++ (to ++ rest))))

module _ (r f t : ℕ) (from to rest ip : Bytes) (hr : r < 256) (hf : f < 2 ^ 64) (ht : t < 256)
    (lf : length from ≡ 36) (lt : length to ≡ 36) where
  pub decode_message-header :
      decode_message ip (header r f t from to rest) ≡ decode_rest r f t from to ip rest
  unfolding decode_message
  decode_message-header =
      bind_ok (read_be 1) _ (read_be-put_be 1 r _ (omega arith) hr)
      ∙ bind_ok (read_be 8) _ (read_be-put_be 8 f _ (omega arith) hf)
      ∙ bind_ok (read_be 1) _ (read_be-put_be 1 t _ (omega arith) ht)
      ∙ bind_ok (read_into (replicate 36 0)) _
          (read_into-append (replicate 36 0) from (to ++ rest) lf (omega arith))
      ∙ bind_ok (read_into from) _ (read_into-append from to rest (lt ∙ sym lf) (omega arith))

  pub decode-header :
      decode_unicast_message (header r f t from to rest) ip
      ≡ elim (decode_rest r f t from to ip rest) [
        | ok (m, more) ↦ ok m
        | err e ↦ err e
        | panic ↦ panic
      ]
  unfolding decode_unicast_message
  decode-header = rw (decode_message-header, decode_unicast_message)

-- What the receiver sees of a message that came from `ip`.
unfoldable pub arrived : Bytes → Message → Message
arrived ip m = record {
  response = if m.response == 1 then 1 else 0;
  frame = m.frame;
  tries = m.tries;
  from_uuid = fixed_id m.from_uuid;
  to_uuid = fixed_id m.to_uuid;
  ip = ip;
  message = if m.response == 1 then [] else m.message;
}

-- The integers have their widths, and a message that is no acknowledgement has a payload.
pub record IsSendable (m : Message) : Type 0 where
  pub response_fits : m.response < 256
  pub frame_fits : m.frame < 2 ^ 64
  pub tries_fits : m.tries < 256
  pub payload_fits : length m.message ≤ max_alloc
  pub payload_nonempty : m.response ≢ 1 → 0 < length m.message

payload_read :
    (m : Message) (from to ip : Bytes)
    → 0 < length m.message
    → length m.message ≤ max_alloc
    → decode_payload m.frame m.tries from to ip (put_be 8 (length m.message) ++ m.message)
      ≡ ok (data_of m.frame m.tries from to ip m.message, [])
unfolding decode_payload
payload_read m from to ip some fits =
    bind_ok (read_be 8) _
      (read_be-put_be 8 (length m.message) m.message (omega arith) (omega arith))
    ∙ bind_ok (read_new (length m.message)) _ last
  where
    last : read_new (length m.message) m.message ≡ ok (m.message, [])
    last =
        subst (λ s. read_new (length m.message) s ≡ ok (m.message, [])) (append-nil m.message)
          (read_new-append (length m.message) m.message [] refl fits (omega arith))

-- Decoding an encoded message gives back its frame, its tries, its payload and its two ids at
-- their fixed width, with the address that the datagram came from; this wants integers of their widths,
-- a payload of at most 2^48 bytes, and, if the message is no acknowledgement, one that is not empty.
pub decode_unicast_message-encode_unicast_message :
    (m : Message) (ip : Bytes)
    → IsSendable m
    → decode_unicast_message (encode_unicast_message m) ip ≡ ok (arrived ip m)
unfolding encode_unicast_message encode_payload arrived decode_rest ack_of data_of
decode_unicast_message-encode_unicast_message m ip s =
    let read = λ (rest : Bytes).
      decode-header m.response m.frame m.tries (fixed_id m.from_uuid) (fixed_id m.to_uuid) rest ip
        s.response_fits s.frame_fits s.tries_fits (length-fixed_id m.from_uuid)
        (length-fixed_id m.to_uuid) in
    elim (Bool-cases (m.response == 1)) [
      | inl e ↦ rw e (ground (arith, read []))
      | inr e ↦ rw e (
          ground (
            arith,
            read (put_be 8 (length m.message) ++ m.message),
            payload_read m (fixed_id m.from_uuid) (fixed_id m.to_uuid) ip
                (s.payload_nonempty (ground arith)) s.payload_fits,
          ))
    ]
