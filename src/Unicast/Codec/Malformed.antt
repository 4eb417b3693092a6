-- ===== src/Unicast/Codec/Malformed.antt =====
-- decodeUnicastMessage of server/unicast/unicast.go on datagrams that were cut or forged.
use distributed_chat_applica.Prelude.{
  ℕ, suc, ◌+◌, ◌-◌, ◌^◌, ◌≤◌, ◌<◌, ◌≡◌, ◌∙◌, ◌≢◌, [], ◌∷◌, ◌++◌, ◌==◌, if◌then◌else◌, length, take,
  drop, replicate, arith, take-append_past, ap, length-take, take_all,
}
use distributed_chat_applica.Go.Text.{Bytes}
use distributed_chat_applica.Go.Result.{Result, ok, err, panic, eof}
use distributed_chat_applica.Go.Binary.{put_be, length-put_be, read_be, read_new, max_alloc}
use distributed_chat_applica.Go.Binary.Laws.{
  bind_ok, bind_err, bind_panic, read_be-put_be, read_new_lem, read_new_eof, read_new_panics,
}
use distributed_chat_applica.Wire.{fixed_id, length-fixed_id}
use distributed_chat_applica.Unicast.Datagram.{Message}
use distributed_chat_applica.Unicast.Codec.{
  encode_payload, encode_unicast_message, data_of, decode_payload, decode_rest,
  decode_unicast_message,
}
use distributed_chat_applica.Unicast.Codec.RoundTrip.{header, decode-header, IsSendable, arrived}

-- What a payload of `n` announced bytes reads as, of which the bytes `b` have arrived.
abbrev pub received : ℕ → ℕ → Bytes → Bytes → Bytes → ℕ → Bytes → Result Message
received frame tries from to ip n [] = err eof
received frame tries from to ip n (x ∷ b) =
    ok (data_of frame tries from to ip (take n (x ∷ b) ++ replicate (n - suc (length b)) 0))

module _ (r f t : ℕ) (from to ip : Bytes) (n : ℕ) (hr : r < 256) (data_frame : r ≢ 1)
    (hf : f < 2 ^ 64) (ht : t < 256) (lf : length from ≡ 36) (lt : length to ≡ 36)
    (hn : n < 2 ^ 64) where
  decode-payload :
      (b : Bytes)
      → decode_unicast_message (header r f t from to (put_be 8 n ++ b)) ip
        ≡ elim (decode_payload f t from to ip (put_be 8 n ++ b)) [
          | ok (m, more) ↦ ok m
          | err e ↦ err e
          | panic ↦ panic
        ]
  unfolding decode_rest
  decode-payload b = ground (arith, decode-header r f t from to (put_be 8 n ++ b) ip hr hf ht lf lt)

  payload_received :
      (b : Bytes)
      → n ≤ max_alloc
      → decode_payload f t from to ip (put_be 8 n ++ b) ≡ elim (received f t from to ip n b) [
        | ok m ↦ ok (m, drop n b)
        | err e ↦ err e
        | panic ↦ panic
      ]
  unfolding decode_payload
  payload_received [] small =
      bind_ok (read_be 8) _ (read_be-put_be 8 n [] (omega arith) hn)
      ∙ bind_err (read_new n) _ (read_new_eof n small)
  payload_received (x ∷ b) small =
      bind_ok (read_be 8) _ (read_be-put_be 8 n (x ∷ b) (omega arith) hn)
      ∙ bind_ok (read_new n) _ (read_new_lem n x b small)

  -- A datagram with a whole header whose payload is cut off: with no byte of the payload there
  -- it is an error; else the message is accepted, and what is missing is filled up with zeros.
  pub decode_unicast_message-eq-received :
      (b : Bytes)
      → n ≤ max_alloc
      → decode_unicast_message (header r f t from to (put_be 8 n ++ b)) ip
        ≡ received f t from to ip n b
  decode_unicast_message-eq-received [] small =
      ground (arith, decode-payload [], payload_received [] small)
  decode_unicast_message-eq-received (x ∷ b) small =
      ground (arith, decode-payload (x ∷ b), payload_received (x ∷ b) small)

  payload_panics :
      (b : Bytes) → max_alloc < n → decode_payload f t from to ip (put_be 8 n ++ b) ≡ panic
  unfolding decode_payload
  payload_panics b large =
      bind_ok (read_be 8) _ (read_be-put_be 8 n b (omega arith) hn)
      ∙ bind_panic (read_new n) _ (read_new_panics n b large)

  -- A datagram that announces more bytes than can be allocated makes the decoder panic, whatever
  -- follows: the length is not compared with what has arrived.
  pub decode_unicast_message_panics :
      (b : Bytes)
      → max_alloc < n
      → decode_unicast_message (header r f t from to (put_be 8 n ++ b)) ip ≡ panic
  decode_unicast_message_panics b large = ground (arith, decode-payload b, payload_panics b large)

-- The buffer of StartListener.
abbrev pub buffer_size : ℕ
buffer_size = 1024

take-header :
    (k r f t : ℕ) (from to rest : Bytes)
    → length from ≡ 36
    → length to ≡ 36
    → take (82 + k) (header r f t from to rest) ≡ header r f t from to (take k rest)
take-header k r f t from to rest lf lt =
    take-append_past (82 + k) (81 + k) (put_be 1 r) _ (omega (arith, length-put_be 1 r))
    ∙ ap (◌++◌ (put_be 1 r)) (
        take-append_past (81 + k) (73 + k) (put_be 8 f) _ (omega (arith, length-put_be 8 f))
        ∙ ap (◌++◌ (put_be 8 f)) (
            take-append_past (73 + k) (72 + k) (put_be 1 t) _ (omega (arith, length-put_be 1 t))
            ∙ ap (◌++◌ (put_be 1 t)) (
                take-append_past (72 + k) (36 + k) from _ (omega (arith, lf))
                ∙ ap (◌++◌ from) (take-append_past (36 + k) k to rest (omega (arith, lt))))))

pub encode-header :
    (m : Message)
    → m.response ≢ 1
    → encode_unicast_message m
      ≡ header m.response m.frame m.tries
          (fixed_id m.from_uuid)
          (fixed_id m.to_uuid)
          (put_be 8 (length m.message) ++ m.message)
unfolding encode_unicast_message encode_payload
encode-header m h = ground arith

-- What the receive buffer holds of a long message.
take-encode :
    (m : Message)
    → m.response ≢ 1
    → take buffer_size (encode_unicast_message m)
      ≡ header m.response m.frame m.tries
          (fixed_id m.from_uuid)
          (fixed_id m.to_uuid)
          (put_be 8 (length m.message) ++ take 934 m.message)
take-encode m h = rw (encode-header m h) (
    take-header 942 m.response m.frame m.tries (fixed_id m.from_uuid) (fixed_id m.to_uuid)
      (put_be 8 (length m.message) ++ m.message) (length-fixed_id m.from_uuid)
      (length-fixed_id m.to_uuid)
    ∙ ap (header m.response m.frame m.tries (fixed_id m.from_uuid) (fixed_id m.to_uuid)) (
        take-append_past 942 934 (put_be 8 (length m.message)) m.message
          (omega (arith, length-put_be 8 (length m.message)))))

received_short :
    (f t : ℕ) (from to ip : Bytes) (n : ℕ) (b : Bytes)
    → 0 < length b
    → length b ≤ n
    → received f t from to ip n b ≡ ok (data_of f t from to ip (b ++ replicate (n - length b) 0))
received_short f t from to ip n [] some h = absurd (omega arith)
received_short f t from to ip n (x ∷ b) some h = rw (take_all n (x ∷ b) h)

response-arrived : (m : Message) → m.response ≢ 1 → ◌≡◌ {A = ℕ} (if m.response == 1 then 1 else 0) 0
response-arrived m h = ground arith

-- A message whose encoding is longer than the receive buffer arrives with its last bytes replaced
-- by zeros, and no error is reported: 934 bytes of the payload fit behind the header.
pub decode_unicast_message-buffer :
    (m : Message) (ip : Bytes)
    → IsSendable m
    → m.response ≢ 1
    → 934 < length m.message
    → decode_unicast_message (take buffer_size (encode_unicast_message m)) ip
      ≡ ok (record (arrived ip m) {
        message = take 934 m.message ++ replicate (length m.message - 934) 0;
      })
unfolding arrived data_of
decode_unicast_message-buffer m ip s data_frame long =
    let fits : length (take 934 m.message) ≡ 934 = omega (arith, length-take 934 m.message) in
    let zeros : length m.message - length (take 934 m.message) ≡ length m.message - 934 =
      omega (arith, fits) in
    rw (take-encode m data_frame) (
      decode_unicast_message-eq-received m.response m.frame m.tries (fixed_id m.from_uuid)
        (fixed_id m.to_uuid) ip (length m.message) s.response_fits data_frame s.frame_fits
        s.tries_fits (length-fixed_id m.from_uuid) (length-fixed_id m.to_uuid)
        (omega (arith, s.payload_fits)) (take 934 m.message) s.payload_fits
      ∙ received_short m.frame m.tries (fixed_id m.from_uuid) (fixed_id m.to_uuid) ip
          (length m.message) (take 934 m.message) (omega (arith, fits)) (omega (arith, fits))
      ∙ rw (zeros, response-arrived m data_frame))
