-- ===== src/Unicast/Sender/Retries.antt =====
-- The retry loop of send in server/unicast/unicast.go.
use distributed_chat_applica.Prelude.{
  ℕ, zero, suc, ◌+◌, ◌%◌, ◌^◌, ◌<◌, ◌≤◌, ◌≡◌, refl, List, [], ◌∷◌, true, false, none, ◌==◌, length,
  arith, Option-cases, inl, inr, ◌≢◌,
}
use distributed_chat_applica.Go.Text.{Bytes}
use distributed_chat_applica.Go.Map.{get}
use distributed_chat_applica.Go.Binary.{max_alloc}
use distributed_chat_applica.Go.Result.{ok}
use distributed_chat_applica.Wire.{fixed_id, length-fixed_id, fixed_id-eq_self}
use distributed_chat_applica.Unicast.Datagram.{Message}
use distributed_chat_applica.Unicast.Codec.{
  encode_unicast_message, encode_payload, decode_unicast_message,
}
use distributed_chat_applica.Unicast.Codec.RoundTrip.{
  IsSendable, arrived, decode_unicast_message-encode_unicast_message,
}
use distributed_chat_applica.Unicast.Sender.{Sender, Round, returned, handle_dead_node, send_loop}

-- The datagram of try `i`.
abbrev pub attempt : Message → ℕ → Bytes
attempt m i = encode_unicast_message (record m { tries = i })

-- The datagrams of the tries from `i` on.
unfoldable pub attempts : Message → ℕ → ℕ → List Bytes
attempts m i zero = []
attempts m i (suc n) = attempt m i ∷ attempts m (i + 1) n

-- The sender's maps after `n` rounds from round `i`.
unfoldable pub state_after : (ℕ → Round) → Sender → ℕ → ℕ → Sender
state_after env s i zero = s
state_after env s i (suc n) = state_after env ((env i).others s) (i + 1) n

-- In `n` rounds from round `i` the datagram is written and not acknowledged.
abbrev pub Pending : (ℕ → Round) → Bytes → Sender → ℕ → ℕ → Type 0
Pending env index s i zero = Unit {0}
Pending env index s i (suc n) =
    ((env i).write_fails ≡ false)
    × (get ((env i).others s).ack_frame index ≢ none)
    × Pending env index ((env i).others s) (i + 1) n

-- What is decoded and encoded again is the same message with another count of tries.
encode-arrived :
    (m : Message) (ip : Bytes) (i : ℕ)
    → m.response ≡ 0
    → encode_unicast_message (record (arrived ip m) { tries = i })
      ≡ encode_unicast_message (record m { tries = i })
unfolding encode_unicast_message encode_payload arrived
encode-arrived m ip i h = ground (
  arith,
  fixed_id-eq_self (fixed_id m.from_uuid) (length-fixed_id m.from_uuid),
  fixed_id-eq_self (fixed_id m.to_uuid) (length-fixed_id m.to_uuid),
)

-- What send needs of the message that it makes.
pub record IsSent (m : Message) : Type 0 where
  pub is_data : m.response ≡ 0
  pub frame_fits : m.frame < 2 ^ 64
  pub payload_fits : length m.message ≤ max_alloc
  pub payload_nonempty : 0 < length m.message

attempt-IsSendable :
    (m : Message) (i : ℕ) → IsSent m → i < 256 → IsSendable (record m { tries = i })
attempt-IsSendable m i h small = record {
  response_fits = omega (arith, h.is_data);
  frame_fits = h.frame_fits;
  tries_fits = small;
  payload_fits = h.payload_fits;
  payload_nonempty = λ _. h.payload_nonempty;
}

module _ (env : ℕ → Round) (ip uuid index : Bytes) (m : Message) (h : IsSent m) where
  abbrev heard : ℕ → Message
  heard i = arrived ip (record m { tries = i })

  heard_decoded : (i : ℕ) → i < 256 → decode_unicast_message (attempt m i) ip ≡ ok (heard i)
  heard_decoded i small =
      decode_unicast_message-encode_unicast_message (record m { tries = i }) ip
        (attempt-IsSendable m i h small)

  heard_tries : (i : ℕ) → (heard i).tries ≡ i
  unfolding arrived
  heard_tries i = refl

  heard_again :
      (i : ℕ)
      → i < 20
      → encode_unicast_message (record (heard i) { tries = ((heard i).tries + 1) % 256 })
        ≡ attempt m (i + 1)
  heard_again i small =
      let one_more : ((heard i).tries + 1) % 256 ≡ i + 1 = omega (arith, heard_tries i) in
      rw one_more (encode-arrived (record m { tries = i }) ip (i + 1) h.is_data)

  -- The round that finds no entry for the index ends the loop.
  pub round_acked :
      (f i : ℕ) (s : Sender) (d : Bytes)
      → (env i).write_fails ≡ false
      → get ((env i).others s).ack_frame index ≡ none
      → send_loop env ip uuid index (suc f) i s d ≡ (returned true ((env i).others s), d ∷ [])
  unfolding send_loop
  round_acked f i s d w a = rw (w, a)

  pub round_failed :
      (f i : ℕ) (s : Sender) (d : Bytes)
      → (env i).write_fails ≡ true
      → send_loop env ip uuid index (suc f) i s d ≡ (returned false (handle_dead_node s uuid), [])
  unfolding send_loop
  round_failed f i s d w = rw w

  pub round_waits :
      (f i : ℕ) (s : Sender)
      → (env i).write_fails ≡ false
      → get ((env i).others s).ack_frame index ≢ none
      → i < 20
      → send_loop env ip uuid index (suc f) i s (attempt m i) ≡ (
        (send_loop env ip uuid index f (i + 1) ((env i).others s) (attempt m (i + 1))).0,
        attempt m i
            ∷ (send_loop env ip uuid index f (i + 1) ((env i).others s) (attempt m (i + 1))).1,
      )
  unfolding send_loop
  round_waits f i s w a small = elim (Option-cases (get ((env i).others s).ack_frame index)) [
    | inl e ↦ absurd (a e)
    | inr (b, e) ↦
        let not_last : ((heard i).tries == 20) ≡ false = ground (arith, heard_tries i) in
        rw (w, e, heard_decoded i (omega arith), not_last, heard_again i small)
  ]

  pub round_last :
      (f : ℕ) (s : Sender)
      → (env 20).write_fails ≡ false
      → get ((env 20).others s).ack_frame index ≢ none
      → send_loop env ip uuid index (suc f) 20 s (attempt m 20)
        ≡ (returned false (handle_dead_node ((env 20).others s) uuid), attempt m 20 ∷ [])
  unfolding send_loop
  round_last f s w a = elim (Option-cases (get ((env 20).others s).ack_frame index)) [
    | inl e ↦ absurd (a e)
    | inr (b, e) ↦
        let last : ((heard 20).tries == 20) ≡ true = ground (arith, heard_tries 20) in
        rw (w, e, heard_decoded 20 (omega arith), last)
  ]
