-- ===== src/Unicast/Listener/Filed.antt =====
-- The keys of the buffer of reliableListener.
use distributed_chat_applica.Prelude.{
  ℕ, ◌^◌, ◌<◌, ◌≡◌, some, ltb, ◌==◌, length, arith, Bool-cases, Option-cases, inl, inr,
}
use distributed_chat_applica.Go.Text.{Bytes, str_eq, str_eq_iff}
use distributed_chat_applica.Go.Map.{Map, get, put, delete, get-put, get-delete}
use distributed_chat_applica.Go.Format.{sprintf, sprintf-injective}
use distributed_chat_applica.Unicast.Datagram.{Message}
use distributed_chat_applica.Unicast.Listener.Frames.{
  accept_lem, msg_buf-note_peer, msg_buf-advance,
}
use distributed_chat_applica.Unicast.Listener.{
  Listener, last_frame, next_frame, note_peer, accept, in_order, on_message,
}

-- What decoding gives: an id of 36 bytes and a uint64.
pub record IsDecoded (m : Message) : Type 0 where
  pub id_fixed : length m.from_uuid ≡ 36
  pub frame_fits : m.frame < 2 ^ 64

-- A buffered message stands under its own sender's id and its own frame.
pub record IsFiled (buf : Map Message) : Type 0 where
  pub filed :
      (peer : Bytes) (f : ℕ) (m : Message)
      → length peer ≡ 36
      → f < 2 ^ 64
      → get buf (sprintf peer f) ≡ some m
      → (m.from_uuid ≡ peer) × (m.frame ≡ f)

put-IsFiled :
    (buf : Map Message) (m : Message)
    → IsDecoded m
    → IsFiled buf
    → IsFiled (put buf (sprintf m.from_uuid m.frame) m)
put-IsFiled buf m decoded filed = record {
  filed = λ peer f k size fits found.
      let mine = sprintf m.from_uuid m.frame in
      let index = sprintf peer f in
      elim (Bool-cases (str_eq mine index)) [
        | inl same ↦
            let (e, d) =
              sprintf-injective m.from_uuid peer m.frame f (omega (arith, size, decoded.id_fixed))
                decoded.frame_fits fits ((str_eq_iff mine index).0 same) in
            ground (arith, get-put buf mine index m)
        | inr other ↦ filed.filed peer f k size fits (ground (arith, get-put buf mine index m))
      ];
}

delete-IsFiled : (buf : Map Message) (j : Bytes) → IsFiled buf → IsFiled (delete buf j)
delete-IsFiled buf j filed = record {
  filed = λ peer f m size fits found.
      filed.filed peer f m size fits (ground (arith, get-delete buf j (sprintf peer f)));
}

accept-IsFiled : (l : Listener) (m : Message) → IsFiled l.msg_buf → IsFiled (accept l m).0.msg_buf
accept-IsFiled l m filed =
    let index = sprintf m.from_uuid (next_frame (last_frame l m.from_uuid)) in
    elim (Option-cases (get l.msg_buf index)) [
      | inl n ↦
          let same : (accept l m).0.msg_buf ≡ l.msg_buf =
            ground (arith, accept_lem l m, msg_buf-advance l m.from_uuid) in
          rw same filed
      | inr (copy, c) ↦
          let cut : (accept l m).0.msg_buf ≡ delete l.msg_buf index =
            ground (arith, accept_lem l m) in
          rw cut (delete-IsFiled l.msg_buf index filed)
    ]

in_order-IsFiled :
    (l : Listener) (m : Message)
    → IsDecoded m
    → IsFiled l.msg_buf
    → IsFiled (in_order l m).0.msg_buf
unfolding in_order
in_order-IsFiled l m decoded filed =
    let noted = msg_buf-note_peer l m.from_uuid in
    let filed' : IsFiled (note_peer l m.from_uuid).msg_buf = rw noted filed in
    elim (Bool-cases (ltb (next_frame (last_frame l m.from_uuid)) m.frame)) [
      | inl ahead ↦ rw ahead (put-IsFiled (note_peer l m.from_uuid).msg_buf m decoded filed')
      | inr e ↦ elim (Bool-cases (ltb m.frame (next_frame (last_frame l m.from_uuid)))) [
        | inl behind ↦ rw (e, behind) filed'
        | inr now ↦ rw (e, now) (accept-IsFiled (note_peer l m.from_uuid) m filed')
      ]
    ]

-- A round keeps every buffered message under its own sender's id and its own frame.
pub on_message-IsFiled :
    (l : Listener) (m : Message)
    → IsDecoded m
    → IsFiled l.msg_buf
    → IsFiled (on_message l m).0.msg_buf
unfolding on_message
on_message-IsFiled l m decoded filed = elim (Bool-cases (str_eq m.to_uuid l.uuid)) [
  | inr other ↦ rw other filed
  | inl mine ↦ elim (Bool-cases (m.response == 1)) [
    | inl ack ↦ rw (mine, ack) filed
    | inr sent ↦ rw (mine, sent) (in_order-IsFiled l m decoded filed)
  ]
]
