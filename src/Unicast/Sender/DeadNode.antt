-- ===== src/Unicast/Sender/DeadNode.antt =====
-- handleDeadNode of server/unicast/unicast.go, and what becomes of the messages after it.
use distributed_chat_applica.Prelude.{◌≡◌, refl, [], ◌∷◌, Bool, none, some, if◌then◌else◌, arith}
use distributed_chat_applica.Go.Text.{Bytes, has_prefix, str_eq, str_eq_iff, str_eq_refl}
use distributed_chat_applica.Go.Map.{Map, get, delete, get-delete}
use distributed_chat_applica.Unicast.Sender.{Sender, frame_for, handle_dead_node, forget, on_s_ack}

forget-peer_frame :
    (keys : Map Bool) (uuid : Bytes) (s : Sender) → (forget keys uuid s).peer_frame ≡ s.peer_frame
unfolding forget
forget-peer_frame [] uuid s = refl
forget-peer_frame ((k, b) ∷ keys) uuid s = ground (
  arith,
  forget-peer_frame keys uuid s,
  forget-peer_frame keys uuid
      (record s { ack_frame = delete s.ack_frame k; msg_buf = delete s.msg_buf k }),
)

forget-uuid : (keys : Map Bool) (uuid : Bytes) (s : Sender) → (forget keys uuid s).uuid ≡ s.uuid
unfolding forget
forget-uuid [] uuid s = refl
forget-uuid ((k, b) ∷ keys) uuid s = ground (
  arith,
  forget-uuid keys uuid s,
  forget-uuid keys uuid
      (record s { ack_frame = delete s.ack_frame k; msg_buf = delete s.msg_buf k }),
)

pub uuid-handle_dead_node : (s : Sender) (uuid : Bytes) → (handle_dead_node s uuid).uuid ≡ s.uuid
unfolding handle_dead_node
uuid-handle_dead_node s uuid =
    forget-uuid s.ack_frame uuid (record s { peer_frame = delete s.peer_frame uuid })

-- What an entry of ackFrame is after the loop over `keys`.
forget-ack_frame :
    (keys : Map Bool) (uuid j : Bytes) (s : Sender)
    → get (forget keys uuid s).ack_frame j ≡ elim (get keys j) [
      | none ↦ get s.ack_frame j
      | some _ ↦ if has_prefix j uuid then none else get s.ack_frame j
    ]
unfolding forget get
forget-ack_frame [] uuid j s = refl
forget-ack_frame ((k, b) ∷ keys) uuid j s =
    let cut = record s { ack_frame = delete s.ack_frame k; msg_buf = delete s.msg_buf k } in
    ground (
      arith,
      forget-ack_frame keys uuid j s,
      forget-ack_frame keys uuid j cut,
      get-delete s.ack_frame k j,
      str_eq_iff k j,
    )

forget-msg_buf :
    (keys : Map Bool) (uuid j : Bytes) (s : Sender)
    → get (forget keys uuid s).msg_buf j ≡ elim (get keys j) [
      | none ↦ get s.msg_buf j
      | some _ ↦ if has_prefix j uuid then none else get s.msg_buf j
    ]
unfolding forget get
forget-msg_buf [] uuid j s = refl
forget-msg_buf ((k, b) ∷ keys) uuid j s =
    let cut = record s { ack_frame = delete s.ack_frame k; msg_buf = delete s.msg_buf k } in
    ground (
      arith,
      forget-msg_buf keys uuid j s,
      forget-msg_buf keys uuid j cut,
      get-delete s.msg_buf k j,
      str_eq_iff k j,
    )

-- A peer that is taken for dead loses its count and every frame that waits for an acknowledgement
-- under its id, with the message kept for that frame; the entries of all others stay, and so do
-- the messages whose frames were acknowledged.
pub handle_dead_node_lem :
    (s : Sender) (uuid j : Bytes)
    → let t = handle_dead_node s uuid in
      (get t.peer_frame j ≡ (if str_eq uuid j then none else get s.peer_frame j))
      × (get t.ack_frame j ≡ (if has_prefix j uuid then none else get s.ack_frame j))
      × (get t.msg_buf j ≡ elim (get s.ack_frame j) [
        | none ↦ get s.msg_buf j
        | some _ ↦ if has_prefix j uuid then none else get s.msg_buf j
      ])
unfolding handle_dead_node
handle_dead_node_lem s uuid j =
    let t = record s { peer_frame = delete s.peer_frame uuid } in
    (
      rw forget-peer_frame (get-delete s.peer_frame uuid j),
      ground (arith, forget-ack_frame s.ack_frame uuid j t),
      forget-msg_buf s.ack_frame uuid j t,
    )

-- The count of a peer that was taken for dead starts again: its next message has frame 1.
pub frame_for-handle_dead_node :
    (s : Sender) (uuid : Bytes) → frame_for (handle_dead_node s uuid) uuid ≡ 1
frame_for-handle_dead_node s uuid =
    ground (arith, (handle_dead_node_lem s uuid uuid).0, str_eq_refl uuid)

-- A message whose frame was acknowledged is kept for good: neither the acknowledgement nor the
-- death of its peer takes it out of msgBuf.
pub acked_stays :
    (s : Sender) (index uuid : Bytes)
    → get (handle_dead_node (on_s_ack s index) uuid).msg_buf index ≡ get s.msg_buf index
unfolding on_s_ack
acked_stays s index uuid =
    let t = record s { ack_frame = delete s.ack_frame index } in
    ground (
      arith,
      (handle_dead_node_lem t uuid index).2,
      get-delete s.ack_frame index index,
      str_eq_refl index,
    )
