-- ===== src/Multicast/Reach/Steps.antt =====
-- The steps of a node of server/multicast/multicast.go, and what holds after any number of them.
use distributed_chat_applica.Prelude.{
  ℕ, ◌≡◌, refl, sym, ◌⊎◌, inl, inr, subst, List, [], ◌∷◌, ◌++◌, Bool-cases, Option-cases, ◌==◌, map,
  arith,
}
use distributed_chat_applica.Go.Text.{Bytes, str_eq, str_eq_iff}
use distributed_chat_applica.Go.Map.{get, put, get_or}
use distributed_chat_applica.Go.FrameMap.{erase}
use distributed_chat_applica.Go.Result.{ok, Result-cases}
use distributed_chat_applica.Message as Body
use distributed_chat_applica.Message.New.{new_multicast_ack_message}
use distributed_chat_applica.Multicast.Datagram.{Message}
use distributed_chat_applica.Multicast.Clock.{tick, next_stamp}
use distributed_chat_applica.Multicast.Node.{
  Multicaster, on_ack, remove_dead_node, know_node, add_new_node,
}
use distributed_chat_applica.Multicast.Send.{begin_multicast, send_message}
use distributed_chat_applica.Multicast.Listen.{Event, on_body, on_multicast, hold_back}
use distributed_chat_applica.Multicast.Reach.{
  Keeps, Keeps-refl, Keeps-trans, Keeps-same, Keeps-put, deliver_messages-Keeps,
}

on_ack-Keeps : (m : Multicaster) (uuid : Bytes) (frame : ℕ) → Keeps m (on_ack m uuid frame)
unfolding on_ack
on_ack-Keeps m uuid frame = Keeps-same m (on_ack m uuid frame) (ground arith) (ground arith)

add_new_node-Keeps : (m : Multicaster) (id : Bytes) → Keeps m (add_new_node m id).0
unfolding add_new_node
add_new_node-Keeps m id =
    let queue = map (know_node id) m.hold_back_queue in
    let set = record m { vector_clock = put m.vector_clock id 0; hold_back_queue = queue } in
    let held = record m { hold_back_queue = queue } in
    elim (Option-cases (get m.vector_clock id)) [
      | inl absent ↦
          rw absent
            (Keeps-trans (Keeps-put m set id 0 refl refl (inl absent)) (deliver_messages-Keeps set))
      | inr (n, there) ↦ elim (Bool-cases (str_eq id m.id)) [
        | inl self ↦
            rw (there, self)
              (Keeps-trans (Keeps-put m set id 0 refl refl (inr ((str_eq_iff id m.id).0 self)))
                (deliver_messages-Keeps set))
        | inr other ↦
            rw (there, other)
              (Keeps-trans (Keeps-same m held refl refl) (deliver_messages-Keeps held))
      ]
    ]

on_body-Keeps : (m : Multicaster) (body : Body.Message) → Keeps m (on_body m body).0
unfolding on_body remove_dead_node
on_body-Keeps m body =
    let n = (add_new_node m body.uuid).0 in
    let without = λ (k : Multicaster). Keeps-same k (remove_dead_node k body.uuid) refl refl in
    elim (Bool-cases (body.type == Body.new_node)) [
      | inl new ↦ elim (Bool-cases (body.type == Body.dead_node)) [
        | inl dead ↦ rw (new, dead) (Keeps-trans (add_new_node-Keeps m body.uuid) (without n))
        | inr live ↦ rw (new, live) (add_new_node-Keeps m body.uuid)
      ]
      | inr old ↦ elim (Bool-cases (body.type == Body.dead_node)) [
        | inl dead ↦ rw (old, dead) (without m)
        | inr live ↦ rw (old, live) (Keeps-refl m)
      ]
    ]

-- What a round of the listener may leave.
after_round :
    (m m' : Multicaster) (msg : Message) (es : List Event)
    → on_multicast m msg ≡ ok (m', es)
    → (m' ≡ m) ⊎ ((body : Body.Message) × (m' ≡ (on_body m body).0))
unfolding on_multicast
after_round m m' msg es h = elim (Bool-cases (str_eq msg.uuid m.id)) [
  | inl self ↦ inl (ground arith)
  | inr other ↦ elim (Result-cases (new_multicast_ack_message msg.frame)) [
    | inl (d, ackd) ↦ elim (Result-cases (Body.decode msg.message)) [
      | inl (body, read) ↦ inr (body, ground arith)
      | inr (inl (e, failed)) ↦ absurd (ground arith)
      | inr (inr failed) ↦ absurd (ground arith)
    ]
    | inr (inl (e, failed)) ↦ absurd (ground arith)
    | inr (inr failed) ↦ absurd (ground arith)
  ]
]

pub hold_back-Keeps : (m : Multicaster) (msg : Message) → Keeps m (hold_back m msg).0
unfolding hold_back
hold_back-Keeps m msg =
    let n = record m { hold_back_queue = m.hold_back_queue ++ (msg ∷ []) } in
    Keeps-trans (Keeps-same m n refl refl) (deliver_messages-Keeps n)

begin_multicast-Keeps : (m : Multicaster) → Keeps m (begin_multicast m)
unfolding tick
begin_multicast-Keeps m =
    Keeps-put m (begin_multicast m) m.id (next_stamp (get_or m.vector_clock m.id 0)) refl refl
      (inr refl)

-- A step: an acknowledgement, the locked part of SendMessage, the end of its goroutine, a round of
-- the listener, and the goroutine of the listener.
pub data Step (m : Multicaster) : Multicaster → Type 0 where
  acked : (uuid : Bytes) (frame : ℕ) → Step m (on_ack m uuid frame)
  sends :
      (data_bytes datagram : Bytes) {m' : Multicaster}
      → send_message m data_bytes ≡ ok (m', datagram)
      → Step m m'
  settles : (frame : ℕ) → Step m (record m { buffer_ack = erase m.buffer_ack frame })
  receives :
      (msg : Message) (es : List Event) {m' : Multicaster}
      → on_multicast m msg ≡ ok (m', es)
      → Step m m'
  holds : (msg : Message) → Step m (hold_back m msg).0

pub data Steps (m : Multicaster) : Multicaster → Type 0 where
  stay : Steps m m
  after : {k n : Multicaster} → Steps m k → Step k n → Steps m n

sends-Keeps :
    (m m' : Multicaster) (data_bytes datagram : Bytes)
    → send_message m data_bytes ≡ ok (m', datagram)
    → Keeps m m'
unfolding send_message
sends-Keeps m m' data_bytes datagram h = elim (Option-cases (get m.vector_clock m.id)) [
  | inl absent ↦ absurd (ground arith)
  | inr (n, there) ↦
      let e : begin_multicast m ≡ m' = ground arith in subst (Keeps m) e (begin_multicast-Keeps m)
]

pub Step-Keeps : {m m' : Multicaster} → Step m m' → Keeps m m'
Step-Keeps {m} (acked uuid frame) = on_ack-Keeps m uuid frame
Step-Keeps {m} {m'} (sends d g h) = sends-Keeps m m' d g h
Step-Keeps {m} (settles frame) = Keeps-same m _ refl refl
Step-Keeps {m} {m'} (receives msg es h) = elim (after_round m m' msg es h) [
  | inl same ↦ subst (Keeps m) (sym same) (Keeps-refl m)
  | inr (body, e) ↦ subst (Keeps m) (sym e) (on_body-Keeps m body)
]
Step-Keeps {m} (holds msg) = hold_back-Keeps m msg

-- Whatever a node does and receives, in any order: its id stays, no id gets a second entry in its
-- clock, no entry goes, and its count for another node never falls.
pub Steps-Keeps : {m m' : Multicaster} → Steps m m' → Keeps m m'
Steps-Keeps {m} stay = Keeps-refl m
Steps-Keeps (after steps step) = Keeps-trans (Steps-Keeps steps) (Step-Keeps step)
