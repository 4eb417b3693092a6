-- ===== src/Multicast/Group/Heard.antt =====
-- A round of StartListener in server/multicast/multicast.go, for a message that announces no new node.
use distributed_chat_applica.Prelude.{
  ◌≡◌, ◌≢◌, refl, inl, inr, subst, List, [], ◌∷◌, ◌++◌, All, Bool-cases, ◌==◌, ==_iff,
  if◌then◌else◌, arith,
}
use distributed_chat_applica.Go.Text.{Bytes, str_eq, str_eq_iff}
use distributed_chat_applica.Go.Result.{ok, Result-cases}
use distributed_chat_applica.Message as Body
use distributed_chat_applica.Message.New.{new_multicast_ack_message}
use distributed_chat_applica.Multicast.Datagram.{Message}
use distributed_chat_applica.Multicast.Node.{Multicaster, remove_dead_node}
use distributed_chat_applica.Multicast.Listen.{Event, ack, arrived, on_body, on_multicast}
use distributed_chat_applica.Multicast.Reach.Trace.{delivered}
use distributed_chat_applica.Multicast.Group.{arrivals}

-- The clock and the queue stay, nothing is delivered, and a goroutine starts for a message of
-- another node.
pub record Heard (m m' : Multicaster) (msg : Message) (es : List Event) : Type 0 where
  pub same_id : m'.id ≡ m.id
  pub same_clock : m'.vector_clock ≡ m.vector_clock
  pub same_queue : m'.hold_back_queue ≡ m.hold_back_queue
  pub nothing_delivered : delivered es ≡ []
  pub started : All (λ x. (x ≡ msg) × (x.uuid ≢ m.id)) (arrivals es)

on_body_old :
    (m : Multicaster) (body : Body.Message)
    → body.type ≢ Body.new_node
    → on_body m body ≡ (if body.type == Body.dead_node then remove_dead_node m body.uuid else m, [])
unfolding on_body
on_body_old m body old = ground (arith, ==_iff body.type Body.new_node)

after_body :
    (m : Multicaster) (msg : Message) (d : Bytes) (body : Body.Message)
    → body.type ≢ Body.new_node
    → msg.uuid ≢ m.id
    → Heard m
        (on_body m body).0
        msg
        (ack msg.ip msg.uuid d ∷ ((on_body m body).1 ++ (arrived msg ∷ [])))
unfolding remove_dead_node
after_body m msg d body old other = rw (on_body_old m body old) (record {
  same_id = ground arith;
  same_clock = ground arith;
  same_queue = ground arith;
  nothing_delivered = refl;
  started = ((refl, other), tt);
})

pub on_multicast-Heard :
    (m m' : Multicaster) (msg : Message) (es : List Event) (body : Body.Message)
    → Body.decode msg.message ≡ ok body
    → body.type ≢ Body.new_node
    → on_multicast m msg ≡ ok (m', es)
    → Heard m m' msg es
unfolding on_multicast
on_multicast-Heard m m' msg es body read old h = elim (Bool-cases (str_eq msg.uuid m.id)) [
  | inl self ↦
      let e : m ≡ m' = ground arith in
      let e' : [] ≡ es = ground arith in
      subst (λ k. Heard m k msg es) e
        (subst (Heard m m msg) e' (record {
          same_id = refl;
          same_clock = refl;
          same_queue = refl;
          nothing_delivered = refl;
          started = tt;
        }))
  | inr other ↦ elim (Result-cases (new_multicast_ack_message msg.frame)) [
    | inl (d, ackd) ↦
        let e : (on_body m body).0 ≡ m' = ground arith in
        let e' : ack msg.ip msg.uuid d ∷ ((on_body m body).1 ++ (arrived msg ∷ [])) ≡ es =
          ground arith in
        subst (λ k. Heard m k msg es) e
          (subst (Heard m (on_body m body).0 msg) e'
            (after_body m msg d body old λ p. absurd (ground (arith, str_eq_iff msg.uuid m.id))))
    | inr (inl (e, failed)) ↦ absurd (ground arith)
    | inr (inr failed) ↦ absurd (ground arith)
  ]
]
