-- ===== src/Multicast/Reach/Trace.antt =====
-- What a node of server/multicast/multicast.go delivers over its whole run.
use distributed_chat_applica.Prelude.{
  ℕ, ◌<◌, ◌≡◌, refl, sym, ◌∙◌, ◌≢◌, ◌⊎◌, inl, inr, subst, ap, List, [], ◌∷◌, ◌++◌, map, some,
  Bool-cases, Option-cases, ◌==◌, arith,
}
use distributed_chat_applica.Go.Text.{Bytes, str_eq, str_eq_iff}
use distributed_chat_applica.Go.Map.{Map, get, put, get_or}
use distributed_chat_applica.Go.Result.{ok, Result-cases}
use distributed_chat_applica.Message as Body
use distributed_chat_applica.Message.New.{new_multicast_ack_message}
use distributed_chat_applica.Multicast.Datagram.{Message}
use distributed_chat_applica.Multicast.Node.{
  Multicaster, deliver_messages, remove_dead_node, know_node, add_new_node,
}
use distributed_chat_applica.Multicast.Node.Deliver.{deliver_messages-Delivers}
use distributed_chat_applica.Multicast.Listen.{
  Event, ack, deliver, arrived, on_body, on_multicast, hold_back,
}
use distributed_chat_applica.Multicast.Reach.{Keeps, Keeps-same, Keeps-put}
use distributed_chat_applica.Multicast.Reach.Steps.{
  Step, acked, sends, settles, receives, holds, Step-Keeps,
}
use distributed_chat_applica.Multicast.Reach.Log.{
  Grows, Log, end, moved, Delivers-Log, Before, Log-causal,
}

-- The messages that are handed to the application.
abbrev pub delivered : List Event → List Message
delivered [] = []
delivered (deliver m ∷ es) = m ∷ delivered es
delivered (ack ip uuid d ∷ es) = delivered es
delivered (arrived m ∷ es) = delivered es

pub delivered-map : (ms : List Message) → delivered (map deliver ms) ≡ ms
delivered-map [] = refl
delivered-map (m ∷ ms) = ap (◌∷◌ m) (delivered-map ms)

delivered_last :
    (es : List Event) (msg : Message) → delivered (es ++ (arrived msg ∷ [])) ≡ delivered es
delivered_last [] msg = refl
delivered_last (deliver m ∷ es) msg = ap (◌∷◌ m) (delivered_last es msg)
delivered_last (ack ip uuid d ∷ es) msg = delivered_last es msg
delivered_last (arrived m ∷ es) msg = delivered_last es msg

-- A round of the listener leaves the state alone, or is what the body of the message asks for.
round_cases :
    (m m' : Multicaster) (msg : Message) (es : List Event)
    → on_multicast m msg ≡ ok (m', es)
    → ((m' ≡ m) × (delivered es ≡ []))
      ⊎ ((body : Body.Message) × (m' ≡ (on_body m body).0)
          × (delivered es ≡ delivered (on_body m body).1))
unfolding on_multicast
round_cases m m' msg es h = elim (Bool-cases (str_eq msg.uuid m.id)) [
  | inl self ↦ inl (ground arith)
  | inr other ↦ elim (Result-cases (new_multicast_ack_message msg.frame)) [
    | inl (d, ackd) ↦ elim (Result-cases (Body.decode msg.message)) [
      | inl (body, read) ↦
          let e : ack msg.ip msg.uuid d ∷ ((on_body m body).1 ++ (arrived msg ∷ [])) ≡ es =
            ground arith in
          inr (body, ground arith, ap delivered (sym e) ∙ delivered_last (on_body m body).1 msg)
      | inr (inl (e, failed)) ↦ absurd (ground arith)
      | inr (inr failed) ↦ absurd (ground arith)
    ]
    | inr (inl (e, failed)) ↦ absurd (ground arith)
    | inr (inr failed) ↦ absurd (ground arith)
  ]
]

abbrev pub deliveries : {m m' : Multicaster} → Step m m' → List Message
deliveries (acked uuid frame) = []
deliveries (sends d g h) = []
deliveries (settles frame) = []
deliveries (receives msg es h) = delivered es
deliveries {m} (holds msg) = delivered (hold_back m msg).1

-- A run, with all messages that it delivers in their order.
pub data Trace (n : Multicaster) : Multicaster → List Message → Type 0 where
  stop : Trace n n []
  step :
      {m k : Multicaster} {ms : List Message} (s : Step m k)
      → Trace n k ms
      → Trace n m (deliveries s ++ ms)

Keeps-Grows : (m k : Multicaster) → Keeps m k → Grows m.id m.vector_clock k.vector_clock
Keeps-Grows m k keeps = record {
  grown = λ i n ne e.
      let (n', e', le) = keeps.entry i n e in record { count = n'; now = e'; more = le ne };
}

module _ (last : Map ℕ) (ms : List Message) where
  -- A stretch of a run leads from the clock of `m` to a log of what comes after.
  abbrev Leads : (m k : Multicaster) → List Message → Type 0
  Leads m k es = Log m.id last k.vector_clock ms → Log m.id last m.vector_clock (es ++ ms)

  Keeps-Leads : (m k : Multicaster) → Keeps m k → Leads m k []
  Keeps-Leads m k keeps log = moved k.vector_clock (Keeps-Grows m k keeps) log

  deliver_messages-Leads : (m : Multicaster) → Leads m (deliver_messages m).0 (deliver_messages m).1
  deliver_messages-Leads m log =
      let (k, es) = deliver_messages m in
      Delivers-Log m.id last k.vector_clock m.vector_clock es ms (deliver_messages-Delivers m) log

  -- A change before the deliveries.
  after_change :
      (m n : Multicaster)
      → n.id ≡ m.id
      → Keeps m n
      → Leads m (deliver_messages n).0 (deliver_messages n).1
  after_change m n same keeps log =
      let (k, es) = deliver_messages n in
      moved n.vector_clock (Keeps-Grows m n keeps) (
        Delivers-Log m.id last k.vector_clock n.vector_clock es ms (deliver_messages-Delivers n)
          log)

  add_new_node-Leads :
      (m : Multicaster) (id : Bytes) → Leads m (add_new_node m id).0 (add_new_node m id).1
  unfolding add_new_node
  add_new_node-Leads m id log =
      let queue = map (know_node id) m.hold_back_queue in
      let set = record m { vector_clock = put m.vector_clock id 0; hold_back_queue = queue } in
      let held = record m { hold_back_queue = queue } in
      elim (Option-cases (get m.vector_clock id)) [
        | inl absent ↦ rw absent (
            after_change m set refl (Keeps-put m set id 0 refl refl (inl absent))
              (rw (absent, add_new_node) at log))
        | inr (n, there) ↦ elim (Bool-cases (str_eq id m.id)) [
          | inl self ↦
              rw (there, self)
                (after_change m set refl
                  (Keeps-put m set id 0 refl refl (inr ((str_eq_iff id m.id).0 self)))
                  (rw (there, self, add_new_node) at log))
          | inr other ↦
              rw (there, other)
                (after_change m held refl (Keeps-same m held refl refl)
                  (rw (there, other, add_new_node) at log))
        ]
      ]

  on_body-Leads :
      (m : Multicaster) (body : Body.Message)
      → Leads m (on_body m body).0 (delivered (on_body m body).1)
  unfolding on_body remove_dead_node
  on_body-Leads m body log = elim (Bool-cases (body.type == Body.new_node)) [
    | inl new ↦
        let es = (add_new_node m body.uuid).1 in
        elim (Bool-cases (body.type == Body.dead_node)) [
          | inl dead ↦
              rw (new, delivered-map es)
                (add_new_node-Leads m body.uuid (rw (new, dead, on_body, remove_dead_node) at log))
          | inr live ↦
              rw (new, delivered-map es)
                (add_new_node-Leads m body.uuid (rw (new, live, on_body) at log))
        ]
    | inr old ↦ elim (Bool-cases (body.type == Body.dead_node)) [
      | inl dead ↦ rw old (rw (old, dead, on_body, remove_dead_node) at log)
      | inr live ↦ rw old (rw (old, live, on_body) at log)
    ]
  ]

  hold_back-Leads :
      (m : Multicaster) (msg : Message)
      → Leads m (hold_back m msg).0 (delivered (hold_back m msg).1)
  unfolding hold_back
  hold_back-Leads m msg log =
      let n = record m { hold_back_queue = m.hold_back_queue ++ (msg ∷ []) } in
      rw (delivered-map (deliver_messages n).1)
        (after_change m n refl (Keeps-same m n refl refl) log)

  receives-Leads :
      (m k : Multicaster) (msg : Message) (es : List Event)
      → on_multicast m msg ≡ ok (k, es)
      → Leads m k (delivered es)
  receives-Leads m k msg es h log = elim (round_cases m k msg es h) [
    | inl (same, none_sent) ↦ rw none_sent (subst (λ j. Log m.id last j.vector_clock ms) same log)
    | inr (body, e, sent_on) ↦
        rw sent_on (on_body-Leads m body (subst (λ j. Log m.id last j.vector_clock ms) e log))
  ]

  Step-Leads : {m k : Multicaster} (s : Step m k) → Leads m k (deliveries s)
  Step-Leads {m} {k} (acked uuid frame) = Keeps-Leads m k (Step-Keeps (acked uuid frame))
  Step-Leads {m} {k} (sends d g h) = Keeps-Leads m k (Step-Keeps (sends d g h))
  Step-Leads {m} {k} (settles frame) = Keeps-Leads m k (Step-Keeps (settles frame))
  Step-Leads {m} {k} (receives msg es h) = receives-Leads m k msg es h
  Step-Leads {m} {k} (holds msg) = hold_back-Leads m msg

Trace-Log :
    (n : Multicaster) (m : Multicaster) (ms : List Message)
    → Trace n m ms
    → Log m.id n.vector_clock m.vector_clock ms
Trace-Log n _ _ stop = end refl
Trace-Log n m _ (step {k = k} {ms = ms} s t) = Step-Leads n.vector_clock ms s (
    subst (λ i. Log i n.vector_clock k.vector_clock ms) (Step-Keeps s).same_id (Trace-Log n k ms t))

-- Causal order. Whatever a node does and receives, in any order: of two messages that it delivers,
-- `x` before `y`, the first was sent before its sender had seen the second, since its stamp for the
-- sender of `y` is below the one of `y`. The sender of `y` is another node, and one that this node
-- knows from the start.
pub Trace-causal :
    (m n : Multicaster) (ms : List Message) (x y : Message) (count : ℕ)
    → Trace n m ms
    → Before x y ms
    → y.uuid ≢ m.id
    → get m.vector_clock y.uuid ≡ some count
    → get_or x.vector_clock y.uuid 0 < get_or y.vector_clock y.uuid 0
Trace-causal m n ms x y count t b other known =
    Log-causal m.id n.vector_clock y other m.vector_clock ms x count (Trace-Log n m ms t) b known
