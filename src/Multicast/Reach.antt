-- ===== src/Multicast/Reach.antt =====
-- The states that a node of server/multicast/multicast.go reaches: its methods and goroutines, in
-- any order.
pub mod Steps
pub mod Start
pub mod Log
pub mod Trace
use distributed_chat_applica.Prelude.{
  ℕ, suc, ◌+◌, ◌≤◌, ◌≡◌, refl, sym, ◌∙◌, ◌≢◌, ◌⊎◌, inl, inr, subst, List, [], ◌∷◌, ◌++◌, Bool, true,
  false, none, some, Bool-cases, Option-cases, if◌then◌else◌, ◌==◌, length, map, arith,
}
use distributed_chat_applica.Go.Text.{Bytes, str_eq, str_eq_iff, str_eq_refl, str_eq_ne}
use distributed_chat_applica.Go.Map.{Map, get, put, get_or, get-put, Distinct, put-Distinct}
use distributed_chat_applica.Go.FrameMap.{erase}
use distributed_chat_applica.Go.Result.{Result, ok, err, panic, Result-cases}
use distributed_chat_applica.Message as Body
use distributed_chat_applica.Message.New.{new_multicast_ack_message}
use distributed_chat_applica.Multicast.Datagram.{Message}
use distributed_chat_applica.Multicast.Clock.{tick, next_stamp}
use distributed_chat_applica.Multicast.Clock.Causal.{Ready, Grown, Grown-tick}
use distributed_chat_applica.Multicast.HoldBack.Order.{Delivers, done, next}
use distributed_chat_applica.Multicast.Node.{
  Multicaster, new_reliable_multicast, fill_nodes, zero_clocks, on_ack, deliver_messages,
  remove_dead_node, know_node, add_new_node,
}
use distributed_chat_applica.Multicast.Node.Deliver.{deliver_messages-Delivers}
use distributed_chat_applica.Multicast.Send.{begin_multicast, send_message}
use distributed_chat_applica.Multicast.Listen.{Event, on_body, on_multicast, hold_back}

-- From one state to another: the id is the same, no id gets a second entry in the clock, no entry
-- goes, and no count for another node falls.
pub record Keeps (m m' : Multicaster) : Type 0 where
  pub same_id : m'.id ≡ m.id
  pub distinct : Distinct m.vector_clock → Distinct m'.vector_clock
  pub entry :
      (k : Bytes) (n : ℕ)
      → get m.vector_clock k ≡ some n
      → (n' : ℕ) × (get m'.vector_clock k ≡ some n') × (k ≢ m.id → n ≤ n')

pub Keeps-refl : (m : Multicaster) → Keeps m m
Keeps-refl m = record {
  same_id = refl;
  distinct = λ d. d;
  entry = λ k n e. (n, e, λ ne. omega arith);
}

pub Keeps-trans : {a b c : Multicaster} → Keeps a b → Keeps b c → Keeps a c
Keeps-trans {a} {b} {c} p q = record {
  same_id = q.same_id ∙ p.same_id;
  distinct = λ d. q.distinct (p.distinct d);
  entry = λ k n e.
      let (n1, e1, le1) = p.entry k n e in
      let (n2, e2, le2) = q.entry k n1 e1 in
      (n2, e2, λ ne. omega (arith, le1 ne, le2 (λ same. ne (same ∙ p.same_id))));
}

Delivers-Distinct :
    (last clock : Map ℕ) (ms : List Message)
    → Delivers last clock ms
    → Distinct clock
    → Distinct last
unfolding tick
Delivers-Distinct last clock [] (done e) d = subst Distinct e d
Delivers-Distinct last clock (m ∷ ms) (next r k) d =
    Delivers-Distinct last (tick clock m.uuid) ms k
      (put-Distinct clock m.uuid (next_stamp (get_or clock m.uuid 0)) d)

pub Delivers-Grown :
    (last clock : Map ℕ) (ms : List Message) (k : Bytes) (n : ℕ)
    → Delivers last clock ms
    → get clock k ≡ some n
    → Grown clock last k n
Delivers-Grown last clock [] k n (done e) h = record {
  count = n;
  now = subst (λ c. get c k ≡ some n) e h;
  more = omega arith;
}
Delivers-Grown last clock (m ∷ ms) k n (next r d) h =
    let g = Grown-tick clock m k n r h in
    let g' = Delivers-Grown last (tick clock m.uuid) ms k g.count d g.now in
    record { count = g'.count; now = g'.now; more = omega (arith, g.more, g'.more) }

pub deliver_messages-Keeps : (m : Multicaster) → Keeps m (deliver_messages m).0
deliver_messages-Keeps m =
    let m' = (deliver_messages m).0 in
    let d = deliver_messages-Delivers m in
    record {
      same_id = unfold deliver_messages in refl;
      distinct = Delivers-Distinct m'.vector_clock m.vector_clock (deliver_messages m).1 d;
      entry = λ k n e.
          let g = Delivers-Grown m'.vector_clock m.vector_clock (deliver_messages m).1 k n d e in
          (g.count, g.now, λ ne. g.more);
    }

-- A change that leaves the clock alone.
pub Keeps-same : (m m' : Multicaster) → m'.id ≡ m.id → m'.vector_clock ≡ m.vector_clock → Keeps m m'
Keeps-same m m' i c = record {
  same_id = i;
  distinct = λ d. rw c d;
  entry = λ k n e. (n, rw c e, λ ne. omega arith);
}

-- A change that sets one entry of the clock: a new one, or the node's own.
pub Keeps-put :
    (m m' : Multicaster) (id : Bytes) (v : ℕ)
    → m'.id ≡ m.id
    → m'.vector_clock ≡ put m.vector_clock id v
    → (get m.vector_clock id ≡ none) ⊎ (id ≡ m.id)
    → Keeps m m'
Keeps-put m m' id v i c own = record {
  same_id = i;
  distinct = λ d. rw c (put-Distinct m.vector_clock id v d);
  entry = λ k n e. elim (Bool-cases (str_eq id k)) [
    | inl same ↦ (
      v,
      rw c (get-put m.vector_clock id k v ∙ rw same),
      λ ne. elim own [
        | inl absent ↦ absurd (ground (arith, str_eq_iff id k))
        | inr self ↦ absurd (ground (arith, str_eq_iff id k))
      ],
    )
    | inr other ↦ (n, rw c (get-put m.vector_clock id k v ∙ rw other e), λ ne. omega arith)
  ];
}
