-- ===== src/Multicast/HoldBack/Complete.antt =====
-- That DeliverMessages of server/multicast/multicast.go goes on as long as it can and loses nothing.
use distributed_chat_applica.Prelude.{
  ℕ, zero, suc, ◌≤◌, ◌≡◌, refl, sym, inl, inr, ◌⊎◌, List, [], ◌∷◌, length, subst, arith,
}
use distributed_chat_applica.Go.Map.{Map}
use distributed_chat_applica.Multicast.Datagram.{Message}
use distributed_chat_applica.Multicast.Clock.{tick}
use distributed_chat_applica.Multicast.Clock.Causal.{Stale, Grown-tick, duplicate_iff}
use distributed_chat_applica.Multicast.HoldBack.{deliver_loop}
use distributed_chat_applica.Multicast.HoldBack.Picked.{
  Removed, here, there, length-Removed, AllHeld, pick-cases,
}
use distributed_chat_applica.Multicast.HoldBack.Order.{Delivers, done, next, deliver_loop-Delivers}

-- One round for each message of the queue is enough: when DeliverMessages returns, no message that
-- is left can be delivered, and none is a duplicate.
pub deliver_loop-AllHeld :
    (fuel : ℕ) (clock : Map ℕ) (queue : List Message)
    → length queue ≤ fuel
    → let (last, rest, _) = deliver_loop fuel clock queue in AllHeld last rest
unfolding deliver_loop
deliver_loop-AllHeld zero clock [] h = tt
deliver_loop-AllHeld zero clock (m ∷ ms) h = absurd (omega arith)
deliver_loop-AllHeld (suc fuel) clock queue h = elim (pick-cases clock queue) [
  | inl k ↦ rw (k.by_pick, deliver_loop) k.held
  | inr (inl d) ↦
      rw (d.by_pick, deliver_loop)
        (deliver_loop-AllHeld fuel clock d.rest (omega (arith, length-Removed d.cut)))
  | inr (inr t) ↦
      rw (t.by_pick, deliver_loop)
        (deliver_loop-AllHeld fuel (tick clock t.msg.uuid) t.rest
          (omega (arith, length-Removed t.cut)))
]

abbrev pub In : Message → List Message → Type 0
In x queue = (rest : List Message) × Removed x rest queue

In-head : {x y : Message} (ms : List Message) → x ≡ y → In x (y ∷ ms)
In-head {x} ms e = (ms, subst (λ z. Removed x ms (z ∷ ms)) e here)

-- A message of the queue is the one that was taken out, or it is still there.
In-Removed :
    {m x : Message} {rest others queue : List Message}
    → Removed m rest queue
    → Removed x others queue
    → (x ≡ m) ⊎ In x rest
In-Removed here here = inl refl
In-Removed here (there y r) = inr (_, r)
In-Removed (there y c) here = inr (_, here)
In-Removed (there y c) (there _ r) = elim (In-Removed c r) [
  | inl e ↦ inl e
  | inr (o, i) ↦ inr (y ∷ o, there y i)
]

Stale-Delivers :
    (last clock : Map ℕ) (sent : List Message) (x : Message)
    → Delivers last clock sent
    → Stale clock x
    → Stale last x
Stale-Delivers last clock [] x (done e) s = subst (λ c. Stale c x) e s
Stale-Delivers last clock (m ∷ sent) x (next r d) s =
    let g = Grown-tick clock m x.uuid s.count r s.known in
    Stale-Delivers last (tick clock m.uuid) sent x d (record {
      count = g.count;
      stamp = s.stamp;
      known = g.now;
      stamped = s.stamped;
      old = omega (arith, s.old, g.more);
    })

-- No message is lost: one that was in the queue was sent on, or is still in the queue, or its own
-- stamp is not above the count for its sender, so that it is a duplicate of one that was sent on.
pub deliver_loop_keeps :
    (fuel : ℕ) (clock : Map ℕ) (queue others : List Message) (x : Message)
    → Removed x others queue
    → let (last, rest, sent) = deliver_loop fuel clock queue in
      In x sent ⊎ (In x rest ⊎ Stale last x)
unfolding deliver_loop
deliver_loop_keeps zero clock queue others x r = inr (inl (others, r))
deliver_loop_keeps (suc fuel) clock queue others x r = elim (pick-cases clock queue) [
  | inl k ↦ rw (k.by_pick, deliver_loop) (inr (inl (others, r)))
  | inr (inl d) ↦
      rw (d.by_pick, deliver_loop)
        (elim (In-Removed d.cut r) [
          | inl e ↦ inr (
              inr (
                Stale-Delivers _ clock _ x (deliver_loop-Delivers fuel clock d.rest)
                  (subst (Stale clock) (sym e) ((duplicate_iff clock d.msg).0 d.duplicate))))
          | inr (o, i) ↦ deliver_loop_keeps fuel clock d.rest o x i
        ])
  | inr (inr t) ↦
      rw (t.by_pick, deliver_loop)
        (elim (In-Removed t.cut r) [
          | inl e ↦ inl (In-head _ e)
          | inr (o, i) ↦ elim (deliver_loop_keeps fuel (tick clock t.msg.uuid) t.rest o x i) [
            | inl (s, j) ↦ inl (t.msg ∷ s, there t.msg j)
            | inr z ↦ inr z
          ]
        ])
]
