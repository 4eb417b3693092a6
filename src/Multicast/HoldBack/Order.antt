-- ===== src/Multicast/HoldBack/Order.antt =====
-- The order in which DeliverMessages of server/multicast/multicast.go sends messages on.
use distributed_chat_applica.Prelude.{
  ℕ, zero, suc, ◌+◌, ◌≤◌, ◌≡◌, refl, inl, inr, List, [], ◌∷◌, some, Bool-cases, if◌then◌else◌,
  arith,
}
use distributed_chat_applica.Go.Text.{Bytes, str_eq, str_eq_iff, str_eq_refl}
use distributed_chat_applica.Go.Map.{Map, get, get_or}
use distributed_chat_applica.Multicast.Datagram.{Message}
use distributed_chat_applica.Multicast.Clock.{tick}
use distributed_chat_applica.Multicast.Clock.Causal.{Ready, get-tick, can_deliver-Ready}
use distributed_chat_applica.Multicast.HoldBack.{deliver_loop}
use distributed_chat_applica.Multicast.HoldBack.Picked.{pick-cases}

-- Causal broadcast: from a clock to `last`, each message is ready when it is delivered, and is
-- then counted.
pub data Delivers (last : Map ℕ) : Map ℕ → List Message → Type 0 where
  done : {clock : Map ℕ} → clock ≡ last → Delivers last clock []
  next :
      {clock : Map ℕ} {m : Message} {ms : List Message}
      → Ready clock m
      → Delivers last (tick clock m.uuid) ms
      → Delivers last clock (m ∷ ms)

-- DeliverMessages follows the rule of causal broadcast, whatever the hold-back queue holds: each
-- message it sends on is the next one of its sender, all that this sender had seen was seen here,
-- and the clock counts it.
pub deliver_loop-Delivers :
    (fuel : ℕ) (clock : Map ℕ) (queue : List Message)
    → let (last, _, sent) = deliver_loop fuel clock queue in Delivers last clock sent
unfolding deliver_loop
deliver_loop-Delivers zero clock queue = done refl
deliver_loop-Delivers (suc fuel) clock queue = elim (pick-cases clock queue) [
  | inl h ↦ rw (h.by_pick, deliver_loop) (done refl)
  | inr (inl d) ↦ rw (d.by_pick, deliver_loop) (deliver_loop-Delivers fuel clock d.rest)
  | inr (inr t) ↦
      rw (t.by_pick, deliver_loop)
        (next (can_deliver-Ready clock t.msg t.can)
          (deliver_loop-Delivers fuel (tick clock t.msg.uuid) t.rest))
]

-- After a delivery the count of any node that is known covers what the message depends on.
pub depends_on :
    (clock : Map ℕ) (m : Message) (k : Bytes) (n : ℕ)
    → Ready clock m
    → get (tick clock m.uuid) k ≡ some n
    → get_or m.vector_clock k 0 ≤ n
depends_on clock m k n r e = elim (Bool-cases (str_eq m.uuid k)) [
  | inl same ↦ ground (arith, str_eq_iff m.uuid k, get-tick clock m r k, r.is_next)
  | inr other ↦
      let s =
        r.others k n (λ p. absurd (ground (arith, str_eq_refl k)))
          (ground (arith, get-tick clock m r k)) in
      ground (arith, s.stamped, s.seen)
]

-- How many of the messages come from `k`.
abbrev pub count_from : Bytes → List Message → ℕ
count_from k [] = 0
count_from k (m ∷ ms) = let rest = count_from k ms in if str_eq m.uuid k then suc rest else rest

-- The clock counts deliveries: the entry of each node grows by the number of its messages.
pub Delivers-count :
    (last clock : Map ℕ) (ms : List Message) (k : Bytes)
    → Delivers last clock ms
    → get_or last k 0 ≡ get_or clock k 0 + count_from k ms
Delivers-count last clock [] k (done e) = rw e (omega arith)
Delivers-count last clock (m ∷ ms) k (next r d) = ground (
  arith,
  Delivers-count last (tick clock m.uuid) ms k d,
  get-tick clock m r k,
  str_eq_iff m.uuid k,
  r.known,
)
