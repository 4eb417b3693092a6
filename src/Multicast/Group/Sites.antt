-- ===== src/Multicast/Group/Sites.antt =====
-- What the operations of a node of server/multicast/multicast.go keep, in a session whose messages
-- are known.
use distributed_chat_applica.Prelude.{
  ℕ, zero, suc, ◌≡◌, ◌≢◌, inl, inr, subst, List, [], ◌∷◌, All, All-append, Occurs, some, length,
}
use distributed_chat_applica.Go.Text.{Bytes}
use distributed_chat_applica.Go.Map.{Map, get}
use distributed_chat_applica.Multicast.Datagram.{Message}
use distributed_chat_applica.Multicast.Clock.{tick}
use distributed_chat_applica.Multicast.Clock.Causal.{Grown}
use distributed_chat_applica.Multicast.HoldBack.{deliver_loop}
use distributed_chat_applica.Multicast.HoldBack.Picked.{Removed, here, there, pick-cases}
use distributed_chat_applica.Multicast.HoldBack.Order.{Delivers, done, next}
use distributed_chat_applica.Multicast.Node.{Multicaster, deliver_messages}
use distributed_chat_applica.Multicast.Node.Deliver.{deliver_messages-Delivers}
use distributed_chat_applica.Multicast.Reach.{Delivers-Grown}
use distributed_chat_applica.Multicast.Group.{Site, logged, site_queued, site_delivered}
use distributed_chat_applica.Multicast.Group.Sound.{IsSound, delivery-IsSound}

-- What holds of all messages of the queue holds of those that are sent on and of those left.
pub All-Removed :
    (P : Message → Type 0) {x : Message} {rest queue : List Message}
    → Removed x rest queue
    → All P queue
    → P x × All P rest
All-Removed P here p = p
All-Removed P (there y r) p = let (x, rest) = All-Removed P r p.1 in (x, (p.0, rest))

deliver_loop-All :
    (P : Message → Type 0) (fuel : ℕ) (clock : Map ℕ) (queue : List Message)
    → All P queue
    → let (_, rest, sent) = deliver_loop fuel clock queue in All P rest × All P sent
unfolding deliver_loop
deliver_loop-All P zero clock queue p = (p, tt)
deliver_loop-All P (suc fuel) clock queue p = elim (pick-cases clock queue) [
  | inl h ↦ rw (h.by_pick, deliver_loop) (p, tt)
  | inr (inl d) ↦
      rw (d.by_pick, deliver_loop) (deliver_loop-All P fuel clock d.rest (All-Removed P d.cut p).1)
  | inr (inr t) ↦
      let (x, left) = All-Removed P t.cut p in
      let (rest, sent) = deliver_loop-All P fuel (tick clock t.msg.uuid) t.rest left in
      rw (t.by_pick, deliver_loop) (rest, (x, sent))
]

-- The count of the node's own messages does not fall.
abbrev pub Advances : Bytes → Map ℕ → Map ℕ → Type 0
Advances i old new = (c : ℕ) → get old i ≡ some c → Grown old new i c

module _ (ids : List Bytes) (sent : List Message) (i : Bytes) where
  abbrev pub Foreign : Message → Type 0
  Foreign m = Occurs m sent × (m.uuid ≢ i)

  abbrev pub IsSent : Message → Type 0
  IsSent m = Occurs m sent

  -- A node whose messages are all among those that were sent.
  pub record SiteIsSound (s : Site) : Type 0 where
    pub same_id : s.node.id ≡ i
    pub sound : IsSound ids i s.node.vector_clock s.log
    pub waiting : All Foreign s.waiting
    pub queue : All Foreign s.node.hold_back_queue
    pub log : All IsSent s.log

  Delivers-IsSound :
      (last clock : Map ℕ) (ms log : List Message)
      → Delivers last clock ms
      → All Foreign ms
      → All IsSent log
      → IsSound ids i clock log
      → IsSound ids i last (logged log ms) × All IsSent (logged log ms)
  Delivers-IsSound last clock [] log (done e) f l s = (subst (λ c. IsSound ids i c log) e s, l)
  Delivers-IsSound last clock (m ∷ ms) log (next r d) f l s =
      Delivers-IsSound last (tick clock m.uuid) ms (m ∷ log) d f.1 (f.0.0, l)
        (delivery-IsSound ids i clock log m s r f.0.1)

  -- DeliverMessages on a node.
  pub delivered-IsSound :
      (s : Site) (rest : List Message) → SiteIsSound s → SiteIsSound (site_delivered s rest)
  delivered-IsSound s rest h =
      let (m', ms) = deliver_messages s.node in
      let queue = s.node.hold_back_queue in
      let parts : All Foreign m'.hold_back_queue × All Foreign ms =
        unfold deliver_messages in
        deliver_loop-All Foreign (length queue) s.node.vector_clock queue h.queue in
      let (sound, log') =
        Delivers-IsSound m'.vector_clock s.node.vector_clock ms s.log
          (deliver_messages-Delivers s.node) parts.1 h.log h.sound in
      record {
        same_id = unfold deliver_messages in h.same_id;
        sound = sound;
        waiting = h.waiting;
        queue = parts.0;
        log = log';
      }

  -- A message goes from the listener into the queue.
  pub queued-IsSound :
      (s : Site) (msg : Message) (rest : List Message)
      → Removed msg rest s.waiting
      → SiteIsSound s
      → SiteIsSound (site_queued s msg rest)
  queued-IsSound s msg rest cut h =
      let (x, left) = All-Removed Foreign cut h.waiting in
      record {
        same_id = h.same_id;
        sound = h.sound;
        waiting = left;
        queue = All-append Foreign s.node.hold_back_queue (msg ∷ []) h.queue (x, tt);
        log = h.log;
      }

pub delivered-Advances :
    (i : Bytes) (m : Multicaster) → Advances i m.vector_clock (deliver_messages m).0.vector_clock
delivered-Advances i m c e =
    let (k, ms) = deliver_messages m in
    Delivers-Grown k.vector_clock m.vector_clock ms i c (deliver_messages-Delivers m) e
