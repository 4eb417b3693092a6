-- ===== src/Multicast/Group/Settled.antt =====
-- The hold-back queues of a session of server/multicast/multicast.go: what every message rests on, and
-- that no message waits that could be sent on.
use distributed_chat_applica.Prelude.{
  ℕ, suc, ◌^◌, ◌<◌, ◌≤◌, ◌≡◌, ◌≢◌, sym, ◌∙◌, ◌⊎◌, inl, inr, subst, List, [], ◌∷◌, All, Occurs, some,
  Bool-cases, ◌==◌, arith,
}
use distributed_chat_applica.Go.Text.{Bytes, str_eq, str_eq_iff, str_eq_ne}
use distributed_chat_applica.Go.Map.{Map, get, get_or, put, get-put, Distinct}
use distributed_chat_applica.Multicast.Datagram.{Message}
use distributed_chat_applica.Multicast.Clock.{can_deliver, others_seen, tick, next_stamp}
use distributed_chat_applica.Multicast.Group.{Site, World}
use distributed_chat_applica.Multicast.Group.Sound.{
  nth, Found, After, newest, older, before-Occurs, Occurs-After,
}
use distributed_chat_applica.Multicast.Group.Consistent.{IsConsistent}
use distributed_chat_applica.Multicast.Group.Sites.{Foreign}
use distributed_chat_applica.Multicast.HoldBack.Picked.{AllHeld}
use distributed_chat_applica.Multicast.HoldBack.Order.{Delivers, done, next}
use distributed_chat_applica.Multicast.Clock.Causal.{get-tick}

module _ (ids : List Bytes) where
  -- A message has a stamp for each member, and all that it counts was sent before.
  pub record Founded (y : Message) (before : List Message) : Type 0 where
    pub stamps : (k : Bytes) → Occurs k ids → (n : ℕ) × (get y.vector_clock k ≡ some n)
    pub rests :
        (k : Bytes) (n : ℕ)
        → Occurs k ids
        → 0 < n
        → n ≤ get_or y.vector_clock k 0
        → (k ≢ y.uuid) ⊎ (n < nth y)
        → Found k n before
    pub small : nth y < 2 ^ 32

  abbrev pub AllFounded : List Message → Type 0
  AllFounded [] = Unit {0}
  AllFounded (y ∷ t) = Founded y t × AllFounded t

  pub AllFounded-After :
      {y : Message} {t sent : List Message} → AllFounded sent → After y t sent → Founded y t
  AllFounded-After f newest = f.0
  AllFounded-After f (older z a) = AllFounded-After f.1 a

  -- A node counts members only, each once, and no message waits that could be sent on, unless a
  -- goroutine has yet to call DeliverMessages.
  pub record SiteIsSettled (s : Site) : Type 0 where
    pub members : (k : Bytes) (n : ℕ) → get s.node.vector_clock k ≡ some n → Occurs k ids
    pub distinct : Distinct s.node.vector_clock
    pub held : s.begun ≡ [] → AllHeld s.node.vector_clock s.node.hold_back_queue

  pub record IsSettled (w : World) : Type 0 where
    pub sites : (i : Bytes) → Occurs i ids → SiteIsSettled (w.site i)
    pub founded : AllFounded w.sent

  pub Delivers-members :
      (last clock : Map ℕ) (ms : List Message)
      → Delivers last clock ms
      → ((k : Bytes) (n : ℕ) → get clock k ≡ some n → Occurs k ids)
      → (k : Bytes) (n : ℕ) → get last k ≡ some n
      → Occurs k ids
  Delivers-members last clock [] (done e) h =
      λ k n g. h k n (subst (λ c. get c k ≡ some n) (sym e) g)
  Delivers-members last clock (m ∷ ms) (next r d) h =
      Delivers-members last (tick clock m.uuid) ms d λ k n g. elim (Bool-cases (str_eq m.uuid k)) [
        | inl same ↦
            subst (λ j. Occurs j ids) ((str_eq_iff m.uuid k).0 same) (h m.uuid r.count r.known)
        | inr other ↦ h k n (ground (arith, get-tick clock m r k))
      ]

-- A higher count of a node does not matter to a message that asks for no more than the count before.
others_seen-put :
    (clock stamps : Map ℕ) (i j : Bytes) (c s : ℕ)
    → get clock i ≡ some c
    → get stamps i ≡ some s
    → s ≤ c
    → others_seen (put clock i (suc c)) j stamps ≡ others_seen clock j stamps
unfolding others_seen get put
others_seen-put [] stamps i j c s known asks le = absurd (ground arith)
others_seen-put ((k, ik) ∷ clock) stamps i j c s known asks le =
    ground (arith, others_seen-put clock stamps i j c s, str_eq_iff k i)

can_deliver-put :
    (clock : Map ℕ) (m : Message) (i : Bytes) (c s : ℕ)
    → m.uuid ≢ i
    → get clock i ≡ some c
    → get m.vector_clock i ≡ some s
    → s ≤ c
    → can_deliver (put clock i (suc c)) m ≡ can_deliver clock m
unfolding can_deliver
can_deliver-put clock m i c s other known asks le =
    let same : get (put clock i (suc c)) m.uuid ≡ get clock m.uuid =
      get-put clock i m.uuid (suc c) ∙ rw (str_eq_ne i m.uuid (λ p. other (sym p))) in
    ground (arith, same, others_seen-put clock m.vector_clock i m.uuid c s known asks le)

module _ (ids : List Bytes) where
  -- No message asks for more messages of a member than it has sent.
  pub asks_for_sent :
      (w : World) (i : Bytes) (m : Message) (c : ℕ)
      → IsConsistent ids w
      → AllFounded ids w.sent
      → Occurs i ids
      → Occurs m w.sent
      → m.uuid ≢ i
      → get (w.site i).node.vector_clock i ≡ some c
      → (s : ℕ) × (get m.vector_clock i ≡ some s) × (s ≤ c)
  asks_for_sent w i m c h f o sent other known =
      let (t, a) = Occurs-After sent in
      let founded = AllFounded-After ids f a in
      let (s, stamped) = founded.stamps i o in
      (
        s,
        stamped,
        elim (Bool-cases (s == 0)) [
          | inl none_asked ↦ ground arith
          | inr some_asked ↦
              let found =
                founded.rests i s o (ground arith) (ground (arith, stamped))
                  (inl (λ p. other (sym p))) in
              let from = h.senders found.msg (before-Occurs a found.there) in
              let e : get (w.site i).node.vector_clock i ≡ some from.count =
                subst (λ j. get (w.site j).node.vector_clock j ≡ some from.count) found.from
                  from.known in
              ground (arith, found.is_nth, from.le)
        ],
      )

  -- A node that sends leaves its queue waiting.
  pub tick-AllHeld :
      (w : World) (i : Bytes) (c : ℕ) (queue : List Message)
      → IsConsistent ids w
      → AllFounded ids w.sent
      → Occurs i ids
      → get (w.site i).node.vector_clock i ≡ some c
      → suc c < 2 ^ 32
      → All (Foreign ids w.sent i) queue
      → AllHeld (w.site i).node.vector_clock queue
      → AllHeld (tick (w.site i).node.vector_clock i) queue
  unfolding tick
  tick-AllHeld w i c [] h f o known fits foreign held = tt
  tick-AllHeld w i c (m ∷ queue) h f o known fits foreign held =
      let clock = (w.site i).node.vector_clock in
      let (s, stamped, le) = asks_for_sent w i m c h f o foreign.0.0 foreign.0.1 known in
      let next : next_stamp (get_or clock i 0) ≡ suc c = ground (arith, known, fits) in
      (
        rw next (can_deliver-put clock m i c s foreign.0.1 known stamped le ∙ held.0),
        tick-AllHeld w i c queue h f o known fits foreign.1 held.1,
      )
