-- ===== src/Multicast/Group/Places.antt =====
-- Where a message is at one node of a session of server/multicast/multicast.go.
use distributed_chat_applica.Prelude.{
  ◌≡◌, ◌≢◌, sym, ◌⊎◌, inl, inr, subst, List, [], ◌∷◌, ◌++◌, Occurs, at_head, at_tail, Bool-cases,
  arith,
}
use distributed_chat_applica.Go.Text.{Bytes, str_eq, str_eq_iff}
use distributed_chat_applica.Multicast.Datagram.{Message}
use distributed_chat_applica.Multicast.Clock.Causal.{Stale}
use distributed_chat_applica.Multicast.HoldBack.Picked.{Removed, here, there}
use distributed_chat_applica.Multicast.HoldBack.Complete.{In}
use distributed_chat_applica.Multicast.Node.{deliver_messages}
use distributed_chat_applica.Multicast.Node.Deliver.{deliver_messages_keeps}
use distributed_chat_applica.Multicast.Group.{Site, put_site, logged, site_delivered}

pub Occurs-In : {x : Message} {xs : List Message} → Occurs x xs → In x xs
Occurs-In (at_head {xs}) = (xs, here)
Occurs-In (at_tail z o) = let (rest, r) = Occurs-In o in (z ∷ rest, there z r)

pub Removed-Occurs : {x : Message} {rest xs : List Message} → Removed x rest xs → Occurs x xs
Removed-Occurs here = at_head
Removed-Occurs (there z r) = at_tail z (Removed-Occurs r)

pub logged-old : (x : Message) (ms log : List Message) → Occurs x log → Occurs x (logged log ms)
logged-old x [] log o = o
logged-old x (m ∷ ms) log o = logged-old x ms (m ∷ log) (at_tail m o)

pub logged-new : (x : Message) (ms log : List Message) → Occurs x ms → Occurs x (logged log ms)
logged-new x [] log o = elim o [ ]
logged-new _ (m ∷ ms) log at_head = logged-old m ms (m ∷ log) at_head
logged-new x (m ∷ ms) log (at_tail _ o) = logged-new x ms (m ∷ log) o

pub append-last : (x : Message) (xs : List Message) → Occurs x (xs ++ (x ∷ []))
append-last x [] = at_head
append-last x (z ∷ xs) = at_tail z (append-last x xs)

pub append-old : (x y : Message) (xs : List Message) → Occurs x xs → Occurs x (xs ++ (y ∷ []))
append-old x y [] o = elim o [ ]
append-old _ y (x ∷ xs) at_head = at_head
append-old x y (z ∷ xs) (at_tail _ o) = at_tail z (append-old x y xs o)

-- A message is in the log or in the queue of a node, or its clock counts it.
abbrev pub Settled : Site → Message → Type 0
Settled s y = Occurs y s.log ⊎ (Occurs y s.node.hold_back_queue ⊎ Stale s.node.vector_clock y)

pub put_site-Settled :
    (sites : Bytes → Site) (j i : Bytes) (s : Site) (y : Message)
    → (j ≡ i → Settled s y)
    → (j ≢ i → Settled (sites i) y)
    → Settled (put_site sites j s i) y
unfolding put_site
put_site-Settled sites j i s y at_j elsewhere = elim (Bool-cases (str_eq j i)) [
  | inl same ↦ rw same (at_j ((str_eq_iff j i).0 same))
  | inr other ↦ rw other (elsewhere (λ p. absurd (ground (arith, str_eq_iff j i))))
]

pub delivered-Settled :
    (s : Site) (y : Message) (rest : List Message)
    → Occurs y s.node.hold_back_queue
    → Settled (site_delivered s rest) y
delivered-Settled s y rest o =
    let (n, ms) = deliver_messages s.node in
    elim (deliver_messages_keeps s.node y (Occurs-In o)) [
      | inl (_, r) ↦ inl (logged-new y ms s.log (Removed-Occurs r))
      | inr (inl (_, r)) ↦ inr (inl (Removed-Occurs r))
      | inr (inr stale) ↦ inr (inr stale)
    ]

-- A step of one node, by what it does to a message there.
pub arrived_there :
    (sites : Bytes → Site) (j i : Bytes) (s : Site) (y : Message)
    → (Occurs y (sites j).log → Occurs y s.log)
    → (Occurs y (sites j).node.hold_back_queue → Settled s y)
    → Occurs y (sites i).log ⊎ Occurs y (sites i).node.hold_back_queue
    → Settled (put_site sites j s i) y
arrived_there sites j i s y more queue (inl l) =
    put_site-Settled sites j i s y (λ e. inl (more (subst (λ k. Occurs y (sites k).log) (sym e) l)))
      (λ ne. inl l)
arrived_there sites j i s y more queue (inr q) =
    put_site-Settled sites j i s y
      (λ e. queue (subst (λ k. Occurs y (sites k).node.hold_back_queue) (sym e) q))
      (λ ne. inr (inl q))

pub stays :
    (sites : Bytes → Site) (j i : Bytes) (s : Site) (y : Message)
    → (Occurs y (sites j).log → Occurs y s.log)
    → s.node.hold_back_queue ≡ (sites j).node.hold_back_queue
    → Occurs y (sites i).log ⊎ Occurs y (sites i).node.hold_back_queue
    → Settled (put_site sites j s i) y
stays sites j i s y more queue =
    arrived_there sites j i s y more (λ q. inr (inl (subst (Occurs y) (sym queue) q)))
