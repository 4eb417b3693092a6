-- ===== src/Multicast/Group/Complete.antt =====
-- What a node of a session of server/multicast/multicast.go has delivered when all has arrived.
use distributed_chat_applica.Prelude.{
  ℕ, suc, ◌<◌, ◌≤◌, ◌≡◌, ◌≢◌, refl, sym, ◌⊎◌, inl, inr, subst, List, [], ◌∷◌, All, All-Occurs,
  Occurs-nil, Option-cases, Occurs, at_head, at_tail, false, some, Bool-cases, leb, ltb, ◌==◌,
  arith,
}
use distributed_chat_applica.Go.Text.{Bytes, str_eq, str_eq_iff}
use distributed_chat_applica.Go.Map.{Map, get}
use distributed_chat_applica.Multicast.Datagram.{Message}
use distributed_chat_applica.Multicast.Clock.{can_deliver}
use distributed_chat_applica.Multicast.Clock.Causal.{Ready, can_deliver_iff, duplicate_iff}
use distributed_chat_applica.Multicast.HoldBack.Picked.{AllHeld}
use distributed_chat_applica.Multicast.Group.{World}
use distributed_chat_applica.Multicast.Group.Sound.{nth, Found}
use distributed_chat_applica.Multicast.Group.Sites.{Foreign}
use distributed_chat_applica.Multicast.Group.Consistent.{IsConsistent}
use distributed_chat_applica.Multicast.Group.Settled.{Founded, AllFounded, IsSettled}
use distributed_chat_applica.Multicast.Group.Order.{by_place}

stamped_nth : (m : Message) → 0 < nth m → get m.vector_clock m.uuid ≡ some (nth m)
stamped_nth m pos = elim (Option-cases (get m.vector_clock m.uuid)) [
  | inl absent ↦ absurd (ground arith)
  | inr (n, there) ↦ ground arith
]

module _ (ids : List Bytes) (address : Bytes → Bytes) where
  -- All messages of others that were sent have arrived at the node: they are delivered or held back.
  abbrev pub AllArrived : World → Bytes → Type 0
  AllArrived w i =
      (y : Message)
      → Occurs y w.sent
      → y.uuid ≢ i
      → Occurs y (w.site i).log ⊎ Occurs y (w.site i).node.hold_back_queue

  module _ (w : World) (i : Bytes) (o : Occurs i ids) (h : IsConsistent ids w)
      (settled : IsSettled ids w) where
    abbrev clock : Map ℕ
    clock = (w.site i).node.vector_clock

    -- A message that the clock counts is in the log.
    pub counted_logged :
        (y : Message) (c : ℕ)
        → Occurs y w.sent
        → get clock y.uuid ≡ some c
        → nth y ≤ c
        → Occurs y (w.site i).log
    counted_logged y c s known le =
        let from = h.senders y s in
        by_place ids address w h i y (w.site i).log o s (λ z p. p)
          ((h.sites i o).sound.covers y.uuid (nth y) c from.member known from.pos le)

    -- One that is in the log is counted.
    Found-counted :
        (k : Bytes) (n c : ℕ) (t : List Message)
        → ((z : Message) → Occurs z t → Occurs z (w.site i).log)
        → Found k n t
        → get clock k ≡ some c
        → n ≤ c
    Found-counted k n c t inside f known =
        let counted = (h.sites i o).sound.counts f.msg (inside f.msg f.there) in
        let same : get clock k ≡ some counted.count =
          subst (λ j. get clock j ≡ some counted.count) f.from counted.known in
        ground (arith, same, counted.le, f.is_nth)

    module _ (y : Message) (t : List Message) (founded : Founded ids y t) (s : Occurs y w.sent)
        (inside : (z : Message) → Occurs z t → Occurs z (w.site i).log) where
      -- The next message of its sender is ready.
      next_Ready : (c : ℕ) → get clock y.uuid ≡ some c → c < nth y → Ready clock y
      next_Ready c known above =
          let member = (h.senders y s).member in
          let (n, stamped) = founded.stamps y.uuid member in
          let is_next : n ≡ suc c = elim (Bool-cases (ltb (suc c) n)) [
            | inr last ↦ ground (arith, stamped)
            | inl gap ↦
                let f =
                  founded.rests y.uuid (suc c) member (omega arith) (ground (arith, stamped))
                    (inr (ground (arith, stamped))) in
                absurd (omega (arith, Found-counted y.uuid (suc c) c t inside f known))
          ] in
          record {
            count = c;
            known = known;
            is_next = rw (sym is_next) stamped;
            fits = ground (arith, founded.small, stamped);
            others = λ k m ne e.
                let o' = (settled.sites i o).members k m e in
                let (r, asks) = founded.stamps k o' in
                record {
                  stamp = r;
                  stamped = asks;
                  seen = elim (Bool-cases (r == 0)) [
                    | inl none_asked ↦ ground arith
                    | inr some_asked ↦
                        Found-counted k r m t inside
                          (founded.rests k r o' (ground arith) (ground (arith, asks)) (inl ne)) e
                  ];
                };
          }

      delivered_next : (w.site i).begun ≡ [] → AllArrived w i → Occurs y (w.site i).log
      delivered_next idle arrived =
          let (c, known) = (h.sites i o).sound.knows y.uuid (h.senders y s).member in
          elim (Bool-cases (leb (nth y) c)) [
            | inl counted ↦ counted_logged y c s known (ground arith)
            | inr above ↦
                let ready =
                  (can_deliver_iff clock y (settled.sites i o).distinct).1
                    (next_Ready c known (ground arith)) in
                elim (Bool-cases (str_eq y.uuid i)) [
                  | inl own ↦
                      let from = h.senders y s in
                      counted_logged y from.count s
                        (subst (λ j. get (w.site j).node.vector_clock y.uuid ≡ some from.count)
                          ((str_eq_iff y.uuid i).0 own) from.known)
                        from.le
                  | inr other ↦
                      elim (arrived y s (λ p. absurd (ground (arith, str_eq_iff y.uuid i)))) [
                        | inl logged ↦ logged
                        | inr waits ↦
                            let held =
                              All-Occurs (λ m. can_deliver clock m ≡ (false, false))
                                ((settled.sites i o).held idle) waits in
                            absurd (cc)
                      ]
                ]
          ]

    pub delivered_all :
        (t : List Message)
        → AllFounded ids t
        → ((z : Message) → Occurs z t → Occurs z w.sent)
        → (w.site i).begun ≡ []
        → AllArrived w i
        → (y : Message) → Occurs y t
        → Occurs y (w.site i).log
    delivered_all [] f inside idle arrived y o = Occurs-nil refl o
    delivered_all (y ∷ t) f inside idle arrived _ at_head =
        delivered_next y t f.0 (inside y at_head)
          (delivered_all t f.1 (λ z p. inside z (at_tail y p)) idle arrived) idle arrived
    delivered_all (z ∷ t) f inside idle arrived y (at_tail _ p) =
        delivered_all t f.1 (λ x q. inside x (at_tail z q)) idle arrived y p

    pub nothing_held :
        (queue : List Message)
        → All (Foreign ids w.sent i) queue
        → AllHeld clock queue
        → (w.site i).begun ≡ []
        → AllArrived w i
        → queue ≡ []
    nothing_held [] f held idle arrived = refl
    nothing_held (m ∷ queue) f held idle arrived =
        let l = delivered_all w.sent settled.founded (λ z p. p) idle arrived m f.0.0 in
        let counted = (h.sites i o).sound.counts m l in
        let duplicate = (duplicate_iff clock m).1 (record {
          count = counted.count;
          stamp = nth m;
          known = counted.known;
          stamped = stamped_nth m counted.pos;
          old = counted.le;
        }) in
        absurd (ground (arith, held.0))
