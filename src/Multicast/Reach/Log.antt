-- ===== src/Multicast/Reach/Log.antt =====
-- The deliveries of a node of server/multicast/multicast.go between which its clock may change in
-- other ways.
use distributed_chat_applica.Prelude.{
  ℕ, ◌<◌, ◌≡◌, sym, ◌≢◌, subst, List, [], ◌∷◌, ◌++◌, some, arith,
}
use distributed_chat_applica.Go.Text.{Bytes}
use distributed_chat_applica.Go.Map.{Map, get, get_or}
use distributed_chat_applica.Multicast.Datagram.{Message}
use distributed_chat_applica.Multicast.Clock.{tick}
use distributed_chat_applica.Multicast.Clock.Causal.{Ready, Grown, Grown-tick}
use distributed_chat_applica.Multicast.HoldBack.Order.{Delivers, done, next, depends_on}

-- No count of a node other than `self` falls.
pub record Grows (self : Bytes) (old new : Map ℕ) : Type 0 where
  pub grown : (k : Bytes) (n : ℕ) → k ≢ self → get old k ≡ some n → Grown old new k n

-- Deliveries by the rule of causal broadcast, from a clock to `last`, with other changes of the
-- clock before, between and after them.
pub data Log (self : Bytes) (last : Map ℕ) : Map ℕ → List Message → Type 0 where
  end : {clock : Map ℕ} → clock ≡ last → Log self last clock []
  sent :
      {clock : Map ℕ} {m : Message} {ms : List Message}
      → Ready clock m
      → Log self last (tick clock m.uuid) ms
      → Log self last clock (m ∷ ms)
  moved :
      {clock : Map ℕ} {ms : List Message} (clock' : Map ℕ)
      → Grows self clock clock'
      → Log self last clock' ms
      → Log self last clock ms

pub Delivers-Log :
    (self : Bytes) (last middle clock : Map ℕ) (ms rest : List Message)
    → Delivers middle clock ms
    → Log self last middle rest
    → Log self last clock (ms ++ rest)
Delivers-Log self last middle clock [] rest (done e) log =
    subst (λ c. Log self last c rest) (sym e) log
Delivers-Log self last middle clock (m ∷ ms) rest (next r d) log =
    sent r (Delivers-Log self last middle (tick clock m.uuid) ms rest d log)

pub data Among (y : Message) : List Message → Type 0 where
  now : {ms : List Message} → Among y (y ∷ ms)
  later : {ms : List Message} (m : Message) → Among y ms → Among y (m ∷ ms)

-- `x` stands before `y` in the list.
pub data Before (x y : Message) : List Message → Type 0 where
  first : {ms : List Message} → Among y ms → Before x y (x ∷ ms)
  further : {ms : List Message} (m : Message) → Before x y ms → Before x y (m ∷ ms)

module _ (self : Bytes) (last : Map ℕ) (y : Message) (other : y.uuid ≢ self) where
  -- The stamp of a message that is delivered later is above the count now.
  stamp_later :
      (clock : Map ℕ) (ms : List Message) (n : ℕ)
      → Log self last clock ms
      → Among y ms
      → get clock y.uuid ≡ some n
      → n < get_or y.vector_clock y.uuid 0
  stamp_later _ _ n (end _) a e = elim a [ ]
  stamp_later clock _ n (sent r d) now e = ground (arith, r.known, r.is_next)
  stamp_later clock _ n (sent {ms = ms} r d) (later m a) e =
      let w = Grown-tick clock m y.uuid n r e in
      let above = stamp_later (tick clock m.uuid) ms w.count d a w.now in
      omega (arith, w.more, above)
  stamp_later clock ms n (moved clock' g d) a e =
      let w = g.grown y.uuid n other e in
      let above = stamp_later clock' ms w.count d a w.now in omega (arith, w.more, above)

  -- Causal order over a log, for the messages of a node that is known from the start.
  pub Log-causal :
      (clock : Map ℕ) (ms : List Message) (x : Message) (n : ℕ)
      → Log self last clock ms
      → Before x y ms
      → get clock y.uuid ≡ some n
      → get_or x.vector_clock y.uuid 0 < get_or y.vector_clock y.uuid 0
  Log-causal _ _ x n (end _) b e = elim b [ ]
  Log-causal clock _ x n (sent {ms = ms} r d) (first a) e =
      let w = Grown-tick clock x y.uuid n r e in
      let seen = depends_on clock x y.uuid w.count r w.now in
      let above = stamp_later (tick clock x.uuid) ms w.count d a w.now in omega (arith, seen, above)
  Log-causal clock _ x n (sent {ms = ms} r d) (further m b) e =
      let w = Grown-tick clock m y.uuid n r e in
      Log-causal (tick clock m.uuid) ms x w.count d b w.now
  Log-causal clock ms x n (moved clock' g d) b e =
      let w = g.grown y.uuid n other e in Log-causal clock' ms x w.count d b w.now
