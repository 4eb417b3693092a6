-- ===== src/Multicast/Clock/Causal.antt =====
-- When a message can be delivered: CanDeliver of server/multicast/multicast.go against the rule of
-- causal broadcast.
use distributed_chat_applica.Prelude.{
  ℕ, suc, ◌^◌, ◌≤◌, ◌<◌, ◌≡◌, refl, ◌≢◌, ◌↔◌, inl, inr, [], ◌∷◌, true, false, some, Option-cases,
  Bool-cases, if◌then◌else◌, arith,
}
use distributed_chat_applica.Go.Text.{Bytes, str_eq, str_eq_iff, str_eq_refl}
use distributed_chat_applica.Go.Map.{Map, get, get_or, get-put, Distinct}
use distributed_chat_applica.Multicast.Datagram.{Message}
use distributed_chat_applica.Multicast.Clock.{next_stamp, others_seen, can_deliver, tick}

-- The stamp that `stamps` has for `k` is there and at most `n`.
pub record Seen (stamps : Map ℕ) (k : Bytes) (n : ℕ) : Type 0 where
  pub stamp : ℕ
  pub stamped : get stamps k ≡ some stamp
  pub seen : stamp ≤ n

-- The rule of causal broadcast: `m` is the next message of its sender, and this node has seen all
-- messages of others that the sender had seen.
pub record Ready (clock : Map ℕ) (m : Message) : Type 0 where
  pub count : ℕ
  pub known : get clock m.uuid ≡ some count
  pub is_next : get m.vector_clock m.uuid ≡ some (suc count)
  pub fits : suc count < 2 ^ 32
  pub others : (k : Bytes) (n : ℕ) → k ≢ m.uuid → get clock k ≡ some n → Seen m.vector_clock k n

others_seen-Seen :
    (clock stamps : Map ℕ) (j : Bytes)
    → others_seen clock j stamps ≡ true
    → (k : Bytes) (n : ℕ) → k ≢ j
    → get clock k ≡ some n
    → Seen stamps k n
unfolding others_seen get
others_seen-Seen [] stamps j h k n ne e = cc
others_seen-Seen ((i, ii) ∷ clock) stamps j h k n ne e = elim (Bool-cases (str_eq i k)) [
  | inr other ↦
      others_seen-Seen clock stamps j (ground (arith, str_eq_iff i j)) k n ne (ground arith)
  | inl same ↦ elim (Option-cases (get stamps k)) [
    | inl absent ↦ absurd (ground (arith, str_eq_iff i j, str_eq_iff i k))
    | inr (s, there) ↦ record {
      stamp = s;
      stamped = there;
      seen = ground (arith, str_eq_iff i j, str_eq_iff i k);
    }
  ]
]

Seen-others_seen :
    (clock stamps : Map ℕ) (j : Bytes)
    → Distinct clock
    → ((k : Bytes) (n : ℕ) → k ≢ j → get clock k ≡ some n → Seen stamps k n)
    → others_seen clock j stamps ≡ true
unfolding others_seen get
Seen-others_seen [] stamps j d h = refl
Seen-others_seen ((i, ii) ∷ clock) stamps j d h =
    let rest =
      Seen-others_seen clock stamps j d.1
        λ k n ne e. h k n ne (ground (arith, d.0, str_eq_iff i k)) in
    elim (Bool-cases (str_eq i j)) [
      | inl same ↦ rw same rest
      | inr other ↦
          let s = h i ii (λ e. absurd (ground (arith, str_eq_iff i j))) (rw (str_eq_refl i)) in
          ground (arith, s.stamped, s.seen)
    ]

pub can_deliver-Ready :
    (clock : Map ℕ) (m : Message) → can_deliver clock m ≡ (true, false) → Ready clock m
unfolding can_deliver
can_deliver-Ready clock m h = elim (Option-cases (get clock m.uuid)) [
  | inl absent ↦ absurd (ground arith)
  | inr (ij, known) ↦ elim (Option-cases (get m.vector_clock m.uuid)) [
    | inl absent ↦ absurd (ground arith)
    | inr (jj, stamped) ↦ record {
      count = ij;
      known = known;
      is_next = ground arith;
      fits = ground arith;
      others = others_seen-Seen clock m.vector_clock m.uuid (ground arith);
    }
  ]
]

Ready-can_deliver :
    (clock : Map ℕ) (m : Message)
    → Distinct clock
    → Ready clock m
    → can_deliver clock m ≡ (true, false)
unfolding can_deliver
Ready-can_deliver clock m d r =
    ground
      (arith, r.known, r.is_next, r.fits, Seen-others_seen clock m.vector_clock m.uuid d r.others)

-- CanDeliver lets a message through exactly when the rule of causal broadcast does.
pub can_deliver_iff :
    (clock : Map ℕ) (m : Message)
    → Distinct clock
    → (can_deliver clock m ≡ (true, false)) ↔ Ready clock m
can_deliver_iff clock m d = (can_deliver-Ready clock m, Ready-can_deliver clock m d)

-- A message whose stamp for its sender is not above this node's count for that sender.
pub record Stale (clock : Map ℕ) (m : Message) : Type 0 where
  pub count : ℕ
  pub stamp : ℕ
  pub known : get clock m.uuid ≡ some count
  pub stamped : get m.vector_clock m.uuid ≡ some stamp
  pub old : stamp ≤ count

-- CanDeliver calls a message a duplicate exactly when its own stamp was counted before.
pub duplicate_iff : (clock : Map ℕ) (m : Message) → ((can_deliver clock m).1 ≡ true) ↔ Stale clock m
unfolding can_deliver
duplicate_iff clock m = (
  λ h. elim (Option-cases (get clock m.uuid)) [
    | inl absent ↦ absurd (ground arith)
    | inr (ij, known) ↦ elim (Option-cases (get m.vector_clock m.uuid)) [
      | inl absent ↦ absurd (ground arith)
      | inr (jj, stamped) ↦ record {
        count = ij;
        stamp = jj;
        known = known;
        stamped = stamped;
        old = ground arith;
      }
    ]
  ],
  λ s. ground (arith, s.known, s.stamped, s.old),
)

-- Counting a delivery moves the sender's count up by one and leaves the others.
pub get-tick :
    (clock : Map ℕ) (m : Message) (r : Ready clock m) (k : Bytes)
    → get (tick clock m.uuid) k ≡ (if str_eq m.uuid k then some (suc r.count) else get clock k)
unfolding tick
get-tick clock m r k =
    ground (arith, r.known, r.fits, get-put clock m.uuid k (next_stamp (get_or clock m.uuid 0)))

-- One count is in both clocks, and did not go down.
pub record Grown (old new : Map ℕ) (k : Bytes) (n : ℕ) : Type 0 where
  pub count : ℕ
  pub now : get new k ≡ some count
  pub more : n ≤ count

pub Grown-tick :
    (clock : Map ℕ) (m : Message) (k : Bytes) (n : ℕ)
    → Ready clock m
    → get clock k ≡ some n
    → Grown clock (tick clock m.uuid) k n
Grown-tick clock m k n r e = elim (Bool-cases (str_eq m.uuid k)) [
  | inl same ↦ record {
    count = suc r.count;
    now = ground (arith, get-tick clock m r k);
    more = ground (arith, str_eq_iff m.uuid k, r.known);
  }
  | inr other ↦ record { count = n; now = ground (arith, get-tick clock m r k); more = omega arith }
]
