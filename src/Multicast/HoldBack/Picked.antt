-- ===== src/Multicast/HoldBack/Picked.antt =====
-- One run of the inner loop of DeliverMessages in server/multicast/multicast.go.
use distributed_chat_applica.Prelude.{
  ℕ, suc, ◌≡◌, refl, ap, ◌⊎◌, inl, inr, List, [], ◌∷◌, true, false, All, Bool-cases, length, arith,
}
use distributed_chat_applica.Go.Map.{Map}
use distributed_chat_applica.Multicast.Datagram.{Message}
use distributed_chat_applica.Multicast.Clock.{can_deliver}
use distributed_chat_applica.Multicast.HoldBack.{nothing, dropped, taken, pick}

-- `rest` is the queue without one occurrence of `m`.
pub data Removed (m : Message) : List Message → List Message → Type 0 where
  here : {ms : List Message} → Removed m ms (m ∷ ms)
  there :
      {rest queue : List Message} (x : Message)
      → Removed m rest queue
      → Removed m (x ∷ rest) (x ∷ queue)

pub length-Removed :
    {m : Message} {rest queue : List Message}
    → Removed m rest queue
    → length queue ≡ suc (length rest)
length-Removed here = refl
length-Removed (there x r) = ap suc (length-Removed r)

-- No message of the queue can be delivered, and none is a duplicate.
abbrev pub AllHeld : Map ℕ → List Message → Type 0
AllHeld clock = All (λ m. can_deliver clock m ≡ (false, false))

pub record Held (clock : Map ℕ) (queue : List Message) : Type 0 where
  pub by_pick : pick clock queue ≡ nothing
  pub held : AllHeld clock queue

pub record Duplicate (clock : Map ℕ) (queue : List Message) : Type 0 where
  pub msg : Message
  pub rest : List Message
  pub by_pick : pick clock queue ≡ dropped rest
  pub duplicate : (can_deliver clock msg).1 ≡ true
  pub cut : Removed msg rest queue

pub record Delivered (clock : Map ℕ) (queue : List Message) : Type 0 where
  pub msg : Message
  pub rest : List Message
  pub by_pick : pick clock queue ≡ taken msg rest
  pub can : can_deliver clock msg ≡ (true, false)
  pub cut : Removed msg rest queue

pub pick-cases :
    (clock : Map ℕ) (queue : List Message)
    → Held clock queue ⊎ (Duplicate clock queue ⊎ Delivered clock queue)
unfolding pick
pick-cases clock [] = inl (record { by_pick = refl; held = tt })
pick-cases clock (m ∷ ms) = elim (Bool-cases (can_deliver clock m).1) [
  | inl d ↦ inr (inl (record { msg = m; rest = ms; by_pick = rw d; duplicate = d; cut = here }))
  | inr d ↦ elim (Bool-cases (can_deliver clock m).0) [
    | inl c ↦ inr (
        inr (record {
          msg = m;
          rest = ms;
          by_pick = rw (d, c);
          can = ground (arith, d, c);
          cut = here;
        }))
    | inr c ↦ elim (pick-cases clock ms) [
      | inl h ↦
          inl (record { by_pick = rw (d, c, h.by_pick); held = (ground (arith, d, c), h.held) })
      | inr (inl h) ↦ inr (
          inl (record {
            msg = h.msg;
            rest = m ∷ h.rest;
            by_pick = rw (d, c, h.by_pick);
            duplicate = h.duplicate;
            cut = there m h.cut;
          }))
      | inr (inr h) ↦ inr (
          inr (record {
            msg = h.msg;
            rest = m ∷ h.rest;
            by_pick = rw (d, c, h.by_pick);
            can = h.can;
            cut = there m h.cut;
          }))
    ]
  ]
]
