-- ===== src/StateMachine/Paths.antt =====
-- The ways through the states of server/state_machine.go.
use distributed_chat_applica.Prelude.{
  ◌≡◌, refl, ◌≢◌, ◌↔◌, ◌⊎◌, inl, inr, List, [], ◌∷◌, arith, sym, subst,
}
use distributed_chat_applica.StateMachine.{
  State, start, init, leader, follower, become_leader, become_follower, election, transitions,
  change_to, change_all,
}

-- A state is one of a list.
abbrev pub Visits : State → List State → Type 0
Visits s [] = ⊥
Visits s (t ∷ ts) = (s ≡ t) ⊎ Visits s ts

-- A leader stays leader whatever state is asked for, except for INIT: also when a victory message
-- asks for FOLLOWER.
pub leader_leaves : (target : State) → ((change_to leader target).0 ≢ leader) ↔ (target ≡ init)
unfolding change_to transitions
leader_leaves start = ground arith
leader_leaves init = ground arith
leader_leaves leader = ground arith
leader_leaves follower = ground arith
leader_leaves become_leader = ground arith
leader_leaves become_follower = ground arith
leader_leaves election = ground arith

-- The states in which a server does not lead and takes part in elections.
abbrev pub Electing : State → Type 0
Electing s = (s ≡ follower) ⊎ (s ≡ election)

follower_next : (target : State) → Electing (change_to follower target).0
unfolding change_to transitions
follower_next start = inl refl
follower_next init = inl refl
follower_next leader = inl refl
follower_next follower = inl refl
follower_next become_leader = inl refl
follower_next become_follower = inl refl
follower_next election = inr refl

election_next :
    (target : State)
    → Electing (change_to election target).0 ⊎ ((change_to election target).0 ≡ become_leader)
unfolding change_to transitions
election_next start = inl (inr refl)
election_next init = inl (inr refl)
election_next leader = inl (inr refl)
election_next follower = inl (inl refl)
election_next become_leader = inr refl
election_next become_follower = inl (inr refl)
election_next election = inl (inr refl)

-- The states of the first list come in the second one, in their order.
abbrev pub InTurn : List State → List State → Type 0
InTurn [] ts = Unit
InTurn (s ∷ ss) [] = ⊥
InTurn (s ∷ ss) (t ∷ ts) = ((t ≡ s) × InTurn ss ts) ⊎ InTurn (s ∷ ss) ts

InTurn-tail : (s : State) (ss ts : List State) → InTurn (s ∷ ss) ts → InTurn ss ts
InTurn-tail s [] ts h = tt
InTurn-tail s (r ∷ ss) [] h = h
InTurn-tail s (r ∷ ss) (t ∷ ts) (inl (e, h)) = inr h
InTurn-tail s (r ∷ ss) (t ∷ ts) (inr h) = inr (InTurn-tail s (r ∷ ss) ts h)

Visits-InTurn : (s : State) (ts : List State) → Visits s ts → InTurn (s ∷ []) ts
Visits-InTurn s [] v = v
Visits-InTurn s (t ∷ ts) (inl e) = inl (sym e, tt)
Visits-InTurn s (t ∷ ts) (inr v) = inr (Visits-InTurn s ts v)

abbrev after_election : List State
after_election = become_leader ∷ leader ∷ []

leads_later :
    (next s : State) (targets : List State)
    → next ≡ s
    → s ≢ leader
    → Visits leader (next ∷ change_all next targets)
    → Visits leader (change_all s targets)
leads_later next s targets e other v =
    elim (subst (λ n. Visits leader (n ∷ change_all n targets)) e v) [
      | inl now ↦ absurd (other (sym now))
      | inr later ↦ later
    ]

-- The ways from FOLLOWER and from ELECTION to LEADER.
ways :
    (targets : List State)
    → (Visits leader (change_all follower targets)
        → InTurn (election ∷ after_election) (change_all follower targets))
      × (Visits leader (change_all election targets)
          → InTurn after_election (change_all election targets))
unfolding change_all
ways [] = ((λ v. v), (λ v. v))
ways (target ∷ targets) =
    let (from_follower, from_election) = ways targets in
    let f = (change_to follower target).0 in
    let e = (change_to election target).0 in
    (
      (λ v. elim (follower_next target) [
        | inl stays ↦
            rw stays (inr (from_follower (leads_later f follower targets stays (λ p. cc) v)))
        | inr elects ↦
            rw elects
              (inl (refl, from_election (leads_later f election targets elects (λ p. cc) v)))
      ]),
      (λ v. elim (election_next target) [
        | inl (inl gives_up) ↦
            let rest = from_follower (leads_later e follower targets gives_up (λ p. cc) v) in
            rw gives_up
              (inr (InTurn-tail election after_election (change_all follower targets) rest))
        | inl (inr again) ↦
            rw again (inr (from_election (leads_later e election targets again (λ p. cc) v)))
        | inr won ↦
            let rest = leads_later e become_leader targets won (λ p. cc) v in
            rw won (inl (refl, Visits-InTurn leader (change_all become_leader targets) rest))
      ]),
    )

-- A follower never becomes leader without an election: whatever states are asked for, and in
-- whatever order, if it comes to LEADER, it has gone through ELECTION, then BECOME_LEADER, and then
-- LEADER.
pub follower-InTurn :
    (targets : List State)
    → Visits leader (change_all follower targets)
    → InTurn (election ∷ become_leader ∷ leader ∷ []) (change_all follower targets)
follower-InTurn targets v = (ways targets).0 v
