-- ===== src/StateMachine/Runs.antt =====
-- Tests of server/state_machine.go, and the theorems at concrete states.
use distributed_chat_applica.Prelude.{◌≡◌, refl, inl, inr, List, [], ◌∷◌}
use distributed_chat_applica.StateMachine.{
  State, start, init, leader, follower, become_leader, election, transitions, change_to, change_all,
}
use distributed_chat_applica.StateMachine.Paths.{Visits, InTurn, follower-InTurn}

first_leader :
    change_all start (init ∷ leader ∷ follower ∷ init ∷ []) ≡ init ∷ leader ∷ leader ∷ init ∷ []
unfolding change_all change_to transitions
first_leader = refl

abbrev lost_leader : List State
lost_leader = leader ∷ election ∷ become_leader ∷ leader ∷ []

lost_leader-Visits : Visits leader (change_all follower lost_leader)
unfolding change_all change_to transitions
lost_leader-Visits = inr (inr (inr (inl refl)))

follower-InTurn_example :
    InTurn (election ∷ become_leader ∷ leader ∷ []) (change_all follower lost_leader)
follower-InTurn_example = follower-InTurn lost_leader lost_leader-Visits
