-- ===== src/StateMachine.antt =====
-- server/state_machine.go: the states of a server, the table of transitions, and ChangeTo.
pub mod Paths
mod Runs
use distributed_chat_applica.Prelude.{List, [], ◌∷◌, Option, none, some}

pub data State : Type 0 where
  start init leader follower become_leader become_follower election : State

-- The methods of the server that the table refers to.
pub data Action : Type 0 where
  start_to_init init_to_become_follower init_to_leader become_follower_to_init : Action
  become_follower_to_follower leader_to_init follower_to_election follower_to_follower : Action
  become_leader_to_leader election_to_follower election_to_become_leader : Action
  election_to_election : Action

-- sm.transitions[from][to] of NewStateMachine
unfoldable pub transitions : State → State → Option Action
transitions start init = some start_to_init
transitions init become_follower = some init_to_become_follower
transitions init leader = some init_to_leader
transitions become_follower init = some become_follower_to_init
transitions become_follower follower = some become_follower_to_follower
transitions leader init = some leader_to_init
transitions follower election = some follower_to_election
transitions follower follower = some follower_to_follower
transitions become_leader leader = some become_leader_to_leader
transitions election follower = some election_to_follower
transitions election become_leader = some election_to_become_leader
transitions election election = some election_to_election
transitions _ _ = none

-- ChangeTo: the state after it, and the action that it starts as a goroutine.
unfoldable pub change_to : State → State → State × Option Action
change_to state target = elim (transitions state target) [
  | none ↦ (state, none)
  | some action ↦ (target, some action)
]

-- The states after each of a sequence of calls.
unfoldable pub change_all : State → List State → List State
change_all state [] = []
change_all state (target ∷ targets) =
    let next = (change_to state target).0 in next ∷ change_all next targets
