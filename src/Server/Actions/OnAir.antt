-- ===== src/Server/Actions/OnAir.antt =====
-- The main loop in Run of server/server.go and the broadcaster.
use distributed_chat_applica.Prelude.{
  ◌≡◌, refl, List, [], ◌∷◌, Bool, true, false, if◌then◌else◌, ap, ◌∙◌, ◌≢◌, ◌⊎◌, inl, inr, subst,
  arith,
}
use distributed_chat_applica.Go.Result.{Result, ok, err, panic}
use distributed_chat_applica.Go.Map.{get_or}
use distributed_chat_applica.Broadcast.Sending.{InOrder, start-InOrder, stop-InOrder}
use distributed_chat_applica.StateMachine.{
  State, start, init, leader, follower, become_leader, become_follower, election,
}
use distributed_chat_applica.Server.{Server, Event, attend, beat, watch, begin_election}
use distributed_chat_applica.Server.Actions.{enter, leave, start_listener}

abbrev pub leading : State → Bool
leading leader = true
leading _ = false

-- The broadcaster is in order, and sends just in state LEADER.
abbrev pub OnAir : Server → Type 0
OnAir s = InOrder (leading s.state) s.broadcaster

-- The rounds of the main loop for the states that it takes from stateChan.
unfoldable pub enter_all : List State → Server → Result Server
enter_all [] s = ok s
enter_all (target ∷ targets) s = elim (enter s target) [
  | ok (s', events) ↦ enter_all targets s'
  | err e ↦ err e
  | panic ↦ panic
]

leading_cases : (state : State) → (state ≡ leader) ⊎ ((state ≢ leader) × (leading state ≡ false))
leading_cases state = ground arith

leave-OnAir :
    (s : Server) → OnAir s → (s' : Server) × (leave s ≡ ok s') × InOrder false s'.broadcaster
unfolding leave
leave-OnAir s o = elim (leading_cases s.state) [
  | inl e ↦
      let (b, stopped, o') = stop-InOrder (leading s.state) s.broadcaster o in
      (record s { broadcaster = b }, ground (arith, stopped), o')
  | inr (other, quiet) ↦ (s, ground arith, subst (λ b. InOrder b s.broadcaster) quiet o)
]

start-OnAir :
    (target : State) (s : Server)
    → InOrder false s.broadcaster
    → (s' : Server) × (es : List Event) × (start_listener (record s { state = target })
        ≡ ok (s', es))
      × (s'.state ≡ target)
      × OnAir s'
unfolding start_listener begin_election
start-OnAir leader s o =
    let (b, started, o') = start-InOrder false s.broadcaster o in
    let s' : Server = record s { state = leader; leader_id = s.id; broadcaster = b } in
    (s', attend ∷ [], rw started refl, refl, o')
start-OnAir start s o = (record s { state = start }, [], refl, refl, o)
start-OnAir init s o = (record s { state = init; leader_id = [] }, [], refl, refl, o)
start-OnAir follower s o =
    let es : List Event = beat (get_or s.peers s.leader_id []) s.id ∷ watch s.leader_id ∷ [] in
    (record s { state = follower }, es, refl, refl, o)
start-OnAir become_leader s o = (record s { state = become_leader }, [], refl, refl, o)
start-OnAir become_follower s o = (record s { state = become_follower }, [], refl, refl, o)
start-OnAir election s o =
    let (s', es) = begin_election (record s { state = election }) in (s', es, refl, refl, o)

abbrev last_state : State → List State → State
last_state state [] = state
last_state state (target ∷ targets) = last_state target targets

-- The main loop enters any sequence of states without a panic of the broadcaster, from a server whose
-- broadcaster is in order; it ends in the last of the states, where one goroutine broadcasts if that
-- state is LEADER, and none otherwise.
pub enter_all-OnAir :
    (targets : List State) (s : Server)
    → OnAir s
    → (s' : Server) × (enter_all targets s ≡ ok s')
      × (s'.state ≡ last_state s.state targets)
      × (s'.broadcaster.senders ≡ (if leading s'.state then 1 else 0))
unfolding enter_all enter
enter_all-OnAir [] s o = (s, refl, refl, o.counted)
enter_all-OnAir (target ∷ targets) s o =
    let (s1, left, o1) = leave-OnAir s o in
    let (s2, es, started, here, o2) = start-OnAir target s1 o1 in
    let (s3, e, last, sends) = enter_all-OnAir targets s2 o2 in
    (s3, rw (enter_all, enter, left, started) e, last ∙ ap (λ t. last_state t targets) here, sends)
