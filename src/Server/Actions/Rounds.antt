-- ===== src/Server/Actions/Rounds.antt =====
-- The rounds of a server of server/server.go on its way from START to LEADER or to FOLLOWER.
use distributed_chat_applica.Prelude.{
  ◌≡◌, ◌≢◌, refl, ap, subst, sym, List, [], ◌∷◌, ◌++◌, Bool, false, some, none, ◌⊎◌, inl, inr,
  Bool-cases, arith, Option,
}
use distributed_chat_applica.Go.Text.{Bytes}
use distributed_chat_applica.Go.Binary.{put_be}
use distributed_chat_applica.Go.Result.{ok}
use distributed_chat_applica.Broadcast as Broadcast
use distributed_chat_applica.Broadcast.{Arrival, is_any_one_broadcasting}
use distributed_chat_applica.Broadcast.Sending.{InOrder, start-InOrder}
use distributed_chat_applica.Message as Body
use distributed_chat_applica.Message.New.{new_connect_to_leader_message}
use distributed_chat_applica.StateMachine.{
  State, start, init, leader, become_follower, Action, start_to_init, init_to_become_follower,
  init_to_leader, become_follower_to_init, change_to, transitions,
}
use distributed_chat_applica.Server.{Server, Event, serve, attend, tell}
use distributed_chat_applica.Server.Actions.{
  StateMachineMessage, Outside, Driven, settled, drive, preceded, act, enter, leave, start_listener,
  seek, join_leader, peer_info_from_leader,
}

-- A server that has become leader, and broadcasts.
pub record IsLeading (id : Bytes) (s : Server) : Type 0 where
  pub sm : s.sm ≡ leader
  pub state : s.state ≡ leader
  pub named : s.leader_id ≡ id
  pub sends : s.broadcaster.senders ≡ 1

-- A server that is about to look for a leader, and whose broadcaster is at rest.
pub record Seeks (s : Server) : Type 0 where
  pub asks : (s.sm ≡ start) ⊎ (s.sm ≡ become_follower)
  pub quiet : s.state ≢ leader
  pub rests : InOrder false s.broadcaster

-- The server in INIT, when it looks for a leader.
abbrev pub seeking : Server → Server
seeking s = record s { sm = init; state = init; leader_id = [] }

enter_init :
    (s : Server)
    → s.state ≢ leader
    → enter s init ≡ ok (record s { state = init; leader_id = [] }, [])
unfolding enter leave start_listener
enter_init s quiet = ground arith

module _ (is_uuid : Bytes → Bool) (outside : Outside) (rest : List Outside) where
  module _ (s s' : Server) (target sm : State) (action : Action) (args : Option StateMachineMessage)
      (events : List Event) where
    -- A round of `drive` by the transition and the action in it.
    pub drive-act_next :
        (target' : State) (args' : Option StateMachineMessage)
        → change_to s.sm target ≡ (sm, some action)
        → act is_uuid action args outside (record s { sm = sm })
          ≡ ok (s', events, some (target', args'))
        → drive is_uuid (outside ∷ rest) target args s
          ≡ preceded events (drive is_uuid rest target' args' s')
    unfolding drive
    drive-act_next target' args' e done = rw (drive, ap (λ p. p.1) e, ap (λ p. p.0) e, done) refl

    pub drive-act_settled :
        change_to s.sm target ≡ (sm, some action)
        → act is_uuid action args outside (record s { sm = sm }) ≡ ok (s', events, none)
        → drive is_uuid (outside ∷ rest) target args s ≡ settled s' events
    unfolding drive
    drive-act_settled e done = rw (drive, ap (λ p. p.1) e, ap (λ p. p.0) e, done) refl

  -- One action of a search: it ends in the call of ChangeTo that `seek` says.
  drive-seek :
      (s : Server) (args : Option StateMachineMessage)
      → Seeks s
      → let (target, args') = seek is_uuid outside (seeking s) in
        (es : List Event) × (drive is_uuid (outside ∷ rest) init args s
          ≡ preceded es (drive is_uuid rest target args' (seeking s)))
  unfolding act change_to transitions
  drive-seek s args h =
      let entered = enter_init (record s { sm = init }) h.quiet in
      let (target', args') = seek is_uuid outside (seeking s) in
      elim h.asks [
        | inl e ↦ (
          serve ∷ [],
          drive-act_next s (seeking s) init init start_to_init args (serve ∷ []) target' args'
              (rw e refl) (rw entered refl),
        )
        | inr e ↦ (
          [],
          drive-act_next s (seeking s) init init become_follower_to_init args [] target' args'
              (rw e refl) (rw entered refl),
        )
      ]

pub connect_message : new_connect_to_leader_message ≡ ok (0 ∷ [])
unfolding new_connect_to_leader_message Body.encode put_be
connect_message = refl

abbrev pub found_by : Broadcast.Message → Option StateMachineMessage
found_by found = some (record { broadcast = some found; unicast = none; election_id = [] })

-- What connects to a leader that then gives no answer: the message did not reach it, or no peer info
-- came from it in time.
abbrev pub IsIgnored : Broadcast.Message → Outside → Type 0
IsIgnored found outside =
    (outside.sent ≡ false) ⊎ (peer_info_from_leader found.uuid outside.inbox ≡ ok none)

-- The server after an attempt to join a leader that failed.
abbrev pub disappointed : Server → Server
disappointed s = record s { sm = become_follower; state = become_follower }

module _ (is_uuid : Bytes → Bool) (outside : Outside) (rest : List Outside) where
  -- Nobody was found: the server becomes leader, and settles there.
  pub drive_lead :
      (s : Server)
      → s.sm ≡ init
      → s.state ≡ init
      → InOrder false s.broadcaster
      → (s' : Server) × (es : List Event) × (drive is_uuid (outside ∷ rest) leader none s
          ≡ settled s' es)
        × IsLeading s.id s'
  unfolding act enter leave start_listener change_to transitions
  drive_lead s e i rests =
      let (b, started, order) = start-InOrder false s.broadcaster rests in
      let s' : Server = record s {
        sm = leader;
        state = leader;
        leader_id = s.id;
        broadcaster = b;
      } in
      (
        s',
        attend ∷ [],
        drive-act_settled is_uuid outside rest s s' leader leader init_to_leader none (attend ∷ [])
            (rw e refl) (rw (i, started) refl),
        record { sm = refl; state = refl; named = refl; sends = order.counted },
      )

  join-ignored :
      (found : Broadcast.Message) (s : Server)
      → IsIgnored found outside
      → (es : List Event) × (join_leader (found_by found) outside s ≡ ok (s, es, some (init, none)))
  unfolding join_leader
  join-ignored found s ignored = (
    tell found.ip found.uuid (0 ∷ []) ∷ [],
    elim ignored [
      | inl unsent ↦ rw (connect_message, unsent) refl
      | inr silent ↦ elim (Bool-cases outside.sent) [
        | inl reached ↦ rw (connect_message, reached, silent) refl
        | inr unsent ↦ rw (connect_message, unsent) refl
      ]
    ],
  )

  -- The leader that was found gives no answer: back to INIT.
  pub drive_ignored :
      (found : Broadcast.Message) (s : Server)
      → s.sm ≡ init
      → s.state ≡ init
      → IsIgnored found outside
      → (es : List Event) × (drive is_uuid (outside ∷ rest) become_follower (found_by found) s
          ≡ preceded es (drive is_uuid rest init none (disappointed s)))
  unfolding act enter leave start_listener change_to transitions
  drive_ignored found s e i ignored =
      let s1 : Server = disappointed s in
      let (es, ends) = join-ignored found s1 ignored in
      (
        es,
        drive-act_next is_uuid outside rest s s1 become_follower become_follower
            init_to_become_follower (found_by found) es init none (rw e refl) (rw (i, ends) refl),
      )

-- The server settles in some way.
abbrev pub Settles : (Server → Type 0) → Driven → Type 0
Settles P driven = (s : Server) × (es : List Event) × (driven ≡ settled s es) × P s

pub preceded-Settles :
    (P : Server → Type 0) (es : List Event) (driven : Driven)
    → Settles P driven
    → Settles P (preceded es driven)
preceded-Settles P es driven (s, es', e, holds) = (s, es ++ es', ap (preceded es) e, holds)

-- A search of a server, by what it finds and what follows.
pub seek-Settles :
    (is_uuid : Bytes → Bool) (P : Server → Type 0) (s : Server) (outside : Outside)
    (rest : List Outside) (args : Option StateMachineMessage)
    (next : State × Option StateMachineMessage)
    → Seeks s
    → seek is_uuid outside (seeking s) ≡ next
    → Settles P (drive is_uuid rest next.0 next.1 (seeking s))
    → Settles P (drive is_uuid (outside ∷ rest) init args s)
seek-Settles is_uuid P s outside rest args next h sought later =
    let (es, e) = drive-seek is_uuid outside rest s args h in
    let (target', args') = seek is_uuid outside (seeking s) in
    let settles =
      subst (λ n. Settles P (drive is_uuid rest n.0 n.1 (seeking s))) (sym sought) later in
    rw e (preceded-Settles P es (drive is_uuid rest target' args' (seeking s)) settles)
