-- ===== src/Server/Listeners/Yields.antt =====
-- Two leaders that hear each other's broadcasts, in server/state_listener.go and server/server.go:
-- which of them gives way, and how it becomes a follower of the other.
use distributed_chat_applica.Prelude.{
  ℕ, ◌≡◌, ◌≢◌, ◌≤◌, refl, List, [], ◌∷◌, Bool, true, false, some, if◌then◌else◌, length, arith,
}
use distributed_chat_applica.Go.Text.{Bytes, str_lt, str_lt_total}
use distributed_chat_applica.Go.Map.{Map, get}
use distributed_chat_applica.Go.Result.{ok}
use distributed_chat_applica.Broadcast as Broadcast
use distributed_chat_applica.Broadcast.Sending.{InOrder, stop-InOrder}
use distributed_chat_applica.Unicast.Datagram as Unicast
use distributed_chat_applica.StateMachine.{
  init, leader, follower, become_follower, leader_to_init, change_to, transitions,
}
use distributed_chat_applica.Server.{Server, Event, tell}
use distributed_chat_applica.Server.Listeners.{broadcasts, LeaderDeed, yields, attend_leader}
use distributed_chat_applica.Server.Actions.{
  Outside, drive, act, enter, leave, start_listener, follow_other, preceded,
}
use distributed_chat_applica.Server.Actions.Rounds.{
  Settles, preceded-Settles, seeking, found_by, drive-act_next,
}
use distributed_chat_applica.Server.Actions.Follow.{
  IsFollowing, IsWelcome, given, connecting, drive_answered, drive_follow,
}

-- A leader that hears the broadcast of another.
abbrev pub on_rival : Bytes → Broadcast.Message → List LeaderDeed
on_rival id msg = elim (attend_leader id (broadcasts msg ∷ [])) [ ok deeds ↦ deeds | _ ↦ [] ]

-- Of two leaders that hear each other, exactly one gives way, the one with the smaller id.
one_yields :
    (a b : Broadcast.Message)
    → a.uuid ≢ b.uuid
    → (on_rival a.uuid b ≡ (if str_lt a.uuid b.uuid then yields b ∷ [] else []))
      × (on_rival b.uuid a ≡ (if str_lt a.uuid b.uuid then [] else yields a ∷ []))
unfolding attend_leader
one_yields a b other = ground (arith, str_lt_total a.uuid b.uuid other)

module _ (is_uuid : Bytes → Bool) (found : Broadcast.Message) (peers : Map Bytes) (port : ℕ)
    (answer : Unicast.Message) where
  leader-seeking :
      (s : Server)
      → s.state ≡ leader
      → InOrder true s.broadcaster
      → (b : Broadcast.Broadcaster) × (enter (record s { sm = init }) init
          ≡ ok (record (seeking s) { broadcaster = b }, []))
        × InOrder false b
  unfolding enter leave start_listener
  leader-seeking s e o =
      let (b, stopped, o') = stop-InOrder true s.broadcaster o in (b, rw (e, stopped) refl, o')

  -- A leader that gives way to another one becomes its follower: it stops to broadcast, and settles in
  -- state FOLLOWER with the id, the peers and the multicast port of the other. This wants that its
  -- message reaches the other; that the answer is the next message, and gives the peers, each once and the
  -- node itself among them, and a port other than the one in use; a multicaster that is not shut down;
  -- a broadcaster with its one goroutine; and an id of four bytes at least.
  pub drive_yields :
      (s : Server) (ip : Bytes) (now attempt last : Outside) (later : List Unicast.Message)
      → s.sm ≡ leader
      → s.state ≡ leader
      → InOrder true s.broadcaster
      → get peers s.id ≡ some ip
      → 4 ≤ length s.id
      → s.rm_closed ≡ false
      → s.rm_port ≢ port
      → attempt.sent ≡ true
      → attempt.inbox ≡ answer ∷ later
      → IsWelcome found peers port answer
      → Settles
          (IsFollowing found.uuid peers port)
          (drive is_uuid (now ∷ attempt ∷ last ∷ []) init (found_by found) s)
  unfolding follow_other act change_to transitions
  drive_yields s ip now attempt last later e i o here long is_open fresh reached first w =
      let (b, entered, o') = leader-seeking s i o in
      let s1 : Server = record (seeking s) { broadcaster = b } in
      let settles =
        drive_follow is_uuid found peers port answer s1 ip last [] w here long is_open fresh o' in
      let joins =
        drive_answered is_uuid found peers port answer s1 attempt (last ∷ []) later refl refl
          reached first w in
      let step =
        drive-act_next is_uuid now (attempt ∷ last ∷ []) s s1 init init leader_to_init
          (found_by found) [] become_follower (found_by found) (rw e refl)
          (rw (entered, follow_other) refl) in
      let P = IsFollowing found.uuid peers port in
      let connected =
        drive is_uuid (last ∷ []) follower (given answer)
          (connecting is_uuid found peers port answer s1) in
      let events : List Event = tell found.ip found.uuid (0 ∷ []) ∷ [] in
      rw (step, joins)
        (preceded-Settles P [] (preceded events connected)
          (preceded-Settles P events connected settles))
