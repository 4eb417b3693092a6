-- ===== src/Server/Listeners.antt =====
-- What a state waits for in server/state_listener.go: the second goroutine of LeaderStateStart, and
-- the goroutine of FollowerStateStart. Times are in milliseconds and do not go back.
pub mod Yields
pub mod Patience
mod Runs
use distributed_chat_applica.Prelude.{
  ℕ, ◌-◌, List, [], ◌∷◌, ◌++◌, Bool, true, false, ltb, ◌==◌, if◌then◌else◌,
}
use distributed_chat_applica.Go.Text.{Bytes, str_eq, str_lt}
use distributed_chat_applica.Go.Result.{Result, ok, err, panic, ◌>>=◌}
use distributed_chat_applica.Broadcast as Broadcast
use distributed_chat_applica.Message as Body
use distributed_chat_applica.Unicast.Datagram as Unicast

-- What the leader's goroutine gets.
pub data LeaderTurn : Type 0 where
  leader_quits : LeaderTurn  -- case <-st.quit
  broadcasts : Broadcast.Message → LeaderTurn  -- case msg := <-higherNodeBChan
  forwarded : Unicast.Message → LeaderTurn  -- case msg := <-st.server.uMsgChan

-- What it does.
pub data LeaderDeed : Type 0 where
  yields : Broadcast.Message → LeaderDeed  -- st.server.sm.ChangeTo(INIT, ...)
  connects : Bytes → Bytes → LeaderDeed  -- go st.server.connectToLeaderHandler(uuid, ip)
  hears_victory : Unicast.Message → LeaderDeed  -- st.server.sm.ChangeTo(FOLLOWER, ...)

unfoldable pub on_forwarded : Unicast.Message → Result (List LeaderDeed)
on_forwarded msg = elim (Body.decode msg.message) [
  | ok body ↦
      let deeds : List LeaderDeed =
        if body.type == Body.connect_to_leader
        then connects msg.from_uuid msg.ip ∷ []
        else if body.type == Body.election_victory
        then hears_victory msg ∷ []
        else [] in
      ok deeds
  | err e ↦ panic
  | panic ↦ panic
]

unfoldable pub attend_leader : Bytes → List LeaderTurn → Result (List LeaderDeed)
attend_leader leader_id [] = ok []
attend_leader leader_id (leader_quits ∷ turns) = ok []
attend_leader leader_id (broadcasts msg ∷ turns) = elim (str_lt msg.uuid leader_id) [
  | true ↦ attend_leader leader_id turns
  | false ↦ ok (yields msg ∷ [])
]
attend_leader leader_id (forwarded msg ∷ turns) =
    on_forwarded msg >>= λ deeds. attend_leader leader_id turns >>= λ later. ok (deeds ++ later)

-- What the follower's goroutine gets; at the end of the timer, the time and the leader at that time.
pub data FollowerTurn : Type 0 where
  follower_quits : FollowerTurn  -- case <-st.quit
  timer : ℕ → Bytes → FollowerTurn  -- case <-t.C
  hears : Bytes → ℕ → FollowerTurn  -- case msg := <-msgChan

-- How it ends, if it does.
pub data Watched : Type 0 where
  watching quit : Watched
  elects : Watched  -- st.server.sm.ChangeTo(ELECTION, nil)
  has_new_leader : Watched

unfoldable pub watch_leader : Bytes → List FollowerTurn → ℕ → Watched
watch_leader leader_id [] last = watching
watch_leader leader_id (follower_quits ∷ turns) last = quit
watch_leader leader_id (timer now current ∷ turns) last = elim (ltb 500 (now - last)) [
  | true ↦ if str_eq current leader_id then elects else has_new_leader
  | false ↦ watch_leader leader_id turns last
]
watch_leader leader_id (hears uuid now ∷ turns) last =
    watch_leader leader_id turns (if str_eq uuid leader_id then now else last)
