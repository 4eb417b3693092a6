-- ===== src/Server/Actions/Boot.antt =====
-- A server of server/server.go that finds no leader, or none that answers, becomes leader.
use distributed_chat_applica.Prelude.{
  ◌≡◌, refl, List, [], ◌∷◌, ◌++◌, Bool, some, none, All, Option, inr, arith,
}
use distributed_chat_applica.Go.Text.{Bytes}
use distributed_chat_applica.Broadcast as Broadcast
use distributed_chat_applica.Broadcast.{is_any_one_broadcasting}
use distributed_chat_applica.Broadcast.Discovery.{IsNoise, noise_is_quiet}
use distributed_chat_applica.StateMachine.{init, leader, become_follower}
use distributed_chat_applica.Server.{Server}
use distributed_chat_applica.Server.Actions.{StateMachineMessage, Outside, drive, seek}
use distributed_chat_applica.Server.Actions.Rounds.{
  Settles, preceded-Settles, seek-Settles, IsLeading, Seeks, seeking, disappointed, found_by,
  IsIgnored, drive_lead, drive_ignored,
}

-- A search that finds another node, and an attempt to join it that gets no answer.
abbrev pub Misses : (Bytes → Bool) → Bytes → Outside × Outside → Type 0
Misses is_uuid id (hearing, attempt) =
    (found : Broadcast.Message) × (is_any_one_broadcasting is_uuid id hearing.arrivals ≡ some found)
    × IsIgnored found attempt

abbrev pub in_turn : List (Outside × Outside) → List Outside
in_turn [] = []
in_turn ((hearing, attempt) ∷ misses) = hearing ∷ attempt ∷ in_turn misses

disappointed-Seeks : (s : Server) → Seeks s → Seeks (disappointed (seeking s))
disappointed-Seeks s h = record {
  asks = inr refl;
  quiet = λ e. absurd (ground arith);
  rests = h.rests;
}

module _ (is_uuid : Bytes → Bool) (quiet last : Outside) where
  -- A server that starts, and that finds leaders that do not answer any number of times, becomes
  -- leader itself as soon as one search finds nobody: it settles in state LEADER, names itself as
  -- leader, and has one goroutine that broadcasts.
  pub drive-IsLeading :
      (misses : List (Outside × Outside)) (s : Server) (args : Option StateMachineMessage)
      → Seeks s
      → All (Misses is_uuid s.id) misses
      → All (IsNoise is_uuid s.id) quiet.arrivals
      → Settles (IsLeading s.id) (drive is_uuid (in_turn misses ++ quiet ∷ last ∷ []) init args s)
  unfolding seek
  drive-IsLeading [] s args h m noise =
      let alone = noise_is_quiet is_uuid s.id quiet.arrivals noise in
      seek-Settles is_uuid (IsLeading s.id) s quiet (last ∷ []) args (leader, none) h
        (rw (seek, alone) refl) (drive_lead is_uuid last [] (seeking s) refl refl h.rests)
  drive-IsLeading ((hearing, attempt) ∷ misses) s args h m noise =
      let (found, heard, ignored) = m.0 in
      let rest = in_turn misses ++ quiet ∷ last ∷ [] in
      let (es, e) = drive_ignored is_uuid attempt rest found (seeking s) refl refl ignored in
      let again = disappointed (seeking s) in
      let later = drive-IsLeading misses again none (disappointed-Seeks s h) m.1 noise in
      seek-Settles is_uuid (IsLeading s.id) s hearing (attempt ∷ rest) args
        (become_follower, found_by found) h (rw (seek, heard) refl)
        (rw e (preceded-Settles (IsLeading s.id) es (drive is_uuid rest init none again) later))
