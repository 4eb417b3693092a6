-- ===== src/Server/Listeners/Patience.antt =====
-- When a follower of server/state_listener.go starts an election.
use distributed_chat_applica.Prelude.{
  ℕ, ◌-◌, ◌≤◌, ◌<◌, ◌≡◌, refl, subst, ◌∙◌, append-nil, lt→ltb, List, [], ◌∷◌, ◌++◌, if◌then◌else◌,
  arith,
}
use distributed_chat_applica.Go.Text.{Bytes, str_eq}
use distributed_chat_applica.Server.Listeners.{
  FollowerTurn, follower_quits, timer, hears, watching, elects, has_new_leader, watch_leader,
}

-- The last time the leader was heard, from `last` on.
abbrev pub last_heard : Bytes → List FollowerTurn → ℕ → ℕ
last_heard leader_id [] last = last
last_heard leader_id (hears uuid now ∷ turns) last =
    last_heard leader_id turns (if str_eq uuid leader_id then now else last)
last_heard leader_id (_ ∷ turns) last = last_heard leader_id turns last

-- Each time the timer ends, the leader was heard at most 500 ms ago.
abbrev pub IsSteady : Bytes → List FollowerTurn → ℕ → Type 0
IsSteady leader_id [] last = Unit
IsSteady leader_id (follower_quits ∷ turns) last = ⊥
IsSteady leader_id (timer now current ∷ turns) last =
    (now - last ≤ 500) × IsSteady leader_id turns last
IsSteady leader_id (hears uuid now ∷ turns) last =
    IsSteady leader_id turns (if str_eq uuid leader_id then now else last)

watch_steady :
    (leader_id : Bytes) (steady turns : List FollowerTurn) (last : ℕ)
    → IsSteady leader_id steady last
    → watch_leader leader_id (steady ++ turns) last
      ≡ watch_leader leader_id turns (last_heard leader_id steady last)
unfolding watch_leader
watch_steady leader_id [] turns last h = refl
watch_steady leader_id (follower_quits ∷ steady) turns last h = absurd h
watch_steady leader_id (timer now current ∷ steady) turns last h =
    ground (arith, watch_steady leader_id steady turns last h.1, h.0)
watch_steady leader_id (hears uuid now ∷ steady) turns last h =
    watch_steady leader_id steady turns (if str_eq uuid leader_id then now else last) h

-- A follower goes on while its leader is heard in time, and at the first end of the timer with more
-- than 500 ms since the leader was heard it starts an election, unless it has another leader by then.
pub watch_leader_lem :
    (leader_id current : Bytes) (steady turns : List FollowerTurn) (last now : ℕ)
    → IsSteady leader_id steady last
    → 500 < now - last_heard leader_id steady last
    → (watch_leader leader_id steady last ≡ watching)
      × (watch_leader leader_id (steady ++ timer now current ∷ turns) last
          ≡ (if str_eq current leader_id then elects else has_new_leader))
unfolding watch_leader
watch_leader_lem leader_id current steady turns last now h late = (
  subst (λ ts. watch_leader leader_id ts last ≡ watching) (append-nil steady)
      (watch_steady leader_id steady [] last h),
  watch_steady leader_id steady (timer now current ∷ turns) last h
      ∙ rw (watch_leader, lt→ltb 500 (now - last_heard leader_id steady last) late) refl,
)
