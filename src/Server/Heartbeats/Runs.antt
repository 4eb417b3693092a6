-- ===== src/Server/Heartbeats/Runs.antt =====
-- The leader's watch over heartbeats at concrete nodes.
use distributed_chat_applica.Prelude.{
  ◌≡◌, refl, [], ◌∷◌, true, false, ◌==◌, length, replicate, arith, List,
}
use distributed_chat_applica.Go.Text.{Bytes, str_eq, str_ne}
use distributed_chat_applica.Go.Map.{get, put}
use distributed_chat_applica.Server.Heartbeats.{
  Table, check, Turn, timer, beat, turn, watch, datagram, listen_beats,
}
use distributed_chat_applica.Server.Heartbeats.Watch.{mem, watch-IsHeard}
use distributed_chat_applica.Server.Heartbeats.Silence.{watch-IsSilent}

abbrev leader_a : Bytes
leader_a = 97 ∷ []

abbrev node_b : Bytes
node_b = 98 ∷ []

abbrev node_c : Bytes
node_c = 99 ∷ []

abbrev table : Table
table = (node_b, 0) ∷ []

-- Node b goes on; node c has joined, and is seen first in the first round.
abbrev turns : List Turn
turns = timer (node_c ∷ node_b ∷ []) 500 ∷ beat node_b 900 ∷ timer (node_b ∷ node_c ∷ []) 1800 ∷ []

c_is_dead : watch leader_a turns table ≡ node_c ∷ []
unfolding watch turn check get put str_eq
c_is_dead = refl

watch-IsHeard_example : mem node_b (watch leader_a turns table) ≡ false
unfolding get str_eq
watch-IsHeard_example =
    watch-IsHeard leader_a node_b turns 0 table refl (omega arith, (omega arith, tt))

-- Now b is silent, and c is seen first again.
abbrev silence : List Turn
silence =
    timer (node_c ∷ node_b ∷ []) 1500 ∷ beat node_c 1700 ∷ timer (node_c ∷ node_b ∷ []) 2000 ∷ []

watch-IsSilent_example : mem node_b (watch leader_a silence table) ≡ true
unfolding get str_eq
watch-IsSilent_example =
    watch-IsSilent leader_a node_b (node_b ∷ node_c ∷ []) silence 0 table
      (str_ne node_b leader_a refl) refl
      (
        (omega arith, refl, (refl, (refl, tt))),
        (str_ne node_c node_b refl, ((omega arith, refl, (refl, (refl, tt))), tt)),
      )
      (omega arith)

-- A heartbeat, and an empty datagram after it.
empty_counts :
    listen_beats
      (λ bs. length bs == 36)
      (replicate 36 0)
      (datagram (replicate 36 98) ∷ datagram [] ∷ [])
    ≡ replicate 36 98 ∷ replicate 36 98 ∷ []
unfolding listen_beats
empty_counts = refl
