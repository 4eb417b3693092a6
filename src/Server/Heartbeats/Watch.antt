-- ===== src/Server/Heartbeats/Watch.antt =====
-- Which nodes the leader's goroutine in server/state_listener.go finds dead.
use distributed_chat_applica.Prelude.{
  ℕ, ◌-◌, ◌≤◌, ◌≡◌, refl, List, [], ◌∷◌, ◌++◌, Bool, false, ◌||◌, some, if◌then◌else◌, arith,
}
use distributed_chat_applica.Go.Text.{Bytes, str_eq, str_eq_iff}
use distributed_chat_applica.Go.Map.{get, put, get-put}
use distributed_chat_applica.Server.Heartbeats.{Table, check, Turn, timer, beat, turn, watch}

abbrev pub mem : Bytes → List Bytes → Bool
mem u [] = false
mem u (v ∷ vs) = str_eq v u || mem u vs

pub mem-append : (u : Bytes) (xs ys : List Bytes) → mem u (xs ++ ys) ≡ (mem u xs || mem u ys)
mem-append u [] ys = refl
mem-append u (x ∷ xs) ys = ground (arith, mem-append u xs ys)

-- A round of the timer leaves the entries that are there.
pub check_keeps :
    (id u : Bytes) (order : List Bytes) (now last : ℕ) (table : Table)
    → get table u ≡ some last
    → get (check id order now table).0 u ≡ some last
unfolding check
check_keeps id u [] now last table e = e
check_keeps id u (v ∷ order) now last table e =
    ground (arith, check_keeps id u order now last table e, get-put table v u now, str_eq_iff v u)

check_spares :
    (id u : Bytes) (order : List Bytes) (now last : ℕ) (table : Table)
    → get table u ≡ some last
    → now - last ≤ 1000
    → mem u (check id order now table).1 ≡ false
unfolding check
check_spares id u [] now last table e young = refl
check_spares id u (v ∷ order) now last table e young =
    ground (arith, check_spares id u order now last table e young, str_eq_iff v u)

-- At each round of the timer the last heartbeat of the node was at most 1000 ms ago.
abbrev pub IsHeard : Bytes → ℕ → List Turn → Type 0
IsHeard u last [] = Unit
IsHeard u last (timer order now ∷ turns) = (now - last ≤ 1000) × IsHeard u last turns
IsHeard u last (beat v now ∷ turns) = IsHeard u (if str_eq v u then now else last) turns

-- A node whose heartbeats come in time is never taken for dead, whatever the other nodes do and in
-- whatever order the peers are looked at.
pub watch-IsHeard :
    (id u : Bytes) (turns : List Turn) (last : ℕ) (table : Table)
    → get table u ≡ some last
    → IsHeard u last turns
    → mem u (watch id turns table) ≡ false
unfolding watch turn
watch-IsHeard id u [] last table e h = refl
watch-IsHeard id u (timer order now ∷ turns) last table e h =
    let (table', dead) = check id order now table in
    ground (
      arith,
      mem-append u dead (watch id turns table'),
      check_spares id u order now last table e h.0,
      watch-IsHeard id u turns last table' (check_keeps id u order now last table e) h.1,
    )
watch-IsHeard id u (beat v now ∷ turns) last table e h =
    watch-IsHeard id u turns (if str_eq v u then now else last) (put table v now)
      (ground (arith, get-put table v u now)) h
