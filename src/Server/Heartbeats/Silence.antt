-- ===== src/Server/Heartbeats/Silence.antt =====
-- The leader's goroutine in server/state_listener.go finds a node dead that is silent.
use distributed_chat_applica.Prelude.{
  ℕ, suc, ◌-◌, ◌≤◌, ◌<◌, ◌≡◌, ◌≢◌, ◌⊎◌, List, [], ◌∷◌, true, none, some, All, inl, inr, arith,
}
use distributed_chat_applica.Go.Text.{Bytes, str_eq_iff}
use distributed_chat_applica.Go.Map.{get, put, get-put}
use distributed_chat_applica.Server.Heartbeats.{Table, check, Turn, timer, beat, turn, watch}
use distributed_chat_applica.Server.Heartbeats.Watch.{mem, mem-append, check_keeps}

-- How many of the nodes have no entry.
abbrev pub unseen : Table → List Bytes → ℕ
unseen table [] = 0
unseen table (v ∷ vs) = elim (get table v) [
  | none ↦ suc (unseen table vs)
  | some _ ↦ unseen table vs
]

unseen-put :
    (table : Table) (v : Bytes) (now : ℕ) (nodes : List Bytes)
    → unseen (put table v now) nodes ≤ unseen table nodes
unseen-put table v now [] = omega arith
unseen-put table v now (w ∷ nodes) =
    ground (arith, unseen-put table v now nodes, get-put table v w now)

unseen-put_new :
    (table : Table) (v : Bytes) (now : ℕ) (nodes : List Bytes)
    → get table v ≡ none
    → mem v nodes ≡ true
    → unseen (put table v now) nodes < unseen table nodes
unseen-put_new table v now [] e here = absurd (ground arith)
unseen-put_new table v now (w ∷ nodes) e here = ground (
  arith,
  unseen-put_new table v now nodes e,
  unseen-put table v now nodes,
  get-put table v w now,
  str_eq_iff w v,
  str_eq_iff v w,
)

-- In a round that looks at a silent node, the node is found dead or another node gets its entry.
check_progress :
    (id u : Bytes) (nodes order : List Bytes) (now last : ℕ) (table : Table)
    → u ≢ id
    → get table u ≡ some last
    → 1000 < now - last
    → All (λ v. mem v nodes ≡ true) order
    → mem u order ≡ true
    → (mem u (check id order now table).1 ≡ true)
      ⊎ (unseen (check id order now table).0 nodes < unseen table nodes)
unfolding check
check_progress id u nodes [] now last table other e old known here = absurd (ground arith)
check_progress id u nodes (v ∷ order) now last table other e old known here = ground (
  arith,
  check_progress id u nodes order now last table other e old known.1,
  unseen-put_new table v now nodes,
  known.0,
  str_eq_iff v u,
  str_eq_iff v id,
)

-- The node sends no heartbeat, and each round of the timer looks at it, more than 1000 ms after its
-- last heartbeat, and at no others than the given nodes.
abbrev pub IsSilent : Bytes → ℕ → List Bytes → List Turn → Type 0
IsSilent u last nodes [] = Unit
IsSilent u last nodes (timer order now ∷ turns) =
    ((1000 < now - last) × (mem u order ≡ true) × All (λ v. mem v nodes ≡ true) order)
    × IsSilent u last nodes turns
IsSilent u last nodes (beat v now ∷ turns) = (v ≢ u) × IsSilent u last nodes turns

abbrev pub rounds : List Turn → ℕ
rounds [] = 0
rounds (timer order now ∷ turns) = suc (rounds turns)
rounds (beat v now ∷ turns) = rounds turns

-- A node that stays silent is found dead as soon as the timer has had more rounds than there are
-- nodes without an entry: a round may stop early, at such a node, but then that node gets its entry.
pub watch-IsSilent :
    (id u : Bytes) (nodes : List Bytes) (turns : List Turn) (last : ℕ) (table : Table)
    → u ≢ id
    → get table u ≡ some last
    → IsSilent u last nodes turns
    → unseen table nodes < rounds turns
    → mem u (watch id turns table) ≡ true
unfolding watch turn
watch-IsSilent id u nodes [] last table other e h enough = absurd (omega arith)
watch-IsSilent id u nodes (timer order now ∷ turns) last table other e h enough =
    let (table', dead) = check id order now table in
    let later =
      watch-IsSilent id u nodes turns last table' other (check_keeps id u order now last table e)
        h.1 in
    let found = mem-append u dead (watch id turns table') in
    elim (check_progress id u nodes order now last table other e h.0.0 h.0.2 h.0.1) [
      | inl now_dead ↦ ground (arith, found)
      | inr fewer ↦ ground (arith, found, later (omega arith))
    ]
watch-IsSilent id u nodes (beat v now ∷ turns) last table other e h enough =
    watch-IsSilent id u nodes turns last (put table v now) other
      (ground (arith, get-put table v u now, str_eq_iff v u)) h.1
      (omega (arith, unseen-put table v now nodes))
