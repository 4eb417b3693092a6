-- ===== src/Multicast/Clock.antt =====
-- Vector clocks in server/multicast/multicast.go: CanDeliver, and the count of a delivery.
pub mod Causal
use distributed_chat_applica.Prelude.{
  ℕ, ◌+◌, ◌%◌, ◌^◌, List, [], ◌∷◌, Bool, true, false, none, some, ltb, leb, ◌==◌, if◌then◌else◌,
}
use distributed_chat_applica.Go.Text.{Bytes, str_eq}
use distributed_chat_applica.Go.Map.{Map, get, put, get_or}
use distributed_chat_applica.Multicast.Datagram.{Message}

-- uint32 addition
abbrev pub next_stamp : ℕ → ℕ
next_stamp n = (n + 1) % 2 ^ 32

-- The loop of CanDeliver over the node's own clock, for a message of `j` with the given stamps.
unfoldable pub others_seen : Map ℕ → Bytes → Map ℕ → Bool
others_seen [] j stamps = true
others_seen ((k, ik) ∷ clock) j stamps =
    let rest = others_seen clock j stamps in
    if str_eq k j
    then rest
    else elim (get stamps k) [ none ↦ false | some jk ↦ if ltb ik jk then false else rest ]

-- CanDeliver: (canDeliver, isDuplicate). Its log line takes the first four bytes of the id, which a
-- decoded message always has.
unfoldable pub can_deliver : Map ℕ → Message → Bool × Bool
can_deliver clock m = elim (get clock m.uuid) [
  | none ↦ (false, false)
  | some ij ↦ elim (get m.vector_clock m.uuid) [
    | none ↦ (false, false)
    | some jj ↦
        if leb jj ij
        then (false, true)
        else if jj == next_stamp ij
        then (others_seen clock m.uuid m.vector_clock, false)
        else (false, false)
  ]
]

-- m.vectorClock[id]++
unfoldable pub tick : Map ℕ → Bytes → Map ℕ
tick clock id = put clock id (next_stamp (get_or clock id 0))
