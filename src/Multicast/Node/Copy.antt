-- ===== src/Multicast/Node/Copy.antt =====
-- VectorClock of server/multicast/multicast.go, which copies the clock under the lock.
use distributed_chat_applica.Prelude.{ℕ, ◌≡◌, refl, [], ◌∷◌, none, some, arith}
use distributed_chat_applica.Go.Text.{Bytes, str_eq_iff}
use distributed_chat_applica.Go.Map.{Map, get, put, get-put, Distinct}
use distributed_chat_applica.Multicast.Node.{Multicaster}

-- The loop: result[id] = clock
unfoldable pub copy_into : Map ℕ → Map ℕ → Map ℕ
copy_into result [] = result
copy_into result ((id, clock) ∷ clocks) = copy_into (put result id clock) clocks

unfoldable pub copy_of_clock : Multicaster → Map ℕ
copy_of_clock m = copy_into [] m.vector_clock

get-copy_into :
    (result clocks : Map ℕ) (k : Bytes)
    → Distinct clocks
    → get (copy_into result clocks) k
      ≡ elim (get clocks k) [ none ↦ get result k | some n ↦ some n ]
unfolding copy_into get
get-copy_into result [] k d = refl
get-copy_into result ((id, clock) ∷ clocks) k d = ground (
  arith,
  get-copy_into (put result id clock) clocks k d.1,
  get-put result id k clock,
  str_eq_iff id k,
  d.0,
)

-- The copy counts what the clock counts.
get-copy_of_clock :
    (m : Multicaster) (k : Bytes)
    → Distinct m.vector_clock
    → get (copy_of_clock m) k ≡ get m.vector_clock k
unfolding copy_of_clock get
get-copy_of_clock m k d = ground (arith, get-copy_into [] m.vector_clock k d)
