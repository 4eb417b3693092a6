-- ===== src/Multicast/HoldBack.antt =====
-- The hold-back queue of server/multicast/multicast.go: DeliverMessages.
pub mod Picked
pub mod Order
pub mod Complete
use distributed_chat_applica.Prelude.{if◌then◌else◌, ℕ, zero, suc, List, [], ◌∷◌, Bool, true, false}
use distributed_chat_applica.Go.Map.{Map}
use distributed_chat_applica.Multicast.Datagram.{Message}
use distributed_chat_applica.Multicast.Clock.{can_deliver, tick}

-- What one run of the inner loop does before its break, with the rest of the queue: it goes to the
-- end, takes out a duplicate, or sends a message on.
pub data Pick : Type 0 where
  nothing : Pick
  dropped : List Message → Pick
  taken : Message → List Message → Pick

abbrev pub keep : Message → Pick → Pick
keep m nothing = nothing
keep m (dropped ms) = dropped (m ∷ ms)
keep m (taken x ms) = taken x (m ∷ ms)

-- The inner loop over the queue.
unfoldable pub pick : Map ℕ → List Message → Pick
pick clock [] = nothing
pick clock (m ∷ ms) =
    let later = keep m (pick clock ms) in
    let (can, duplicate) = can_deliver clock m in
    if duplicate then dropped ms else if can then taken m ms else later

-- The outer loop: the clock and the queue after it, and the messages that were sent on.
unfoldable pub deliver_loop : ℕ → Map ℕ → List Message → Map ℕ × List Message × List Message
deliver_loop zero clock queue = (clock, queue, [])
deliver_loop (suc fuel) clock queue = elim (pick clock queue) [
  | nothing ↦ (clock, queue, [])
  | dropped rest ↦ deliver_loop fuel clock rest
  | taken m rest ↦
      let (clock', queue', sent) = deliver_loop fuel (tick clock m.uuid) rest in
      (clock', queue', m ∷ sent)
]
