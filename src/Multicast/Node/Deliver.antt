-- ===== src/Multicast/Node/Deliver.antt =====
-- DeliverMessages of server/multicast/multicast.go on the state of a node.
use distributed_chat_applica.Prelude.{
  ℕ, suc, ◌≡◌, ◌⊎◌, ◌+◌, List, [], ◌∷◌, ◌++◌, true, false, length, arith, length-append,
}
use distributed_chat_applica.Go.Text.{Bytes}
use distributed_chat_applica.Multicast.Datagram.{Message}
use distributed_chat_applica.Multicast.Clock.{can_deliver, tick}
use distributed_chat_applica.Multicast.Clock.Causal.{Stale}
use distributed_chat_applica.Go.Map.{Map, get_or}
use distributed_chat_applica.Multicast.HoldBack.{pick, taken, deliver_loop}
use distributed_chat_applica.Multicast.HoldBack.Picked.{AllHeld}
use distributed_chat_applica.Multicast.HoldBack.Order.{
  Delivers, deliver_loop-Delivers, count_from, Delivers-count,
}
use distributed_chat_applica.Multicast.HoldBack.Complete.{
  In, deliver_loop-AllHeld, deliver_loop_keeps,
}
use distributed_chat_applica.Multicast.Node.{Multicaster, deliver_messages}

-- DeliverMessages follows the rule of causal broadcast, whatever the hold-back queue holds: each
-- message it sends on is the next one of its sender, all that this sender had seen was seen here,
-- and the clock counts it.
pub deliver_messages-Delivers :
    (m : Multicaster)
    → let (m', sent) = deliver_messages m in Delivers m'.vector_clock m.vector_clock sent
unfolding deliver_messages
deliver_messages-Delivers m =
    deliver_loop-Delivers (length m.hold_back_queue) m.vector_clock m.hold_back_queue

-- The clock counts deliveries: DeliverMessages raises the entry of each node by the number of
-- messages of that node that it sends on.
pub deliver_messages_counts :
    (m : Multicaster) (k : Bytes)
    → let (m', sent) = deliver_messages m in
      get_or m'.vector_clock k 0 ≡ get_or m.vector_clock k 0 + count_from k sent
deliver_messages_counts m k =
    let (m', sent) = deliver_messages m in
    Delivers-count m'.vector_clock m.vector_clock sent k (deliver_messages-Delivers m)

-- When DeliverMessages returns, no message that is left in the queue can be delivered, and none is
-- a duplicate.
pub deliver_messages-AllHeld :
    (m : Multicaster)
    → let (m', _) = deliver_messages m in AllHeld m'.vector_clock m'.hold_back_queue
unfolding deliver_messages
deliver_messages-AllHeld m =
    deliver_loop-AllHeld (length m.hold_back_queue) m.vector_clock m.hold_back_queue (omega arith)

-- DeliverMessages loses nothing: a message that was in the queue was sent on, or is still in the
-- queue, or its own stamp is not above the count for its sender, so that it is a duplicate.
pub deliver_messages_keeps :
    (m : Multicaster) (x : Message)
    → In x m.hold_back_queue
    → let (m', sent) = deliver_messages m in
      In x sent ⊎ (In x m'.hold_back_queue ⊎ Stale m'.vector_clock x)
unfolding deliver_messages
deliver_messages_keeps m x i =
    deliver_loop_keeps (length m.hold_back_queue) m.vector_clock m.hold_back_queue (i.0) x (i.1)

pick_last :
    (clock : Map ℕ) (queue : List Message) (msg : Message)
    → AllHeld clock queue
    → can_deliver clock msg ≡ (true, false)
    → pick clock (queue ++ (msg ∷ [])) ≡ taken msg queue
unfolding pick
pick_last clock [] msg h c = rw c
pick_last clock (m ∷ queue) msg h c = rw (h.0, pick_last clock queue msg h.1 c)

-- A message that is ready is sent on first if nothing else in the queue was.
pub deliver_messages_ready :
    (m : Multicaster) (queue : List Message) (msg : Message)
    → m.hold_back_queue ≡ queue ++ (msg ∷ [])
    → AllHeld m.vector_clock queue
    → can_deliver m.vector_clock msg ≡ (true, false)
    → (more : List Message) × ((deliver_messages m).1 ≡ msg ∷ more)
unfolding deliver_messages deliver_loop
deliver_messages_ready m queue msg e h c =
    let fuel : length m.hold_back_queue ≡ suc (length queue) =
      rw e (omega (arith, length-append queue (msg ∷ []))) in
    let rest = deliver_loop (length queue) (tick m.vector_clock msg.uuid) queue in
    (rest.2, rw (fuel, deliver_loop, e, pick_last m.vector_clock queue msg h c))
