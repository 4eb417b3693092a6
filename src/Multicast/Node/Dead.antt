-- ===== src/Multicast/Node/Dead.antt =====
-- RemoveDeadNode of server/multicast/multicast.go.
use distributed_chat_applica.Prelude.{ℕ, ◌≡◌, refl, [], ◌∷◌, Bool, none, if◌then◌else◌, map, arith}
use distributed_chat_applica.Go.Text.{Bytes, str_eq}
use distributed_chat_applica.Go.Map.{Map, get, delete, get-delete}
use distributed_chat_applica.Go.FrameMap.{FrameMap, find}
use distributed_chat_applica.Multicast.Node.{Multicaster, acks_for, remove_dead_node}

acks_for-map :
    (buffer : FrameMap (Map Bool)) (id : Bytes) (frame : ℕ)
    → acks_for (map (λ e. (e.0, delete (e.1) id)) buffer) frame ≡ delete (acks_for buffer frame) id
unfolding find delete
acks_for-map [] id frame = refl
acks_for-map ((g, acks) ∷ buffer) id frame = ground (arith, acks_for-map buffer id frame)

-- No multicast waits for a dead node any more, and each still waits for the others it waited for;
-- the vector clock and the hold-back queue stay as they were.
pub remove_dead_node_lem :
    (m : Multicaster) (id uuid : Bytes) (frame : ℕ)
    → let m' = remove_dead_node m id in
      (get (acks_for m'.buffer_ack frame) uuid
        ≡ (if str_eq id uuid then none else get (acks_for m.buffer_ack frame) uuid))
      × (m'.vector_clock ≡ m.vector_clock)
      × (m'.hold_back_queue ≡ m.hold_back_queue)
unfolding remove_dead_node
remove_dead_node_lem m id uuid frame = (
  rw (acks_for, acks_for-map m.buffer_ack id frame)
      (get-delete (acks_for m.buffer_ack frame) id uuid),
  refl,
  refl,
)
