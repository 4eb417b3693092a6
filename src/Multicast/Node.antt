-- ===== src/Multicast/Node.antt =====
-- ReliableMulticast of server/multicast/multicast.go: its state, and one function for each method.
-- Its sending is in Multicast/Send, its listener in Multicast/Listen.
pub mod Copy
pub mod Deliver
pub mod Dead
use distributed_chat_applica.Prelude.{
  ℕ, zero, suc, ◌+◌, ◌-◌, ◌%◌, ◌^◌, List, [], ◌∷◌, ◌++◌, Bool, true, false, none, some, ltb, ◌==◌,
  if◌then◌else◌, length, map, replicate,
}
use distributed_chat_applica.Go.Text.{Bytes, str_eq}
use distributed_chat_applica.Go.Map.{Map, get, put, delete}
use distributed_chat_applica.Go.FrameMap.{FrameMap, find, store, erase}
use distributed_chat_applica.Go.Result.{Result, ok, err, panic}
use distributed_chat_applica.Message as Body
use distributed_chat_applica.Message.New.{new_multicast_ack_message}
use distributed_chat_applica.Multicast.Datagram.{Message}
use distributed_chat_applica.Multicast.Codec.{encode_multicast_message, decode_multicast_message}
use distributed_chat_applica.Multicast.Clock.{tick}
use distributed_chat_applica.Multicast.HoldBack.{deliver_loop}

pub record Multicaster : Type 0 where
  pub id : Bytes
  pub frame : ℕ  -- uint32
  pub vector_clock : Map ℕ
  pub hold_back_queue : List Message
  pub node_ids : List Bytes
  pub buffer_ack : FrameMap (Map Bool)

-- The loop of NewReliableMulticast over the peers, into a slice of `slots` ids.
unfoldable pub fill_nodes : ℕ → Bytes → List Bytes → Result (List Bytes)
fill_nodes slots id [] = ok (replicate slots [])
fill_nodes slots id (p ∷ peers) = elim (str_eq p id) [
  | true ↦ fill_nodes slots id peers
  | false ↦ elim slots [
    | zero ↦ panic
    | suc k ↦ elim (fill_nodes k id peers) [
      | ok nodes ↦ ok (p ∷ nodes)
      | err e ↦ err e
      | panic ↦ panic
    ]
  ]
]

unfoldable pub zero_clocks : Map ℕ → Bytes → List Bytes → Map ℕ
zero_clocks clock id [] = clock
zero_clocks clock id (p ∷ peers) =
    zero_clocks (if str_eq p id then clock else put clock p 0) id peers

-- NewReliableMulticast: the slice has a negative length without peers, and the logger's name takes
-- four bytes of the id.
unfoldable pub new_reliable_multicast : Bytes → List Bytes → Result Multicaster
new_reliable_multicast id peers = elim peers [
  | [] ↦ panic
  | p ∷ rest ↦ if ltb (length id) 4 then panic else elim (fill_nodes (length rest) id (p ∷ rest)) [
    | ok nodes ↦ ok (record {
      id = id;
      frame = 0;
      vector_clock = zero_clocks (put [] id 0) id (p ∷ rest);
      hold_back_queue = [];
      node_ids = nodes;
      buffer_ack = [];
    })
    | err e ↦ err e
    | panic ↦ panic
  ]
]

-- m.bufferAck[frame], empty for a frame that is not there
abbrev pub acks_for : FrameMap (Map Bool) → ℕ → Map Bool
acks_for buffer frame = elim (find buffer frame) [ none ↦ [] | some acks ↦ acks ]

unfoldable pub on_ack : Multicaster → Bytes → ℕ → Multicaster
on_ack m uuid frame = elim (get (acks_for m.buffer_ack frame) uuid) [
  | none ↦ m
  | some _ ↦ record m {
    buffer_ack = store m.buffer_ack frame (delete (acks_for m.buffer_ack frame) uuid);
  }
]

unfoldable pub deliver_messages : Multicaster → Multicaster × List Message
deliver_messages m =
    let (clock, queue, sent) =
      deliver_loop (length m.hold_back_queue) m.vector_clock m.hold_back_queue in
    (record m { vector_clock = clock; hold_back_queue = queue }, sent)

-- The first occurrence of the id in nodeIds goes.
unfoldable pub remove_first : Bytes → List Bytes → List Bytes
remove_first id [] = []
remove_first id (n ∷ nodes) =
    let rest = remove_first id nodes in if str_eq n id then nodes else n ∷ rest

unfoldable pub remove_dead_node : Multicaster → Bytes → Multicaster
remove_dead_node m id = record m {
  node_ids = remove_first id m.node_ids;
  buffer_ack = map (λ e. (e.0, delete (e.1) id)) m.buffer_ack;
}

-- A message without the id in its clock gets it with stamp 0.
unfoldable pub know_node : Bytes → Message → Message
know_node id msg = elim (get msg.vector_clock id) [
  | none ↦ record msg { vector_clock = put msg.vector_clock id 0 }
  | some _ ↦ msg
]

-- AddNewNode: a known node keeps its count, but for this node itself, whose count is set to 0.
unfoldable pub add_new_node : Multicaster → Bytes → Multicaster × List Message
add_new_node m id =
    let reset = put m.vector_clock id 0 in
    let clock : Map ℕ = elim (get m.vector_clock id) [
      | none ↦ reset
      | some _ ↦ if str_eq id m.id then reset else m.vector_clock
    ] in
    deliver_messages
      (record m { vector_clock = clock; hold_back_queue = map (know_node id) m.hold_back_queue })

unfoldable pub has_peer : Multicaster → Bytes → Bool
has_peer m id = elim (get m.vector_clock id) [ none ↦ false | some _ ↦ true ]
