-- ===== src/Multicast/Send/Acks.antt =====
-- The acknowledgements that SendMessage of server/multicast/multicast.go waits for.
use distributed_chat_applica.Prelude.{
  ℕ, zero, suc, ◌+◌, ◌≤◌, ◌≡◌, ◌≢◌, List, [], ◌∷◌, ◌++◌, true, false, none, some, length, arith,
  Bool,
}
use distributed_chat_applica.Go.Text.{Bytes, str_eq_refl}
use distributed_chat_applica.Go.Map.{Map, get, delete}
use distributed_chat_applica.Go.FrameMap.{FrameMap, find, store, erase, find-store}
use distributed_chat_applica.Go.Result.{ok}
use distributed_chat_applica.Multicast.Codec.{encode_multicast_message}
use distributed_chat_applica.Multicast.Node.{Multicaster, acks_for, on_ack}
use distributed_chat_applica.Multicast.Send.{
  await_acks, send_message, Round, logs, rebroadcast, multicast_of, begin_multicast,
}

await_acks_last :
    (buffer : FrameMap (Map Bool)) (frame : ℕ) (nodes : List Bytes) (last : Bytes)
    → find (await_acks buffer frame (nodes ++ (last ∷ []))) frame ≡ some ((last, false) ∷ [])
unfolding await_acks
await_acks_last buffer frame [] last =
    ground (arith, find-store buffer frame frame ((last, false) ∷ []))
await_acks_last buffer frame (n ∷ nodes) last =
    await_acks_last (store buffer frame ((n, false) ∷ [])) frame nodes last

-- Of all the nodes that a multicast goes to, its sender waits for the acknowledgement of the last
-- one only: each turn of the loop over the nodes replaces the entry that the turn before made.
pub send_message_awaits_last :
    (m : Multicaster) (data_bytes : Bytes) (nodes : List Bytes) (last : Bytes)
    → get m.vector_clock m.id ≢ none
    → m.node_ids ≡ nodes ++ (last ∷ [])
    → (m' : Multicaster) × (datagram : Bytes) × (send_message m data_bytes ≡ ok (m', datagram))
      × (acks_for m'.buffer_ack m.frame ≡ (last, false) ∷ [])
unfolding send_message
send_message_awaits_last m data_bytes nodes last known e = (
  begin_multicast m,
  encode_multicast_message (multicast_of m data_bytes),
  ground arith,
  rw (e, acks_for, await_acks_last m.buffer_ack m.frame nodes last),
)

acks_after_ack :
    (m : Multicaster) (frame : ℕ) (last : Bytes)
    → acks_for m.buffer_ack frame ≡ (last, false) ∷ []
    → acks_for (on_ack m last frame).buffer_ack frame ≡ []
unfolding on_ack get delete
acks_after_ack m frame last e = ground (
  arith,
  str_eq_refl last,
  find-store m.buffer_ack frame frame (delete (acks_for m.buffer_ack frame) last),
)

-- The goroutine of SendMessage writes the datagram once, and no more, when the node it waits for
-- answers during the first sleep, whatever the other nodes have received.
pub rebroadcast_once :
    (env : ℕ → Round) (m : Multicaster) (datagram : Bytes) (frame : ℕ) (last : Bytes)
    → acks_for m.buffer_ack frame ≡ (last, false) ∷ []
    → logs datagram ≡ true
    → (env 0).quits ≡ false
    → (env 0).write_fails ≡ false
    → (env 0).others m ≡ on_ack m last frame
    → let m' = on_ack m last frame in
      rebroadcast env datagram frame 20 0 m
      ≡ (ok (record m' { buffer_ack = erase m'.buffer_ack frame }), datagram ∷ [])
unfolding rebroadcast
rebroadcast_once env m datagram frame last waits log q w o =
    rw (q, w, log, o, acks_after_ack m frame last waits)

-- The goroutine ends after at most 20 datagrams, whoever answers.
pub rebroadcast_few :
    (env : ℕ → Round) (datagram : Bytes) (frame rounds i : ℕ) (m : Multicaster)
    → length (rebroadcast env datagram frame rounds i m).1 ≤ rounds
unfolding rebroadcast
rebroadcast_few env datagram frame zero i m = omega arith
rebroadcast_few env datagram frame (suc rounds) i m =
    ground (arith, rebroadcast_few env datagram frame rounds (i + 1) ((env i).others m))
