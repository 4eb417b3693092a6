-- ===== src/Multicast/Runs.antt =====
-- Tests of server/multicast/multicast.go, and the theorems at concrete nodes and messages.
use distributed_chat_applica.Prelude.{
  ℕ, ◌≡◌, refl, ◌↔◌, inl, [], ◌∷◌, true, false, replicate, arith,
}
use distributed_chat_applica.Go.Text.{Bytes, str_eq}
use distributed_chat_applica.Go.Map.{Map, get, put, Distinct}
use distributed_chat_applica.Go.Result.{ok, panic, eof}
use distributed_chat_applica.Go.Binary.{read_be, be_value}
use distributed_chat_applica.Message as Body
use distributed_chat_applica.Multicast.Datagram.{Message}
use distributed_chat_applica.Multicast.Codec.{
  encode_multicast_message, decode_multicast_message, decode_message,
}
use distributed_chat_applica.Multicast.Codec.RoundTrip.{
  IsSendable, decode_multicast_message-encode_multicast_message,
}
use distributed_chat_applica.Multicast.Clock.{can_deliver, tick, others_seen}
use distributed_chat_applica.Multicast.Clock.Causal.{Ready, can_deliver_iff}
use distributed_chat_applica.Multicast.HoldBack.{pick, deliver_loop}
use distributed_chat_applica.Multicast.HoldBack.Order.{Delivers}
use distributed_chat_applica.Multicast.Node.{
  Multicaster, new_reliable_multicast, fill_nodes, zero_clocks, on_ack, deliver_messages,
}
use distributed_chat_applica.Multicast.Node.Deliver.{deliver_messages-Delivers}
use distributed_chat_applica.Multicast.Send.{
  Round, logs, begin_multicast, multicast_of, send_message,
}
use distributed_chat_applica.Multicast.Send.Arrives.{CaughtUp}
use distributed_chat_applica.Multicast.Listen.{hold_back, receive}
use distributed_chat_applica.Multicast.Listen.Malformed.{receive_panics}
use distributed_chat_applica.Multicast.Reach.{Keeps}
use distributed_chat_applica.Multicast.Reach.Steps.{stay, after, acked, holds, Steps-Keeps}
use distributed_chat_applica.Multicast.Reach.Start.{node_can_send}

abbrev node_a : Bytes
node_a = replicate 36 97

abbrev node_b : Bytes
node_b = replicate 36 98

abbrev node_c : Bytes
node_c = replicate 36 99

-- The body of a heartbeat message.
abbrev body : Bytes
body = 4 ∷ []

-- Node c has seen nothing, and node a sends a first message, which b answers.
abbrev quiet : Map ℕ
quiet = (node_a, 0) ∷ (node_b, 0) ∷ (node_c, 0) ∷ []

abbrev question : Message
question = record {
  frame = 0;
  ip = [];
  uuid = node_a;
  vector_clock = (node_a, 1) ∷ (node_b, 0) ∷ (node_c, 0) ∷ [];
  message = body;
}

abbrev answer : Message
answer = record {
  frame = 0;
  ip = [];
  uuid = node_b;
  vector_clock = (node_b, 1) ∷ (node_a, 1) ∷ (node_c, 0) ∷ [];
  message = body;
}

-- The answer came first.
abbrev waiting : Multicaster
waiting = record {
  id = node_c;
  frame = 0;
  vector_clock = quiet;
  hold_back_queue = answer ∷ question ∷ [];
  node_ids = node_a ∷ node_b ∷ [];
  buffer_ack = [];
}

abbrev sender : Multicaster
sender = record {
  id = node_a;
  frame = 0;
  vector_clock = (node_a, 0) ∷ (node_b, 0) ∷ (node_c, 0) ∷ [];
  hold_back_queue = [];
  node_ids = node_b ∷ node_c ∷ [];
  buffer_ack = [];
}

abbrev idle : Multicaster
idle = record waiting { hold_back_queue = [] }

waiting_delivers : (deliver_messages waiting).1 ≡ question ∷ answer ∷ []
unfolding deliver_messages deliver_loop pick can_deliver others_seen tick get put str_eq
waiting_delivers = refl

abbrev after_answer : Multicaster
after_answer = (hold_back idle answer).0

deliver_messages-Delivers_example :
    let (m', sent) = deliver_messages waiting in Delivers m'.vector_clock quiet sent
deliver_messages-Delivers_example = deliver_messages-Delivers waiting

can_deliver_iff_example : (can_deliver quiet answer ≡ (true, false)) ↔ Ready quiet answer
unfolding get str_eq
can_deliver_iff_example = can_deliver_iff quiet answer (refl, (refl, (refl, tt)))

question-IsSendable : IsSendable (multicast_of sender body)
unfolding tick get put str_eq
question-IsSendable = record {
  frame_fits = omega arith;
  id_fixed = refl;
  clock_fits = omega arith;
  is_clock = (refl, omega arith, refl, (refl, omega arith, refl, (refl, omega arith, refl, tt)));
  payload_fits = omega arith;
  payload_nonempty = omega arith;
}

decode_multicast_message-encode_multicast_message_example :
    decode_multicast_message (encode_multicast_message (multicast_of sender body)) (49 ∷ [])
    ≡ ok (record (multicast_of sender body) { ip = 49 ∷ [] })
decode_multicast_message-encode_multicast_message_example =
    decode_multicast_message-encode_multicast_message (multicast_of sender body) (49 ∷ [])
      question-IsSendable

idle-CaughtUp : CaughtUp sender quiet
unfolding get str_eq
idle-CaughtUp = record {
  count = 0;
  sent = refl;
  delivered = refl;
  fits = omega arith;
  others = λ k n ne e. record { stamp = n; stamped = e; seen = omega arith };
}

-- Node c answers during the first sleep.
abbrev c_answers : ℕ → Round
c_answers i = record { quits = false; write_fails = false; others = λ m. on_ack m node_c 0 }

datagram_logs : logs (encode_multicast_message (multicast_of sender body)) ≡ true
unfolding logs Body.decode Body.decode_body read_be be_value
datagram_logs = rw (
  decode_multicast_message-encode_multicast_message (multicast_of sender body)
      (102 ∷ 111 ∷ 111 ∷ []) question-IsSendable,
  logs,
)

Steps-Keeps_example : Keeps idle (on_ack (hold_back idle question).0 node_a 0)
Steps-Keeps_example = Steps-Keeps (after (after stay (holds question)) (acked node_a 0))

abbrev started : Multicaster
started = record sender { vector_clock = (node_a, 0) ∷ (node_b, 0) ∷ (node_c, 0) ∷ [] }

node_can_send_example :
    (send_message started body
      ≡ ok (begin_multicast started, encode_multicast_message (multicast_of started body)))
    × Distinct started.vector_clock
unfolding new_reliable_multicast fill_nodes zero_clocks get put str_eq
node_can_send_example =
    node_can_send node_a (node_a ∷ node_b ∷ node_c ∷ []) started started body refl stay

receive_panics_example : receive idle [] [] ≡ panic
unfolding decode_multicast_message decode_message read_be
receive_panics_example = receive_panics idle [] [] (λ e. cc) (inl (eof, refl))
