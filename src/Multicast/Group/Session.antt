-- ===== src/Multicast/Group/Session.antt =====
-- A session of three nodes of server/multicast/multicast.go, where one node asks, one answers, and the
-- third hears the answer first.
pub mod Third
use distributed_chat_applica.Prelude.{
  ◌≡◌, refl, List, [], ◌∷◌, Occurs, at_head, at_tail, if◌then◌else◌, replicate, length, take_all,
  ◌≤◌, arith,
}
use distributed_chat_applica.Go.Text.{Bytes, str_eq}
use distributed_chat_applica.Go.Map.{get, put}
use distributed_chat_applica.Go.Result.{ok}
use distributed_chat_applica.Go.Binary.{read_be, read_new, be_value, put_be}
use distributed_chat_applica.Message as Body
use distributed_chat_applica.Multicast.Datagram.{Message}
use distributed_chat_applica.Multicast.Codec.{encode_multicast_message, encode_clock}
use distributed_chat_applica.Wire.{fixed_id}
use distributed_chat_applica.Unicast.Codec.Malformed.{buffer_size}
use distributed_chat_applica.Multicast.Codec.RoundTrip.{
  decode_multicast_message-encode_multicast_message,
}
use distributed_chat_applica.Multicast.Listen.{ack, arrived, receive, on_multicast, on_body, Event}
use distributed_chat_applica.Message.New.{new_multicast_ack_message}
use distributed_chat_applica.Multicast.Clock.{tick, can_deliver, others_seen}
use distributed_chat_applica.Multicast.HoldBack.{pick, deliver_loop}
use distributed_chat_applica.Multicast.HoldBack.Picked.{here}
use distributed_chat_applica.Multicast.Node.{
  Multicaster, deliver_messages, new_reliable_multicast, fill_nodes, zero_clocks,
}
use distributed_chat_applica.Multicast.Send.{multicast_of, begin_multicast, send_message}
use distributed_chat_applica.Multicast.Group.{
  World, put_site, with_site, site_heard, site_queued, site_delivered, CanSend, message_at,
  world_sent, Move, sends, hears, queues, delivers, Run, start, after, IsNew,
}
use distributed_chat_applica.Multicast.Group.Sound.{After, newest}

abbrev pub node_a : Bytes
node_a = replicate 36 97

abbrev pub node_b : Bytes
node_b = replicate 36 98

abbrev pub node_c : Bytes
node_c = replicate 36 99

abbrev pub members : List Bytes
members = node_a ∷ node_b ∷ node_c ∷ []

abbrev pub address : Bytes → Bytes
address i = 49 ∷ []

-- The lines `u:h` and `v:k`, and the application messages that carry them.
abbrev pub question_line : Bytes
question_line = 117 ∷ 58 ∷ 104 ∷ []

abbrev pub answer_line : Bytes
answer_line = 118 ∷ 58 ∷ 107 ∷ []

abbrev pub question_body : Bytes
question_body = 5 ∷ 0 ∷ 0 ∷ 0 ∷ 3 ∷ question_line

abbrev pub answer_body : Bytes
answer_body = 5 ∷ 0 ∷ 0 ∷ 0 ∷ 3 ∷ answer_line

abbrev pub new_node : Bytes → Bytes → Bytes → Multicaster
new_node id p q = record {
  id = id;
  frame = 0;
  vector_clock = (id, 0) ∷ (p, 0) ∷ (q, 0) ∷ [];
  hold_back_queue = [];
  node_ids = p ∷ q ∷ [];
  buffer_ack = [];
}

abbrev pub a : Multicaster
a = new_node node_a node_b node_c

abbrev pub b : Multicaster
b = new_node node_b node_a node_c

abbrev pub c : Multicaster
c = new_node node_c node_a node_b

abbrev pub first_world : World
first_world = record {
  site = λ k. record {
    node = if str_eq k node_a then a else if str_eq k node_b then b else c;
    waiting = [];
    begun = [];
    log = [];
  };
  net = [];
  sent = [];
}

pub a_there : Occurs node_a members
a_there = at_head

pub b_there : Occurs node_b members
b_there = at_tail node_a at_head

pub c_there : Occurs node_c members
c_there = at_tail node_a (at_tail node_b at_head)

made :
    (i : Bytes) → Occurs i members → new_reliable_multicast i members ≡ ok (first_world.site i).node
unfolding new_reliable_multicast fill_nodes zero_clocks str_eq put
made _ at_head = refl
made _ (at_tail _ at_head) = refl
made _ (at_tail _ (at_tail _ at_head)) = refl
made _ (at_tail _ (at_tail _ (at_tail _ o))) = elim o [ ]

pub first_world-IsNew : IsNew members address first_world
first_world-IsNew = record {
  peers = λ i. members;
  made = made;
  all_there = λ i k o o'. o';
  no_others = λ i k o o'. o';
  no_waiting = λ i o. refl;
  no_begun = λ i o. refl;
  no_log = λ i o. refl;
  no_net = refl;
  no_sent = refl;
}

-- Node a sends a question.
abbrev pub question : Message
question = message_at members address node_a a question_body

abbrev pub question_datagram : Bytes
question_datagram = encode_multicast_message (multicast_of a question_body)

abbrev pub asked : World
asked =
    world_sent members address first_world node_a question_body (begin_multicast a)
      question_datagram

pub short : length question_datagram ≤ buffer_size
unfolding tick get put str_eq encode_multicast_message encode_clock fixed_id put_be
short = omega arith

pub can_ask : CanSend a question_body question_datagram
unfolding tick get put str_eq Body.decode Body.decode_body read_new read_be be_value
    Body.decode_application
can_ask = record {
  fits = record {
    frame_fits = omega arith;
    id_fixed = refl;
    clock_fits = omega arith;
    is_clock = (refl, omega arith, refl, (refl, omega arith, refl, (refl, omega arith, refl, tt)));
    payload_fits = omega arith;
    payload_nonempty = omega arith;
  };
  short = short;
  body = record (Body.of_type 5) { msg = question_line };
  reads = refl;
  kind = λ e. absurd (omega arith);
  below = omega arith;
}

abbrev pub heard_question : List Event
heard_question = ack (49 ∷ []) node_a (10 ∷ 0 ∷ 0 ∷ 0 ∷ 0 ∷ []) ∷ arrived question ∷ []

pub b_hears : receive b question_datagram (49 ∷ []) ≡ ok (b, heard_question)
unfolding receive on_multicast on_body str_eq new_multicast_ack_message Body.encode put_be
    Body.decode Body.decode_body read_new read_be be_value Body.decode_application
b_hears =
    rw
      (
        take_all buffer_size question_datagram short,
        decode_multicast_message-encode_multicast_message (multicast_of a question_body) (49 ∷ [])
            can_ask.fits,
        receive,
      )
      refl

unfoldable pub asks : Move members address first_world asked
unfolding send_message str_eq get
asks = sends node_a question_body question_datagram a_there refl can_ask

-- Node b hears it, delivers it, and answers.
abbrev pub b_heard : World
b_heard = with_site asked node_b (site_heard (asked.site node_b) b heard_question)

unfoldable pub b_hears_it : Move members address asked b_heard
unfolding put_site str_eq
b_hears_it = hears node_b question_datagram (49 ∷ []) heard_question b_there at_head b_hears

abbrev pub b_queued : World
b_queued = with_site b_heard node_b (site_queued (b_heard.site node_b) question [])

unfoldable pub b_queues : Move members address b_heard b_queued
unfolding put_site str_eq
b_queues = queues node_b question [] b_there here

abbrev pub b_delivered : World
b_delivered = with_site b_queued node_b (site_delivered (b_queued.site node_b) [])

unfoldable pub b_delivers : Move members address b_queued b_delivered
unfolding put_site str_eq
b_delivers = delivers node_b question [] b_there here

abbrev pub b_then : Multicaster
b_then = record b { vector_clock = (node_b, 0) ∷ (node_a, 1) ∷ (node_c, 0) ∷ [] }

abbrev pub answer : Message
answer = message_at members address node_b b_then answer_body

abbrev pub answer_datagram : Bytes
answer_datagram = encode_multicast_message (multicast_of b_then answer_body)

pub answer_short : length answer_datagram ≤ buffer_size
unfolding tick get put str_eq encode_multicast_message encode_clock fixed_id put_be
answer_short = omega arith

pub can_answer : CanSend b_then answer_body answer_datagram
unfolding tick get put str_eq Body.decode Body.decode_body read_new read_be be_value
    Body.decode_application
can_answer = record {
  fits = record {
    frame_fits = omega arith;
    id_fixed = refl;
    clock_fits = omega arith;
    is_clock = (refl, omega arith, refl, (refl, omega arith, refl, (refl, omega arith, refl, tt)));
    payload_fits = omega arith;
    payload_nonempty = omega arith;
  };
  short = answer_short;
  body = record (Body.of_type 5) { msg = answer_line };
  reads = refl;
  kind = λ e. absurd (omega arith);
  below = omega arith;
}

abbrev pub answered : World
answered =
    world_sent members address b_delivered node_b answer_body (begin_multicast b_then)
      answer_datagram

unfoldable pub answers : Move members address b_delivered answered
unfolding put_site str_eq deliver_messages deliver_loop pick can_deliver others_seen tick get put
    send_message
answers = sends node_b answer_body answer_datagram b_there refl can_answer
