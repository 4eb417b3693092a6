-- ===== src/ChatClient/Causal/Runs.antt =====
-- Two chat messages of a concrete session, up to the screen of a client.
use distributed_chat_applica.Prelude.{
  Merge, left, right, empty, ◌⊎◌, map, ℕ, ◌≢◌, refl, All, List, [], ◌∷◌, Bool, false, Ahead,
  at_head, at_tail, ◌≡◌, Occurs, arith,
}
use distributed_chat_applica.Go.Text.{Bytes, str_eq, str_ne}
use distributed_chat_applica.Go.Map.{get, put}
use distributed_chat_applica.Go.Binary.{put_be, read_be, read_new, be_value}
use distributed_chat_applica.Go.Scanner.{IsLine, drop_cr, scan, split_2}
use distributed_chat_applica.Broadcast.{new_broadcaster}
use distributed_chat_applica.Message as Body
use distributed_chat_applica.Message.New.{new_application_message}
use distributed_chat_applica.Multicast.Clock.{tick, can_deliver, others_seen}
use distributed_chat_applica.Multicast.HoldBack.{pick, deliver_loop}
use distributed_chat_applica.Multicast.Node.{deliver_messages}
use distributed_chat_applica.Multicast.Group.{put_site}
use distributed_chat_applica.Multicast.Group.Order.{directly}
use distributed_chat_applica.Multicast.Group.Session.{
  node_a, node_b, node_c, members, address, c, first_world, first_world-IsNew, b_there, c_there,
  question, answer, question_line, answer_line,
}
use distributed_chat_applica.Multicast.Group.Session.Third.{
  answer_sent, all-Handled, none_begun, last_world, run, b_answered, c_answered,
}
use distributed_chat_applica.StateMachine.{follower}
use distributed_chat_applica.Server.{Server, chat}
use distributed_chat_applica.Server.Handlers.{on_multicast_message}
use distributed_chat_applica.Server.Clients.{
  ClientServer, Turn, opens, reads, chats, run_turns, on_turn, send_message_to_connected_clients,
  add_client,
}
use distributed_chat_applica.Server.Clients.Sessions.{written, heard, echoed}
use distributed_chat_applica.ChatClient.{listen, listen_lines}
use distributed_chat_applica.ChatClient.Reads.{line_of, shown, IsName}
use distributed_chat_applica.Multicast.Datagram.{Message}
use distributed_chat_applica.ChatClient.Causal.Sent.{Tells, shown_was_sent}
use distributed_chat_applica.ChatClient.Causal.{
  shown_as, Carries, Listens, quiet, round, deliveries, all_chats_shown, chats_in_causal_order,
}

abbrev asker : Bytes × Bytes
asker = (117 ∷ [], 104 ∷ [])

abbrev answerer : Bytes × Bytes
answerer = (118 ∷ [], 107 ∷ [])

-- The server on node c.
abbrev server_c : Server
server_c = record {
  id = node_c;
  leader_id = node_a;
  sm = follower;
  state = follower;
  rm = c;
  rm_closed = false;
  rm_port = 5010;
  broadcaster = new_broadcaster node_c;
  peers = [];
  election_map = [];
}

abbrev no_ip : Bytes → Bool
no_ip text = false

abbrev sessions : ClientServer
sessions = record { ip = 49 ∷ []; clients = [] }

-- A user of the server itself, on connection 9.
abbrev neighbour : Bytes × Bytes
neighbour = (119 ∷ [], 109 ∷ [])

abbrev turns : List Turn
turns =
    opens 7
    ∷ opens 9
    ∷ reads 9 (line_of neighbour)
    ∷ chats question_line
    ∷ chats (line_of neighbour)
    ∷ chats answer_line
    ∷ []

abbrev users : List (Bytes × Bytes)
users = asker ∷ neighbour ∷ answerer ∷ []

all_heard :
    Merge
      (question_line ∷ answer_line ∷ [])
      (echoed (run_turns turns sessions))
      (heard 7 false turns)
unfolding run_turns on_turn send_message_to_connected_clients add_client
all_heard = left question_line (right (line_of neighbour) (left answer_line empty))

question-Carries : Carries question asker
unfolding new_application_message Body.encode put_be
question-Carries = record {
  name = ((λ e. absurd (omega arith)), tt);
  fits = omega arith;
  made = refl;
}

answer-Carries : Carries answer answerer
unfolding new_application_message Body.encode put_be
answer-Carries = record {
  name = ((λ e. absurd (omega arith)), tt);
  fits = omega arith;
  made = refl;
}

short-IsLine : (u v : ℕ) → u ≢ 10 → v ≢ 10 → v ≢ 13 → IsLine (u ∷ 58 ∷ v ∷ [])
unfolding drop_cr
short-IsLine u v one two three = record {
  one_line = (one, ((λ e. absurd (omega arith)), (two, tt)));
  no_cr = ground arith;
  fits = omega arith;
}

listens :
    Listens node_c
      (deliveries node_c (last_world.site node_c).log)
      (chat question_line ∷ chat answer_line ∷ [])
unfolding put_site str_eq deliver_messages deliver_loop pick can_deliver others_seen tick get put
    on_multicast_message Body.decode Body.decode_body read_new read_be be_value
    Body.decode_application
listens =
    round {m = question} {es = chat question_line ∷ []} server_c server_c refl refl
      (round {m = answer} {es = chat answer_line ∷ []} server_c server_c refl refl quiet)

lines-IsLine : All IsLine (map line_of users)
lines-IsLine = (
  short-IsLine 117 104 (λ e. absurd (omega arith)) (λ e. absurd (omega arith))
      (λ e. absurd (omega arith)),
  (
    short-IsLine 119 109 (λ e. absurd (omega arith)) (λ e. absurd (omega arith))
        (λ e. absurd (omega arith)),
    (
      short-IsLine 118 107 (λ e. absurd (omega arith)) (λ e. absurd (omega arith))
          (λ e. absurd (omega arith)),
      tt,
    ),
  ),
)

names-IsName : All (λ c. IsName (c.0)) users
names-IsName =
    (question-Carries.name, (((λ e. absurd (omega arith)), tt), (answer-Carries.name, tt)))

chats_in_causal_order_example :
    Ahead (shown asker) (shown answerer) (listen no_ip (written 7 (run_turns turns sessions))).0
unfolding str_eq
chats_in_causal_order_example =
    chats_in_causal_order members address no_ip first_world last_world node_c question answer asker
      answerer (question ∷ []) (chat question_line ∷ chat answer_line ∷ []) sessions turns 7 users
      first_world-IsNew run c_there (directly b_there b_answered at_head) c_answered
      (str_ne node_a node_c refl) (str_ne node_b node_c refl) question-Carries answer-Carries
      listens refl (refl, (refl, tt)) all_heard refl names-IsName lines-IsLine

all_chats_shown_example :
    Occurs (shown answerer) (listen no_ip (written 7 (run_turns turns sessions))).0
unfolding str_eq
all_chats_shown_example =
    all_chats_shown members address no_ip first_world last_world node_c
      (chat question_line ∷ chat answer_line ∷ []) sessions turns 7 users first_world-IsNew run
      c_there all-Handled none_begun listens refl (refl, (refl, tt)) all_heard refl names-IsName
      lines-IsLine answer answerer answer_sent (str_ne node_b node_c refl) answer-Carries

answer_seen : Occurs (shown answerer) (listen no_ip (written 7 (run_turns turns sessions))).0
unfolding listen listen_lines scan run_turns on_turn send_message_to_connected_clients add_client
    split_2 drop_cr
answer_seen = at_tail (shown asker) (at_tail (shown neighbour) at_head)

shown_was_sent_example :
    (text : Bytes) × (shown answerer ≡ shown_as text)
    × (Occurs text (echoed (run_turns turns sessions))
        ⊎ ((x : Message) × Occurs x last_world.sent
            × Occurs x.uuid members
            × (x.uuid ≢ node_c)
            × Tells x text))
unfolding str_eq
shown_was_sent_example =
    shown_was_sent members address no_ip first_world last_world node_c
      (chat question_line ∷ chat answer_line ∷ []) sessions turns 7 users (shown answerer)
      first_world-IsNew run c_there listens refl (refl, (refl, tt)) all_heard refl names-IsName
      lines-IsLine answer_seen
