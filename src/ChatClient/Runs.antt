-- ===== src/ChatClient/Runs.antt =====
-- Chat clients at concrete streams, and a chat message between two servers.
use distributed_chat_applica.Prelude.{
  ◌≤◌, length, ◌≡◌, ◌≢◌, refl, [], ◌∷◌, ◌++◌, List, Bool, true, false, some, none, map, replicate,
  ◌==◌, arith,
}
use distributed_chat_applica.Go.Text.{Bytes, str_eq, str_ne}
use distributed_chat_applica.Go.Map.{get, put}
use distributed_chat_applica.Go.Result.{ok}
use distributed_chat_applica.Go.Binary.{put_be}
use distributed_chat_applica.Go.Scanner.{scan, write_lines, drop_cr, IsLine}
use distributed_chat_applica.Broadcast.{new_broadcaster}
use distributed_chat_applica.Message as Body
use distributed_chat_applica.Message.New.{new_application_message}
use distributed_chat_applica.Multicast.Datagram as Multicast
use distributed_chat_applica.Multicast.Codec.{encode_multicast_message, encode_clock}
use distributed_chat_applica.Wire.{fixed_id}
use distributed_chat_applica.Unicast.Codec.Malformed.{buffer_size}
use distributed_chat_applica.Multicast.Codec.RoundTrip.{IsSendable}
use distributed_chat_applica.Multicast.Clock.{tick}
use distributed_chat_applica.Multicast.Node.{Multicaster}
use distributed_chat_applica.Multicast.Send.{multicast_of}
use distributed_chat_applica.Multicast.Send.Arrives.{CaughtUp}
use distributed_chat_applica.Multicast.Listen.{deliver, ack, arrived, receive, hold_back}
use distributed_chat_applica.StateMachine.{leader}
use distributed_chat_applica.Server.{Server, chat}
use distributed_chat_applica.Server.Handlers.{on_multicast_message}
use distributed_chat_applica.Server.Clients.{
  ClientServer, get_random_peer_id, on_accept, send_chat, send_message_to_connected_clients,
}
use distributed_chat_applica.Server.Clients.Accept.{has_address}
use distributed_chat_applica.ChatClient.{
  Client, plain, from, send_message_to_server, listen, opens, fails, search_again, visits,
}
use distributed_chat_applica.ChatClient.Reads.{
  line_of, shown, IsName, listen-write_lines, listen-bare_ip, visits_redirected,
}
use distributed_chat_applica.ChatClient.Chat.{chat_arrives}

-- A stand-in for net.ParseIP: four characters, of which the second is a dot.
abbrev looks_like_ip : Bytes → Bool
looks_like_ip (a ∷ b ∷ c ∷ d ∷ []) = b == 46
looks_like_ip _ = false

abbrev hello : Bytes × Bytes
hello = (117 ∷ [], 104 ∷ [])

hello-IsLine : IsLine (line_of hello)
unfolding drop_cr
hello-IsLine = record {
  one_line = (
    (λ e. absurd (omega arith)),
    ((λ e. absurd (omega arith)), ((λ e. absurd (omega arith)), tt)),
  );
  no_cr = refl;
  fits = omega arith;
}

hello-IsName : IsName (117 ∷ [])
hello-IsName = ((λ e. absurd (omega arith)), tt)

listen-write_lines_example :
    listen looks_like_ip (write_lines (map line_of (hello ∷ hello ∷ [])))
    ≡ (map shown (hello ∷ hello ∷ []), none)
listen-write_lines_example =
    listen-write_lines looks_like_ip (hello ∷ hello ∷ []) (hello-IsName, (hello-IsName, tt))
      (hello-IsLine, (hello-IsLine, tt))

abbrev address : Bytes
address = 49 ∷ 46 ∷ 50 ∷ 51 ∷ []

address-IsName : IsName address
address-IsName = (
  (λ e. absurd (omega arith)),
  ((λ e. absurd (omega arith)), ((λ e. absurd (omega arith)), ((λ e. absurd (omega arith)), tt))),
)

address-IsLine : IsLine address
unfolding drop_cr
address-IsLine = record {
  one_line = (
    (λ e. absurd (omega arith)),
    ((λ e. absurd (omega arith)), ((λ e. absurd (omega arith)), ((λ e. absurd (omega arith)), tt))),
  );
  no_cr = refl;
  fits = omega arith;
}

listen-bare_ip_example :
    listen looks_like_ip (write_lines (map line_of (hello ∷ []) ++ address ∷ line_of hello ∷ []))
    ≡ (map shown (hello ∷ []) ++ plain address ∷ [], some address)
listen-bare_ip_example =
    listen-bare_ip looks_like_ip (hello ∷ []) address (line_of hello ∷ []) (hello-IsName, tt) refl
      address-IsName (hello-IsLine, (address-IsLine, (hello-IsLine, tt)))

abbrev server_a : Bytes
server_a = replicate 36 97

abbrev server_b : Bytes
server_b = replicate 36 98

abbrev node : Bytes → Server
node id = record {
  id = id;
  leader_id = server_a;
  sm = leader;
  state = leader;
  rm = record {
    id = id;
    frame = 0;
    vector_clock = (server_a, 0) ∷ (server_b, 0) ∷ [];
    hold_back_queue = [];
    node_ids = [];
    buffer_ack = [];
  };
  rm_closed = false;
  rm_port = 5010;
  broadcaster = new_broadcaster id;
  peers = (server_a, 49 ∷ 46 ∷ 50 ∷ 50 ∷ []) ∷ (server_b, address) ∷ [];
  election_map = [];
}

abbrev user : Client
user = record { username = 117 ∷ []; connected = true }

abbrev sessions : ClientServer
sessions = record { ip = 49 ∷ 46 ∷ 50 ∷ 50 ∷ []; clients = [] }

visits_redirected_example :
    (address ≢ sessions.ip)
    × (has_address address (node server_a).peers ≡ true)
    × (visits looks_like_ip user search_again ((49 ∷ [], opens address) ∷ (50 ∷ [], fails) ∷ [])
        ≡ ok ((49 ∷ []) ∷ address ∷ []))
unfolding on_accept get_random_peer_id str_eq
visits_redirected_example =
    visits_redirected looks_like_ip user sessions (node server_a) 1 (49 ∷ []) address (50 ∷ [])
      fails refl refl address-IsName address-IsLine (str_ne address [] refl)

-- `u:h` as an application message.
abbrev body : Bytes
body = 5 ∷ 0 ∷ 0 ∷ 0 ∷ 3 ∷ line_of hello

hello_made : new_application_message (line_of hello) ≡ ok body
unfolding new_application_message Body.encode put_be
hello_made = refl

hello-IsSendable : IsSendable (multicast_of (node server_a).rm body)
unfolding tick get put str_eq
hello-IsSendable = record {
  frame_fits = omega arith;
  id_fixed = refl;
  clock_fits = omega arith;
  is_clock = (refl, omega arith, refl, (refl, omega arith, refl, tt));
  payload_fits = omega arith;
  payload_nonempty = omega arith;
}

hello-short : length (encode_multicast_message (multicast_of (node server_a).rm body)) ≤ buffer_size
unfolding tick get put str_eq encode_multicast_message encode_clock fixed_id put_be
hello-short = omega arith

abbrev two_clients : ClientServer
two_clients = record { ip = address; clients = 3 ∷ 8 ∷ [] }

b-CaughtUp : CaughtUp (node server_a).rm (node server_b).rm.vector_clock
unfolding get str_eq
b-CaughtUp = record {
  count = 0;
  sent = refl;
  delivered = refl;
  fits = omega arith;
  others = λ k n ne e. record { stamp = n; stamped = e; seen = omega arith };
}

chat_arrives_example :
    let sent = line_of hello ++ 10 ∷ [] in
    (send_message_to_server user (104 ∷ []) ≡ ok sent)
    × (scan [] sent ≡ line_of hello ∷ [])
    × ((rm : Multicaster) × (datagram : Bytes) × (acked : Bytes) × (msg : Multicast.Message)
        × (more : List Multicast.Message) × (send_chat (node server_a) (line_of hello)
            ≡ ok (record (node server_a) { rm = rm }, datagram))
        × (receive (node server_b).rm datagram (51 ∷ [])
            ≡ ok ((node server_b).rm, ack (51 ∷ []) server_a acked ∷ arrived msg ∷ []))
        × ((hold_back (node server_b).rm msg).1 ≡ deliver msg ∷ map deliver more)
        × (on_multicast_message (node server_b) msg
            ≡ ok (node server_b, chat (line_of hello) ∷ [])))
    × (send_message_to_connected_clients two_clients (line_of hello) ≡ (3, sent) ∷ (8, sent) ∷ [])
    × (listen looks_like_ip sent ≡ (from (117 ∷ []) (104 ∷ []) ∷ [], none))
unfolding get str_eq
chat_arrives_example =
    chat_arrives looks_like_ip user (104 ∷ []) (node server_a) (node server_b) two_clients (51 ∷ [])
      body refl hello-IsName hello-IsLine hello_made hello-IsSendable hello-short refl
      (str_ne server_a server_b refl) (refl, (refl, tt)) b-CaughtUp tt
