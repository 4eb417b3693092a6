-- ===== src/Unicast/Runs.antt =====
-- Tests of server/unicast/unicast.go, and the theorems at concrete states and datagrams.
use distributed_chat_applica.Prelude.{
  ℕ, zero, suc, ◌+◌, ◌-◌, ◌≡◌, refl, ◌≢◌, List, [], ◌∷◌, ◌++◌, false, none, some, length, take,
  replicate, arith, map, All,
}
use distributed_chat_applica.Go.Text.{Bytes, str_eq}
use distributed_chat_applica.Go.Map.{get, put}
use distributed_chat_applica.Go.Format.{sprintf}
use distributed_chat_applica.Go.Result.{ok}
use distributed_chat_applica.Unicast.Datagram.{Message}
use distributed_chat_applica.Unicast.Codec.{encode_unicast_message, decode_unicast_message}
use distributed_chat_applica.Unicast.Codec.RoundTrip.{
  arrived, IsSendable, decode_unicast_message-encode_unicast_message,
}
use distributed_chat_applica.Unicast.Codec.Malformed.{buffer_size, decode_unicast_message-buffer}
use distributed_chat_applica.Unicast.Listener.{
  Listener, Event, receive_all, new_listener, l_ack, deliver, last_frame, run, ack_for, on_message,
}
use distributed_chat_applica.Unicast.Listener.Frames.{frames}
use distributed_chat_applica.Unicast.Listener.Filed.{IsFiled}
use distributed_chat_applica.Unicast.Listener.Order.{ClimbsTo, run-ClimbsTo}
use distributed_chat_applica.Unicast.Listener.Gaps.{IsForMe, gap_stalls}
use distributed_chat_applica.Unicast.Listener.Once.{delivered}
use distributed_chat_applica.Unicast.Sender.{
  Sender, new_sender, Round, send, handle_dead_node, on_s_ack, message_for, begin_send,
}
use distributed_chat_applica.Unicast.Sender.Retries.{state_after, Pending}
use distributed_chat_applica.Unicast.Sender.Send.{Ends, index_for, send-Ends}
use distributed_chat_applica.Unicast.EndToEnd.Datagrams.{Fits, datagrams, delivered-datagrams}
use distributed_chat_applica.Unicast.EndToEnd.{Transfer, copy, restarted_is_lost}

abbrev node_a : Bytes
node_a = replicate 36 97

abbrev node_b : Bytes
node_b = replicate 36 98

abbrev hello : Message
hello = record {
  response = 0;
  frame = 1;
  tries = 0;
  from_uuid = node_a;
  to_uuid = node_b;
  ip = 49 ∷ [];
  message = 104 ∷ 105 ∷ [];
}

hello-IsSendable : IsSendable hello
hello-IsSendable = record {
  response_fits = omega arith;
  frame_fits = omega arith;
  tries_fits = omega arith;
  payload_fits = omega arith;
  payload_nonempty = λ h. omega arith;
}

decode_unicast_message-encode_unicast_message_example :
    decode_unicast_message (encode_unicast_message hello) (50 ∷ []) ≡ ok (arrived (50 ∷ []) hello)
decode_unicast_message-encode_unicast_message_example =
    decode_unicast_message-encode_unicast_message hello (50 ∷ []) hello-IsSendable

abbrev long : Message
long = record hello { message = replicate 1000 7 }

long-IsSendable : IsSendable long
long-IsSendable = record {
  response_fits = omega arith;
  frame_fits = omega arith;
  tries_fits = omega arith;
  payload_fits = omega arith;
  payload_nonempty = λ h. omega arith;
}

decode_unicast_message-buffer_example :
    decode_unicast_message (take buffer_size (encode_unicast_message long)) []
    ≡ ok (record (arrived [] long) {
      message = take 934 long.message ++ replicate (length long.message - 934) 0;
    })
decode_unicast_message-buffer_example =
    decode_unicast_message-buffer long [] long-IsSendable (omega arith) (omega arith)

-- A node that has seen nothing yet, and one that has seen the first frame of the other.
abbrev fresh : Listener
fresh = new_listener node_b

abbrev met : Listener
met = record { uuid = node_b; msg_buf = []; peer_frame = (node_a, 1) ∷ [] }

abbrev second : Message
second = record hello { frame = 2; message = 50 ∷ [] }

fresh-IsFiled : IsFiled fresh.msg_buf
unfolding get
fresh-IsFiled = record { filed = λ peer f m size fits found. cc }

run-ClimbsTo_example :
    ClimbsTo
      (last_frame (run fresh (second ∷ hello ∷ second ∷ [])).0 node_a)
      (last_frame fresh node_a)
      (frames node_a (run fresh (second ∷ hello ∷ second ∷ [])).1)
run-ClimbsTo_example =
    run-ClimbsTo fresh (second ∷ hello ∷ second ∷ []) node_a fresh-IsFiled (omega arith)

hello-IsForMe : IsForMe fresh hello
hello-IsForMe = record { addressed = refl; data_frame = omega arith }

second-IsForMe : IsForMe fresh second
second-IsForMe = record { addressed = refl; data_frame = omega arith }

fresh_count : last_frame fresh node_a ≡ 0
unfolding last_frame get
fresh_count = refl

gap_stalls_example :
    let (l', sent) = run fresh (second ∷ hello ∷ []) in
    (sent ≡ l_ack (ack_for fresh second) ∷ l_ack (ack_for fresh hello) ∷ deliver hello ∷ [])
    × (get l'.msg_buf (sprintf node_a 2) ≡ some second)
    × (last_frame l' node_a ≡ 1)
unfolding last_frame get
gap_stalls_example =
    gap_stalls fresh hello second hello-IsForMe second-IsForMe refl refl refl (omega arith) refl

-- The second frame waits in the buffer when its retransmission comes.
abbrev waiting : Listener
waiting = record {
  uuid = node_b;
  msg_buf = (sprintf node_a 2, second) ∷ [];
  peer_frame = (node_a, 1) ∷ [];
}

abbrev idle : Sender
idle = new_sender node_a

abbrev index_one : Bytes
index_one = sprintf node_b 1

-- Nobody else touches the sender, and no acknowledgement comes.
abbrev silence : ℕ → Round
silence i = record { write_fails = false; others = λ s. s }

-- The acknowledgement comes during the first sleep.
abbrev prompt : ℕ → Round
prompt i = record { write_fails = false; others = λ s. on_s_ack s index_one }

send-Ends_example : Ends (send silence idle [] node_b (104 ∷ [])) 21
send-Ends_example = send-Ends silence idle [] node_b (104 ∷ []) (omega arith) (omega arith)

silent_entry :
    get
      (begin_send idle [] node_b (104 ∷ [])).ack_frame
      (index_for silence idle [] node_b (104 ∷ []))
    ≡ some false
unfolding get begin_send put sprintf str_eq
silent_entry = refl

abbrev waiting_index : Bytes
waiting_index = index_for silence idle [] node_b (104 ∷ [])

abbrev in_flight : Sender
in_flight = begin_send idle [] node_b (104 ∷ [])

entry_there : get in_flight.ack_frame waiting_index ≢ none
entry_there e = cc (silent_entry, e)

silence-Pending : (n i : ℕ) → Pending silence waiting_index in_flight i n
silence-Pending zero i = tt
silence-Pending (suc n) i = (refl, entry_there, silence-Pending n (i + 1))

silence_state : (n i : ℕ) (s : Sender) → state_after silence s i n ≡ s
unfolding state_after
silence_state zero i s = refl
silence_state (suc n) i s = silence_state n (i + 1) s

abbrev transfers : List Transfer
transfers =
    record { payload = 104 ∷ []; first = 1; more = 0 ∷ 2 ∷ [] }
    ∷ record { payload = 105 ∷ []; first = 0; more = [] }
    ∷ []

transfers-Fits : All Fits transfers
transfers-Fits = (
  (omega arith, omega arith, omega arith, (omega arith, (omega arith, tt))),
  ((omega arith, omega arith, omega arith, tt), tt),
)

delivered-datagrams_example :
    (l' : Listener) × (es : List Event) × (receive_all fresh [] (datagrams idle [] node_b transfers)
      ≡ ok (l', es))
    × (map (λ m. m.message) (delivered es) ≡ (104 ∷ []) ∷ (105 ∷ []) ∷ [])
unfolding last_frame get
delivered-datagrams_example =
    delivered-datagrams idle fresh [] [] transfers transfers-Fits refl refl refl refl (omega arith)

restarted_is_lost_example :
    let m = message_for (handle_dead_node in_flight node_b) [] node_b (106 ∷ []) in
    (on_message met (copy [] m 0)).1 ≡ l_ack (ack_for met (copy [] m 0)) ∷ []
unfolding last_frame get str_eq begin_send
restarted_is_lost_example =
    restarted_is_lost in_flight met [] [] (106 ∷ []) 0 refl refl (omega arith) (omega arith)
