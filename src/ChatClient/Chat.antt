-- ===== src/ChatClient/Chat.antt =====
-- A chat message on its whole way: typed at a client (client/client.go), read by its server
-- (server/client.go), multicast by it (server/multicast.go and server/multicast/multicast.go), received
-- by another server, and shown by a client there.
use distributed_chat_applica.Prelude.{
  ℕ, ◌^◌, ◌<◌, ◌≤◌, ◌≡◌, ◌≢◌, refl, sym, ap, ◌∙◌, List, [], ◌∷◌, ◌++◌, Bool, true, map, none,
  length, append_assoc, arith,
}
use distributed_chat_applica.Go.Text.{Bytes, str_eq_ne}
use distributed_chat_applica.Go.Map.{Distinct}
use distributed_chat_applica.Go.Result.{ok}
use distributed_chat_applica.Go.Scanner.{scan, IsLine, scan-write_lines}
use distributed_chat_applica.Message as Body
use distributed_chat_applica.Message.New.{new_application_message}
use distributed_chat_applica.Message.RoundTrip as RoundTrip
use distributed_chat_applica.Message.RoundTrip.{wire, decode-encode}
use distributed_chat_applica.Multicast.Datagram as Multicast
use distributed_chat_applica.Multicast.Codec.{encode_multicast_message}
use distributed_chat_applica.Unicast.Codec.Malformed.{buffer_size}
use distributed_chat_applica.Multicast.Codec.RoundTrip.{IsSendable}
use distributed_chat_applica.Multicast.HoldBack.Picked.{AllHeld}
use distributed_chat_applica.Multicast.Node.{Multicaster}
use distributed_chat_applica.Multicast.Send.{multicast_of, send_message}
use distributed_chat_applica.Multicast.Send.Arrives.{CaughtUp, send_message_arrives}
use distributed_chat_applica.Multicast.Listen.{deliver, ack, arrived, receive, hold_back}
use distributed_chat_applica.Server.{Server, chat}
use distributed_chat_applica.Server.Handlers.{on_multicast_message}
use distributed_chat_applica.Server.Clients.{
  ClientServer, write_all, send_message_to_connected_clients, send_chat,
}
use distributed_chat_applica.ChatClient.{Client, from, send_message_to_server, listen}
use distributed_chat_applica.ChatClient.Reads.{IsName, line_of, listen-write_lines}

abbrev application : Bytes → Body.Message
application msg = record (Body.of_type Body.application) { msg = msg }

application-IsSendable :
    (msg : Bytes) → msg ≢ [] → length msg < 2 ^ 32 → RoundTrip.IsSendable (application msg)
application-IsSendable msg some_text fits = record {
  type_fits = omega arith;
  frame_fits = omega arith;
  msg_fits = fits;
  msg_nonempty = λ e. has_bytes msg some_text;
  uuid_fits = omega arith;
  ip_fits = omega arith;
  ip_nonempty = λ e. cc;
  count_fits = omega arith;
  port_fits = omega arith;
  peers_fit = tt;
}
  where
    has_bytes : (bs : Bytes) → bs ≢ [] → 0 < length bs
    has_bytes [] h = absurd (h refl)
    has_bytes (b ∷ bs) h = omega arith

-- What a server makes of a multicast that carries a chat message.
pub application_is_chat :
    (b : Server) (msg : Multicast.Message) (text data_bytes : Bytes)
    → text ≢ []
    → length text < 2 ^ 32
    → new_application_message text ≡ ok data_bytes
    → msg.uuid ≢ b.id
    → msg.message ≡ data_bytes
    → on_multicast_message b msg ≡ ok (b, chat text ∷ [])
unfolding on_multicast_message new_application_message wire
application_is_chat b msg text data_bytes some_text fits made other carries =
    let (bs, e, back) =
      decode-encode (application text) (application-IsSendable text some_text fits) in
    let same : bs ≡ data_bytes = ground (arith, e, made) in
    rw (on_multicast_message, str_eq_ne msg.uuid b.id other, carries, sym same, back) refl

send_chat_sends :
    (a : Server) (text data_bytes datagram : Bytes) (rm : Multicaster)
    → text ≢ []
    → new_application_message text ≡ ok data_bytes
    → send_message a.rm data_bytes ≡ ok (rm, datagram)
    → send_chat a text ≡ ok (record a { rm = rm }, datagram)
unfolding send_chat
send_chat_sends a [] data_bytes datagram rm some_text made sent = absurd (some_text refl)
send_chat_sends a (t ∷ text) data_bytes datagram rm some_text made sent = rw (made, sent) refl

pub some_line : (username input : Bytes) → line_of (username, input) ≢ []
some_line [] input e = cc
some_line (u ∷ username) input e = cc

write_all-map :
    (conns : List ℕ) (data_bytes : Bytes)
    → write_all conns data_bytes ≡ map (λ conn. (conn, data_bytes)) conns
write_all-map [] data_bytes = refl
write_all-map (conn ∷ conns) data_bytes =
    ap (◌∷◌ (conn, data_bytes)) (write_all-map conns data_bytes)

application_reads :
    (text data_bytes : Bytes)
    → text ≢ []
    → length text < 2 ^ 32
    → new_application_message text ≡ ok data_bytes
    → Body.decode data_bytes ≡ ok (application text)
unfolding new_application_message wire
application_reads text data_bytes some_text fits made =
    let (bs, e, back) =
      decode-encode (application text) (application-IsSendable text some_text fits) in
    let same : bs ≡ data_bytes = ground (arith, e, made) in rw (sym same) back

-- A chat message from end to end. What a connected client writes is read by its server as one line,
-- the user's name and the text; the server multicasts it. Another server takes the datagram into its
-- buffer, acknowledges it, and starts a goroutine, which, if this server has caught up with the first and
-- holds no message that could have been sent on before, sends the message on at once; the server
-- hands it to its clients, and writes the line to each of them; and each of these shows it under the
-- user's name. This wants a name without a colon, a line that the scanners take, fields of the multicast
-- that fit, a datagram of at most 1024 bytes, a count of messages that does not wrap around, and that
-- the multicaster of the other server has that server's id.
pub chat_arrives :
    (is_ip : Bytes → Bool) (c : Client) (input : Bytes) (a b : Server) (cs : ClientServer)
    (ip data_bytes : Bytes)
    → c.connected ≡ true
    → IsName c.username
    → IsLine (line_of (c.username, input))
    → new_application_message (line_of (c.username, input)) ≡ ok data_bytes
    → IsSendable (multicast_of a.rm data_bytes)
    → length (encode_multicast_message (multicast_of a.rm data_bytes)) ≤ buffer_size
    → b.rm.id ≡ b.id
    → a.rm.id ≢ b.id
    → Distinct b.rm.vector_clock
    → CaughtUp a.rm b.rm.vector_clock
    → AllHeld b.rm.vector_clock b.rm.hold_back_queue
    → let text = line_of (c.username, input) in
      let sent = text ++ 10 ∷ [] in
      (send_message_to_server c input ≡ ok sent)
      × (scan [] sent ≡ text ∷ [])
      × ((rm : Multicaster) × (datagram : Bytes) × (acked : Bytes) × (msg : Multicast.Message)
          × (more : List Multicast.Message) × (send_chat a text
              ≡ ok (record a { rm = rm }, datagram))
          × (receive b.rm datagram ip ≡ ok (b.rm, ack ip a.rm.id acked ∷ arrived msg ∷ []))
          × ((hold_back b.rm msg).1 ≡ deliver msg ∷ map deliver more)
          × (on_multicast_message b msg ≡ ok (b, chat text ∷ [])))
      × (send_message_to_connected_clients cs text ≡ map (λ conn. (conn, sent)) cs.clients)
      × (listen is_ip sent ≡ (from c.username input ∷ [], none))
unfolding send_message_to_server send_message_to_connected_clients
chat_arrives is_ip c input a b cs ip data_bytes on name line made fits short own other d caught
      held =
    let text = line_of (c.username, input) in
    let some_text = some_line c.username input in
    let reads = application_reads text data_bytes some_text (omega (arith, line.fits)) made in
    let (rm, datagram, acked, msg, more, sent, back, by, carries, first) =
      send_message_arrives a.rm b.rm data_bytes ip (application text) fits short
        (λ e. other (e ∙ own)) reads (λ e. absurd (omega arith)) (λ e. absurd (omega arith)) d
        caught held in
    let foreign : msg.uuid ≢ b.id = λ e. other (sym by ∙ e) in
    (
      rw on (ap ok (sym (append_assoc c.username (58 ∷ input) (10 ∷ [])))),
      scan-write_lines (text ∷ []) (line, tt),
      (
        rm,
        datagram,
        acked,
        msg,
        more,
        send_chat_sends a text data_bytes datagram rm some_text made sent,
        back,
        first,
        application_is_chat b msg text data_bytes some_text (omega (arith, line.fits)) made foreign
            carries,
      ),
      write_all-map cs.clients (text ++ 10 ∷ []),
      listen-write_lines is_ip ((c.username, input) ∷ []) (name, tt) (line, tt),
    )
