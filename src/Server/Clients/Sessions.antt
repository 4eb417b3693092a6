-- ===== src/Server/Clients/Sessions.antt =====
-- What the chat clients of server/client.go read on their connections.
use distributed_chat_applica.Prelude.{
  ℕ, suc, ◌≡◌, refl, ap, ap₂, ◌∙◌, List, [], ◌∷◌, ◌++◌, Bool, true, false, ◌==◌, if◌then◌else◌,
  append_assoc, append-nil, All, arith,
}
use distributed_chat_applica.Go.Text.{Bytes}
use distributed_chat_applica.Go.Scanner.{scan, write_lines, IsLine, scan-write_lines}
use distributed_chat_applica.Server.Clients.{
  ClientServer, add_client, remove_conn, remove_client, write_all,
  send_message_to_connected_clients, Turn, opens, ends, reads, chats, Deed, to_servers, to_clients,
  writes, closes, written_deeds, on_turn, run_turns,
}

abbrev pub times : ℕ → List ℕ → ℕ
times c [] = 0
times c (d ∷ ds) = if d == c then suc (times c ds) else times c ds

-- The bytes that are written to a connection.
abbrev pub written : ℕ → List Deed → Bytes
written c [] = []
written c (writes d data_bytes ∷ deeds) =
    if d == c then data_bytes ++ written c deeds else written c deeds
written c (_ ∷ deeds) = written c deeds

-- The lines of the server's own users, which handleConn sends to all clients of the server.
abbrev pub echoed : List Deed → List Bytes
echoed [] = []
echoed (to_clients m ∷ deeds) = m ∷ echoed deeds
echoed (_ ∷ deeds) = echoed deeds

-- No connection begins a session while it has one.
abbrev pub OpensOnce : List ℕ → List Turn → Type 0
OpensOnce cs [] = Unit
OpensOnce cs (opens conn ∷ turns) = (times conn cs ≡ 0) × OpensOnce (cs ++ (conn ∷ [])) turns
OpensOnce cs (ends conn ∷ turns) = OpensOnce (remove_conn cs conn).1 turns
OpensOnce cs (_ ∷ turns) = OpensOnce cs turns

-- The messages that come while a connection has a session.
abbrev pub heard : ℕ → Bool → List Turn → List Bytes
heard c on [] = []
heard c on (opens conn ∷ turns) = heard c (if conn == c then true else on) turns
heard c on (ends conn ∷ turns) = heard c (if conn == c then false else on) turns
heard c on (reads conn message ∷ turns) = heard c on turns
heard c on (chats msg ∷ turns) = if on then msg ∷ heard c on turns else heard c on turns

abbrev once : Bool → ℕ
once b = if b then 1 else 0

times-append :
    (c d : ℕ) (cs : List ℕ)
    → times c (cs ++ (d ∷ [])) ≡ (if d == c then suc (times c cs) else times c cs)
times-append c d [] = refl
times-append c d (e ∷ cs) = ground (arith, times-append c d cs)

times-remove_conn :
    (c d : ℕ) (cs : List ℕ) (on : Bool)
    → times c cs ≡ once on
    → times c (remove_conn cs d).1 ≡ once (if d == c then false else on)
unfolding remove_conn
times-remove_conn c d [] on h = ground arith
times-remove_conn c d (e ∷ cs) on h =
    ground (arith, times-remove_conn c d cs on, times-remove_conn c d cs false)

written-append : (c : ℕ) (ds es : List Deed) → written c (ds ++ es) ≡ written c ds ++ written c es
written-append c [] es = refl
written-append c (writes d data_bytes ∷ ds) es =
    ground (arith, written-append c ds es, append_assoc data_bytes (written c ds) (written c es))
written-append c (to_servers m ∷ ds) es = written-append c ds es
written-append c (to_clients m ∷ ds) es = written-append c ds es
written-append c (closes d ∷ ds) es = written-append c ds es

written-write_all :
    (c : ℕ) (cs : List ℕ) (data_bytes : Bytes) (on : Bool)
    → times c cs ≡ once on
    → written c (written_deeds (write_all cs data_bytes)) ≡ (if on then data_bytes else [])
written-write_all c [] data_bytes on h = ground arith
written-write_all c (d ∷ cs) data_bytes on h = ground (
  arith,
  written-write_all c cs data_bytes on,
  written-write_all c cs data_bytes false,
  append-nil data_bytes,
)

turns-heard :
    (c : ℕ) (turns : List Turn) (s : ClientServer) (on : Bool)
    → times c s.clients ≡ once on
    → OpensOnce s.clients turns
    → written c (run_turns turns s) ≡ write_lines (heard c on turns)
unfolding run_turns on_turn add_client remove_client send_message_to_connected_clients
turns-heard c [] s on h o = refl
turns-heard c (opens conn ∷ turns) s on h o =
    turns-heard c turns (add_client s conn) (if conn == c then true else on)
      (ground (arith, times-append c conn s.clients, h, o.0)) o.1
turns-heard c (ends conn ∷ turns) s on h o =
    let (removed, s') = remove_client s conn in
    let rest =
      turns-heard c turns s' (if conn == c then false else on)
        (times-remove_conn c conn s.clients on h) o in
    ends_quietly removed (run_turns turns s') rest
  where
    ends_quietly :
        (removed : Bool) (deeds : List Deed) {bs : Bytes}
        → written c deeds ≡ bs
        → written c ((if removed then closes conn ∷ [] else []) ++ deeds) ≡ bs
    ends_quietly true deeds e = e
    ends_quietly false deeds e = e
turns-heard c (reads conn message ∷ turns) s on h o = turns-heard c turns s on h o
turns-heard c (chats msg ∷ turns) s on h o =
    let ws = written_deeds (write_all s.clients (msg ++ (10 ∷ []))) in
    written-append c ws (run_turns turns s)
    ∙ ap₂ ◌++◌ (written-write_all c s.clients (msg ++ (10 ∷ [])) on h)
        (turns-heard c turns s on h o)
    ∙ heard_next on
  where
    heard_next :
        (b : Bool)
        → (if b then msg ++ (10 ∷ []) else []) ++ write_lines (heard c on turns)
          ≡ write_lines (if b then msg ∷ heard c on turns else heard c on turns)
    heard_next true = append_assoc msg (10 ∷ []) (write_lines (heard c on turns))
    heard_next false = refl

-- A new server writes the messages to a client in lines.
pub written_lines :
    (turns : List Turn) (s : ClientServer) (c : ℕ)
    → s.clients ≡ []
    → OpensOnce [] turns
    → written c (run_turns turns s) ≡ write_lines (heard c false turns)
written_lines turns s c none_yet once_each =
    let start : times c s.clients ≡ once false = rw none_yet refl in
    turns-heard c turns s false start (rw none_yet once_each)

-- What a client's scanner reads on its connection is exactly the messages that came while the
-- connection had its session, each once and in their order, if each is a line that fits the scanner's
-- buffer, and no connection begins a session while it has one.
pub run_turns-heard :
    (s : ClientServer) (turns : List Turn) (c : ℕ)
    → s.clients ≡ []
    → OpensOnce [] turns
    → All IsLine (heard c false turns)
    → scan [] (written c (run_turns turns s)) ≡ heard c false turns
run_turns-heard s turns c none_yet once_each fits =
    ap (scan []) (written_lines turns s c none_yet once_each)
    ∙ scan-write_lines (heard c false turns) fits
