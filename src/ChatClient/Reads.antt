-- ===== src/ChatClient/Reads.antt =====
-- What the chat client of client/client.go makes of the stream that its server writes.
use distributed_chat_applica.Prelude.{
  ℕ, ◌≡◌, ◌≢◌, refl, sym, ap, ◌∙◌, List, [], ◌∷◌, ◌++◌, Bool, true, All, map, append-nil, none,
  some,
}
use distributed_chat_applica.Go.Text.{Bytes}
use distributed_chat_applica.Go.Result.{ok}
use distributed_chat_applica.Go.Scanner.{
  write_lines, IsLine, scan-write_lines, scan_last, split_2_at, split_2_whole,
}
use distributed_chat_applica.Server.{Server}
use distributed_chat_applica.Server.Clients.{ClientServer, redirected, on_accept}
use distributed_chat_applica.Server.Clients.Accept.{has_address, on_accept-redirected}
use distributed_chat_applica.ChatClient.{
  Client, Shown, plain, from, listen_lines, listen, Dial, fails, opens, connect_to_server,
  search_again, connect_and_listen, visits,
}

-- The line of a chat message: the name of the user, a colon, and what was typed.
abbrev pub line_of : Bytes × Bytes → Bytes
line_of (username, input) = username ++ 58 ∷ input

abbrev pub shown : Bytes × Bytes → Shown
shown (username, input) = from username input

abbrev pub IsName : Bytes → Type 0
IsName = All (λ c. c ≢ 58)

module _ (is_ip : Bytes → Bool) where
  lines-shown :
      (chats : List (Bytes × Bytes)) (rest : List Bytes)
      → All (λ c. IsName (c.0)) chats
      → let (later, ip) = listen_lines is_ip rest in
        listen_lines is_ip (map line_of chats ++ rest) ≡ (map shown chats ++ later, ip)
  unfolding listen_lines
  lines-shown [] rest h = refl
  lines-shown ((username, input) ∷ chats) rest h =
      rw (listen_lines, split_2_at 58 username input h.0, lines-shown chats rest h.1) refl

  -- The chat messages that a server writes in lines are shown one by one, in their order, each with
  -- the name of its user and what was typed, and none of them sends the client to another server; the
  -- names are without colons.
  pub listen-write_lines :
      (chats : List (Bytes × Bytes))
      → All (λ c. IsName (c.0)) chats
      → All IsLine (map line_of chats)
      → listen is_ip (write_lines (map line_of chats)) ≡ (map shown chats, none)
  unfolding listen listen_lines
  listen-write_lines chats names fits =
      let lines = map line_of chats in
      ap (listen_lines is_ip) (scan-write_lines lines fits ∙ sym (append-nil lines))
      ∙ lines-shown chats [] names
      ∙ ap (λ shows. (shows, none)) (append-nil (map shown chats))

  -- A line that is an address, without a name before it, sends the client to that address, whoever
  -- wrote it: what came before is shown, and what comes after is not.
  pub listen-bare_ip :
      (chats : List (Bytes × Bytes)) (ip : Bytes) (after : List Bytes)
      → All (λ c. IsName (c.0)) chats
      → is_ip ip ≡ true
      → IsName ip
      → All IsLine (map line_of chats ++ ip ∷ after)
      → listen is_ip (write_lines (map line_of chats ++ ip ∷ after))
        ≡ (map shown chats ++ plain ip ∷ [], some ip)
  unfolding listen listen_lines
  listen-bare_ip chats ip after names valid bare fits =
      let lines = map line_of chats ++ ip ∷ after in
      let sent : listen_lines is_ip (ip ∷ after) ≡ (plain ip ∷ [], some ip) =
        rw (listen_lines, split_2_whole 58 ip bare, valid) refl in
      ap (listen_lines is_ip) (scan-write_lines lines fits)
      ∙ lines-shown chats (ip ∷ after) names
      ∙ rw sent refl

  -- The address that a server writes before it closes sends the client there.
  redirect :
      (ip : Bytes)
      → is_ip ip ≡ true
      → IsName ip
      → IsLine ip
      → ip ≢ []
      → listen is_ip ip ≡ (plain ip ∷ [], some ip)
  unfolding listen listen_lines
  redirect ip valid bare fits some_text =
      rw (listen, scan_last ip fits some_text, listen_lines, split_2_whole 58 ip bare, valid) refl

  goes_on :
      (c : Client) (leader_ip ip other_ip : Bytes) (dial : Dial)
      → listen is_ip ip ≡ (plain ip ∷ [], some ip)
      → visits is_ip c search_again ((leader_ip, opens ip) ∷ (other_ip, dial) ∷ [])
        ≡ ok (leader_ip ∷ ip ∷ [])
  unfolding visits connect_and_listen connect_to_server
  goes_on c leader_ip ip other_ip (opens stream) sent = rw sent refl
  goes_on c leader_ip ip other_ip fails sent = rw sent refl

  -- A client that connects to a leader and is sent away connects next to the address that the leader
  -- wrote: that of a peer of the leader, which is not the leader's own.
  pub visits_redirected :
      (c : Client) (s : ClientServer) (server : Server) (place : ℕ) (leader_ip ip other_ip : Bytes)
      (dial : Dial)
      → on_accept s server place ≡ ok (redirected ip)
      → is_ip ip ≡ true
      → IsName ip
      → IsLine ip
      → ip ≢ []
      → (ip ≢ s.ip)
        × (has_address ip server.peers ≡ true)
        × (visits is_ip c search_again ((leader_ip, opens ip) ∷ (other_ip, dial) ∷ [])
            ≡ ok (leader_ip ∷ ip ∷ []))
  visits_redirected c s server place leader_ip ip other_ip dial h valid bare fits some_text =
      let (leads, many, other, known) = on_accept-redirected s server place ip h in
      (other, known, goes_on c leader_ip ip other_ip dial (redirect ip valid bare fits some_text))
