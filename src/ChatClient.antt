-- ===== src/ChatClient.antt =====
-- client/client.go: what the chat client sends, what it shows of what it reads, and where it connects.
-- The terminal and the sockets are left out; a stream is what the server writes until it closes.
pub mod Reads
pub mod Chat
pub mod Causal
mod Runs
use distributed_chat_applica.Prelude.{
  ℕ, List, [], ◌∷◌, ◌++◌, Bool, true, false, Option, none, some, if◌then◌else◌,
}
use distributed_chat_applica.Go.Text.{Bytes}
use distributed_chat_applica.Go.Result.{Result, ok, err, panic, ◌>>=◌}
use distributed_chat_applica.Go.Scanner.{scan, split_2}

-- Whether c.conn is set; it is nil until the first connection.
pub record Client : Type 0 where
  pub username : Bytes
  pub connected : Bool

-- A write on a nil connection panics.
unfoldable pub send_message_to_server : Client → Bytes → Result Bytes
send_message_to_server c input =
    if c.connected then ok (c.username ++ 58 ∷ (input ++ 10 ∷ [])) else panic

-- The lines that the client shows: with the name of a sender, or without.
pub data Shown : Type 0 where
  plain : Bytes → Shown
  from : Bytes → Bytes → Shown

-- net.ParseIP gives an address.
module _ (is_ip : Bytes → Bool) where
  -- The loop of listen: what it shows, and the address to which it is sent on.
  unfoldable pub listen_lines : List Bytes → List Shown × Option Bytes
  listen_lines [] = ([], none)
  listen_lines (text ∷ lines) =
      let (shown, ip) = listen_lines lines in
      elim (split_2 58 text) [
        | [] ↦ ([], none)
        | name ∷ rest ↦ elim rest [
          | [] ↦ if is_ip text then (plain text ∷ [], some text) else (plain text ∷ shown, ip)
          | input ∷ others ↦ (from name input ∷ shown, ip)
        ]
      ]

  unfoldable pub listen : Bytes → List Shown × Option Bytes
  listen stream = listen_lines (scan [] stream)

-- net.Dial gives an error, or a connection with the stream that the server writes.
pub data Dial : Type 0 where
  fails : Dial
  opens : Bytes → Dial

-- connectToServer: its error is not looked at, so an old connection may stay, which is closed.
unfoldable pub connect_to_server : Client → Dial → Client × Bytes
connect_to_server c fails = (c, [])
connect_to_server c (opens stream) = (record c { connected = true }, stream)

-- How connectAndListen goes on: `go c.connectAndListen(ip)` or `go c.run()`.
pub data Next : Type 0 where
  connect : Bytes → Next
  search_again : Next

module _ (is_ip : Bytes → Bool) where
  unfoldable pub connect_and_listen : Client → Dial → Result (Client × List Shown × Next)
  connect_and_listen c dial =
      let (c', stream) = connect_to_server c dial in
      let (shown, ip) = listen is_ip stream in
      if c'.connected
      then ok (c', shown, elim ip [ none ↦ search_again | some a ↦ connect a ])
      else panic

  -- run, with the broadcasts it finds and the connections it gets: the addresses it connects to. One
  -- element of the list for each call of connectAndListen: the list is the fuel.
  unfoldable pub visits : Client → Next → List (Bytes × Dial) → Result (List Bytes)
  visits c next [] = ok []
  visits c next ((broadcast_ip, dial) ∷ dials) =
      let ip : Bytes = elim next [ search_again ↦ broadcast_ip | connect a ↦ a ] in
      connect_and_listen c dial >>= λ (c', shown, next').
      visits c' next' dials >>= λ ips. ok (ip ∷ ips)

-- What chat does about the lines that are typed.
pub data Deed : Type 0 where
  sends : Bytes → Deed
  runs : Deed  -- go c.run(), after a write that fails

-- The loop of chat: each line, with the client at that time and whether the write fails.
unfoldable pub chat : List (Client × Bytes × Bool) → Result (List Deed)
chat [] = ok []
chat ((c, [], write_fails) ∷ lines) = chat lines
chat ((c, b ∷ line, write_fails) ∷ lines) = send_message_to_server c (b ∷ line) >>= λ data_bytes.
    chat lines >>= λ deeds. ok ((if write_fails then runs else sends data_bytes) ∷ deeds)
