-- ===== src/Server/Heartbeats.antt =====
-- The heartbeats of the followers at the leader: the first goroutine of LeaderStateStart in
-- server/state_listener.go, and StartHearbeatListener of server/heartbeat.go. Times are in
-- milliseconds and do not go back; a round of the timer reads the clock once.
pub mod Watch
pub mod Silence
pub mod Listen
mod Runs
use distributed_chat_applica.Prelude.{
  ℕ, ◌-◌, List, [], ◌∷◌, ◌++◌, Bool, true, false, none, some, ltb, if◌then◌else◌, take, length, ◌+◌,
  replicate, drop,
}
use distributed_chat_applica.Go.Text.{Bytes, str_eq}
use distributed_chat_applica.Go.Map.{Map, get, put}

-- The time of the last heartbeat of each node.
abbrev pub Table : Type 0
Table = Map ℕ

-- The nodes that are there when the goroutine starts, without the leader itself.
unfoldable pub first_table : Bytes → Map Bytes → ℕ → Table → Table
first_table id [] now table = table
first_table id ((uuid, ip) ∷ peers) now table =
    first_table id peers now (if str_eq uuid id then table else put table uuid now)

-- case <-t.C: the loop over the peers, in the order that the map gives them; it stops at a node that
-- has no entry. Second, the nodes that are handed to handleDeadServer.
unfoldable pub check : Bytes → List Bytes → ℕ → Table → Table × List Bytes
check id [] now table = (table, [])
check id (uuid ∷ order) now table =
    let (table', dead) = check id order now table in
    if str_eq uuid id then (table', dead) else elim (get table uuid) [
      | none ↦ (put table uuid now, [])
      | some last ↦ (table', if ltb 1000 (now - last) then uuid ∷ dead else dead)
    ]

pub data Turn : Type 0 where
  timer : List Bytes → ℕ → Turn  -- case <-t.C
  beat : Bytes → ℕ → Turn  -- case uuidh := <-hbChan

unfoldable pub turn : Bytes → Turn → Table → Table × List Bytes
turn id (timer order now) table = check id order now table
turn id (beat uuid now) table = (put table uuid now, [])

-- The goroutine: the nodes that it hands to handleDeadServer.
unfoldable pub watch : Bytes → List Turn → Table → List Bytes
watch id [] table = []
watch id (t ∷ turns) table = let (table', dead) = turn id t table in dead ++ watch id turns table'

-- A turn of the sender's loop: `quit` is closed, or the timer ended and the write fails or not.
pub data Interval : Type 0 where
  quits write_fails writes : Interval

unfoldable pub beat_again : Bytes → List Interval → List Bytes
beat_again data_bytes [] = []
beat_again data_bytes (quits ∷ intervals) = []
beat_again data_bytes (write_fails ∷ intervals) = []
beat_again data_bytes (writes ∷ intervals) = data_bytes ∷ beat_again data_bytes intervals

-- StartHearbeat: the datagrams to the leader; the first is written before the loop.
unfoldable pub start_hearbeat : Bytes → Bool → List Interval → List Bytes
start_hearbeat server_uuid first intervals =
    if first then server_uuid ∷ beat_again server_uuid intervals else []

-- What hbLConn.ReadFrom gives: an error, or a datagram.
pub data Read : Type 0 where
  read_error : Read
  datagram : Bytes → Read

-- The buffer of 36 bytes after a read: what a shorter datagram does not reach stays from before.
abbrev pub fill : Bytes → Bytes → Bytes
fill buf data_bytes = let text = take 36 data_bytes in text ++ drop (length text) buf

-- uuid.Parse gives no error.
module _ (is_uuid : Bytes → Bool) where
  -- The heartbeats that the listener puts on its channel until `quit` is closed.
  unfoldable pub listen_beats : Bytes → List Read → List Bytes
  listen_beats buf [] = []
  listen_beats buf (read_error ∷ reads) = []
  listen_beats buf (datagram data_bytes ∷ reads) =
      let text = fill buf data_bytes in
      let rest = listen_beats text reads in if is_uuid text then text ∷ rest else rest
