-- ===== src/Broadcast.antt =====
-- server/broadcast/broadcast.go: the broadcaster, its sending goroutine, and its listener.
pub mod Sending
pub mod Discovery
mod Runs
use distributed_chat_applica.Prelude.{
  ℕ, suc, List, [], ◌∷◌, Bool, true, false, Option, none, some, not, ◌||◌, if◌then◌else◌, take,
}
use distributed_chat_applica.Go.Text.{Bytes, str_eq}
use distributed_chat_applica.Go.Result.{Result, ok, err, panic}

pub record Message : Type 0 where
  pub uuid : Bytes
  pub ip : Bytes

-- The channel stopChan is open or closed; `senders` counts the goroutines in the waitGroup.
pub record Broadcaster : Type 0 where
  pub id : Bytes
  pub stopping : Bool
  pub stop_closed : Bool
  pub senders : ℕ

abbrev pub new_broadcaster : Bytes → Broadcaster
new_broadcaster id = record { id = id; stopping = false; stop_closed = false; senders = 0 }

-- close(b.stopChan)
abbrev pub close_stop : Broadcaster → Result Broadcaster
close_stop b = if b.stop_closed then panic else ok (record b { stop_closed = true })

-- One round of a sending goroutine: whether it goes on, and what it sends.
abbrev pub sender_round : Broadcaster → Bool × List Bytes
sender_round b = if b.stop_closed then (false, []) else (true, b.id ∷ [])

-- b.waitGroup.Wait(), when it returns: no goroutine is left that leaves its loop in a round.
abbrev pub wait : Broadcaster → Broadcaster
wait b = let (goes_on, _) = sender_round b in if goes_on then b else record b { senders = 0 }

-- The rest of Start, on a new channel.
abbrev pub launch : Broadcaster → Broadcaster
launch b = record b { stop_closed = false; stopping = false; senders = suc b.senders }

unfoldable pub start : Broadcaster → Result Broadcaster
start b = if b.stopping then ok (launch b) else elim (close_stop b) [
  | ok closed ↦ ok (launch (wait closed))
  | err e ↦ err e
  | panic ↦ panic
]

unfoldable pub stop : Broadcaster → Result Broadcaster
stop b = if b.stopping then ok b else elim (close_stop (record b { stopping = true })) [
  | ok closed ↦ ok (wait closed)
  | err e ↦ err e
  | panic ↦ panic
]

-- What b.conn.ReadFrom gives: an error, or a datagram and the address if that is a UDP address.
pub data Arrival : Type 0 where
  read_error : Arrival
  datagram : Option Bytes → Bytes → Arrival

abbrev pub buffer_size : ℕ
buffer_size = 1024

-- uuid.Parse gives no error.
module _ (is_uuid : Bytes → Bool) where
  -- The messages that listen puts on its channel, of what arrives until `quit` is closed.
  unfoldable pub listen : Bytes → List Arrival → List Message
  listen id [] = []
  listen id (read_error ∷ arrivals) = []
  listen id (datagram none data_bytes ∷ arrivals) = listen id arrivals
  listen id (datagram (some ip) data_bytes ∷ arrivals) =
      let text = take buffer_size data_bytes in
      let rest = listen id arrivals in
      if not (is_uuid text) || str_eq text id then rest else record { uuid = text; ip = ip } ∷ rest

  -- IsAnyOneBroadcasting, of what arrives before the timer ends.
  unfoldable pub is_any_one_broadcasting : Bytes → List Arrival → Option Message
  is_any_one_broadcasting id arrivals = elim (listen id arrivals) [
    | [] ↦ none
    | msg ∷ msgs ↦ some msg
  ]
