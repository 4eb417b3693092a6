-- ===== src/Unicast/Listener/Frames.antt =====
-- The counts of reliableListener, and what its loop over the buffered messages sends.
use distributed_chat_applica.Prelude.{
  ℕ, suc, ◌≡◌, refl, List, [], ◌∷◌, ◌++◌, false, none, some, ltb, if◌then◌else◌, length, arith,
}
use distributed_chat_applica.Go.Text.{Bytes, str_eq, str_eq_iff, str_eq_refl}
use distributed_chat_applica.Go.Map.{Map, get, delete, get-put, get-delete}
use distributed_chat_applica.Go.Format.{sprintf}
use distributed_chat_applica.Unicast.Datagram.{Message}
use distributed_chat_applica.Unicast.Listener.{
  Listener, Event, s_ack, l_ack, deliver, last_frame, next_frame, flush, note_peer, advance, accept,
}

-- The frames of `peer` among the deliveries.
abbrev pub frames : Bytes → List Event → List ℕ
frames peer [] = []
frames peer (deliver m ∷ es) =
    let rest = frames peer es in if str_eq m.from_uuid peer then m.frame ∷ rest else rest
frames peer (s_ack i ∷ es) = frames peer es
frames peer (l_ack m ∷ es) = frames peer es

pub frames-append :
    (peer : Bytes) (es ds : List Event) → frames peer (es ++ ds) ≡ frames peer es ++ frames peer ds
frames-append peer [] ds = refl
frames-append peer (deliver m ∷ es) ds = ground (arith, frames-append peer es ds)
frames-append peer (s_ack i ∷ es) ds = frames-append peer es ds
frames-append peer (l_ack m ∷ es) ds = frames-append peer es ds

pub last_frame-note_peer :
    (l : Listener) (p q : Bytes) → last_frame (note_peer l p) q ≡ last_frame l q
unfolding note_peer last_frame
last_frame-note_peer l p q = ground (arith, get-put l.peer_frame p q 0, str_eq_iff p q)

pub last_frame-advance :
    (l : Listener) (p q : Bytes)
    → last_frame (advance l p) q
      ≡ (if str_eq p q then next_frame (last_frame l p) else last_frame l q)
unfolding advance last_frame
last_frame-advance l p q =
    ground (arith, get-put l.peer_frame p q (next_frame (last_frame l p)), str_eq_iff p q)

pub msg_buf-note_peer : (l : Listener) (p : Bytes) → (note_peer l p).msg_buf ≡ l.msg_buf
unfolding note_peer
msg_buf-note_peer l p = ground arith

pub uuid-note_peer : (l : Listener) (p : Bytes) → (note_peer l p).uuid ≡ l.uuid
unfolding note_peer
uuid-note_peer l p = ground arith

pub msg_buf-advance : (l : Listener) (p : Bytes) → (advance l p).msg_buf ≡ l.msg_buf
unfolding advance
msg_buf-advance l p = refl

-- The loop sends at most one message: the index stays the same, and its entry is deleted.
pub flush_lem :
    (k : ℕ) (l : Listener) (from : Bytes)
    → flush (suc (suc k)) l from ≡ elim (get l.msg_buf (sprintf from (last_frame l from))) [
      | none ↦ (l, [])
      | some m ↦ (
        record l { msg_buf = delete l.msg_buf (sprintf from (last_frame l from)) },
        deliver m ∷ [],
      )
    ]
unfolding flush last_frame
flush_lem k l from =
    let index = sprintf from (last_frame l from) in
    ground (arith, get-delete l.msg_buf index index, str_eq_refl index)

get-empty : (buf : Map Message) (k : Bytes) → ltb 0 (length buf) ≡ false → get buf k ≡ none
get-empty [] k h = unfold get in refl
get-empty (x ∷ buf) k h = ground arith

-- Accepting sends the message, and behind it the one buffered under the same index.
pub accept_lem :
    (l : Listener) (m : Message)
    → let index = sprintf m.from_uuid (next_frame (last_frame l m.from_uuid)) in
      accept l m ≡ elim (get l.msg_buf index) [
        | none ↦ (advance l m.from_uuid, deliver m ∷ [])
        | some copy ↦ (
          record (advance l m.from_uuid) { msg_buf = delete l.msg_buf index },
          deliver m ∷ deliver copy ∷ [],
        )
      ]
unfolding accept
accept_lem l m =
    let from = m.from_uuid in
    let index = sprintf from (next_frame (last_frame l from)) in
    ground (
      arith,
      flush_lem 0 (advance l from) from,
      last_frame-advance l from from,
      str_eq_refl from,
      msg_buf-advance l from,
      get-empty l.msg_buf index,
    )

pub last_frame-same :
    (l k : Listener) (p : Bytes) → l.peer_frame ≡ k.peer_frame → last_frame l p ≡ last_frame k p
unfolding last_frame
last_frame-same l k p e = rw e

-- Accepting moves the count of the sender, and of nobody else.
pub last_frame-accept :
    (l : Listener) (m : Message) (peer : Bytes)
    → last_frame (accept l m).0 peer ≡ (
        if str_eq m.from_uuid peer
        then next_frame (last_frame l m.from_uuid)
        else last_frame l peer)
last_frame-accept l m peer =
    let from = m.from_uuid in
    let index = sprintf from (next_frame (last_frame l from)) in
    let flushed = record (advance l from) { msg_buf = delete l.msg_buf index } in
    ground (
      arith,
      accept_lem l m,
      last_frame-advance l from peer,
      last_frame-same flushed (advance l from) peer refl,
    )
