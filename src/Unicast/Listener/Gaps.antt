-- ===== src/Unicast/Listener/Gaps.antt =====
-- What a round of reliableListener does with a frame that is not the next one, and after it.
use distributed_chat_applica.Prelude.{
  ◌+◌, ◌^◌, ◌<◌, ◌≡◌, refl, ◌∙◌, sym, List, [], ◌∷◌, ◌++◌, false, none, some, arith, ◌≢◌,
}
use distributed_chat_applica.Go.Text.{Bytes, str_eq, str_eq_iff, str_eq_refl, str_eq_ne}
use distributed_chat_applica.Go.Map.{get, put, get-put}
use distributed_chat_applica.Go.Format.{sprintf, sprintf-injective}
use distributed_chat_applica.Unicast.Datagram.{Message}
use distributed_chat_applica.Unicast.Listener.Frames.{
  last_frame-note_peer, last_frame-advance, accept_lem, msg_buf-note_peer, msg_buf-advance,
  uuid-note_peer, last_frame-same,
}
use distributed_chat_applica.Unicast.Listener.{
  Listener, Event, l_ack, deliver, last_frame, next_frame, note_peer, advance, accept, in_order,
  on_message, run, ack_for,
}

-- A data message for this node.
pub record IsForMe (l : Listener) (m : Message) : Type 0 where
  pub addressed : m.to_uuid ≡ l.uuid
  pub data_frame : m.response ≢ 1

on_message-in_order :
    (l : Listener) (m : Message)
    → IsForMe l m
    → on_message l m ≡ ((in_order l m).0, l_ack (ack_for l m) ∷ (in_order l m).1)
unfolding on_message
on_message-in_order l m h = ground (arith, str_eq_iff m.to_uuid l.uuid)

in_order_ahead :
    (l : Listener) (m : Message)
    → next_frame (last_frame l m.from_uuid) < m.frame
    → in_order l m ≡ (
      record (note_peer l m.from_uuid) { msg_buf = put l.msg_buf (sprintf m.from_uuid m.frame) m },
      [],
    )
unfolding in_order
in_order_ahead l m h = ground (arith, msg_buf-note_peer l m.from_uuid)

in_order_now :
    (l : Listener) (m : Message)
    → m.frame ≡ next_frame (last_frame l m.from_uuid)
    → in_order l m ≡ accept (note_peer l m.from_uuid) m
unfolding in_order
in_order_now l m h = ground arith

in_order_behind :
    (l : Listener) (m : Message)
    → m.frame < next_frame (last_frame l m.from_uuid)
    → in_order l m ≡ (note_peer l m.from_uuid, [])
unfolding in_order
in_order_behind l m h = ground arith

pub on_message_old :
    (l : Listener) (m : Message)
    → IsForMe l m
    → m.frame < next_frame (last_frame l m.from_uuid)
    → on_message l m ≡ (note_peer l m.from_uuid, l_ack (ack_for l m) ∷ [])
on_message_old l m h old = rw (on_message-in_order l m h, in_order_behind l m old)

-- A frame that was sent on before is acknowledged once more and not sent on; nothing else that
-- the listener keeps changes.
pub on_message_behind :
    (l : Listener) (m : Message)
    → IsForMe l m
    → m.frame < next_frame (last_frame l m.from_uuid)
    → ((on_message l m).1 ≡ l_ack (ack_for l m) ∷ [])
      × ((on_message l m).0.msg_buf ≡ l.msg_buf)
      × ((peer : Bytes) → last_frame (on_message l m).0 peer ≡ last_frame l peer)
on_message_behind l m h old =
    rw (on_message_old l m h old)
      (refl, msg_buf-note_peer l m.from_uuid, λ peer. last_frame-note_peer l m.from_uuid peer)

-- A frame that is buffered already and arrives again as the awaited one is sent on twice.
pub on_message_twice :
    (l : Listener) (m copy : Message)
    → IsForMe l m
    → m.frame ≡ next_frame (last_frame l m.from_uuid)
    → get l.msg_buf (sprintf m.from_uuid m.frame) ≡ some copy
    → (on_message l m).1 ≡ l_ack (ack_for l m) ∷ deliver m ∷ deliver copy ∷ []
on_message_twice l m copy h now kept =
    rw (on_message-in_order l m h, in_order_now l m now)
      (ground (
        arith,
        accept_lem (note_peer l m.from_uuid) m,
        msg_buf-note_peer l m.from_uuid,
        last_frame-note_peer l m.from_uuid m.from_uuid,
      ))

-- The awaited frame, with no copy in the buffer, is acknowledged and sent on.
pub on_message_now :
    (l : Listener) (m : Message)
    → IsForMe l m
    → m.frame ≡ next_frame (last_frame l m.from_uuid)
    → get l.msg_buf (sprintf m.from_uuid m.frame) ≡ none
    → on_message l m
      ≡ (advance (note_peer l m.from_uuid) m.from_uuid, l_ack (ack_for l m) ∷ deliver m ∷ [])
on_message_now l m h now absent =
    rw (on_message-in_order l m h, in_order_now l m now)
      (ground (
        arith,
        accept_lem (note_peer l m.from_uuid) m,
        msg_buf-note_peer l m.from_uuid,
        last_frame-note_peer l m.from_uuid m.from_uuid,
      ))

on_message_ahead :
    (l : Listener) (m : Message)
    → IsForMe l m
    → next_frame (last_frame l m.from_uuid) < m.frame
    → on_message l m ≡ (
      record (note_peer l m.from_uuid) { msg_buf = put l.msg_buf (sprintf m.from_uuid m.frame) m },
      l_ack (ack_for l m) ∷ [],
    )
on_message_ahead l m h ahead = rw (on_message-in_order l m h, in_order_ahead l m ahead)

pub ack_for-same : (l k : Listener) (m : Message) → l.uuid ≡ k.uuid → ack_for l m ≡ ack_for k m
unfolding ack_for
ack_for-same l k m e = rw e

run_two :
    (l l1 l2 : Listener) (a b : Message) (es ds : List Event)
    → on_message l a ≡ (l1, es)
    → on_message l1 b ≡ (l2, ds)
    → run l (a ∷ b ∷ []) ≡ (l2, es ++ (ds ++ []))
unfolding run
run_two l l1 l2 a b es ds p q = rw (p, run, q)

-- Two frames that arrive in the wrong order, the second first: both are acknowledged, but only the
-- first is sent on, and the second stays in the buffer.
pub gap_stalls :
    (l : Listener) (first second : Message)
    → IsForMe l first
    → IsForMe l second
    → first.from_uuid ≡ second.from_uuid
    → first.frame ≡ last_frame l first.from_uuid + 1
    → second.frame ≡ last_frame l first.from_uuid + 2
    → second.frame < 2 ^ 64
    → get l.msg_buf (sprintf first.from_uuid first.frame) ≡ none
    → let (l', sent) = run l (second ∷ first ∷ []) in
      (sent ≡ l_ack (ack_for l second) ∷ l_ack (ack_for l first) ∷ deliver first ∷ [])
      × (get l'.msg_buf (sprintf second.from_uuid second.frame) ≡ some second)
      × (last_frame l' first.from_uuid ≡ first.frame)
gap_stalls l first second hf hs same ef es fits absent =
    let from = first.from_uuid in
    let late = sprintf second.from_uuid second.frame in
    let l1 = record (note_peer l second.from_uuid) { msg_buf = put l.msg_buf late second } in
    let l2 = note_peer l1 from in
    let count : (peer : Bytes) → last_frame l1 peer ≡ last_frame l peer = λ peer.
      last_frame-same l1 (note_peer l second.from_uuid) peer refl
      ∙ last_frame-note_peer l second.from_uuid peer in
    let named : l1.uuid ≡ l.uuid = uuid-note_peer l second.from_uuid in
    let mine : IsForMe l1 first = record {
      addressed = hf.addressed ∙ sym named;
      data_frame = hf.data_frame;
    } in
    let apart : str_eq late (sprintf from first.frame) ≡ false = str_eq_ne _ _ (λ e. absurd (
      omega (
        arith,
        (sprintf-injective second.from_uuid from second.frame first.frame (ground arith) fits
            (omega arith) e).1,
      ))) in
    let one = on_message_ahead l second hs (ground arith) in
    let two =
      on_message_now l1 first mine (ground (arith, count from))
        (get-put l.msg_buf late (sprintf from first.frame) second ∙ rw apart absent) in
    rw (run_two l l1 (advance l2 from) second first _ _ one two, ack_for-same l1 l first named)
      (
        refl,
        rw (msg_buf-advance l2 from, msg_buf-note_peer l1 from)
            (get-put l.msg_buf late late second ∙ rw (str_eq_refl late)),
        ground (
          arith,
          last_frame-advance l2 from from,
          str_eq_refl from,
          last_frame-note_peer l1 from from,
          count from,
        ),
      )
