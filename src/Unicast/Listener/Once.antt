-- ===== src/Unicast/Listener/Once.antt =====
-- reliableListener on the frames of one peer that arrive without gaps, as from a sender that waits
-- for each acknowledgement; frames may come again.
use distributed_chat_applica.Prelude.{
  ℕ, suc, ◌^◌, ◌<◌, ◌≤◌, ◌≡◌, refl, ◌∙◌, subst, sym, List, [], ◌∷◌, ◌++◌, ltb, lt→ltb, le→not_ltb,
  if◌then◌else◌, arith, ◌≢◌, ap,
}
use distributed_chat_applica.Go.Text.{Bytes, str_eq_refl}
use distributed_chat_applica.Go.Map.{get}
use distributed_chat_applica.Unicast.Datagram.{Message}
use distributed_chat_applica.Unicast.Listener.Frames.{
  last_frame-note_peer, last_frame-advance, msg_buf-note_peer, msg_buf-advance, uuid-note_peer,
}
use distributed_chat_applica.Unicast.Listener.Gaps.{IsForMe, on_message_old, on_message_now}
use distributed_chat_applica.Unicast.Listener.{
  Listener, Event, s_ack, l_ack, deliver, last_frame, note_peer, advance, on_message, run, ack_for,
}

-- The messages that are handed to the application.
abbrev pub delivered : List Event → List Message
delivered [] = []
delivered (deliver m ∷ es) = m ∷ delivered es
delivered (s_ack i ∷ es) = delivered es
delivered (l_ack m ∷ es) = delivered es

delivered-append : (es ds : List Event) → delivered (es ++ ds) ≡ delivered es ++ delivered ds
delivered-append [] ds = refl
delivered-append (deliver m ∷ es) ds = ap (◌∷◌ m) (delivered-append es ds)
delivered-append (s_ack i ∷ es) ds = delivered-append es ds
delivered-append (l_ack m ∷ es) ds = delivered-append es ds

-- Data messages of `peer` for the node `uuid` that follow frame `n`: each is the next frame or one
-- that was there before.
pub data Follows (peer uuid : Bytes) : ℕ → List Message → Type 0 where
  done : {n : ℕ} → Follows peer uuid n []
  next :
      {n : ℕ} (m : Message) {ms : List Message}
      → m.from_uuid ≡ peer
      → m.to_uuid ≡ uuid
      → m.response ≢ 1
      → m.frame ≡ suc n
      → suc n < 2 ^ 64
      → Follows peer uuid (suc n) ms
      → Follows peer uuid n (m ∷ ms)
  again :
      {n : ℕ} (m : Message) {ms : List Message}
      → m.from_uuid ≡ peer
      → m.to_uuid ≡ uuid
      → m.response ≢ 1
      → m.frame ≤ n
      → suc n < 2 ^ 64
      → Follows peer uuid n ms
      → Follows peer uuid n (m ∷ ms)

-- Those of the messages whose frame is new when they arrive.
unfoldable pub first_copies : ℕ → List Message → List Message
first_copies n [] = []
first_copies n (m ∷ ms) =
    let new = m ∷ first_copies m.frame ms in
    let old = first_copies n ms in if ltb n m.frame then new else old

module _ (l : Listener) (m : Message) (h : IsForMe l m) (n : ℕ) (fits : suc n < 2 ^ 64)
    (count : last_frame l m.from_uuid ≡ n) where
  fresh_round :
      m.frame ≡ suc n
      → l.msg_buf ≡ []
      → on_message l m
        ≡ (advance (note_peer l m.from_uuid) m.from_uuid, l_ack (ack_for l m) ∷ deliver m ∷ [])
  fresh_round now empty = on_message_now l m h (ground arith) (rw empty (unfold get in refl))

  fresh_count : last_frame (advance (note_peer l m.from_uuid) m.from_uuid) m.from_uuid ≡ suc n
  fresh_count =
      let from = m.from_uuid in
      ground (
        arith,
        last_frame-advance (note_peer l from) from from,
        str_eq_refl from,
        last_frame-note_peer l from from,
      )

pub delivered-run_from :
    (peer uuid : Bytes) (l : Listener) (n : ℕ) (ms : List Message)
    → l.uuid ≡ uuid
    → l.msg_buf ≡ []
    → last_frame l peer ≡ n
    → Follows peer uuid n ms
    → delivered (run l ms).1 ≡ first_copies n ms
unfolding run first_copies
delivered-run_from peer uuid l n _ named empty count done = refl
delivered-run_from peer uuid l n _ named empty count (next m {ms = ms} from to r now fits more) =
    let mine : IsForMe l m = record { addressed = to ∙ sym named; data_frame = r } in
    let count' : last_frame l m.from_uuid ≡ n = rw from count in
    let l' = advance (note_peer l m.from_uuid) m.from_uuid in
    rw (fresh_round l m mine n fits count' now empty, lt→ltb n m.frame (omega arith))
      (ap (◌∷◌ m) (
        subst (λ k. delivered (run l' ms).1 ≡ first_copies k ms) (sym now)
          (delivered-run_from peer uuid l' (suc n) ms
            (unfold advance in uuid-note_peer l m.from_uuid ∙ named)
            (msg_buf-advance (note_peer l m.from_uuid) m.from_uuid
              ∙ msg_buf-note_peer l m.from_uuid
              ∙ empty)
            (subst (λ p. last_frame l' p ≡ suc n) from (fresh_count l m mine n fits count')) more)))
delivered-run_from peer uuid l n _ named empty count (again m {ms = ms} from to r old fits more) =
    let mine : IsForMe l m = record { addressed = to ∙ sym named; data_frame = r } in
    let count' : last_frame l m.from_uuid ≡ n = rw from count in
    let l' = note_peer l m.from_uuid in
    rw (on_message_old l m mine (ground arith), le→not_ltb n m.frame old)
      (delivered-run_from peer uuid l' n ms (uuid-note_peer l m.from_uuid ∙ named)
        (msg_buf-note_peer l m.from_uuid ∙ empty) (last_frame-note_peer l m.from_uuid peer ∙ count)
        more)

-- Without gaps each frame is handed to the application exactly once and in order, however often
-- it arrives: `run` delivers the first copies, if nothing was buffered before.
pub delivered-run :
    (l : Listener) (peer : Bytes) (ms : List Message)
    → l.msg_buf ≡ []
    → Follows peer l.uuid (last_frame l peer) ms
    → delivered (run l ms).1 ≡ first_copies (last_frame l peer) ms
delivered-run l peer ms empty follows =
    delivered-run_from peer l.uuid l (last_frame l peer) ms refl empty refl follows
