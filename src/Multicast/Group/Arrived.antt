-- ===== src/Multicast/Group/Arrived.antt =====
-- That no message waits forever in a session of server/multicast/multicast.go.
use distributed_chat_applica.Prelude.{
  ◌≡◌, ◌≢◌, refl, sym, ◌⊎◌, inl, inr, subst, List, [], ◌∷◌, ◌++◌, All-Occurs, Occurs, at_tail,
  arith,
}
use distributed_chat_applica.Go.Text.{Bytes}
use distributed_chat_applica.Multicast.Datagram.{Message}
use distributed_chat_applica.Multicast.Node.{deliver_messages, on_ack, remove_dead_node}
use distributed_chat_applica.Multicast.Reach.Trace.{delivered}
use distributed_chat_applica.Multicast.Group.{
  World, Move, sends, hears, queues, delivers, acked, settles, forgets, Run, start, after, IsNew,
}
use distributed_chat_applica.Multicast.Group.Consistent.{IsConsistent, receive-Heard}
use distributed_chat_applica.Multicast.Group.Sending.{send_message-Sent}
use distributed_chat_applica.Multicast.Group.Sites.{Foreign, IsSent, All-Removed}
use distributed_chat_applica.Multicast.Group.Kept.{Run-IsConsistent}
use distributed_chat_applica.Multicast.Group.Settles.{Run-IsSettled}
use distributed_chat_applica.Multicast.Group.Complete.{counted_logged, delivered_all, nothing_held}
use distributed_chat_applica.Multicast.Group.Places.{
  logged-old, append-last, append-old, Settled, put_site-Settled, delivered-Settled, arrived_there,
  stays,
}

module _ (ids : List Bytes) (address : Bytes → Bytes) where
  -- The message is delivered or held back at the node.
  abbrev Arrived : World → Bytes → Message → Type 0
  Arrived w i y = Occurs y (w.site i).log ⊎ Occurs y (w.site i).node.hold_back_queue

  -- The step puts `y` into the queue of the node `i`.
  abbrev Handles : {w v : World} → Bytes → Message → Move ids address w v → Type 0
  Handles i y (queues j msg rest o cut) = (i ≡ j) × (y ≡ msg)
  Handles i y _ = ⊥

  -- In the run, a goroutine that the listener of `i` started for `y` has begun.
  abbrev pub Handled : {w v : World} → Bytes → Message → Run ids address w v → Type 0
  Handled i y start = ⊥
  Handled i y (after r m) = Handled i y r ⊎ Handles i y m

  Move-Arrived :
      {w v : World} (m : Move ids address w v) (i : Bytes) (y : Message)
      → IsConsistent ids w
      → Arrived w i y
      → Settled (v.site i) y
  unfolding on_ack remove_dead_node
  Move-Arrived {w} (sends j d g {m} o e can) i y c a =
      stays w.site j i _ y (λ l. at_tail _ l)
        (rw (sym (send_message-Sent (w.site j).node m d g e).made) refl) a
  Move-Arrived {w} (hears j d ip es {m} o n e) i y c a =
      let (msg, is_sent, heard) = receive-Heard ids w j d ip es m n e c in
      stays w.site j i _ y (logged-old y (delivered es) (w.site j).log) heard.same_queue a
  Move-Arrived {w} (queues j msg rest o cut) i y c a =
      arrived_there w.site j i _ y (λ l. l)
        (λ q. inr (inl (append-old y msg (w.site j).node.hold_back_queue q))) a
  Move-Arrived {w} (delivers j msg rest o cut) i y c a =
      let ms = (deliver_messages (w.site j).node).1 in
      arrived_there w.site j i _ y (logged-old y ms (w.site j).log)
        (delivered-Settled (w.site j) y rest) a
  Move-Arrived {w} (acked j uuid frame o) i y c a = stays w.site j i _ y (λ l. l) (ground arith) a
  Move-Arrived {w} (settles j frame o) i y c a = stays w.site j i _ y (λ l. l) refl a
  Move-Arrived {w} (forgets j dead o) i y c a = stays w.site j i _ y (λ l. l) refl a

  Move-Handled :
      {w v : World} (m : Move ids address w v) (i : Bytes) (y : Message)
      → Handles i y m
      → Settled (v.site i) y
  Move-Handled {w} (queues j msg rest o cut) i y (same, is_msg) =
      put_site-Settled w.site j i _ y
        (λ e. inr (
          inl (
            subst (λ z. Occurs y ((w.site j).node.hold_back_queue ++ (z ∷ []))) is_msg
              (append-last y (w.site j).node.hold_back_queue))))
        (λ ne. absurd (ne (sym same)))
  Move-Handled (sends j d g o e can) i y h = elim h [ ]
  Move-Handled (hears j d ip es o n e) i y h = elim h [ ]
  Move-Handled (delivers j msg rest o cut) i y h = elim h [ ]
  Move-Handled (acked j uuid frame o) i y h = elim h [ ]
  Move-Handled (settles j frame o) i y h = elim h [ ]
  Move-Handled (forgets j dead o) i y h = elim h [ ]

  Move-sent :
      {w v : World} (m : Move ids address w v) (y : Message) → Occurs y w.sent → Occurs y v.sent
  Move-sent (sends j d g o e can) y s = at_tail _ s
  Move-sent (hears j d ip es o n e) y s = s
  Move-sent (queues j msg rest o cut) y s = s
  Move-sent (delivers j msg rest o cut) y s = s
  Move-sent (acked j uuid frame o) y s = s
  Move-sent (settles j frame o) y s = s
  Move-sent (forgets j dead o) y s = s

  Handled-sent :
      {w v : World} (m : Move ids address w v) (i : Bytes) (y : Message)
      → IsConsistent ids w
      → Handles i y m
      → Occurs y w.sent
  Handled-sent {w} (queues j msg rest o cut) i y h (same, is_msg) =
      subst (λ z. Occurs z w.sent) (sym is_msg)
        (All-Removed (Foreign ids w.sent j) cut (h.sites j o).waiting).0.0
  Handled-sent (sends j d g o e can) i y h k = elim k [ ]
  Handled-sent (hears j d ip es o n e) i y h k = elim k [ ]
  Handled-sent (delivers j msg rest o cut) i y h k = elim k [ ]
  Handled-sent (acked j uuid frame o) i y h k = elim k [ ]
  Handled-sent (settles j frame o) i y h k = elim k [ ]
  Handled-sent (forgets j dead o) i y h k = elim k [ ]

  Arrived-sent :
      (w : World) (i : Bytes) (y : Message)
      → IsConsistent ids w
      → Occurs i ids
      → Arrived w i y
      → Occurs y w.sent
  Arrived-sent w i y h o (inl l) = All-Occurs (IsSent ids w.sent i) (h.sites i o).log l
  Arrived-sent w i y h o (inr q) = (All-Occurs (Foreign ids w.sent i) (h.sites i o).queue q).0

  -- What was handled is delivered or held back from then on.
  Handled-Arrived :
      {w v : World} (i : Bytes) (y : Message)
      → IsNew ids address w
      → (r : Run ids address w v) → Occurs i ids
      → Handled i y r
      → Arrived v i y
  Handled-Arrived i y new start o h = elim h [ ]
  Handled-Arrived {v = v} i y new (after {u} r m) o h =
      let before = Run-IsConsistent ids address new r in
      let c = Run-IsConsistent ids address new (after r m) in
      let s = Run-IsSettled ids address new (after r m) in
      let now : Settled (v.site i) y × Occurs y v.sent = elim h [
        | inl old ↦
            let a = Handled-Arrived i y new r o old in
            (Move-Arrived m i y before a, Move-sent m y (Arrived-sent u i y before o a))
        | inr k ↦ (Move-Handled m i y k, Move-sent m y (Handled-sent m i y before k))
      ] in
      elim (now.0) [
        | inl l ↦ inl l
        | inr (inl q) ↦ inr q
        | inr (inr stale) ↦ inl (
            counted_logged ids address v i o c s y stale.count now.1 stale.known
              (ground (arith, stale.stamped, stale.old)))
      ]

  -- Nothing waits forever. When the listener of a member has put every message that the others sent
  -- into its queue at some time, in whatever order, and none of its goroutines is between its two
  -- parts, the member has delivered them all, and its queue is empty.
  pub all_delivered :
      (w v : World) (i : Bytes)
      → IsNew ids address w
      → (r : Run ids address w v) → Occurs i ids
      → ((y : Message) → Occurs y v.sent → y.uuid ≢ i → Handled i y r)
      → (v.site i).begun ≡ []
      → ((y : Message) → Occurs y v.sent → Occurs y (v.site i).log)
        × ((v.site i).node.hold_back_queue ≡ [])
  all_delivered w v i new r o handled idle =
      let h = Run-IsConsistent ids address new r in
      let s = Run-IsSettled ids address new r in
      let arrived = λ (y : Message) (k : Occurs y v.sent) (ne : y.uuid ≢ i).
        Handled-Arrived i y new r o (handled y k ne) in
      (
        delivered_all ids address v i o h s v.sent s.founded (λ z p. p) idle arrived,
        nothing_held ids address v i o h s (v.site i).node.hold_back_queue (h.sites i o).queue
            ((s.sites i o).held idle) idle arrived,
      )
