-- ===== src/Multicast/Group/Consistent.antt =====
-- What holds of all nodes of a session of server/multicast/multicast.go together, and the steps that
-- change only one of them.
use distributed_chat_applica.Prelude.{
  ℕ, ◌≤◌, ◌<◌, ◌≡◌, sym, ◌∙◌, inl, inr, subst, List, ◌∷◌, All-append, All-weaken, Occurs, at_tail,
  some, Bool-cases, take, ◌≢◌, arith,
}
use distributed_chat_applica.Go.Text.{Bytes, str_eq, str_eq_iff}
use distributed_chat_applica.Go.Map.{Map, get}
use distributed_chat_applica.Go.Result.{ok}
use distributed_chat_applica.Message as Body
use distributed_chat_applica.Multicast.Datagram.{Message}
use distributed_chat_applica.Multicast.Codec.{decode_multicast_message}
use distributed_chat_applica.Multicast.Node.{Multicaster}
use distributed_chat_applica.Multicast.Listen.{Event, receive}
use distributed_chat_applica.Multicast.Group.{
  Site, World, put_site, with_site, site_heard, arrivals,
}
use distributed_chat_applica.Multicast.Group.Sound.{nth, IsSound}
use distributed_chat_applica.Multicast.Group.Sites.{Foreign, IsSent, SiteIsSound, Advances}
use distributed_chat_applica.Multicast.Group.Heard.{Heard, on_multicast-Heard}
use distributed_chat_applica.Unicast.Codec.Malformed.{buffer_size}

-- A datagram decodes to a message that was sent, and that announces no new node.
pub record Readable (sent : List Message) (datagram ip : Bytes) : Type 0 where
  pub msg : Message
  pub is_sent : Occurs msg sent
  pub decoded : decode_multicast_message (take buffer_size datagram) ip ≡ ok msg
  pub body : Body.Message
  pub reads : Body.decode msg.message ≡ ok body
  pub kind : body.type ≢ Body.new_node

module _ (ids : List Bytes) where
  -- The sender is a member and has counted the message.
  pub record Sender (sites : Bytes → Site) (y : Message) : Type 0 where
    pub member : Occurs y.uuid ids
    pub count : ℕ
    pub known : get (sites y.uuid).node.vector_clock y.uuid ≡ some count
    pub pos : 0 < nth y
    pub le : nth y ≤ count

  pub record IsConsistent (w : World) : Type 0 where
    pub sites : (i : Bytes) → Occurs i ids → SiteIsSound ids w.sent i (w.site i)
    pub senders : (y : Message) → Occurs y w.sent → Sender w.site y
    pub unique :
        (x y : Message)
        → Occurs x w.sent
        → Occurs y w.sent
        → x.uuid ≡ y.uuid
        → nth x ≡ nth y
        → x ≡ y
    pub readable : (datagram ip : Bytes) → Occurs (datagram, ip) w.net → Readable w.sent datagram ip

  -- More messages do not matter to a node.
  pub SiteIsSound-more :
      (sent : List Message) (y : Message) (i : Bytes) (s : Site)
      → SiteIsSound ids sent i s
      → SiteIsSound ids (y ∷ sent) i s
  SiteIsSound-more sent y i s h =
      let more : (m : Message) → Foreign ids sent i m → Foreign ids (y ∷ sent) i m =
        λ m f. (at_tail y f.0, f.1) in
      record {
        same_id = h.same_id;
        sound = h.sound;
        waiting =
            All-weaken (Foreign ids sent i) (Foreign ids (y ∷ sent) i) s.waiting more h.waiting;
        queue =
            All-weaken (Foreign ids sent i) (Foreign ids (y ∷ sent) i) s.node.hold_back_queue more
              h.queue;
        log =
            All-weaken (IsSent ids sent i) (IsSent ids (y ∷ sent) i) s.log (λ m o. at_tail y o)
              h.log;
      }

  pub put_site-IsSound :
      (sites : Bytes → Site) (sent : List Message) (i k : Bytes) (s : Site)
      → SiteIsSound ids sent i s
      → SiteIsSound ids sent k (sites k)
      → SiteIsSound ids sent k (put_site sites i s k)
  unfolding put_site
  put_site-IsSound sites sent i k s here there = elim (Bool-cases (str_eq i k)) [
    | inl same ↦ rw same (subst (λ j. SiteIsSound ids sent j s) ((str_eq_iff i k).0 same) here)
    | inr other ↦ rw other there
  ]

  pub put_site-Sender :
      (sites : Bytes → Site) (i : Bytes) (s : Site) (y : Message)
      → Advances i (sites i).node.vector_clock s.node.vector_clock
      → Sender sites y
      → Sender (put_site sites i s) y
  unfolding put_site
  put_site-Sender sites i s y grows h = elim (Bool-cases (str_eq i y.uuid)) [
    | inl same ↦
        let e = (str_eq_iff i y.uuid).0 same in
        let g =
          grows h.count
            (subst (λ j. get (sites j).node.vector_clock j ≡ some h.count) (sym e) h.known) in
        record {
          member = h.member;
          count = g.count;
          known = rw same (subst (λ j. get s.node.vector_clock j ≡ some g.count) e g.now);
          pos = h.pos;
          le = omega (arith, g.more, h.le);
        }
    | inr other ↦ record {
      member = h.member;
      count = h.count;
      known = rw other h.known;
      pos = h.pos;
      le = h.le;
    }
  ]

  -- A step of one node that sends nothing.
  pub step_of_one :
      (w : World) (i : Bytes) (s : Site)
      → IsConsistent w
      → SiteIsSound ids w.sent i s
      → Advances i (w.site i).node.vector_clock s.node.vector_clock
      → IsConsistent (with_site w i s)
  step_of_one w i s h sound grows = record {
    sites = λ k o. put_site-IsSound w.site w.sent i k s sound (h.sites k o);
    senders = λ y o. put_site-Sender w.site i s y grows (h.senders y o);
    unique = h.unique;
    readable = h.readable;
  }

  pub Advances-same : (i : Bytes) (old new : Map ℕ) → new ≡ old → Advances i old new
  Advances-same i old new e c known = record { count = c; now = rw e known; more = omega arith }

  -- A step that leaves the clock and the queue alone.
  pub quiet_step :
      (w : World) (i : Bytes) (m : Multicaster)
      → Occurs i ids
      → IsConsistent w
      → m.id ≡ (w.site i).node.id
      → m.vector_clock ≡ (w.site i).node.vector_clock
      → m.hold_back_queue ≡ (w.site i).node.hold_back_queue
      → IsConsistent (with_site w i (record (w.site i) { node = m }))
  quiet_step w i m o h same clock queue =
      let s = h.sites i o in
      step_of_one w i (record (w.site i) { node = m }) h
        (record {
          same_id = same ∙ s.same_id;
          sound = subst (λ c. IsSound ids i c (w.site i).log) (sym clock) s.sound;
          waiting = s.waiting;
          queue = rw queue s.queue;
          log = s.log;
        })
        (Advances-same i (w.site i).node.vector_clock m.vector_clock clock)

  -- A round of the listener for a datagram that arrives.
  pub receive-Heard :
      (w : World) (i datagram ip : Bytes) (es : List Event) (m : Multicaster)
      → Occurs (datagram, ip) w.net
      → receive (w.site i).node datagram ip ≡ ok (m, es)
      → IsConsistent w
      → (msg : Message) × Occurs msg w.sent × Heard (w.site i).node m msg es
  unfolding receive
  receive-Heard w i datagram ip es m n e h =
      let r = h.readable datagram ip n in
      (
        r.msg,
        r.is_sent,
        on_multicast-Heard (w.site i).node m r.msg es r.body r.reads r.kind
            (rw (r.decoded, receive) at e),
      )

  -- A datagram arrives.
  pub hear_step :
      (w : World) (i datagram ip : Bytes) (es : List Event) (m : Multicaster)
      → Occurs i ids
      → Occurs (datagram, ip) w.net
      → receive (w.site i).node datagram ip ≡ ok (m, es)
      → IsConsistent w
      → IsConsistent (with_site w i (site_heard (w.site i) m es))
  hear_step w i datagram ip es m o n e h =
      let s = h.sites i o in
      let (msg, is_sent, heard) = receive-Heard w i datagram ip es m n e h in
      step_of_one w i _ h
        (record {
          same_id = heard.same_id ∙ s.same_id;
          sound =
              rw (heard.nothing_delivered)
                (subst (λ c. IsSound ids i c (w.site i).log) (sym heard.same_clock) s.sound);
          waiting = All-append (Foreign ids w.sent i) (w.site i).waiting (arrivals es) s.waiting (
              All-weaken _ (Foreign ids w.sent i) (arrivals es)
                (λ x p.
                  (subst (λ y. Occurs y w.sent) (sym p.0) is_sent, λ q. p.1 (q ∙ sym s.same_id)))
                heard.started);
          queue = rw (heard.same_queue) s.queue;
          log = rw (heard.nothing_delivered) s.log;
        })
        (Advances-same i (w.site i).node.vector_clock m.vector_clock heard.same_clock)
