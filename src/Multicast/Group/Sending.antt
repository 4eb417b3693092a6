-- ===== src/Multicast/Group/Sending.antt =====
-- SendMessage in a session of server/multicast/multicast.go.
use distributed_chat_applica.Prelude.{
  ℕ, suc, ◌^◌, ◌<◌, ◌≤◌, ◌≡◌, refl, sym, ◌∙◌, inl, inr, subst, List, ◌∷◌, Occurs, if◌then◌else◌,
  at_head, at_tail, some, Option-cases, take_all, arith,
}
use distributed_chat_applica.Go.Text.{Bytes, str_eq, str_eq_iff, str_eq_refl}
use distributed_chat_applica.Go.Map.{get, get_or, get-put}
use distributed_chat_applica.Go.Result.{ok}
use distributed_chat_applica.Multicast.Datagram.{Message}
use distributed_chat_applica.Multicast.Codec.{encode_multicast_message, decode_multicast_message}
use distributed_chat_applica.Multicast.Codec.RoundTrip.{
  decode_multicast_message-encode_multicast_message,
}
use distributed_chat_applica.Multicast.Clock.{tick, next_stamp}
use distributed_chat_applica.Multicast.Node.{Multicaster}
use distributed_chat_applica.Multicast.Send.{multicast_of, begin_multicast, send_message}
use distributed_chat_applica.Multicast.Group.{
  Site, World, put_site, CanSend, message_at, world_sent,
}
use distributed_chat_applica.Multicast.Group.Sound.{nth, sending-IsSound}
use distributed_chat_applica.Multicast.Group.Sites.{SiteIsSound, Advances}
use distributed_chat_applica.Multicast.Group.Consistent.{
  Readable, Sender, IsConsistent, SiteIsSound-more, put_site-IsSound, put_site-Sender,
}
use distributed_chat_applica.Unicast.Codec.Malformed.{buffer_size}

-- What SendMessage has done when it returns.
pub record Sent (m m' : Multicaster) (data_bytes datagram : Bytes) : Type 0 where
  pub count : ℕ
  pub known : get m.vector_clock m.id ≡ some count
  pub made : begin_multicast m ≡ m'
  pub written : encode_multicast_message (multicast_of m data_bytes) ≡ datagram

pub send_message-Sent :
    (m m' : Multicaster) (data_bytes datagram : Bytes)
    → send_message m data_bytes ≡ ok (m', datagram)
    → Sent m m' data_bytes datagram
unfolding send_message
send_message-Sent m m' data_bytes datagram h = elim (Option-cases (get m.vector_clock m.id)) [
  | inl absent ↦ absurd (ground arith)
  | inr (c, there) ↦ record {
    count = c;
    known = there;
    made = ground arith;
    written = ground arith;
  }
]

module _ (ids : List Bytes) (address : Bytes → Bytes) where
  -- A message is sent.
  module _ (w : World) (i data_bytes datagram : Bytes) (member : Occurs i ids)
      (h : IsConsistent ids w) (can : CanSend (w.site i).node data_bytes datagram) (count : ℕ)
      (known : get (w.site i).node.vector_clock (w.site i).node.id ≡ some count)
      (written : encode_multicast_message (multicast_of (w.site i).node data_bytes)
        ≡ datagram) where
    abbrev old : Site
    old = w.site i

    abbrev y : Message
    y = message_at ids address i old.node data_bytes

    abbrev new : Site
    new = record old { node = begin_multicast old.node; log = y ∷ old.log }

    pub fits : suc count < 2 ^ 32
    fits = ground (arith, can.below, known)

    mine : old.node.id ≡ i
    mine = (h.sites i member).same_id

    now :
        (k : Bytes)
        → get y.vector_clock k
          ≡ (if str_eq old.node.id k then some (suc count) else get old.node.vector_clock k)
    unfolding tick
    now k = ground (
      arith,
      known,
      fits,
      get-put old.node.vector_clock old.node.id k
          (next_stamp (get_or old.node.vector_clock old.node.id 0)),
    )

    pub own_now : get y.vector_clock y.uuid ≡ some (suc count)
    own_now = now y.uuid ∙ rw (str_eq_refl old.node.id)

    known_i : get old.node.vector_clock i ≡ some count
    known_i = subst (λ j. get old.node.vector_clock j ≡ some count) mine known

    pub new-SiteIsSound : SiteIsSound ids (y ∷ w.sent) i new
    new-SiteIsSound =
        let s = SiteIsSound-more ids w.sent y i old (h.sites i member) in
        record {
          same_id = s.same_id;
          sound =
              sending-IsSound ids i old.node.vector_clock old.log y count mine refl known fits
                s.sound;
          waiting = s.waiting;
          queue = s.queue;
          log = (at_head, s.log);
        }

    own_grows : Advances i old.node.vector_clock new.node.vector_clock
    own_grows c e = record {
      count = suc count;
      now = subst (λ j. get y.vector_clock j ≡ some (suc count)) mine own_now;
      more = ground (arith, known_i);
    }

    old_is_below : (x : Message) → Occurs x w.sent → x.uuid ≡ y.uuid → nth x < nth y
    old_is_below x o e =
        let from = h.senders x o in
        let counted : get old.node.vector_clock i ≡ some from.count =
          subst (λ j. get (w.site j).node.vector_clock j ≡ some from.count) (e ∙ mine) from.known in
        let n : nth y ≡ suc count = ground (arith, own_now) in
        let le : nth x ≤ count = ground (arith, counted, known_i, from.le) in omega (arith, n, le)

    new_unique :
        (a b : Message)
        → Occurs a (y ∷ w.sent)
        → Occurs b (y ∷ w.sent)
        → a.uuid ≡ b.uuid
        → nth a ≡ nth b
        → a ≡ b
    new_unique _ _ at_head at_head e n = refl
    new_unique _ b at_head (at_tail _ o) e n = absurd (omega (arith, old_is_below b o (sym e)))
    new_unique a _ (at_tail _ o) at_head e n = absurd (omega (arith, old_is_below a o e))
    new_unique a b (at_tail _ o) (at_tail _ o') e n = h.unique a b o o' e n

    new-Sender : (x : Message) → Occurs x (y ∷ w.sent) → Sender ids (put_site w.site i new) x
    unfolding put_site
    new-Sender _ at_head = record {
      member = subst (λ j. Occurs j ids) (sym mine) member;
      count = suc count;
      known = rw ((str_eq_iff i old.node.id).1 (sym mine)) own_now;
      pos = ground (arith, own_now);
      le = ground (arith, own_now);
    }
    new-Sender x (at_tail _ o) = put_site-Sender ids w.site i new x own_grows (h.senders x o)

    new-Readable :
        (d ip : Bytes) → Occurs (d, ip) ((datagram, address i) ∷ w.net) → Readable (y ∷ w.sent) d ip
    new-Readable _ _ at_head = record {
      msg = y;
      is_sent = at_head;
      decoded =
          subst (λ d. decode_multicast_message d (address i) ≡ ok y)
            (written ∙ sym (take_all buffer_size datagram can.short))
            (decode_multicast_message-encode_multicast_message (multicast_of old.node data_bytes)
              (address i) can.fits);
      body = can.body;
      reads = can.reads;
      kind = can.kind;
    }
    new-Readable d ip (at_tail _ o) =
        let r = h.readable d ip o in
        record {
          msg = r.msg;
          is_sent = at_tail y r.is_sent;
          decoded = r.decoded;
          body = r.body;
          reads = r.reads;
          kind = r.kind;
        }

    pub send_step :
        IsConsistent ids (world_sent ids address w i data_bytes (begin_multicast old.node) datagram)
    send_step = record {
      sites = λ k o.
          put_site-IsSound ids w.site (y ∷ w.sent) i k new new-SiteIsSound
            (SiteIsSound-more ids w.sent y k (w.site k) (h.sites k o));
      senders = new-Sender;
      unique = new_unique;
      readable = new-Readable;
    }
