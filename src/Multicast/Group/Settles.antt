-- ===== src/Multicast/Group/Settles.antt =====
-- Every run of a session of server/multicast/multicast.go leaves no message waiting that could be
-- sent on.
use distributed_chat_applica.Prelude.{
  ℕ, ◌≡◌, refl, sym, ◌∙◌, inl, inr, subst, List, ◌∷◌, All-Occurs, Occurs, some, Bool-cases, arith,
}
use distributed_chat_applica.Go.Text.{Bytes, str_eq, str_eq_iff}
use distributed_chat_applica.Go.Map.{get, get_or, get-put, Distinct, put-Distinct}
use distributed_chat_applica.Multicast.Datagram.{Message}
use distributed_chat_applica.Multicast.Codec.{encode_multicast_message}
use distributed_chat_applica.Multicast.Clock.{tick, next_stamp}
use distributed_chat_applica.Multicast.HoldBack.Picked.{AllHeld}
use distributed_chat_applica.Multicast.Node.{
  Multicaster, deliver_messages, on_ack, remove_dead_node,
}
use distributed_chat_applica.Multicast.Node.Deliver.{
  deliver_messages-Delivers, deliver_messages-AllHeld,
}
use distributed_chat_applica.Multicast.Send.{multicast_of, begin_multicast}
use distributed_chat_applica.Multicast.Reach.Start.{new-Started}
use distributed_chat_applica.Multicast.Reach.{deliver_messages-Keeps}
use distributed_chat_applica.Multicast.Group.{
  Site, World, put_site, CanSend, message_at, with_site, site_queued, site_delivered, Move, sends,
  hears, queues, delivers, acked, settles, forgets, Run, start, after, IsNew,
}
use distributed_chat_applica.Multicast.Group.Sites.{IsSent}
use distributed_chat_applica.Multicast.Group.Consistent.{IsConsistent, receive-Heard}
use distributed_chat_applica.Multicast.Group.Sending.{
  send_message-Sent, fits, own_now, new-SiteIsSound,
}
use distributed_chat_applica.Multicast.Group.Kept.{Run-IsConsistent}
use distributed_chat_applica.Multicast.Group.Settled.{
  Founded, SiteIsSettled, IsSettled, Delivers-members, tick-AllHeld,
}
use distributed_chat_applica.Multicast.Group.Start.{new-Fresh}

module _ (ids : List Bytes) where
  put_site-IsSettled :
      (sites : Bytes → Site) (i : Bytes) (s : Site)
      → SiteIsSettled ids s
      → ((k : Bytes) → Occurs k ids → SiteIsSettled ids (sites k))
      → (k : Bytes) → Occurs k ids
      → SiteIsSettled ids (put_site sites i s k)
  unfolding put_site
  put_site-IsSettled sites i s here there k o = elim (Bool-cases (str_eq i k)) [
    | inl same ↦ rw same here
    | inr other ↦ rw other (there k o)
  ]

  same-IsSettled :
      (s s' : Site)
      → s'.node.vector_clock ≡ s.node.vector_clock
      → s'.node.hold_back_queue ≡ s.node.hold_back_queue
      → s'.begun ≡ s.begun
      → SiteIsSettled ids s
      → SiteIsSettled ids s'
  same-IsSettled s s' clock queue begun h = record {
    members = λ k n e. h.members k n (subst (λ c. get c k ≡ some n) clock e);
    distinct = subst Distinct (sym clock) h.distinct;
    held = λ idle. rw (clock, queue) (h.held (sym begun ∙ idle));
  }

  queued-IsSettled :
      (s : Site) (msg : Message) (rest : List Message)
      → SiteIsSettled ids s
      → SiteIsSettled ids (site_queued s msg rest)
  queued-IsSettled s msg rest h = record {
    members = h.members;
    distinct = h.distinct;
    held = λ idle. absurd (cc);
  }

  delivered-IsSettled :
      (s : Site) (rest : List Message)
      → SiteIsSettled ids s
      → SiteIsSettled ids (site_delivered s rest)
  delivered-IsSettled s rest h =
      let (n, ms) = deliver_messages s.node in
      record {
        members =
            Delivers-members ids n.vector_clock s.node.vector_clock ms
              (deliver_messages-Delivers s.node) h.members;
        distinct = (deliver_messages-Keeps s.node).distinct h.distinct;
        held = λ idle. deliver_messages-AllHeld s.node;
      }

module _ (ids : List Bytes) (address : Bytes → Bytes) (w : World) (i data_bytes datagram : Bytes)
    (member : Occurs i ids) (h : IsConsistent ids w) (settled : IsSettled ids w)
    (can : CanSend (w.site i).node data_bytes datagram) (count : ℕ)
    (known : get (w.site i).node.vector_clock (w.site i).node.id ≡ some count)
    (written : encode_multicast_message (multicast_of (w.site i).node data_bytes) ≡ datagram) where
  abbrev m : Multicaster
  m = (w.site i).node

  abbrev y : Message
  y = message_at ids address i m data_bytes

  sent-Founded : Founded ids y w.sent
  sent-Founded =
      let s =
        new-SiteIsSound ids address w i data_bytes datagram member h can count known written in
      let own = own_now ids address w i data_bytes datagram member h can count known written in
      let below = fits ids address w i data_bytes datagram member h can count known written in
      record {
        stamps = s.sound.knows;
        rests = λ k n o pos le side.
            let f = s.sound.all_backed.0.backs k n o pos le side in
            record {
              msg = f.msg;
              there = All-Occurs (IsSent ids w.sent i) (h.sites i member).log f.there;
              from = f.from;
              is_nth = f.is_nth;
            };
        small = ground (arith, own);
      }

  sent-IsSettled :
      SiteIsSettled ids (record (w.site i) { node = begin_multicast m; log = y ∷ (w.site i).log })
  unfolding tick
  sent-IsSettled =
      let s = settled.sites i member in
      let mine = (h.sites i member).same_id in
      let below = fits ids address w i data_bytes datagram member h can count known written in
      record {
        members = λ k n e. elim (Bool-cases (str_eq m.id k)) [
          | inl same ↦ subst (λ j. Occurs j ids) (sym mine ∙ (str_eq_iff m.id k).0 same) member
          | inr other ↦ s.members k n (
              ground
                (arith, get-put m.vector_clock m.id k (next_stamp (get_or m.vector_clock m.id 0))))
        ];
        distinct =
            put-Distinct m.vector_clock m.id (next_stamp (get_or m.vector_clock m.id 0)) s.distinct;
        held = λ idle.
            subst (λ j. AllHeld (tick m.vector_clock j) m.hold_back_queue) (sym mine)
              (tick-AllHeld ids w i count m.hold_back_queue h settled.founded member
                (subst (λ j. get m.vector_clock j ≡ some count) mine known) below
                (h.sites i member).queue (s.held idle));
      }

module _ (ids : List Bytes) (address : Bytes → Bytes) where
  step-IsSettled :
      (w : World) (i : Bytes) (s : Site)
      → IsSettled ids w
      → SiteIsSettled ids s
      → IsSettled ids (with_site w i s)
  step-IsSettled w i s h here = record {
    sites = put_site-IsSettled ids w.site i s here h.sites;
    founded = h.founded;
  }

  Move-IsSettled :
      {w v : World} → Move ids address w v → IsConsistent ids w → IsSettled ids w → IsSettled ids v
  unfolding on_ack remove_dead_node
  Move-IsSettled {w} (sends i d g {m} o e can) c h =
      let s = send_message-Sent (w.site i).node m d g e in
      let sent = sent-IsSettled ids address w i d g o c h can s.count s.known s.written in
      record {
        sites =
            put_site-IsSettled ids w.site i _
              (same-IsSettled ids
                (record (w.site i) {
                  node = begin_multicast (w.site i).node;
                  log = message_at ids address i (w.site i).node d ∷ (w.site i).log;
                })
                (record (w.site i) {
                  node = m;
                  log = message_at ids address i (w.site i).node d ∷ (w.site i).log;
                })
                (rw (sym s.made) refl) (rw (sym s.made) refl) refl sent)
              h.sites;
        founded = (sent-Founded ids address w i d g o c h can s.count s.known s.written, h.founded);
      }
  Move-IsSettled {w} (hears i d ip es {m} o n e) c h =
      let (msg, is_sent, heard) = receive-Heard ids w i d ip es m n e c in
      step-IsSettled w i _ h
        (same-IsSettled ids (w.site i) _ heard.same_clock heard.same_queue refl (h.sites i o))
  Move-IsSettled {w} (queues i msg rest o cut) c h =
      step-IsSettled w i _ h (queued-IsSettled ids (w.site i) msg rest (h.sites i o))
  Move-IsSettled {w} (delivers i msg rest o cut) c h =
      step-IsSettled w i _ h (delivered-IsSettled ids (w.site i) rest (h.sites i o))
  Move-IsSettled {w} (acked i uuid frame o) c h =
      step-IsSettled w i _ h
        (same-IsSettled ids (w.site i) _ (ground arith) (ground arith) refl (h.sites i o))
  Move-IsSettled {w} (settles i frame o) c h =
      step-IsSettled w i _ h (same-IsSettled ids (w.site i) _ refl refl refl (h.sites i o))
  Move-IsSettled {w} (forgets i dead o) c h =
      step-IsSettled w i _ h (same-IsSettled ids (w.site i) _ refl refl refl (h.sites i o))

  new-IsSettled : (w : World) → IsNew ids address w → IsSettled ids w
  new-IsSettled w new = record {
    sites = λ i o.
        let f = new-Fresh i (new.peers i) (w.site i).node (new.made i o) in
        record {
          members = λ k n e. elim (f.members k n e) [
            | inl own ↦ subst (λ j. Occurs j ids) (sym own) o
            | inr there ↦ new.no_others i k o there
          ];
          distinct = (new-Started i (new.peers i) (w.site i).node (new.made i o)).distinct;
          held = λ idle. rw f.empty tt;
        };
    founded = rw new.no_sent tt;
  }

  pub Run-IsSettled : {w v : World} → IsNew ids address w → Run ids address w v → IsSettled ids v
  Run-IsSettled {w} new start = new-IsSettled w new
  Run-IsSettled new (after r m) =
      Move-IsSettled m (Run-IsConsistent ids address new r) (Run-IsSettled new r)
