-- ===== src/Multicast/Group/Kept.antt =====
-- Every run of a session of server/multicast/multicast.go keeps its nodes consistent.
use distributed_chat_applica.Prelude.{refl, subst, List, Occurs-nil, arith}
use distributed_chat_applica.Go.Text.{Bytes}
use distributed_chat_applica.Multicast.Node.{on_ack, remove_dead_node}
use distributed_chat_applica.Multicast.Group.{
  World, world_sent, Move, sends, hears, queues, delivers, acked, settles, forgets, Run, start,
  after, IsNew,
}
use distributed_chat_applica.Multicast.Group.Sites.{
  queued-IsSound, delivered-IsSound, delivered-Advances,
}
use distributed_chat_applica.Multicast.Group.Start.{new-Fresh}
use distributed_chat_applica.Multicast.Group.Consistent.{
  IsConsistent, Advances-same, step_of_one, quiet_step, hear_step,
}
use distributed_chat_applica.Multicast.Group.Sending.{send_message-Sent, send_step}

module _ (ids : List Bytes) (address : Bytes → Bytes) where
  pub Move-IsConsistent :
      {w v : World} → Move ids address w v → IsConsistent ids w → IsConsistent ids v
  unfolding on_ack remove_dead_node
  Move-IsConsistent {w} (sends i d g {m} o e can) h =
      let s = send_message-Sent (w.site i).node m d g e in
      subst (λ k. IsConsistent ids (world_sent ids address w i d k g)) s.made
        (send_step ids address w i d g o h can s.count s.known s.written)
  Move-IsConsistent {w} (hears i d ip es {m} o n e) h = hear_step ids w i d ip es m o n e h
  Move-IsConsistent {w} (queues i msg rest o cut) h =
      step_of_one ids w i _ h (queued-IsSound ids w.sent i (w.site i) msg rest cut (h.sites i o))
        (Advances-same ids i (w.site i).node.vector_clock _ refl)
  Move-IsConsistent {w} (delivers i msg rest o cut) h =
      step_of_one ids w i _ h (delivered-IsSound ids w.sent i (w.site i) rest (h.sites i o))
        (delivered-Advances i (w.site i).node)
  Move-IsConsistent {w} (acked i uuid frame o) h =
      quiet_step ids w i _ o h (ground arith) (ground arith) (ground arith)
  Move-IsConsistent {w} (settles i frame o) h = quiet_step ids w i _ o h refl refl refl
  Move-IsConsistent {w} (forgets i dead o) h = quiet_step ids w i _ o h refl refl refl

  new-IsConsistent : (w : World) → IsNew ids address w → IsConsistent ids w
  new-IsConsistent w new = record {
    sites = λ i o.
        let f = new-Fresh i (new.peers i) (w.site i).node (new.made i o) in
        record {
          same_id = f.same_id;
          sound = record {
            knows = λ k o'. (0, f.peer k (new.all_there i k o o'));
            covers = λ k n c o' e pos le. absurd (omega (arith, f.zero k c e));
            counts = λ x o'. Occurs-nil (new.no_log i o) o';
            all_backed = rw (new.no_log i o) tt;
          };
          waiting = rw (new.no_waiting i o) tt;
          queue = rw f.empty tt;
          log = rw (new.no_log i o) tt;
        };
    senders = λ y o. Occurs-nil new.no_sent o;
    unique = λ x y o. absurd (Occurs-nil new.no_sent o);
    readable = λ d ip o. Occurs-nil new.no_net o;
  }

  pub Run-IsConsistent :
      {w v : World} → IsNew ids address w → Run ids address w v → IsConsistent ids v
  Run-IsConsistent {w} new start = new-IsConsistent w new
  Run-IsConsistent new (after r m) = Move-IsConsistent m (Run-IsConsistent new r)
