-- ===== src/Server/Actions/Failover/Runs.antt =====
-- Two followers that have lost their leader.
use distributed_chat_applica.Prelude.{
  ◌≡◌, refl, [], ◌∷◌, List, false, none, map, replicate, length, ◌==◌, inl, arith, ◌≤◌,
}
use distributed_chat_applica.Go.Text.{Bytes, str_eq, str_ne, str_lt}
use distributed_chat_applica.Go.Map.{get, put}
use distributed_chat_applica.Go.Result.{ok}
use distributed_chat_applica.Broadcast.{new_broadcaster}
use distributed_chat_applica.Broadcast.Sending.{new-InOrder}
use distributed_chat_applica.Multicast.Datagram as Multicast
use distributed_chat_applica.Multicast.Clock.{tick}
use distributed_chat_applica.Multicast.Codec.{encode_multicast_message, encode_clock}
use distributed_chat_applica.Wire.{fixed_id}
use distributed_chat_applica.Go.Binary.{put_be}
use distributed_chat_applica.Unicast.Codec.Malformed.{buffer_size}
use distributed_chat_applica.Multicast.Codec.RoundTrip.{IsSendable}
use distributed_chat_applica.Multicast.Send.{multicast_of}
use distributed_chat_applica.Multicast.Send.Arrives.{CaughtUp}
use distributed_chat_applica.Multicast.Listen.{deliver, ack, arrived, receive, hold_back}
use distributed_chat_applica.StateMachine.{follower, become_leader, election}
use distributed_chat_applica.Server.{
  Server, multicast, attend, begin_election, settle_election, verdict, request,
}
use distributed_chat_applica.Server.Election.{replies}
use distributed_chat_applica.Server.Election.Winner.{is_highest_id, asked}
use distributed_chat_applica.Server.Handlers.{on_multicast_message}
use distributed_chat_applica.Server.Actions.{Outside, settled, drive}
use distributed_chat_applica.Server.Actions.Rounds.{IsLeading, Settles}
use distributed_chat_applica.Server.Actions.Campaign.{campaigning, victory}
use distributed_chat_applica.Server.Actions.Failover.{failover}

abbrev node_a : Bytes
node_a = replicate 36 97

abbrev node_b : Bytes
node_b = replicate 36 98

abbrev following : Bytes → Server
following id = record {
  id = id;
  leader_id = replicate 36 99;
  sm = follower;
  state = follower;
  rm = record {
    id = id;
    frame = 0;
    vector_clock = (node_a, 0) ∷ (node_b, 0) ∷ [];
    hold_back_queue = [];
    node_ids = [];
    buffer_ack = [];
  };
  rm_closed = false;
  rm_port = 5010;
  broadcaster = new_broadcaster id;
  peers = (node_a, 49 ∷ []) ∷ (node_b, 50 ∷ []) ∷ [];
  election_map = [];
}

abbrev nothing : Outside
nothing = record { arrivals = []; sent = false; inbox = [] }

victory-IsSendable : IsSendable (multicast_of (following node_b).rm victory)
unfolding tick get put str_eq
victory-IsSendable = record {
  frame_fits = omega arith;
  id_fixed = refl;
  clock_fits = omega arith;
  is_clock = (refl, omega arith, refl, (refl, omega arith, refl, tt));
  payload_fits = omega arith;
  payload_nonempty = omega arith;
}

victory-short :
    length (encode_multicast_message (multicast_of (following node_b).rm victory)) ≤ buffer_size
unfolding tick get put str_eq encode_multicast_message encode_clock fixed_id put_be
victory-short = omega arith

a-CaughtUp : CaughtUp (following node_b).rm (following node_a).rm.vector_clock
unfolding get str_eq
a-CaughtUp = record {
  count = 0;
  sent = refl;
  delivered = refl;
  fits = omega arith;
  others = λ k n ne e. record { stamp = n; stamped = e; seen = omega arith };
}

failover_example :
    let s = following node_b in
    let t = following node_a in
    let (begun, es) = begin_election (campaigning s) in
    let named = record t { leader_id = node_b } in
    (drive (λ bs. length bs == 36) (nothing ∷ []) election none s ≡ settled begun es)
    × (settle_election (verdict (replies begun (asked es))) begun ≡ request begun become_leader)
    × ((s' : Server) × (datagram : Bytes) × (acked : Bytes) × (msg : Multicast.Message)
        × (more : List Multicast.Message) × (drive
              (λ bs. length bs == 36)
              (nothing ∷ nothing ∷ [])
              become_leader
              none
              begun
            ≡ settled s' (multicast datagram ∷ attend ∷ []))
        × IsLeading node_b s'
        × (receive t.rm datagram (50 ∷ [])
            ≡ ok (t.rm, ack (50 ∷ []) node_b acked ∷ arrived msg ∷ []))
        × ((hold_back t.rm msg).1 ≡ deliver msg ∷ map deliver more)
        × (on_multicast_message t msg ≡ ok (request named follower)))
    × Settles
        (λ t'. (t'.state ≡ follower) × (t'.leader_id ≡ node_b))
        (drive (λ bs. length bs == 36) (nothing ∷ []) follower none named)
unfolding is_highest_id get str_eq str_lt
failover_example =
    failover (λ bs. length bs == 36) (following node_b) (following node_a) (50 ∷ []) nothing nothing
      nothing nothing refl refl refl (new-InOrder node_b) refl victory-IsSendable victory-short refl
      refl (inl refl) (str_ne node_b node_a refl) (refl, (refl, tt)) a-CaughtUp tt
