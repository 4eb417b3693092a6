-- ===== src/Unicast/EndToEnd.antt =====
-- A sender and a listener of server/unicast/unicast.go together.
pub mod Datagrams
use distributed_chat_applica.Prelude.{
  ℕ, suc, ◌+◌, ◌^◌, ◌<◌, ◌≤◌, ◌≡◌, refl, ◌∙◌, ap, ap₂, List, [], ◌∷◌, ◌++◌, map, lt→ltb, le→not_ltb,
  length, arith, ◌≢◌,
}
use distributed_chat_applica.Go.Text.{Bytes, str_eq_refl}
use distributed_chat_applica.Go.Map.{get_or, get-put}
use distributed_chat_applica.Wire.{fixed_id-eq_self}
use distributed_chat_applica.Unicast.Datagram.{Message}
use distributed_chat_applica.Unicast.Codec.RoundTrip.{arrived}
use distributed_chat_applica.Unicast.Sender.{
  Sender, frame_for, message_for, begin_send, handle_dead_node,
}
use distributed_chat_applica.Unicast.Sender.DeadNode.{
  frame_for-handle_dead_node, uuid-handle_dead_node,
}
use distributed_chat_applica.Unicast.Listener.{
  Listener, l_ack, last_frame, next_frame, on_message, run, ack_for,
}
use distributed_chat_applica.Unicast.Listener.Gaps.{on_message_behind}
use distributed_chat_applica.Unicast.Listener.Once.{
  delivered, Follows, done, next, again, first_copies, delivered-run_from,
}

-- A payload, and the tries of which the datagrams arrive: one at least, before the next message.
pub record Transfer : Type 0 where
  pub payload : Bytes
  pub first : ℕ
  pub more : List ℕ

abbrev pub copy : Bytes → Message → ℕ → Message
copy from_ip m i = arrived from_ip (record m { tries = i })

-- The messages that are decoded when the transfers are sent one after the other from `from_ip`, if
-- their datagrams fit the buffer and have payloads (Unicast/EndToEnd/Datagrams).
pub arrivals : Sender → Bytes → Bytes → Bytes → List Transfer → List Message
arrivals s ip from_ip uuid [] = []
arrivals s ip from_ip uuid (t ∷ ts) =
    copy from_ip (message_for s ip uuid t.payload) t.first
    ∷ (map (copy from_ip (message_for s ip uuid t.payload)) t.more
        ++ arrivals (begin_send s ip uuid t.payload) ip from_ip uuid ts)

abbrev pub payloads : List Transfer → List Bytes
payloads = map (λ t. t.payload)

module _ (from_ip peer uuid : Bytes) (lp : length peer ≡ 36) (lu : length uuid ≡ 36) where
  copy_fields :
      (m : Message) (i : ℕ)
      → m.response ≡ 0
      → m.from_uuid ≡ peer
      → m.to_uuid ≡ uuid
      → ((copy from_ip m i).from_uuid ≡ peer)
        × ((copy from_ip m i).to_uuid ≡ uuid)
        × ((copy from_ip m i).response ≢ 1)
        × ((copy from_ip m i).frame ≡ m.frame)
        × ((copy from_ip m i).message ≡ m.message)
  unfolding arrived
  copy_fields m i r f t = ground (arith, fixed_id-eq_self peer lp, fixed_id-eq_self uuid lu)

  record IsCopied (m : Message) (n : ℕ) : Type 0 where
    is_data : m.response ≡ 0
    from_peer : m.from_uuid ≡ peer
    to_node : m.to_uuid ≡ uuid
    is_old : m.frame ≤ n
    room : suc n < 2 ^ 64

  copies-Follows :
      (m : Message) (n : ℕ) (ks : List ℕ) {rest : List Message}
      → IsCopied m n
      → Follows peer uuid n rest
      → Follows peer uuid n (map (copy from_ip m) ks ++ rest)
  copies-Follows m n [] h f = f
  copies-Follows m n (k ∷ ks) h f =
      let c = copy_fields m k h.is_data h.from_peer h.to_node in
      again (copy from_ip m k) c.0 c.1 c.2 (omega (arith, c.3, h.is_old)) h.room
        (copies-Follows m n ks h f)

  first_copies-copies :
      (m : Message) (n : ℕ) (ks : List ℕ) (rest : List Message)
      → IsCopied m n
      → first_copies n (map (copy from_ip m) ks ++ rest) ≡ first_copies n rest
  unfolding first_copies
  first_copies-copies m n [] rest h = refl
  first_copies-copies m n (k ∷ ks) rest h =
      let c = copy_fields m k h.is_data h.from_peer h.to_node in
      rw (le→not_ltb n (copy from_ip m k).frame (omega (arith, c.3, h.is_old)))
        (first_copies-copies m n ks rest h)

  module _ (ip : Bytes) where
    -- The sender's count for the node after one more message.
    count-begin_send :
        (s : Sender) (payload : Bytes) (n : ℕ)
        → get_or s.peer_frame uuid 0 ≡ n
        → suc n < 2 ^ 64
        → get_or (begin_send s ip uuid payload).peer_frame uuid 0 ≡ suc n
    unfolding begin_send
    count-begin_send s payload n e small =
        ground (arith, get-put s.peer_frame uuid uuid (frame_for s uuid), str_eq_refl uuid)

    sent-IsCopied :
        (s : Sender) (payload : Bytes) (n : ℕ)
        → get_or s.peer_frame uuid 0 ≡ n
        → s.uuid ≡ peer
        → suc (suc n) < 2 ^ 64
        → IsCopied (message_for s ip uuid payload) (suc n)
    sent-IsCopied s payload n e p small = record {
      is_data = refl;
      from_peer = p;
      to_node = refl;
      is_old = ground arith;
      room = small;
    }

    arrivals-Follows :
        (s : Sender) (n : ℕ) (ts : List Transfer)
        → get_or s.peer_frame uuid 0 ≡ n
        → s.uuid ≡ peer
        → n + length ts + 1 < 2 ^ 64
        → Follows peer uuid n (arrivals s ip from_ip uuid ts)
    unfolding arrivals
    arrivals-Follows s n [] e p small = done
    arrivals-Follows s n (t ∷ ts) e p small =
        let m = message_for s ip uuid t.payload in
        let c = copy_fields m t.first refl p refl in
        let s' = begin_send s ip uuid t.payload in
        next (copy from_ip m t.first) c.0 c.1 c.2 (ground (arith, c.3)) (omega arith) (
          copies-Follows m (suc n) t.more (sent-IsCopied s t.payload n e p (omega arith)) (
            arrivals-Follows s' (suc n) ts (count-begin_send s t.payload n e (omega arith))
              (unfold begin_send in p) (omega arith)))

    first_copies-arrivals :
        (s : Sender) (n : ℕ) (ts : List Transfer)
        → get_or s.peer_frame uuid 0 ≡ n
        → s.uuid ≡ peer
        → n + length ts + 1 < 2 ^ 64
        → map (λ m. m.message) (first_copies n (arrivals s ip from_ip uuid ts)) ≡ payloads ts
    unfolding arrivals first_copies
    first_copies-arrivals s n [] e p small = refl
    first_copies-arrivals s n (t ∷ ts) e p small =
        let m = message_for s ip uuid t.payload in
        let c = copy_fields m t.first refl p refl in
        let s' = begin_send s ip uuid t.payload in
        let later = arrivals s' ip from_ip uuid ts in
        let frame : (copy from_ip m t.first).frame ≡ suc n = ground (arith, c.3) in
        let tail : map (λ m. m.message)
              (first_copies (suc n) (map (copy from_ip m) t.more ++ later))
            ≡ payloads ts =
          rw
            (first_copies-copies m (suc n) t.more later
              (sent-IsCopied s t.payload n e p (omega arith)))
            (first_copies-arrivals s' (suc n) ts (count-begin_send s t.payload n e (omega arith))
              (unfold begin_send in p) (omega arith)) in
        rw (lt→ltb n (copy from_ip m t.first).frame (omega (arith, frame))) (
          ap₂ ◌∷◌ c.4 (
            ap (λ k. map (λ m. m.message) (first_copies k (map (copy from_ip m) t.more ++ later)))
              frame
            ∙ tail))

-- Ordered delivery of messages as they are decoded. When each message of one sender reaches one listener before the next
-- is sent, in any number of copies, the listener hands the payloads to the application exactly
-- once and in order; this wants ids of 36 bytes, nothing buffered, and counts that agree.
pub delivered-arrivals :
    (s : Sender) (l : Listener) (ip from_ip : Bytes) (ts : List Transfer)
    → length s.uuid ≡ 36
    → length l.uuid ≡ 36
    → l.msg_buf ≡ []
    → last_frame l s.uuid ≡ get_or s.peer_frame l.uuid 0
    → get_or s.peer_frame l.uuid 0 + length ts + 1 < 2 ^ 64
    → map (λ m. m.message) (delivered (run l (arrivals s ip from_ip l.uuid ts)).1) ≡ payloads ts
delivered-arrivals s l ip from_ip ts ls ll empty agree small =
    let n : ℕ = get_or s.peer_frame l.uuid 0 in
    rw
      (delivered-run_from s.uuid l.uuid l n (arrivals s ip from_ip l.uuid ts) refl empty agree
        (arrivals-Follows from_ip s.uuid l.uuid ls ll ip s n ts refl refl small))
      (first_copies-arrivals from_ip s.uuid l.uuid ls ll ip s n ts refl refl small)

-- A node that was taken for dead but is alive: the next message to it has frame 1, which its
-- listener has seen before, so the message is acknowledged and lost.
pub restarted_is_lost :
    (s : Sender) (l : Listener) (ip from_ip payload : Bytes) (i : ℕ)
    → length s.uuid ≡ 36
    → length l.uuid ≡ 36
    → 0 < last_frame l s.uuid
    → last_frame l s.uuid + 1 < 2 ^ 64
    → let m = message_for (handle_dead_node s l.uuid) ip l.uuid payload in
      (on_message l (copy from_ip m i)).1 ≡ l_ack (ack_for l (copy from_ip m i)) ∷ []
restarted_is_lost s l ip from_ip payload i ls ll seen small =
    let t = handle_dead_node s l.uuid in
    let m = message_for t ip l.uuid payload in
    let c =
      copy_fields from_ip s.uuid l.uuid ls ll m i refl (uuid-handle_dead_node s l.uuid) refl in
    let old : (copy from_ip m i).frame < next_frame (last_frame l (copy from_ip m i).from_uuid) =
      ground (arith, c.0, c.3, frame_for-handle_dead_node s l.uuid) in
    (on_message_behind l (copy from_ip m i) (record { addressed = c.1; data_frame = c.2 }) old).0
