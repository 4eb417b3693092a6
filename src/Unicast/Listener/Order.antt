-- ===== src/Unicast/Listener/Order.antt =====
-- The order in which reliableListener hands messages to the application.
use distributed_chat_applica.Prelude.{
  ℕ, ◌≡◌, refl, ◌∙◌, List, [], ◌∷◌, ◌++◌, ltb, ◌==◌, if◌then◌else◌, arith, All, Bool-cases,
  Option-cases, inl, inr, ◌⊎◌, subst,
}
use distributed_chat_applica.Go.Text.{Bytes, str_eq, str_eq_iff}
use distributed_chat_applica.Go.Map.{get, put}
use distributed_chat_applica.Go.Format.{sprintf}
use distributed_chat_applica.Unicast.Datagram.{Message}
use distributed_chat_applica.Unicast.Listener.Frames.{
  frames, frames-append, last_frame-note_peer, last_frame-accept, accept_lem, msg_buf-note_peer,
  last_frame-same,
}
use distributed_chat_applica.Unicast.Listener.Filed.{IsDecoded, IsFiled, on_message-IsFiled}
use distributed_chat_applica.Unicast.Listener.{
  Listener, last_frame, next_frame, note_peer, accept, in_order, on_message, run,
}

-- From `a` the frames go up to `b` by ones, and each comes once or twice.
pub data ClimbsTo (b : ℕ) : ℕ → List ℕ → Type 0 where
  stay : {a : ℕ} → a ≡ b → ClimbsTo b a []
  once : {a : ℕ} {fs : List ℕ} → ClimbsTo b (next_frame a) fs → ClimbsTo b a (next_frame a ∷ fs)
  twice :
      {a : ℕ} {fs : List ℕ}
      → ClimbsTo b (next_frame a) fs
      → ClimbsTo b a (next_frame a ∷ next_frame a ∷ fs)

frames-accept :
    (l : Listener) (m : Message) (peer : Bytes)
    → IsFiled l.msg_buf
    → IsDecoded m
    → m.frame ≡ next_frame (last_frame l m.from_uuid)
    → (frames peer (accept l m).1 ≡ (if str_eq m.from_uuid peer then m.frame ∷ [] else []))
      ⊎ (frames peer (accept l m).1
          ≡ (if str_eq m.from_uuid peer then m.frame ∷ m.frame ∷ [] else []))
frames-accept l m peer filed decoded e =
    let from = m.from_uuid in
    let next = next_frame (last_frame l from) in
    elim (Option-cases (get l.msg_buf (sprintf from next))) [
      | inl n ↦ inl (ground (arith, accept_lem l m))
      | inr (copy, c) ↦ inr (
          ground
            (arith, accept_lem l m, filed.filed from next copy decoded.id_fixed (omega arith) c))
    ]

climb_once :
    {b : ℕ} (a n f : ℕ) {fs : List ℕ}
    → f ≡ next_frame a
    → n ≡ next_frame a
    → ClimbsTo b n fs
    → ClimbsTo b a (f ∷ fs)
climb_once {b} a n f {fs} ef en c = rw ef (once (subst (λ k. ClimbsTo b k fs) en c))

climb_twice :
    {b : ℕ} (a n f : ℕ) {fs : List ℕ}
    → f ≡ next_frame a
    → n ≡ next_frame a
    → ClimbsTo b n fs
    → ClimbsTo b a (f ∷ f ∷ fs)
climb_twice {b} a n f {fs} ef en c = rw ef (twice (subst (λ k. ClimbsTo b k fs) en c))

-- Accepting the awaited frame moves its sender's count up by one, and leaves the others.
accept-ClimbsTo :
    (l : Listener) (m : Message) (peer : Bytes) {b : ℕ} {rest : List ℕ}
    → IsFiled l.msg_buf
    → IsDecoded m
    → m.frame ≡ next_frame (last_frame l m.from_uuid)
    → ClimbsTo b (last_frame (accept l m).0 peer) rest
    → ClimbsTo b (last_frame l peer) (frames peer (accept l m).1 ++ rest)
accept-ClimbsTo l m peer {b} {rest} filed decoded e c =
    elim (Bool-cases (str_eq m.from_uuid peer)) [
      | inl same ↦
          let moved : last_frame (accept l m).0 peer ≡ next_frame (last_frame l peer) =
            ground (arith, last_frame-accept l m peer, str_eq_iff m.from_uuid peer) in
          let awaited : m.frame ≡ next_frame (last_frame l peer) =
            ground (arith, str_eq_iff m.from_uuid peer) in
          elim (frames-accept l m peer filed decoded e) [
            | inl f ↦ rw (f, same) (climb_once (last_frame l peer) _ m.frame awaited moved c)
            | inr f ↦ rw (f, same) (climb_twice (last_frame l peer) _ m.frame awaited moved c)
          ]
      | inr other ↦
          let stays : last_frame (accept l m).0 peer ≡ last_frame l peer =
            ground (arith, last_frame-accept l m peer) in
          let silent : frames peer (accept l m).1 ≡ [] =
            ground (arith, frames-accept l m peer filed decoded e) in
          rw silent (subst (λ k. ClimbsTo b k rest) stays c)
    ]

in_order-ClimbsTo :
    (l : Listener) (m : Message) (peer : Bytes) {b : ℕ} {rest : List ℕ}
    → IsFiled l.msg_buf
    → IsDecoded m
    → ClimbsTo b (last_frame (in_order l m).0 peer) rest
    → ClimbsTo b (last_frame l peer) (frames peer (in_order l m).1 ++ rest)
unfolding in_order
in_order-ClimbsTo l m peer {b} {rest} filed decoded c =
    let from = m.from_uuid in
    let next = next_frame (last_frame l from) in
    let l' = note_peer l from in
    let ahead' = record l' { msg_buf = put l'.msg_buf (sprintf from m.frame) m } in
    let noted = last_frame-note_peer l from peer in
    elim (Bool-cases (ltb next m.frame)) [
      | inl ahead ↦ rw ahead (
          subst (λ k. ClimbsTo b k rest) (last_frame-same ahead' l' peer refl ∙ noted)
            (rw (ahead, in_order) at c))
      | inr e ↦ elim (Bool-cases (ltb m.frame next)) [
        | inl behind ↦
            rw (e, behind) (subst (λ k. ClimbsTo b k rest) noted (rw (e, behind, in_order) at c))
        | inr now ↦
            rw (e, now)
              (subst (λ k. ClimbsTo b k (frames peer (accept l' m).1 ++ rest)) noted
                (accept-ClimbsTo l' m peer (rw msg_buf-note_peer filed) decoded
                  (ground (arith, last_frame-note_peer l from from)) (rw (e, now, in_order) at c)))
      ]
    ]

-- One round: what it delivers of a peer climbs from the old count of that peer to the new one.
pub on_message-ClimbsTo :
    (l : Listener) (m : Message) (peer : Bytes) {b : ℕ} {rest : List ℕ}
    → IsFiled l.msg_buf
    → IsDecoded m
    → ClimbsTo b (last_frame (on_message l m).0 peer) rest
    → ClimbsTo b (last_frame l peer) (frames peer (on_message l m).1 ++ rest)
unfolding on_message
on_message-ClimbsTo l m peer filed decoded c = elim (Bool-cases (str_eq m.to_uuid l.uuid)) [
  | inr other ↦ rw other (rw (other, on_message) at c)
  | inl mine ↦ elim (Bool-cases (m.response == 1)) [
    | inl ack ↦ rw (mine, ack) (rw (mine, ack, on_message) at c)
    | inr sent ↦
        rw (mine, sent)
          (in_order-ClimbsTo l m peer filed decoded (rw (mine, sent, on_message) at c))
  ]
]

-- Whatever datagrams arrive in whatever order, the frames of a peer that are handed to the
-- application go up by ones from the last frame before to the last frame after: none is left out,
-- none comes after a later one, and each comes once or twice.
pub run-ClimbsTo :
    (l : Listener) (ms : List Message) (peer : Bytes)
    → IsFiled l.msg_buf
    → All IsDecoded ms
    → ClimbsTo (last_frame (run l ms).0 peer) (last_frame l peer) (frames peer (run l ms).1)
unfolding run
run-ClimbsTo l [] peer filed decoded = stay refl
run-ClimbsTo l (m ∷ ms) peer filed decoded =
    let l' = (on_message l m).0 in
    rw (frames-append peer (on_message l m).1 (run l' ms).1) (
      on_message-ClimbsTo l m peer filed decoded.0
        (run-ClimbsTo l' ms peer (on_message-IsFiled l m decoded.0 filed) decoded.1))
