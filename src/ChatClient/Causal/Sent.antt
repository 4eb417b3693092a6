-- ===== src/ChatClient/Causal/Sent.antt =====
-- What a server hands on to its clients, and what they show, comes from the members of the session.
use distributed_chat_applica.Prelude.{
  Merge, Merge-Occurs, ◌⊎◌, ◌≡◌, ◌≢◌, refl, sym, ap, ◌∙◌, subst, List, [], ◌∷◌, ◌++◌, Bool, inl,
  inr, Occurs, at_head, at_tail, Occurs-singleton, Occurs-split, Occurs-unmap, Occurs-nil, Option,
  none, some, Bool-cases, ℕ, All, map, arith, false, ◌==◌,
}
use distributed_chat_applica.Go.Text.{Bytes, str_eq, str_eq_iff}
use distributed_chat_applica.Go.Scanner.{IsLine}
use distributed_chat_applica.Go.Result.{ok, Result-cases}
use distributed_chat_applica.Message as Body
use distributed_chat_applica.Multicast.Datagram.{Message}
use distributed_chat_applica.Multicast.Group.{World, IsNew, Run}
use distributed_chat_applica.Multicast.Group.Sound.{Occurs-After}
use distributed_chat_applica.Multicast.Group.Order.{logged_once}
use distributed_chat_applica.StateMachine.{
  State, start, init, leader, follower, become_leader, become_follower, election, change_to, Action,
}
use distributed_chat_applica.Server.{Server, Event, chat, action, request, collect_peers}
use distributed_chat_applica.Server.Handlers.{on_multicast_message, on_victory, on_peer_info}
use distributed_chat_applica.Server.Clients.{ClientServer, Turn, run_turns}
use distributed_chat_applica.Server.Clients.Sessions.{written, OpensOnce, heard, echoed}
use distributed_chat_applica.ChatClient.{Shown, listen}
use distributed_chat_applica.ChatClient.Reads.{line_of, IsName}
use distributed_chat_applica.ChatClient.Causal.{
  texts, Listens, quiet, round, deliveries, texts-append, shown_as, screen,
}

-- The multicast carries a chat message, the text.
pub record Tells (m : Message) (text : Bytes) : Type 0 where
  pub body : Body.Message
  pub reads : Body.decode m.message ≡ ok body
  pub kind : body.type ≡ Body.application
  pub said : body.msg ≡ text

starts_nothing :
    (started : Option Action) → texts (elim started [ none ↦ [] | some a ↦ action a ∷ [] ]) ≡ []
starts_nothing none = refl
starts_nothing (some a) = refl

requests_nothing : (s : Server) (target : State) → texts (request s target).1 ≡ []
requests_nothing s target = starts_nothing (change_to s.sm target).1

victory_tells_nothing :
    (s : Server) (uuid : Bytes) (state : State) → s.state ≡ state → texts (on_victory s uuid).1 ≡ []
unfolding on_victory
victory_tells_nothing s uuid follower e =
    rw (on_victory, e) (requests_nothing (record s { leader_id = uuid }) follower)
victory_tells_nothing s uuid election e =
    rw (on_victory, e) (requests_nothing (record s { leader_id = uuid }) follower)
victory_tells_nothing s uuid start e = rw (on_victory, e) refl
victory_tells_nothing s uuid init e = rw (on_victory, e) refl
victory_tells_nothing s uuid leader e = rw (on_victory, e) refl
victory_tells_nothing s uuid become_leader e = rw (on_victory, e) refl
victory_tells_nothing s uuid become_follower e = rw (on_victory, e) refl

peer_info_tells_nothing :
    (s s' : Server) (body : Body.Message) (es : List Event)
    → on_peer_info s body ≡ ok (s', es)
    → es ≡ []
unfolding on_peer_info
peer_info_tells_nothing s s' body es h =
    ground (arith, Result-cases (collect_peers [] body.peer_ids body.peer_ips))

typed-Tells :
    (s s' : Server) (m : Message) (es : List Event) (body : Body.Message) (text : Bytes)
    → str_eq m.uuid s.id ≡ false
    → Body.decode m.message ≡ ok body
    → on_multicast_message s m ≡ ok (s', es)
    → Occurs text (texts es)
    → Tells m text
unfolding on_multicast_message
typed-Tells s s' m es body text other reads h o =
    let silent = λ (e : es ≡ []). Occurs-nil {B = Tells m text} (ap texts e) o in
    elim (Bool-cases (body.type == Body.dead_node)) [
      | inl dead ↦ silent (ground arith)
      | inr not_dead ↦ elim (Bool-cases (body.type == Body.election_victory)) [
        | inl victory ↦
            let same : (on_victory s m.uuid).1 ≡ es = ground arith in
            Occurs-nil (sym (ap texts same) ∙ victory_tells_nothing s m.uuid s.state refl) o
        | inr not_victory ↦ elim (Bool-cases (body.type == Body.application)) [
          | inl chats ↦
              let same : chat body.msg ∷ [] ≡ es = ground arith in
              let there = subst (λ l. Occurs text (texts l)) (sym same) o in
              record {
                body = body;
                reads = reads;
                kind = ground arith;
                said = Occurs-singleton there;
              }
          | inr not_chat ↦ elim (Bool-cases (body.type == Body.peer_info)) [
            | inl peers ↦ silent (peer_info_tells_nothing s s' body es (ground arith))
            | inr nothing ↦ silent (ground arith)
          ]
        ]
      ]
    ]

round-Tells :
    (s s' : Server) (m : Message) (es : List Event) (text : Bytes)
    → on_multicast_message s m ≡ ok (s', es)
    → Occurs text (texts es)
    → Tells m text
unfolding on_multicast_message
round-Tells s s' m es text h o =
    let silent = λ (e : es ≡ []). Occurs-nil {B = Tells m text} (ap texts e) o in
    elim (Bool-cases (str_eq m.uuid s.id)) [
      | inl own ↦ silent (ground arith)
      | inr other ↦ elim (Result-cases (Body.decode m.message)) [
        | inl (body, reads) ↦ typed-Tells s s' m es body text other reads h o
        | inr (inl (e, fails)) ↦ silent (ground arith)
        | inr (inr panics) ↦ absurd (ground arith)
      ]
    ]

-- What is handed on was carried by a message that the multicaster delivered.
Listens-Tells :
    (i text : Bytes) (ms : List Message) (es : List Event)
    → Listens i ms es
    → Occurs text (texts es)
    → (m : Message) × Occurs m ms × Tells m text
Listens-Tells i text _ _ quiet o = elim o [ ]
Listens-Tells i text _ _ (round {m = m} {ms = ms} {es = es} {later = later} s s' same h l) o =
    elim (Occurs-split (texts es) (texts later) (subst (Occurs text) (texts-append es later) o)) [
      | inl now ↦ (m, at_head, round-Tells s s' m es text h now)
      | inr then_ ↦
          let (x, there, tells) = Listens-Tells i text ms later l then_ in
          (x, at_tail m there, tells)
    ]

Occurs-delivery :
    (i : Bytes) (x : Message) (log : List Message)
    → Occurs x (deliveries i log)
    → Occurs x log × (x.uuid ≢ i)
Occurs-delivery i x [] o = elim o [ ]
Occurs-delivery i x (z ∷ log) o = elim (Bool-cases (str_eq z.uuid i)) [
  | inl own ↦
      let e : deliveries i (z ∷ log) ≡ deliveries i log = rw own refl in
      let (l, other) = Occurs-delivery i x log (subst (Occurs x) e o) in (at_tail z l, other)
  | inr foreign ↦
      let e : deliveries i (z ∷ log) ≡ deliveries i log ++ z ∷ [] = rw foreign refl in
      elim (Occurs-split (deliveries i log) (z ∷ []) (subst (Occurs x) e o)) [
        | inl before ↦ let (l, other) = Occurs-delivery i x log before in (at_tail z l, other)
        | inr last ↦
            subst (λ y. Occurs y (z ∷ log) × (y.uuid ≢ i)) (Occurs-singleton last)
              (at_head, λ p. absurd (ground (arith, str_eq_iff z.uuid i)))
      ]
]

-- Nothing is made up on the way. Let a client of the server `i` hear nothing but what the server has
-- handed on of its multicaster's deliveries and the lines of the server's own users, merged in any way;
-- all that it hears are lines of users whose names have no colon. Then whatever it shows is a line
-- of one of the server's own users, or the line of a message that another member sent in the session, as
-- an application message.
pub shown_was_sent :
    (ids : List Bytes) (address : Bytes → Bytes) (is_ip : Bytes → Bool) (w v : World) (i : Bytes)
    (es : List Event) (cs : ClientServer) (turns : List Turn) (conn : ℕ)
    (chats : List (Bytes × Bytes)) (item : Shown)
    → IsNew ids address w
    → Run ids address w v
    → Occurs i ids
    → Listens i (deliveries i (v.site i).log) es
    → cs.clients ≡ []
    → OpensOnce [] turns
    → Merge (texts es) (echoed (run_turns turns cs)) (heard conn false turns)
    → heard conn false turns ≡ map line_of chats
    → All (λ c. IsName (c.0)) chats
    → All IsLine (map line_of chats)
    → Occurs item (listen is_ip (written conn (run_turns turns cs))).0
    → (text : Bytes) × (item ≡ shown_as text)
      × (Occurs text (echoed (run_turns turns cs))
          ⊎ ((x : Message) × Occurs x v.sent × Occurs x.uuid ids × (x.uuid ≢ i) × Tells x text))
shown_was_sent ids address is_ip w v i es cs turns conn chats item new run o listens none_yet
      once_each merged lines names fits seen =
    let shows = screen is_ip cs turns conn chats none_yet once_each lines names fits in
    let (text, there, same) =
      Occurs-unmap shown_as (heard conn false turns) (subst (Occurs item) shows seen) in
    (
      text,
      sym same,
      elim (Merge-Occurs merged there) [
        | inr own ↦ inl own
        | inl foreign ↦
            let (x, arrived, tells) =
              Listens-Tells i text (deliveries i (v.site i).log) es listens foreign in
            let (logged, other) = Occurs-delivery i x (v.site i).log arrived in
            let (before, after) = Occurs-After logged in
            let (sent, member, new_one) = logged_once ids address w v i x before new run o after in
            inr (x, sent, member, other, tells)
      ],
    )
