-- ===== src/Server/Election/Outcome.antt =====
-- An election of server/state_listener.go for each server of a session.
use mathlib.Core.List.{Perm}
use distributed_chat_applica.Prelude.{
  List, Bool, ◌||◌, Occurs, Occurs-nil, at_head, ◌≡◌, ◌≢◌, refl, sym, ◌∙◌, [], ◌∷◌, true, some,
  if◌then◌else◌, Bool-cases, inl, inr, arith,
}
use distributed_chat_applica.Go.Text.{
  Bytes, str_eq, str_eq_iff, str_eq_refl, str_lt, str_lt_total, str_lt_irrefl, str_lt_trans,
}
use distributed_chat_applica.Go.Map.{Map, get}
use distributed_chat_applica.StateMachine.{election}
use distributed_chat_applica.Server.{Server, begin_election, verdict, waits, wins}
use distributed_chat_applica.Server.Election.{replies, verdict_lem}
use distributed_chat_applica.Server.Election.Winner.{
  is_highest_id, is_highest_id-perm, asked, asked-highest, is_empty, highest_beats,
}

-- What is above a highest id is the highest.
highest_above :
    (peers : Map Bytes) (w u : Bytes)
    → is_highest_id peers w ≡ true
    → str_lt w u ≡ true
    → is_highest_id peers u ≡ true
unfolding is_highest_id
highest_above [] w u h lt = refl
highest_above ((v, ip) ∷ peers) w u h lt =
    ground (arith, highest_above peers w u, str_lt_trans w u v, str_lt_irrefl w, str_eq_iff v w)

-- The highest of an id and those of the peers.
abbrev pub highest_id : Bytes → Map Bytes → Bytes
highest_id u [] = u
highest_id u ((v, ip) ∷ peers) = let w = highest_id v peers in if str_lt w u then u else w

record IsHighest (peers : Map Bytes) (w : Bytes) : Type 0 where
  ip : Bytes
  known : get peers w ≡ some ip
  highest : is_highest_id peers w ≡ true

highest_id-IsHighest :
    (u ip : Bytes) (peers : Map Bytes) → IsHighest ((u, ip) ∷ peers) (highest_id u peers)
unfolding is_highest_id get
highest_id-IsHighest u ip [] = record {
  ip = ip;
  known = rw (str_eq_refl u) refl;
  highest = rw (str_eq_refl u) refl;
}
highest_id-IsHighest u ip ((v, ip') ∷ peers) =
    let w = highest_id v peers in
    let below = highest_id-IsHighest v ip' peers in
    elim (Bool-cases (str_lt w u)) [
      | inl above ↦ rw above (record {
        ip = ip;
        known = rw (str_eq_refl u) refl;
        highest = rw (str_eq_refl u) (highest_above ((v, ip') ∷ peers) w u below.highest above);
      })
      | inr not_above ↦ elim (Bool-cases (str_eq u w)) [
        | inl same ↦
            rw not_above
              (record { ip = ip; known = rw same refl; highest = rw same (below.highest) })
        | inr other ↦ rw not_above (record {
          ip = below.ip;
          known = rw other (below.known);
          highest = rw (other, not_above) (below.highest);
        })
      ]
    ]

only_one :
    (peers : Map Bytes) (w id w_ip id_ip : Bytes)
    → get peers w ≡ some w_ip
    → get peers id ≡ some id_ip
    → is_highest_id peers w ≡ true
    → is_highest_id peers id ≡ str_eq id w
only_one peers w id w_ip id_ip knows known h = elim (Bool-cases (str_eq id w)) [
  | inl same ↦ rw (same, (str_eq_iff id w).0 same) h
  | inr other ↦ elim (Bool-cases (is_highest_id peers id)) [
    | inr lower ↦ lower ∙ sym other
    | inl also ↦
        let ne : id ≢ w = λ e. absurd (ground (arith, str_eq_iff id w)) in
        let a = highest_beats peers w id id_ip h known ne in
        let b = highest_beats peers id w w_ip also knows (λ e. ne (sym e)) in
        absurd (ground (arith, str_lt_total id w ne))
  ]
]

asks_nobody :
    (s : Server) (peers : Map Bytes)
    → Perm s.peers peers
    → is_highest_id peers s.id ≡ is_empty (asked (begin_election s).1)
unfolding begin_election
asks_nobody s peers p = sym (is_highest_id-perm p s.id) ∙ asked-highest [] s.peers s.id

by_replies :
    (replied asks : List Bytes) (top : Bool)
    → top ≡ is_empty asks
    → ((uuid : Bytes) → Occurs uuid replied → Occurs uuid asks)
    → (elim replied [ [] ↦ wins | r ∷ rs ↦ waits ])
      ≡ (if top || is_empty replied then wins else waits)
by_replies [] asks top e h = ground arith
by_replies (r ∷ rs) [] top e h = Occurs-nil refl (h r at_head)
by_replies (r ∷ rs) (a ∷ asks) top e h = rw e refl

-- The outcome of an election, for a server that is in it and still is when it looks. The servers know
-- the same peers, in whatever order, and are among them. The one with the highest id, which is one of
-- the peers, wins, whatever the others do. Every other one waits for a victory if one of its election
-- messages has reached a node by then, whichever it is, and wins as well if none has.
pub election_outcome :
    (u u_ip : Bytes) (others : Map Bytes) (s : Server) (ip : Bytes) (replied : List Bytes)
    → s.state ≡ election
    → Perm s.peers ((u, u_ip) ∷ others)
    → get ((u, u_ip) ∷ others) s.id ≡ some ip
    → ((uuid : Bytes) → Occurs uuid replied → Occurs uuid (asked (begin_election s).1))
    → let winner = highest_id u others in
      ((winner_ip : Bytes) × (get ((u, u_ip) ∷ others) winner ≡ some winner_ip))
      × (verdict (replies (begin_election s).0 replied)
          ≡ (if str_eq s.id winner || is_empty replied then wins else waits))
election_outcome u u_ip others s ip replied e p known came =
    let peers = (u, u_ip) ∷ others in
    let winner = highest_id u others in
    let h = highest_id-IsHighest u u_ip others in
    let alone =
      sym (only_one peers winner s.id h.ip ip h.known known h.highest) ∙ asks_nobody s peers p in
    (
      (h.ip, h.known),
      verdict_lem s replied e
          ∙ by_replies replied (asked (begin_election s).1) (str_eq s.id winner) alone came,
    )
