-- ===== src/Server/Election.antt =====
-- The bully election of server/state_listener.go.
pub mod Winner
pub mod Outcome
use distributed_chat_applica.Prelude.{◌≡◌, refl, ◌∙◌, List, [], ◌∷◌, Bool, true, false, arith}
use distributed_chat_applica.Go.Text.{Bytes}
use distributed_chat_applica.Go.Map.{Map, put}
use distributed_chat_applica.StateMachine.{election}
use distributed_chat_applica.Server.{
  Server, ask_higher, begin_election, on_election_sent, any_reached, waits, wins, verdict,
}

-- The election messages that reached their nodes.
abbrev pub replies : Server → List Bytes → Server
replies s [] = s
replies s (uuid ∷ uuids) = replies (on_election_sent s uuid) uuids

abbrev NoneReached : Map Bool → Type 0
NoneReached entries = any_reached entries ≡ false

put-NoneReached :
    (entries : Map Bool) (k : Bytes) → NoneReached entries → NoneReached (put entries k false)
unfolding any_reached put
put-NoneReached [] k h = refl
put-NoneReached ((j, b) ∷ entries) k h = ground (arith, put-NoneReached entries k)

ask_higher-NoneReached :
    (entries : Map Bool) (peers : Map Bytes) (id : Bytes)
    → NoneReached entries
    → NoneReached (ask_higher entries peers id).0
unfolding ask_higher
ask_higher-NoneReached entries [] id h = h
ask_higher-NoneReached entries ((uuid, ip) ∷ peers) id h =
    let asked =
      ask_higher-NoneReached (put entries uuid false) peers id (put-NoneReached entries uuid h) in
    let rest = ask_higher-NoneReached entries peers id h in ground (arith, asked, rest)

put_reached : (entries : Map Bool) (k : Bytes) → any_reached (put entries k true) ≡ true
unfolding any_reached put
put_reached [] k = refl
put_reached ((j, b) ∷ entries) k = ground (arith, put_reached entries k)

replies_reached :
    (s : Server) (uuids : List Bytes)
    → any_reached s.election_map ≡ true
    → any_reached (replies s uuids).election_map ≡ true
replies_reached s [] h = h
replies_reached s (uuid ∷ uuids) h =
    replies_reached (on_election_sent s uuid) uuids
      (unfold on_election_sent in put_reached s.election_map uuid)

replies-state : (s : Server) (uuids : List Bytes) → (replies s uuids).state ≡ s.state
replies-state s [] = refl
replies-state s (uuid ∷ uuids) =
    replies-state (on_election_sent s uuid) uuids ∙ (unfold on_election_sent in refl)

-- A server that is still in its election becomes leader exactly when no election message reached a
-- higher node, and waits for the victory of a higher one as soon as one did.
pub verdict_lem :
    (s : Server) (uuids : List Bytes)
    → s.state ≡ election
    → verdict (replies (begin_election s).0 uuids) ≡ elim uuids [ [] ↦ wins | u ∷ us ↦ waits ]
unfolding verdict begin_election
verdict_lem s [] e =
    ground (arith, ask_higher-NoneReached [] s.peers s.id (unfold any_reached in refl))
verdict_lem s (u ∷ us) e =
    let b = (begin_election s).0 in
    let now =
      replies_reached (on_election_sent b u) us
        (unfold on_election_sent in put_reached b.election_map u) in
    ground (arith, now, replies-state b (u ∷ us))
