-- ===== src/Server/Election/Winner.antt =====
-- Who wins an election of server/state_listener.go, if the election messages are acknowledged in time, and isHighestID
-- of server/server.go.
use mathlib.Core.Logic.{∥∥₁_elim}
use mathlib.Core.Bool.{Bool-set}
use mathlib.Core.List.{Perm, Permᴰ}
use mathlib.Core.List.Perm
use distributed_chat_applica.Prelude.{
  ◌≡◌, ◌≢◌, refl, sym, ◌∙◌, List, [], ◌∷◌, Bool, true, false, some, if◌then◌else◌, Bool-cases, inl,
  inr, arith,
}
use distributed_chat_applica.Go.Text.{Bytes, str_eq, str_eq_iff, str_lt, str_lt_total}
use distributed_chat_applica.Go.Map.{Map, get}
use distributed_chat_applica.StateMachine.{election}
use distributed_chat_applica.Server.{
  Server, Event, ask, ask_higher, begin_election, Verdict, waits, wins, verdict,
}
use distributed_chat_applica.Server.Election.{replies, verdict_lem}

-- The loop of isHighestID.
unfoldable pub is_highest_id : Map Bytes → Bytes → Bool
is_highest_id [] id = true
is_highest_id ((uuid, ip) ∷ peers) id =
    let rest = is_highest_id peers id in
    if str_eq uuid id then rest else if str_lt id uuid then false else rest

-- The nodes that get an election message.
abbrev pub asked : List Event → List Bytes
asked [] = []
asked (ask uuid ip ∷ es) = uuid ∷ asked es
asked (_ ∷ es) = asked es

abbrev pub is_empty : List Bytes → Bool
is_empty [] = true
is_empty (u ∷ us) = false

-- The result of an election if all of its messages are acknowledged before the server looks; it looks
-- after a nanosecond, so this is no promise of the code.
abbrev pub heard_verdict : Server → Verdict
heard_verdict s = let (begun, es) = begin_election s in verdict (replies begun (asked es))

pub asked-highest :
    (entries : Map Bool) (peers : Map Bytes) (id : Bytes)
    → is_highest_id peers id ≡ is_empty (asked (ask_higher entries peers id).1)
unfolding ask_higher is_highest_id
asked-highest entries [] id = refl
asked-highest entries ((uuid, ip) ∷ peers) id = ground (arith, asked-highest entries peers id)

by_emptiness :
    (us : List Bytes) (b : Bool)
    → b ≡ is_empty us
    → (elim us [ [] ↦ wins | u ∷ us' ↦ waits ]) ≡ (if b then wins else waits)
by_emptiness [] b e = rw e refl
by_emptiness (u ∷ us) b e = rw e refl

same_highest :
    {peers peers' : Map Bytes}
    → Permᴰ peers peers'
    → (id : Bytes) → is_highest_id peers id ≡ is_highest_id peers' id
unfolding is_highest_id
same_highest Permᴰ.nil id = refl
same_highest (Permᴰ.cons e d) id = rw (e, same_highest d id) refl
same_highest (Permᴰ.swap e e') id = rw (e, e') (ground arith)
same_highest (Permᴰ.trans d d') id = same_highest d id ∙ same_highest d' id

-- The order in which Go ranges over the map is immaterial.
pub is_highest_id-perm :
    {peers peers' : Map Bytes}
    → Perm peers peers'
    → (id : Bytes) → is_highest_id peers id ≡ is_highest_id peers' id
is_highest_id-perm p id = ∥∥₁_elim p (Bool-set _ _) (λ d. same_highest d id)

-- If all messages of an election are acknowledged before the server looks, it is won exactly by a server for which isHighestID holds, in
-- whatever order isHighestID ranges over the peers, and every other server waits for the victory of
-- a higher one.
pub heard_verdict-highest :
    (s : Server) (peers : Map Bytes)
    → s.state ≡ election
    → Perm s.peers peers
    → heard_verdict s ≡ (if is_highest_id peers s.id then wins else waits)
unfolding begin_election
heard_verdict-highest s peers e p =
    let (entries, es) = ask_higher [] s.peers s.id in
    verdict_lem s (asked es) e
    ∙ by_emptiness (asked es) (is_highest_id peers s.id)
        (sym (is_highest_id-perm p s.id) ∙ asked-highest [] s.peers s.id)

pub highest_beats :
    (peers : Map Bytes) (id u ip : Bytes)
    → is_highest_id peers id ≡ true
    → get peers u ≡ some ip
    → u ≢ id
    → str_lt id u ≡ false
unfolding is_highest_id get
highest_beats [] id u ip h known other = absurd (ground arith)
highest_beats ((uuid, ip') ∷ peers) id u ip h known other =
    ground (arith, highest_beats peers id u ip, str_eq_iff uuid id, str_eq_iff uuid u)

winner_is_highest :
    (s : Server) → s.state ≡ election → heard_verdict s ≡ wins → is_highest_id s.peers s.id ≡ true
winner_is_highest s e won = elim (Bool-cases (is_highest_id s.peers s.id)) [
  | inl highest ↦ highest
  | inr lower ↦ absurd (ground (arith, heard_verdict-highest s s.peers e (Perm.refl s.peers)))
]

-- Two servers that are in an election and know each other, and whose election messages are all
-- acknowledged before they look, do not both win.
one_winner :
    (s t : Server) (s_ip t_ip : Bytes)
    → s.state ≡ election
    → t.state ≡ election
    → get s.peers t.id ≡ some t_ip
    → get t.peers s.id ≡ some s_ip
    → s.id ≢ t.id
    → heard_verdict s ≡ wins
    → heard_verdict t ≢ wins
one_winner s t s_ip t_ip e e' knows known other won won' =
    let below =
      highest_beats s.peers s.id t.id t_ip (winner_is_highest s e won) knows
        (λ same. other (sym same)) in
    let below' = highest_beats t.peers t.id s.id s_ip (winner_is_highest t e' won') known other in
    ground (arith, str_lt_total s.id t.id other)
