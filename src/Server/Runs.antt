-- ===== src/Server/Runs.antt =====
-- Tests of the servers' handlers and elections, and the theorems at concrete servers.
use mathlib.Core.List.Perm
use distributed_chat_applica.Prelude.{
  Occurs, ◌||◌, ◌≡◌, if◌then◌else◌, true, false, some, refl, [], ◌∷◌,
}
use distributed_chat_applica.Go.Text.{Bytes, str_eq, str_lt}
use distributed_chat_applica.Go.Map.{Map, get}
use distributed_chat_applica.Broadcast.{new_broadcaster}
use distributed_chat_applica.Multicast.Node.{Multicaster}
use distributed_chat_applica.StateMachine.{election}
use distributed_chat_applica.Server.{Server, ask, begin_election, ask_higher, verdict, waits, wins}
use distributed_chat_applica.Server.Election.{replies}
use distributed_chat_applica.Server.Election.Winner.{asked}
use distributed_chat_applica.Server.Election.Outcome.{election_outcome}

abbrev node_a : Bytes
node_a = 97 ∷ []

abbrev node_b : Bytes
node_b = 98 ∷ []

abbrev node_c : Bytes
node_c = 99 ∷ []

abbrev session : Multicaster
session = record {
  id = node_b;
  frame = 0;
  vector_clock = (node_b, 0) ∷ [];
  hold_back_queue = [];
  node_ids = [];
  buffer_ack = [];
}

-- The server in the middle of three, in an election.
abbrev middle : Server
middle = record {
  id = node_b;
  leader_id = node_c;
  sm = election;
  state = election;
  rm = session;
  rm_closed = false;
  rm_port = 5010;
  broadcaster = record (new_broadcaster node_b) { stopping = true; stop_closed = true };
  peers = (node_a, 49 ∷ []) ∷ (node_b, 50 ∷ []) ∷ (node_c, 51 ∷ []) ∷ [];
  election_map = [];
}

middle_asks : (begin_election middle).1 ≡ ask node_c (51 ∷ []) ∷ []
unfolding begin_election ask_higher str_eq str_lt
middle_asks = refl

-- The highest of three, in the same election.
abbrev highest : Server
highest = record middle { id = node_c }

-- The peers of `middle` in another order.
abbrev other_order : Map Bytes
other_order = (node_a, 49 ∷ []) ∷ (node_c, 51 ∷ []) ∷ (node_b, 50 ∷ []) ∷ []

replied-Occurs :
    (uuid : Bytes) → Occurs uuid (node_c ∷ []) → Occurs uuid (asked (begin_election middle).1)
unfolding begin_election ask_higher str_eq str_lt
replied-Occurs uuid o = o

election_outcome_example :
    ((ip : Bytes) × (get other_order node_c ≡ some ip))
    × (verdict (replies (begin_election middle).0 (node_c ∷ []))
        ≡ (if str_eq node_b node_c || false then wins else waits))
unfolding get str_eq str_lt
election_outcome_example =
    election_outcome node_a (49 ∷ []) ((node_c, 51 ∷ []) ∷ (node_b, 50 ∷ []) ∷ []) middle (50 ∷ [])
      (node_c ∷ []) refl
      (Perm.cons (node_a, 49 ∷ []) (Perm.swap (node_c, 51 ∷ []) (node_b, 50 ∷ []) [])) refl
      replied-Occurs
