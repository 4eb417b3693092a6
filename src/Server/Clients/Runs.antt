-- ===== src/Server/Clients/Runs.antt =====
-- Chat sessions at concrete connections.
use distributed_chat_applica.Prelude.{◌≡◌, ◌≢◌, refl, [], ◌∷◌, List, ℕ, arith}
use distributed_chat_applica.Go.Scanner.{scan, drop_cr, IsLine}
use distributed_chat_applica.Server.Clients.{
  ClientServer, Turn, opens, ends, reads, chats, run_turns,
}
use distributed_chat_applica.Server.Clients.Sessions.{written, run_turns-heard}

abbrev idle : ClientServer
idle = record { ip = 49 ∷ []; clients = [] }

-- Client 1 comes, two messages pass, client 2 comes before the second, and client 1 leaves.
abbrev turns : List Turn
turns =
    opens 1
    ∷ chats (65 ∷ [])
    ∷ opens 2
    ∷ chats (66 ∷ [])
    ∷ ends 1
    ∷ reads 2 (67 ∷ [])
    ∷ chats (67 ∷ [])
    ∷ []

letter_IsLine : (c : ℕ) → c ≢ 10 → c ≢ 13 → IsLine (c ∷ [])
unfolding drop_cr
letter_IsLine c newline return = record {
  one_line = (newline, tt);
  no_cr = ground arith;
  fits = omega arith;
}

run_turns-heard_example : scan [] (written 1 (run_turns turns idle)) ≡ (65 ∷ []) ∷ (66 ∷ []) ∷ []
run_turns-heard_example =
    run_turns-heard idle turns 1 refl (refl, (refl, tt))
      (
        letter_IsLine 65 (λ e. absurd (omega arith)) (λ e. absurd (omega arith)),
        (letter_IsLine 66 (λ e. absurd (omega arith)) (λ e. absurd (omega arith)), tt),
      )
