-- ===== src/Unicast/Sender/Send.antt =====
-- How send in server/unicast/unicast.go ends.
use distributed_chat_applica.Prelude.{
  ℕ, zero, suc, ◌+◌, ◌-◌, ◌<◌, ◌≤◌, ◌≡◌, refl, subst, List, [], ◌∷◌, ◌++◌, Bool, true, false, none,
  length, arith, Bool-cases, Option-cases, inl, inr, ◌≢◌,
}
use distributed_chat_applica.Go.Text.{Bytes}
use distributed_chat_applica.Go.Map.{get}
use distributed_chat_applica.Go.Format.{sprintf}
use distributed_chat_applica.Go.Binary.{max_alloc}
use distributed_chat_applica.Unicast.Datagram.{Message}
use distributed_chat_applica.Unicast.Sender.Retries.{
  attempt, attempts, state_after, Pending, IsSent, round_acked, round_failed, round_waits,
  round_last,
}
use distributed_chat_applica.Unicast.Sender.{
  Sender, Round, Outcome, returned, frame_for, message_for, begin_send, handle_dead_node, send_loop,
  send,
}

module _ (env : ℕ → Round) (ip uuid index : Bytes) (m : Message) (h : IsSent m) where
  -- After `n` rounds with no acknowledgement the loop is where it would be had it begun there.
  loop_waits :
      (n i fuel f : ℕ) (s : Sender)
      → fuel ≡ n + f
      → i + n ≤ 20
      → Pending env index s i n
      → let rest =
          send_loop env ip uuid index f (i + n) (state_after env s i n) (attempt m (i + n)) in
        send_loop env ip uuid index fuel i s (attempt m i) ≡ (rest.0, attempts m i n ++ rest.1)
  unfolding state_after attempts
  loop_waits zero i fuel f s e small p =
      let e' : fuel ≡ f = omega arith in let i' : i + 0 ≡ i = omega arith in rw (e', i')
  loop_waits (suc n) i zero f s e small p = absurd (omega arith)
  loop_waits (suc n) i (suc fuel) f s e small p =
      let i' : i + suc n ≡ i + 1 + n = omega arith in
      rw (round_waits env ip uuid index m h fuel i s p.0 p.1 (omega arith), i')
        (rw (loop_waits n (i + 1) fuel f ((env i).others s) (omega arith) (omega arith) p.2))

  loop_from_start :
      (n : ℕ) (s : Sender)
      → n ≤ 20
      → Pending env index s 0 n
      → let rest =
          send_loop env ip uuid index (suc (20 - n)) n (state_after env s 0 n) (attempt m n) in
        send_loop env ip uuid index 21 0 s (attempt m 0) ≡ (rest.0, attempts m 0 n ++ rest.1)
  loop_from_start n s small p =
      let z : 0 + n ≡ n = omega arith in
      rw z at (loop_waits n 0 21 (suc (20 - n)) s (omega arith) (omega arith) p)

-- The loop has come to an end, after at most `n` datagrams.
pub record Ends (r : Outcome × List Bytes) (n : ℕ) : Type 0 where
  pub result : Bool
  pub sender : Sender
  pub by_return : r.0 ≡ returned result sender
  pub few : length r.1 ≤ n

module _ (env : ℕ → Round) (ip uuid index : Bytes) (m : Message) (h : IsSent m) where
  -- A round ends the loop unless the datagram was written and its entry is still there.
  round-Ends :
      (n i : ℕ) (s : Sender)
      → ((env i).write_fails ≡ false
          → get ((env i).others s).ack_frame index ≢ none
          → Ends (send_loop env ip uuid index (suc n) i s (attempt m i)) (suc n))
      → Ends (send_loop env ip uuid index (suc n) i s (attempt m i)) (suc n)
  round-Ends n i s else_branch = elim (Bool-cases (env i).write_fails) [
    | inl bad ↦ rw (round_failed env ip uuid index m h n i s (attempt m i) bad) (record {
      result = false;
      sender = handle_dead_node s uuid;
      by_return = refl;
      few = omega arith;
    })
    | inr good ↦ elim (Option-cases (get ((env i).others s).ack_frame index)) [
      | inl gone ↦
          rw (round_acked env ip uuid index m h n i s (attempt m i) good gone) (record {
            result = true;
            sender = (env i).others s;
            by_return = refl;
            few = omega arith;
          })
      | inr (b, there) ↦ else_branch good (λ gone. cc)
    ]
  ]

  last-Ends : (s : Sender) → Ends (send_loop env ip uuid index 1 20 s (attempt m 20)) 1
  last-Ends s = round-Ends 0 20 s λ good there.
      rw (round_last env ip uuid index m h 0 s good there) (record {
        result = false;
        sender = handle_dead_node ((env 20).others s) uuid;
        by_return = refl;
        few = omega arith;
      })

  loop-Ends :
      (n i : ℕ) (s : Sender)
      → i + n ≡ 20
      → Ends (send_loop env ip uuid index (suc n) i s (attempt m i)) (suc n)
  loop-Ends zero i s e =
      let i20 : 20 ≡ i = omega arith in
      subst (λ k. Ends (send_loop env ip uuid index 1 k s (attempt m k)) 1) i20 (last-Ends s)
  loop-Ends (suc n) i s e =
      let rest = loop-Ends n (i + 1) ((env i).others s) (omega arith) in
      round-Ends (suc n) i s λ good there.
        rw (round_waits env ip uuid index m h (suc n) i s good there (omega arith)) (record {
          result = rest.result;
          sender = rest.sender;
          by_return = rest.by_return;
          few = omega (arith, rest.few);
        })

module _ (env : ℕ → Round) (s : Sender) (ip uuid payload : Bytes) where
  abbrev pub index_for : Bytes
  index_for = sprintf uuid (frame_for s uuid)

  abbrev pub made : Message
  made = message_for s ip uuid payload

  abbrev pub begun : Sender
  begun = begin_send s ip uuid payload

  made-IsSent : 0 < length payload → length payload ≤ max_alloc → IsSent made
  made-IsSent filled fits = record {
    is_data = refl;
    frame_fits = omega arith;
    payload_fits = fits;
    payload_nonempty = filled;
  }

  -- Sending a payload that is not empty comes to an end, whatever the acknowledgements and the
  -- writes do: send returns true or false after at most 21 datagrams.
  pub send-Ends :
      0 < length payload → length payload ≤ max_alloc → Ends (send env s ip uuid payload) 21
  unfolding send
  send-Ends filled fits =
      loop-Ends env ip uuid index_for made (made-IsSent filled fits) 20 0 begun (omega arith)

  -- If the first `n` tries stay without an acknowledgement and the entry is gone after the next
  -- one, send returns true, and it has written the tries 0 to `n`.
  pub send_acked :
      (n : ℕ)
      → 0 < length payload
      → length payload ≤ max_alloc
      → n ≤ 20
      → Pending env index_for begun 0 n
      → (env n).write_fails ≡ false
      → get ((env n).others (state_after env begun 0 n)).ack_frame index_for ≡ none
      → send env s ip uuid payload ≡ (
        returned true ((env n).others (state_after env begun 0 n)),
        attempts made 0 n ++ (attempt made n ∷ []),
      )
  unfolding send
  send_acked n filled fits small p w a =
      let ok_made = made-IsSent filled fits in
      rw (
        loop_from_start env ip uuid index_for made ok_made n begun small p,
        round_acked env ip uuid index_for made ok_made (20 - n) n (state_after env begun 0 n)
            (attempt made n) w a,
      )

  -- If all 21 tries stay without an acknowledgement, send takes the peer for dead and returns false.
  pub send_gives_up :
      0 < length payload
      → length payload ≤ max_alloc
      → Pending env index_for begun 0 20
      → (env 20).write_fails ≡ false
      → get ((env 20).others (state_after env begun 0 20)).ack_frame index_for ≢ none
      → send env s ip uuid payload ≡ (
        returned false (handle_dead_node ((env 20).others (state_after env begun 0 20)) uuid),
        attempts made 0 20 ++ (attempt made 20 ∷ []),
      )
  unfolding send
  send_gives_up filled fits p w a =
      let ok_made = made-IsSent filled fits in
      rw (
        loop_from_start env ip uuid index_for made ok_made 20 begun (omega arith) p,
        round_last env ip uuid index_for made ok_made 0 (state_after env begun 0 20) w a,
      )
