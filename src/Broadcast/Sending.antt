-- ===== src/Broadcast/Sending.antt =====
-- The goroutine that Start of server/broadcast/broadcast.go starts and Stop ends.
use distributed_chat_applica.Prelude.{
  ◌≡◌, refl, List, [], ◌∷◌, Bool, true, false, if◌then◌else◌, Bool-cases, inl, inr, ◌∙◌, arith,
}
use distributed_chat_applica.Go.Text.{Bytes}
use distributed_chat_applica.Go.Result.{Result, ok, err, panic}
use distributed_chat_applica.Broadcast.{Broadcaster, new_broadcaster, start, stop, launch, wait}

pub data Call : Type 0 where
  starts stops : Call

abbrev pub call : Call → Broadcaster → Result Broadcaster
call starts = start
call stops = stop

abbrev pub call_all : List Call → Broadcaster → Result Broadcaster
call_all [] b = ok b
call_all (c ∷ cs) b = elim (call c b) [ ok b' ↦ call_all cs b' | err e ↦ err e | panic ↦ panic ]

-- Between the calls: the channel is closed just when the broadcaster is stopped, and `sending` says
-- whether there is a goroutine, which is the only one.
pub record InOrder (sending : Bool) (b : Broadcaster) : Type 0 where
  pub closed : b.stop_closed ≡ b.stopping
  pub at_rest : b.stopping ≡ true → sending ≡ false
  pub counted : b.senders ≡ (if sending then 1 else 0)

pub new-InOrder : (id : Bytes) → InOrder false (new_broadcaster id)
new-InOrder id = record { closed = refl; at_rest = λ _. refl; counted = refl }

pub start-InOrder :
    (sending : Bool) (b : Broadcaster)
    → InOrder sending b
    → (b' : Broadcaster) × (start b ≡ ok b') × InOrder true b'
unfolding start
start-InOrder sending b o = elim (Bool-cases b.stopping) [
  | inl stopped ↦ (
    launch b,
    rw stopped refl,
    record {
      closed = refl;
      at_rest = λ e. absurd (ground arith);
      counted = ground (arith, o.at_rest, o.counted);
    },
  )
  | inr going ↦
      let open_now : b.stop_closed ≡ false = o.closed ∙ going in
      let waited = launch (wait (record b { stop_closed = true })) in
      (
        waited,
        rw (going, open_now) refl,
        record { closed = refl; at_rest = λ e. absurd (ground arith); counted = refl },
      )
]

pub stop-InOrder :
    (sending : Bool) (b : Broadcaster)
    → InOrder sending b
    → (b' : Broadcaster) × (stop b ≡ ok b') × InOrder false b'
unfolding stop
stop-InOrder sending b o = elim (Bool-cases b.stopping) [
  | inl stopped ↦ (
    b,
    rw stopped refl,
    record {
      closed = o.closed;
      at_rest = λ _. refl;
      counted = ground (arith, o.at_rest, o.counted);
    },
  )
  | inr going ↦
      let open_now : b.stop_closed ≡ false = o.closed ∙ going in
      let waited = wait (record b { stopping = true; stop_closed = true }) in
      (
        waited,
        rw (going, open_now) refl,
        record { closed = refl; at_rest = λ _. refl; counted = refl },
      )
]

-- Whether the last of the calls was Start.
abbrev pub on_air : Bool → List Call → Bool
on_air sending [] = sending
on_air sending (starts ∷ cs) = on_air true cs
on_air sending (stops ∷ cs) = on_air false cs

calls-InOrder :
    (cs : List Call) (sending : Bool) (b : Broadcaster)
    → InOrder sending b
    → (b' : Broadcaster) × (call_all cs b ≡ ok b') × InOrder (on_air sending cs) b'
calls-InOrder [] sending b o = (b, refl, o)
calls-InOrder (starts ∷ cs) sending b o =
    let (b1, e, o1) = start-InOrder sending b o in
    let (b2, e2, o2) = calls-InOrder cs true b1 o1 in (b2, rw (call_all, e) e2, o2)
calls-InOrder (stops ∷ cs) sending b o =
    let (b1, e, o1) = stop-InOrder sending b o in
    let (b2, e2, o2) = calls-InOrder cs false b1 o1 in (b2, rw (call_all, e) e2, o2)

-- In any sequence of calls of Start and Stop on a new broadcaster, no channel is closed twice, which
-- would panic, and after it there is one sending goroutine if the last call was Start and none
-- otherwise; so there are never two at once.
pub call_all-new_broadcaster :
    (id : Bytes) (cs : List Call)
    → (b : Broadcaster) × (call_all cs (new_broadcaster id) ≡ ok b)
      × (b.senders ≡ (if on_air false cs then 1 else 0))
call_all-new_broadcaster id cs =
    let (b, e, o) = calls-InOrder cs false (new_broadcaster id) (new-InOrder id) in
    (b, e, o.counted)
