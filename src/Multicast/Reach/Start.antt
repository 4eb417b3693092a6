-- ===== src/Multicast/Reach/Start.antt =====
-- NewReliableMulticast of server/multicast/multicast.go, and what holds from there on.
use distributed_chat_applica.Prelude.{
  ℕ, ◌≡◌, sym, ◌∙◌, subst, List, [], ◌∷◌, some, Bool-cases, inl, inr, length, ltb, arith,
}
use distributed_chat_applica.Go.Text.{Bytes, str_eq, str_eq_refl}
use distributed_chat_applica.Go.Map.{Map, get, put, get-put, Distinct, put-Distinct}
use distributed_chat_applica.Go.Result.{ok, Result-cases}
use distributed_chat_applica.Multicast.Codec.{encode_multicast_message}
use distributed_chat_applica.Multicast.Node.{
  Multicaster, new_reliable_multicast, fill_nodes, zero_clocks,
}
use distributed_chat_applica.Multicast.Send.{begin_multicast, send_message, multicast_of}
use distributed_chat_applica.Multicast.Reach.Steps.{Steps, Steps-Keeps}

zero_clocks-Distinct :
    (clock : Map ℕ) (id : Bytes) (peers : List Bytes)
    → Distinct clock
    → Distinct (zero_clocks clock id peers)
unfolding zero_clocks
zero_clocks-Distinct clock id [] d = d
zero_clocks-Distinct clock id (p ∷ peers) d = elim (Bool-cases (str_eq p id)) [
  | inl self ↦ rw self (zero_clocks-Distinct clock id peers d)
  | inr other ↦ rw other (zero_clocks-Distinct (put clock p 0) id peers (put-Distinct clock p 0 d))
]

zero_clocks_self :
    (clock : Map ℕ) (id : Bytes) (peers : List Bytes)
    → get clock id ≡ some 0
    → get (zero_clocks clock id peers) id ≡ some 0
unfolding zero_clocks
zero_clocks_self clock id [] e = e
zero_clocks_self clock id (p ∷ peers) e = elim (Bool-cases (str_eq p id)) [
  | inl self ↦ rw self (zero_clocks_self clock id peers e)
  | inr other ↦
      rw other (zero_clocks_self (put clock p 0) id peers (get-put clock p id 0 ∙ rw other e))
]

own_entry : (id : Bytes) → get {V = ℕ} (put [] id 0) id ≡ some 0
own_entry id = get-put {V = ℕ} [] id id 0 ∙ rw (str_eq_refl id)

pub record Started (m : Multicaster) : Type 0 where
  pub distinct : Distinct m.vector_clock
  pub own : get m.vector_clock m.id ≡ some 0

pub new-Started :
    (id : Bytes) (peers : List Bytes) (m : Multicaster)
    → new_reliable_multicast id peers ≡ ok m
    → Started m
unfolding new_reliable_multicast
new-Started id [] m h = absurd (ground arith)
new-Started id (p ∷ rest) m h = elim (Bool-cases (ltb (length id) 4)) [
  | inl short ↦ absurd (ground arith)
  | inr fits ↦ elim (Result-cases (fill_nodes (length rest) id (p ∷ rest))) [
    | inl (nodes, filled) ↦
        let c : zero_clocks (put [] id 0) id (p ∷ rest) ≡ m.vector_clock = ground arith in
        let i : id ≡ m.id = ground arith in
        record {
          distinct =
              subst Distinct c
                (zero_clocks-Distinct (put [] id 0) id (p ∷ rest) (put-Distinct [] id 0 tt));
          own =
              subst (λ k. get m.vector_clock k ≡ some 0) i
                (subst (λ k. get k id ≡ some 0) c
                  (zero_clocks_self (put [] id 0) id (p ∷ rest) (own_entry id)));
        }
    | inr (inl (e, failed)) ↦ absurd (ground arith)
    | inr (inr failed) ↦ absurd (ground arith)
  ]
]

-- After any steps from a new node, SendMessage finds the node in its own clock, so that the
-- log.Fatal there is never reached, and the clock has no id twice.
pub node_can_send :
    (id : Bytes) (peers : List Bytes) (m m' : Multicaster) (data_bytes : Bytes)
    → new_reliable_multicast id peers ≡ ok m
    → Steps m m'
    → (send_message m' data_bytes
        ≡ ok (begin_multicast m', encode_multicast_message (multicast_of m' data_bytes)))
      × Distinct m'.vector_clock
unfolding send_message
node_can_send id peers m m' data_bytes h steps =
    let s = new-Started id peers m h in
    let k = Steps-Keeps steps in
    let (n, known, _) = k.entry m.id 0 s.own in
    let self : get m'.vector_clock m'.id ≡ some n =
      subst (λ j. get m'.vector_clock j ≡ some n) (sym k.same_id) known in
    (ground arith, k.distinct s.distinct)
