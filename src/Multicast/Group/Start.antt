-- ===== src/Multicast/Group/Start.antt =====
-- The vector clock of NewReliableMulticast in server/multicast/multicast.go.
use distributed_chat_applica.Prelude.{
  ℕ, ◌≡◌, ◌∙◌, ◌⊎◌, sym, inl, inr, subst, List, [], ◌∷◌, some, Bool-cases, Occurs, at_head, at_tail,
  length, ltb, if◌then◌else◌, arith,
}
use distributed_chat_applica.Go.Text.{Bytes, str_eq, str_eq_iff, str_eq_refl}
use distributed_chat_applica.Go.Map.{Map, get, put, get-put}
use distributed_chat_applica.Go.Result.{ok, Result-cases}
use distributed_chat_applica.Multicast.Node.{
  Multicaster, new_reliable_multicast, fill_nodes, zero_clocks,
}

-- All counts are 0.
abbrev pub AllZero : Map ℕ → Type 0
AllZero clock = (k : Bytes) (c : ℕ) → get clock k ≡ some c → c ≡ 0

put-AllZero : (clock : Map ℕ) (p : Bytes) → AllZero clock → AllZero (put clock p 0)
put-AllZero clock p z k c e = ground (arith, get-put clock p k 0, z k c)

zero_clocks-AllZero :
    (clock : Map ℕ) (id : Bytes) (peers : List Bytes)
    → AllZero clock
    → AllZero (zero_clocks clock id peers)
unfolding zero_clocks
zero_clocks-AllZero clock id [] z = z
zero_clocks-AllZero clock id (p ∷ peers) z = elim (Bool-cases (str_eq p id)) [
  | inl self ↦ rw self (zero_clocks-AllZero clock id peers z)
  | inr other ↦ rw other (zero_clocks-AllZero (put clock p 0) id peers (put-AllZero clock p z))
]

zero_clocks_keep :
    (clock : Map ℕ) (id k : Bytes) (peers : List Bytes)
    → get clock k ≡ some 0
    → get (zero_clocks clock id peers) k ≡ some 0
unfolding zero_clocks
zero_clocks_keep clock id k [] e = e
zero_clocks_keep clock id k (p ∷ peers) e =
    zero_clocks_keep (if str_eq p id then clock else put clock p 0) id k peers
      (ground (arith, get-put clock p k 0))

zero_clocks_peer :
    (clock : Map ℕ) (id k : Bytes) (peers : List Bytes)
    → get clock id ≡ some 0
    → Occurs k peers
    → get (zero_clocks clock id peers) k ≡ some 0
unfolding zero_clocks
zero_clocks_peer clock id k [] e o = elim o [ ]
zero_clocks_peer clock id _ (k ∷ peers) e at_head =
    zero_clocks_keep (if str_eq k id then clock else put clock k 0) id k peers
      (ground (arith, get-put clock k k 0, str_eq_refl k, str_eq_iff k id))
zero_clocks_peer clock id k (p ∷ peers) e (at_tail _ o) =
    zero_clocks_peer (if str_eq p id then clock else put clock p 0) id k peers
      (ground (arith, get-put clock p id 0)) o

zero_clocks_members :
    (clock : Map ℕ) (id k : Bytes) (peers : List Bytes) (n : ℕ)
    → get (zero_clocks clock id peers) k ≡ some n
    → ((m : ℕ) × (get clock k ≡ some m)) ⊎ Occurs k peers
unfolding zero_clocks
zero_clocks_members clock id k [] n e = inl (n, e)
zero_clocks_members clock id k (p ∷ peers) n e = elim (Bool-cases (str_eq p k)) [
  | inl same ↦ inr (subst (λ j. Occurs k (j ∷ peers)) (sym ((str_eq_iff p k).0 same)) at_head)
  | inr other ↦
      elim (zero_clocks_members (if str_eq p id then clock else put clock p 0) id k peers n e) [
        | inl (m, there) ↦ inl (m, ground (arith, get-put clock p k 0))
        | inr o ↦ inr (at_tail p o)
      ]
]

only_own : (id k : Bytes) (j : ℕ) → get (put {V = ℕ} [] id 0) k ≡ some j → k ≡ id
unfolding get put
only_own id k j e = ground (arith, str_eq_iff id k)

pub record Fresh (id : Bytes) (peers : List Bytes) (m : Multicaster) : Type 0 where
  pub same_id : m.id ≡ id
  pub zero : AllZero m.vector_clock
  pub own : get m.vector_clock id ≡ some 0
  pub peer : (k : Bytes) → Occurs k peers → get m.vector_clock k ≡ some 0
  pub members : (k : Bytes) (n : ℕ) → get m.vector_clock k ≡ some n → (k ≡ id) ⊎ Occurs k peers
  pub empty : m.hold_back_queue ≡ []

pub new-Fresh :
    (id : Bytes) (peers : List Bytes) (m : Multicaster)
    → new_reliable_multicast id peers ≡ ok m
    → Fresh id peers m
unfolding new_reliable_multicast
new-Fresh id [] m h = absurd (ground arith)
new-Fresh id (p ∷ rest) m h = elim (Bool-cases (ltb (length id) 4)) [
  | inl short ↦ absurd (ground arith)
  | inr fits ↦ elim (Result-cases (fill_nodes (length rest) id (p ∷ rest))) [
    | inl (nodes, filled) ↦
        let c : zero_clocks (put [] id 0) id (p ∷ rest) ≡ m.vector_clock = ground arith in
        let own : get (put {V = ℕ} [] id 0) id ≡ some 0 =
          get-put {V = ℕ} [] id id 0 ∙ rw (str_eq_refl id) in
        record {
          same_id = ground arith;
          zero = subst AllZero c (
              zero_clocks-AllZero (put [] id 0) id (p ∷ rest)
                (put-AllZero [] id (λ k n e. absurd (unfold get in ground arith))));
          own =
              subst (λ k. get k id ≡ some 0) c
                (zero_clocks_keep (put [] id 0) id id (p ∷ rest) own);
          peer = λ k o.
              subst (λ j. get j k ≡ some 0) c
                (zero_clocks_peer (put [] id 0) id k (p ∷ rest) own o);
          members = λ k n e.
              elim (zero_clocks_members (put [] id 0) id k (p ∷ rest) n
                (subst (λ j. get j k ≡ some n) (sym c) e)) [
                  | inr o ↦ inr o
                  | inl (j, e') ↦ inl (only_own id k j e')
                ];
          empty = ground arith;
        }
    | inr (inl (e, failed)) ↦ absurd (ground arith)
    | inr (inr failed) ↦ absurd (ground arith)
  ]
]
