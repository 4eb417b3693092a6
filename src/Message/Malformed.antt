-- ===== src/Message/Malformed.antt =====
-- Encode and Decode of server/message/message.go on inputs that are not what they should be.
use distributed_chat_applica.Prelude.{
  ℕ, zero, suc, ◌-◌, ◌<◌, ◌≡◌, ◌∙◌, ◌≢◌, ◌↔◌, ◌⊎◌, List, [], ◌∷◌, ◌++◌, true, ◌==◌, length, take,
  drop, replicate, All, arith,
}
use distributed_chat_applica.Go.Text.{Bytes}
use distributed_chat_applica.Go.Result.{Result, ok, err, panic, eof}
use distributed_chat_applica.Go.Binary.{put_be, Reader, ◌>>=◌, read_be, read_new}
use distributed_chat_applica.Go.Binary.Laws.{
  read_be-put_be, bind_ok, bind_err, read_new_lem, read_new_eof,
}
use distributed_chat_applica.Go.Binary.Safe.{
  IsByte, Good, Safe, Safe-read_be, Safe-read_new, Safe-pure, Safe-bind, Safe-if,
}
use distributed_chat_applica.Message.{
  Message, of_type, application, multicast_ack, has_no_body, names_node, lists_peers, encode_peers,
  encode_session, encode, decode_peers, decode_ack, decode_application, decode_node, decode_session,
  decode_body, decode,
}
use distributed_chat_applica.Message.RoundTrip.{IsU32}

abbrev Anything : {A : Type 0} → A → Type 0
Anything a = Unit {0}

-- A length that is read from four bytes can be allocated, so the field after it is read safely.
Safe-field :
    {B : Type 0} (f : Bytes → Reader B)
    → ((xs : Bytes) → Safe Anything (f xs))
    → Safe Anything (read_be 4 >>= λ n. read_new n >>= f)
Safe-field f k =
    Safe-bind (read_be 4) _ (Safe-read_be 4)
      λ n small. Safe-bind (read_new n) f (Safe-read_new n (omega arith)) λ xs _. k xs

Safe-decode_peers : (n : ℕ) → Safe Anything (decode_peers n)
unfolding decode_peers
Safe-decode_peers zero = Safe-pure _ tt
Safe-decode_peers (suc n) =
    let rest = Safe-decode_peers n in
    Safe-field _ λ id. Safe-field _ λ ip.
      Safe-bind (read_be 4) _ (Safe-read_be 4)
        λ c _. Safe-bind (decode_peers n) _ rest λ more _. Safe-pure _ tt

Safe-decode_body : (t : ℕ) → Safe Anything (decode_body t)
unfolding decode_body decode_ack decode_application decode_node decode_session
Safe-decode_body t = Safe-if (has_no_body t) _ _ (Safe-pure _ tt) (
    Safe-if (t == multicast_ack) _ _
      (Safe-bind (read_be 4) _ (Safe-read_be 4) λ frame _. Safe-pure _ tt)
      (Safe-if (t == application) _ _ (Safe-field _ λ msg. Safe-pure _ tt) (
        Safe-if (names_node t) _ _ (Safe-field _ λ id. Safe-field _ λ ip. Safe-pure _ tt)
          (Safe-if (lists_peers t) _ _ session (Safe-pure _ tt)))))
  where
    session : Safe Anything (decode_session t)
    session = Safe-bind (read_be 4) _ (Safe-read_be 4) λ count _.
        Safe-bind (decode_peers count) _ (Safe-decode_peers count)
          λ peers _. Safe-bind (read_be 4) _ (Safe-read_be 4) λ port _. Safe-pure _ tt

Good-ne-panic : {A : Type 0} (r : Result (A × Bytes)) → Good Anything r → r ≢ panic
Good-ne-panic (ok (a, s)) g = λ e. cc
Good-ne-panic (err e) g = λ h. cc
Good-ne-panic panic g = elim g [ ]

-- Decode does not panic, whatever bytes it is given.
pub decode-ne-panic : (s : Bytes) → All IsByte s → decode s ≢ panic
unfolding decode
decode-ne-panic s h = ground (
  arith,
  Good-ne-panic ((read_be 1 >>= decode_body) s)
      ((Safe-bind (read_be 1) decode_body (Safe-read_be 1) (λ t _. Safe-decode_body t)).at s h),
)

encode_peers_panic :
    (ids ips : List Bytes) (clocks : List ℕ)
    → (encode_peers ids ips clocks ≡ panic)
      ↔ ((length ips < length ids) ⊎ (length clocks < length ids))
unfolding encode_peers
encode_peers_panic [] ips clocks = ground arith
encode_peers_panic (id ∷ ids) [] clocks = ground arith
encode_peers_panic (id ∷ ids) (ip ∷ ips) [] = ground arith
encode_peers_panic (id ∷ ids) (ip ∷ ips) (c ∷ clocks) =
    ground (arith, encode_peers_panic ids ips clocks)

-- Encode panics exactly on a peer list whose slice of addresses or of clocks is too short.
encode-eq-panic :
    (m : Message)
    → (encode m ≡ panic) ↔ (
        (lists_peers m.type ≡ true)
        × ((length m.peer_ips < length m.peer_ids) ⊎ (length m.clock < length m.peer_ids)))
unfolding encode encode_session
encode-eq-panic m = ground (arith, encode_peers_panic m.peer_ids m.peer_ips m.clock)

-- What a payload of which `b` has arrived reads as.
abbrev pub received : ℕ → Bytes → Result Message
received n [] = err eof
received n (x ∷ b) =
    ok (record (of_type application) { msg = take n (x ∷ b) ++ replicate (n - suc (length b)) 0 })

decode_application-received :
    (n : ℕ) (b : Bytes)
    → IsU32 n
    → decode_body application (put_be 4 n ++ b)
      ≡ elim (received n b) [ ok m ↦ ok (m, drop n b) | err e ↦ err e | panic ↦ panic ]
unfolding decode_body decode_application
decode_application-received n [] fits =
    bind_ok (read_be 4) _ (read_be-put_be 4 n [] (omega arith) fits)
    ∙ bind_err (read_new n) _ (read_new_eof n (omega arith))
decode_application-received n (x ∷ b) fits =
    bind_ok (read_be 4) _ (read_be-put_be 4 n (x ∷ b) (omega arith) fits)
    ∙ bind_ok (read_new n) _ (read_new_lem n x b (omega arith))

-- Decode of an application message of which only the part `b` of the payload is there: an error
-- if nothing is there, even where the payload is empty; else a payload of the announced length
-- that ends in zeros.
pub decode-eq-received :
    (n : ℕ) (b : Bytes)
    → IsU32 n
    → decode (put_be 1 application ++ (put_be 4 n ++ b)) ≡ received n b
unfolding decode
decode-eq-received n [] fits = ground (
  arith,
  read_be-put_be 1 application (put_be 4 n ++ []) (omega arith) (omega arith),
  decode_application-received n [] fits,
)
decode-eq-received n (x ∷ b) fits = ground (
  arith,
  read_be-put_be 1 application (put_be 4 n ++ (x ∷ b)) (omega arith) (omega arith),
  decode_application-received n (x ∷ b) fits,
)
