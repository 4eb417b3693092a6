-- ===== src/Message/RoundTrip.antt =====
-- Decode after Encode, for the messages of server/message/message.go.
use distributed_chat_applica.Prelude.{
  ℕ, ◌+◌, ◌^◌, ◌<◌, ◌≡◌, refl, ◌∙◌, subst, ◌≢◌, List, [], ◌∷◌, ◌++◌, true, false, ◌==◌,
  if◌then◌else◌, length, append_assoc, append-nil, arith, Bool-cases, inl, inr, length-append,
}
use distributed_chat_applica.Go.Text.{Bytes}
use distributed_chat_applica.Go.Result.{ok}
use distributed_chat_applica.Go.Binary.{put_be, length-put_be, Reader, ◌>>=◌, read_be, read_new}
use distributed_chat_applica.Go.Binary.Laws.{read_be-put_be, read_new-append, bind_ok}
use distributed_chat_applica.Message.{
  Message, of_type, application, multicast_ack, has_no_body, names_node, lists_peers, encode_peers,
  encode_session, encode, decode_peers, decode_ack, decode_application, decode_node, decode_session,
  decode_body, decode,
}

abbrev pub IsU32 : ℕ → Type 0
IsU32 n = n < 2 ^ 32

-- Three parallel slices of one length, whose entries fit their fields on the wire.
abbrev pub PeersFit : List Bytes → List Bytes → List ℕ → Type 0
PeersFit [] [] [] = Unit {0}
PeersFit (id ∷ ids) (ip ∷ ips) (c ∷ clocks) =
    IsU32 (length id) × IsU32 (length ip) × IsU32 c × PeersFit ids ips clocks
PeersFit _ _ _ = ⊥

-- A field that is read by its length comes back.
read_field :
    {A : Type 0} (xs rest : Bytes) (f : Bytes → Reader A)
    → IsU32 (length xs)
    → 0 < length xs + length rest
    → (read_be 4 >>= λ n. read_new n >>= f) (put_be 4 (length xs) ++ (xs ++ rest)) ≡ f xs rest
read_field xs rest f fits more =
    bind_ok (read_be 4) (λ n. read_new n >>= f)
      (read_be-put_be 4 (length xs) (xs ++ rest) (omega arith) fits)
    ∙ bind_ok (read_new (length xs)) f (read_new-append (length xs) xs rest refl (omega arith) more)

-- Encode_peers succeeds on slices that fit, and decode_peers reads them back.
peers_read :
    (ids ips : List Bytes) (clocks : List ℕ)
    → PeersFit ids ips clocks
    → (bs : Bytes) × (encode_peers ids ips clocks ≡ ok bs)
      × ((rest : Bytes) → decode_peers (length ids) (bs ++ rest) ≡ ok ((ids, ips, clocks), rest))
unfolding encode_peers decode_peers
peers_read [] [] [] h = ([], refl, λ rest. refl)
peers_read (id ∷ ids) (ip ∷ ips) (c ∷ clocks) h =
    let (bs, e, d) = peers_read ids ips clocks h.3 in
    (
      put_be 4 (length id) ++ (id ++ (put_be 4 (length ip) ++ (ip ++ (put_be 4 c ++ bs)))),
      rw e refl,
      λ rest. simp append_assoc (
          read_field id (put_be 4 (length ip) ++ (ip ++ (put_be 4 c ++ (bs ++ rest)))) _ h.0
            (omega (arith, after_id rest bs))
          ∙ read_field ip (put_be 4 c ++ (bs ++ rest)) _ h.1 (omega (arith, after_ip rest bs))
          ∙ bind_ok (read_be 4) _ (read_be-put_be 4 c (bs ++ rest) (omega arith) h.2)
          ∙ bind_ok (decode_peers (length ids)) _ (d rest)),
    )
  where
    after_ip : (rest bs : Bytes) → 0 < length ip + length (put_be 4 c ++ (bs ++ rest))
    after_ip rest bs = omega (arith, length-append (put_be 4 c) (bs ++ rest), length-put_be 4 c)

    after_id :
        (rest bs : Bytes)
        → 0 < length id + length (put_be 4 (length ip) ++ (ip ++ (put_be 4 c ++ (bs ++ rest))))
    after_id rest bs = omega (
      arith,
      length-append (put_be 4 (length ip)) (ip ++ (put_be 4 c ++ (bs ++ rest))),
      length-put_be 4 (length ip),
    )
peers_read _ _ _ h = elim h [ ]

-- The fields that the wire format has room for, by the type; all others come back as zero values.
unfoldable pub wire : Message → Message
wire m = record {
  type = m.type;
  uuid = if names_node m.type then m.uuid else [];
  ip = if names_node m.type then m.ip else [];
  frame = if m.type == multicast_ack then m.frame else 0;
  msg = if m.type == application then m.msg else [];
  peer_ids = if lists_peers m.type then m.peer_ids else [];
  peer_ips = if lists_peers m.type then m.peer_ips else [];
  multicast_port = if lists_peers m.type then m.multicast_port else 0;
  clock = if lists_peers m.type then m.clock else [];
  old_leader_id = [];
}

-- What Encode and Decode need: integers within their widths, a body for the types that end in a
-- byte string (an empty one at the end of the input cannot be read), and parallel slices.
pub record IsSendable (m : Message) : Type 0 where
  pub type_fits : m.type < 256
  pub frame_fits : IsU32 m.frame
  pub msg_fits : IsU32 (length m.msg)
  pub msg_nonempty : m.type ≡ application → 0 < length m.msg
  pub uuid_fits : IsU32 (length m.uuid)
  pub ip_fits : IsU32 (length m.ip)
  pub ip_nonempty : names_node m.type ≡ true → 0 < length m.ip
  pub count_fits : IsU32 (length m.peer_ids)
  pub port_fits : IsU32 m.multicast_port
  pub peers_fit : PeersFit m.peer_ids m.peer_ips m.clock

-- The same for the last field, with nothing behind it.
read_last :
    {A : Type 0} (xs : Bytes) (f : Bytes → Reader A)
    → IsU32 (length xs)
    → 0 < length xs
    → (read_be 4 >>= λ n. read_new n >>= f) (put_be 4 (length xs) ++ xs) ≡ f xs []
read_last xs f fits more =
    subst (λ ys. (read_be 4 >>= λ n. read_new n >>= f) (put_be 4 (length xs) ++ ys) ≡ f xs [])
      (append-nil xs) (read_field xs [] f fits (omega arith))

module _ (m : Message) (s : IsSendable m) where
  decode_cut :
      (b rest : Bytes) {w : Message}
      → decode_body m.type b ≡ ok (w, rest)
      → decode (put_be 1 m.type ++ b) ≡ ok w
  unfolding decode
  decode_cut b rest e =
      let type_read = read_be-put_be 1 m.type b (omega arith) (omega (arith, s.type_fits)) in
      rw (type_read, decode, ◌>>=◌, e)

  decode_bare : {w : Message} → decode_body m.type [] ≡ ok (w, []) → decode (put_be 1 m.type) ≡ ok w
  decode_bare {w} e =
      subst (λ b. decode b ≡ ok w) (append-nil (put_be 1 m.type)) (decode_cut [] [] e)

  abbrev IsRead : Bytes → Type 0
  IsRead bs = (encode m ≡ ok bs) × (decode bs ≡ ok (wire m))

  no_body_IsRead : has_no_body m.type ≡ true → IsRead (put_be 1 m.type)
  unfolding encode decode_body wire
  no_body_IsRead e = (ground arith, decode_bare (ground arith))

  ack_IsRead : m.type ≡ multicast_ack → IsRead (put_be 1 m.type ++ (put_be 4 m.frame ++ m.msg))
  unfolding encode decode_body decode_ack wire
  ack_IsRead e = (
    ground arith,
    decode_cut _ m.msg (ground (arith, read_be-put_be 4 m.frame m.msg (omega arith) s.frame_fits)),
  )

  application-IsRead :
      m.type ≡ application → IsRead (put_be 1 m.type ++ (put_be 4 (length m.msg) ++ m.msg))
  unfolding encode decode_body wire
  application-IsRead e = (ground arith, decode_cut _ [] (ground (arith, body)))
    where
      body :
          decode_application m.type (put_be 4 (length m.msg) ++ m.msg)
          ≡ ok (record (of_type m.type) { msg = m.msg }, [])
      body = unfold decode_application in read_last m.msg _ s.msg_fits (s.msg_nonempty e)

  node_IsRead :
      names_node m.type ≡ true
      → IsRead (
          put_be 1 m.type
          ++ (put_be 4 (length m.uuid) ++ (m.uuid ++ (put_be 4 (length m.ip) ++ m.ip))))
  unfolding encode decode_body wire
  node_IsRead e = (ground arith, decode_cut _ [] (ground (arith, body)))
    where
      some_bytes : 0 < length m.uuid + length (put_be 4 (length m.ip) ++ m.ip)
      some_bytes =
          omega (arith, length-append (put_be 4 (length m.ip)) m.ip, length-put_be 4 (length m.ip))

      body :
          decode_node m.type
            (put_be 4 (length m.uuid) ++ (m.uuid ++ (put_be 4 (length m.ip) ++ m.ip)))
          ≡ ok (record (of_type m.type) { uuid = m.uuid; ip = m.ip }, [])
      body =
          unfold decode_node in
          (read_field m.uuid (put_be 4 (length m.ip) ++ m.ip) _ s.uuid_fits some_bytes
            ∙ read_last m.ip _ s.ip_fits (s.ip_nonempty e))

  session_IsRead : lists_peers m.type ≡ true → (bs : Bytes) × IsRead bs
  unfolding encode encode_session decode_body wire
  session_IsRead e =
      let (bs, enc, dec) = peers_read m.peer_ids m.peer_ips m.clock s.peers_fit in
      (
        put_be 1 m.type ++ (put_be 4 (length m.peer_ids) ++ (bs ++ put_be 4 m.multicast_port)),
        (
          ground (arith, enc),
          decode_cut _ [] (ground (arith, body bs (dec (put_be 4 m.multicast_port)))),
        ),
      )
    where
      port : read_be 4 (put_be 4 m.multicast_port) ≡ ok (m.multicast_port, [])
      port =
          subst (λ p. read_be 4 p ≡ ok (m.multicast_port, [])) (append-nil _)
            (read_be-put_be 4 m.multicast_port [] (omega arith) s.port_fits)

      body :
          (bs : Bytes)
          → decode_peers (length m.peer_ids) (bs ++ put_be 4 m.multicast_port)
            ≡ ok ((m.peer_ids, m.peer_ips, m.clock), put_be 4 m.multicast_port)
          → decode_session m.type
              (put_be 4 (length m.peer_ids) ++ (bs ++ put_be 4 m.multicast_port))
            ≡ ok (
              record (of_type m.type) {
                peer_ids = m.peer_ids;
                peer_ips = m.peer_ips;
                clock = m.clock;
                multicast_port = m.multicast_port;
              },
              [],
            )
      body bs dec =
          unfold decode_session in
          (bind_ok (read_be 4) _ (read_be-put_be 4 (length m.peer_ids) _ (omega arith) s.count_fits)
            ∙ bind_ok (decode_peers (length m.peer_ids)) _ dec
            ∙ bind_ok (read_be 4) _ port)

  other_IsRead :
      has_no_body m.type ≡ false
      → m.type ≢ multicast_ack
      → m.type ≢ application
      → names_node m.type ≡ false
      → lists_peers m.type ≡ false
      → IsRead (put_be 1 m.type)
  unfolding encode decode_body wire
  other_IsRead b a p n l = (ground arith, decode_bare (ground arith))

  -- The types in the order in which Encode asks for them.
  IsRead-cases : (bs : Bytes) × IsRead bs
  IsRead-cases = elim (Bool-cases (has_no_body m.type)) [
    | inl e ↦ (_, no_body_IsRead e)
    | inr b ↦ elim (Bool-cases (m.type == multicast_ack)) [
      | inl e ↦ (_, ack_IsRead (ground arith))
      | inr a ↦ elim (Bool-cases (m.type == application)) [
        | inl e ↦ (_, application-IsRead (ground arith))
        | inr p ↦ elim (Bool-cases (names_node m.type)) [
          | inl e ↦ (_, node_IsRead e)
          | inr n ↦ elim (Bool-cases (lists_peers m.type)) [
            | inl e ↦ session_IsRead e
            | inr l ↦ (_, other_IsRead b (ground arith) (ground arith) n l)
          ]
        ]
      ]
    ]
  ]

-- Encode succeeds on every message whose integers and lengths have their widths, whose lists of peers have
-- one length, whose payload is not empty if it is an application message, and whose address is not
-- empty if it names a node; and Decode then gives back the message with the fields that its type does
-- not carry at their zero values.
pub decode-encode :
    (m : Message) → IsSendable m → (bs : Bytes) × (encode m ≡ ok bs) × (decode bs ≡ ok (wire m))
decode-encode m s = let (bs, read) = IsRead-cases m s in (bs, read.0, read.1)
