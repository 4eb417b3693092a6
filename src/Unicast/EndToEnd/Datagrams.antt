-- ===== src/Unicast/EndToEnd/Datagrams.antt =====
-- A sender and a listener of server/unicast/unicast.go with the datagrams between them.
use distributed_chat_applica.Prelude.{
  ℕ, ◌+◌, ◌^◌, ◌≤◌, ◌<◌, ◌≡◌, ◌≢◌, refl, ap, ap₂, ◌∙◌, List, [], ◌∷◌, ◌++◌, All, map, length,
  take_all, length-append, arith,
}
use distributed_chat_applica.Go.Text.{Bytes}
use distributed_chat_applica.Go.Map.{get_or}
use distributed_chat_applica.Go.Result.{ok}
use distributed_chat_applica.Wire.{fixed_id, length-fixed_id}
use distributed_chat_applica.Unicast.Datagram.{Message}
use distributed_chat_applica.Unicast.Codec.{encode_unicast_message}
use distributed_chat_applica.Unicast.Codec.RoundTrip.{
  header, arrived, IsSendable, decode_unicast_message-encode_unicast_message,
}
use distributed_chat_applica.Unicast.Codec.Malformed.{buffer_size, encode-header}
use distributed_chat_applica.Go.Binary.{put_be, length-put_be}
use distributed_chat_applica.Unicast.Sender.{Sender, message_for, begin_send}
use distributed_chat_applica.Unicast.Listener.{
  Listener, Event, last_frame, on_message, receive, receive_all, run,
}
use distributed_chat_applica.Unicast.Listener.Once.{delivered}
use distributed_chat_applica.Unicast.EndToEnd.{
  Transfer, copy, arrivals, payloads, delivered-arrivals,
}

-- A message whose datagram fits the buffer, and is decoded.
record IsShort (m : Message) : Type 0 where
  sendable : IsSendable m
  short : length (encode_unicast_message m) ≤ buffer_size

receives :
    (l : Listener) (m : Message) (ip : Bytes)
    → IsShort m
    → receive l (encode_unicast_message m) ip ≡ ok (on_message l (arrived ip m))
unfolding receive
receives l m ip h =
    rw
      (
        receive,
        take_all buffer_size (encode_unicast_message m) h.short,
        decode_unicast_message-encode_unicast_message m ip h.sendable,
      )
      refl

receive_all-run :
    (l : Listener) (ip : Bytes) (ms : List Message)
    → All IsShort ms
    → receive_all l ip (map encode_unicast_message ms) ≡ ok (run l (map (arrived ip) ms))
unfolding receive_all run
receive_all-run l ip [] h = refl
receive_all-run l ip (m ∷ ms) h =
    let (l', sent) = on_message l (arrived ip m) in
    rw (receives l m ip h.0, receive_all-run l' ip ms h.1) refl

-- A payload that is there and fits the buffer behind the header, and tries that a uint8 takes.
abbrev pub Fits : Transfer → Type 0
Fits t =
    (0 < length t.payload) × (length t.payload ≤ 934) × (t.first < 256) × All (λ i. i < 256) t.more

abbrev tried : Message → ℕ → Message
tried m i = record m { tries = i }

-- The messages of the transfers, as often as their datagrams arrive.
abbrev sent_copies : Sender → Bytes → Bytes → List Transfer → List Message
sent_copies s ip uuid [] = []
sent_copies s ip uuid (t ∷ ts) =
    let m = message_for s ip uuid t.payload in
    tried m t.first
    ∷ (map (tried m) t.more ++ sent_copies (begin_send s ip uuid t.payload) ip uuid ts)

-- The datagrams that arrive when the transfers are sent one after the other: what send writes for the
-- message of each transfer, at those tries.
abbrev pub datagrams : Sender → Bytes → Bytes → List Transfer → List Bytes
datagrams s ip uuid ts = map encode_unicast_message (sent_copies s ip uuid ts)

map-append {ℓ κ} :
    {A : Type ℓ} {B : Type κ} (f : A → B) (xs ys : List A) → map f (xs ++ ys) ≡ map f xs ++ map f ys
map-append f [] ys = refl
map-append f (x ∷ xs) ys = ap (◌∷◌ (f x)) (map-append f xs ys)

copies_arrive :
    (from_ip : Bytes) (m : Message) (is : List ℕ)
    → map (arrived from_ip) (map (tried m) is) ≡ map (copy from_ip m) is
copies_arrive from_ip m [] = refl
copies_arrive from_ip m (i ∷ is) = ap (◌∷◌ (copy from_ip m i)) (copies_arrive from_ip m is)

sent_copies-arrivals :
    (s : Sender) (ip from_ip uuid : Bytes) (ts : List Transfer)
    → map (arrived from_ip) (sent_copies s ip uuid ts) ≡ arrivals s ip from_ip uuid ts
unfolding arrivals
sent_copies-arrivals s ip from_ip uuid [] = refl
sent_copies-arrivals s ip from_ip uuid (t ∷ ts) =
    let m = message_for s ip uuid t.payload in
    let s' = begin_send s ip uuid t.payload in
    ap (◌∷◌ (copy from_ip m t.first)) (
      map-append (arrived from_ip) (map (tried m) t.more) (sent_copies s' ip uuid ts)
      ∙ ap₂ ◌++◌ (copies_arrive from_ip m t.more) (sent_copies-arrivals s' ip from_ip uuid ts))

length-header :
    (r f t : ℕ) (from to rest : Bytes)
    → length from ≡ 36
    → length to ≡ 36
    → length (header r f t from to rest) ≡ 82 + length rest
length-header r f t from to rest lf lt = omega (
  arith,
  length-append (put_be 1 r) (put_be 8 f ++ (put_be 1 t ++ (from ++ (to ++ rest)))),
  length-append (put_be 8 f) (put_be 1 t ++ (from ++ (to ++ rest))),
  length-append (put_be 1 t) (from ++ (to ++ rest)),
  length-append from (to ++ rest),
  length-append to rest,
  length-put_be 1 r,
  length-put_be 8 f,
  length-put_be 1 t,
)

length-encode_unicast_message :
    (m : Message) → m.response ≢ 1 → length (encode_unicast_message m) ≡ 90 + length m.message
length-encode_unicast_message m data_frame =
    let rest = put_be 8 (length m.message) ++ m.message in
    let from = fixed_id m.from_uuid in
    let to = fixed_id m.to_uuid in
    ap length (encode-header m data_frame)
    ∙ omega (
      arith,
      length-header m.response m.frame m.tries from to rest (length-fixed_id m.from_uuid)
          (length-fixed_id m.to_uuid),
      length-append (put_be 8 (length m.message)) m.message,
      length-put_be 8 (length m.message),
    )

tried-IsShort :
    (s : Sender) (ip uuid payload : Bytes) (i : ℕ)
    → 0 < length payload
    → length payload ≤ 934
    → i < 256
    → IsShort (tried (message_for s ip uuid payload) i)
tried-IsShort s ip uuid payload i some_bytes fits small =
    let m = tried (message_for s ip uuid payload) i in
    let data_frame : m.response ≢ 1 = λ e. absurd (omega arith) in
    record {
      sendable = record {
        response_fits = omega arith;
        frame_fits = omega arith;
        tries_fits = small;
        payload_fits = omega arith;
        payload_nonempty = λ e. some_bytes;
      };
      short = omega (arith, length-encode_unicast_message m data_frame);
    }

tries-IsShort :
    (s : Sender) (ip uuid payload : Bytes) (is : List ℕ) (ms : List Message)
    → 0 < length payload
    → length payload ≤ 934
    → All (λ i. i < 256) is
    → All IsShort ms
    → All IsShort (map (tried (message_for s ip uuid payload)) is ++ ms)
tries-IsShort s ip uuid payload [] ms some_bytes fits small h = h
tries-IsShort s ip uuid payload (i ∷ is) ms some_bytes fits small h = (
  tried-IsShort s ip uuid payload i some_bytes fits small.0,
  tries-IsShort s ip uuid payload is ms some_bytes fits small.1 h,
)

sent_copies-IsShort :
    (s : Sender) (ip uuid : Bytes) (ts : List Transfer)
    → All Fits ts
    → All IsShort (sent_copies s ip uuid ts)
sent_copies-IsShort s ip uuid [] h = tt
sent_copies-IsShort s ip uuid (t ∷ ts) h =
    let (some_bytes, fits, first, more) = h.0 in
    let s' = begin_send s ip uuid t.payload in
    (
      tried-IsShort s ip uuid t.payload t.first some_bytes fits first,
      tries-IsShort s ip uuid t.payload t.more (sent_copies s' ip uuid ts) some_bytes fits more
          (sent_copies-IsShort s' ip uuid ts h.1),
    )

-- Reliable, ordered delivery. When the datagrams of each message of one sender reach one listener before
-- the next message is sent, one of them at least and any number of copies, the listener hands the
-- payloads to the application exactly once and in order. This wants payloads of 1 to 934 bytes,
-- which the buffer of the listener takes, ids of 36 bytes, nothing buffered, counts that agree and do
-- not wrap around, and tries below 256.
pub delivered-datagrams :
    (s : Sender) (l : Listener) (ip from_ip : Bytes) (ts : List Transfer)
    → All Fits ts
    → length s.uuid ≡ 36
    → length l.uuid ≡ 36
    → l.msg_buf ≡ []
    → last_frame l s.uuid ≡ get_or s.peer_frame l.uuid 0
    → get_or s.peer_frame l.uuid 0 + length ts + 1 < 2 ^ 64
    → (l' : Listener) × (es : List Event) × (receive_all l from_ip (datagrams s ip l.uuid ts)
        ≡ ok (l', es))
      × (map (λ m. m.message) (delivered es) ≡ payloads ts)
delivered-datagrams s l ip from_ip ts fits ls ll empty agree small =
    let ms = arrivals s ip from_ip l.uuid ts in
    let (l', es) = run l ms in
    (
      l',
      es,
      receive_all-run l from_ip (sent_copies s ip l.uuid ts)
            (sent_copies-IsShort s ip l.uuid ts fits)
          ∙ ap (λ arriving. ok (run l arriving)) (sent_copies-arrivals s ip from_ip l.uuid ts),
      delivered-arrivals s l ip from_ip ts ls ll empty agree small,
    )
