-- ===== src/ChatClient/Causal.antt =====
-- Chat messages of several users on their way through a session: from the multicast
-- (server/multicast/multicast.go), through the message listener of a server (server/multicast.go) and
-- the sessions of its clients (server/client.go), to the screen of a client (client/client.go).
mod Runs
pub mod Sent
use distributed_chat_applica.Prelude.{
  Merge, Ahead-Merge, Occurs-Merge, ℕ, ◌^◌, ◌<◌, ◌≡◌, ◌≢◌, refl, sym, ap, ◌∙◌, List, [], ◌∷◌, ◌++◌,
  Bool, All, map, length, Occurs, at_head, at_tail, Ahead, first, further, Occurs-append_left,
  Occurs-append_right, Ahead-append_left, Ahead-append_right, Ahead-append, Ahead-map, Occurs-map,
  ap₂, false, Bool-cases, inl, inr, if◌then◌else◌, arith,
}
use distributed_chat_applica.Go.Text.{Bytes, str_eq, str_eq_ne}
use distributed_chat_applica.Go.Result.{ok}
use distributed_chat_applica.Go.Scanner.{IsLine, split_2, split_2_at, write_lines}
use distributed_chat_applica.Message.New.{new_application_message}
use distributed_chat_applica.Multicast.Datagram.{Message}
use distributed_chat_applica.Multicast.Group.{World, IsNew, Run}
use distributed_chat_applica.Multicast.Group.Sound.{After, newest, older}
use distributed_chat_applica.Multicast.Group.Arrived.{Handled, all_delivered}
use distributed_chat_applica.Multicast.Group.Order.{HappenedBefore, causal_order}
use distributed_chat_applica.Server.{Server, Event, chat}
use distributed_chat_applica.Server.Handlers.{on_multicast_message}
use distributed_chat_applica.Server.Clients.{ClientServer, Turn, run_turns}
use distributed_chat_applica.Server.Clients.Sessions.{
  written, OpensOnce, heard, echoed, written_lines,
}
use distributed_chat_applica.ChatClient.{Shown, plain, from, listen}
use distributed_chat_applica.ChatClient.Reads.{line_of, shown, IsName, listen-write_lines}
use distributed_chat_applica.ChatClient.Chat.{application_is_chat, some_line}

-- The messages that the multicaster of node `i` hands to its server, the first one first.
abbrev pub deliveries : Bytes → List Message → List Message
deliveries i [] = []
deliveries i (m ∷ log) =
    let before = deliveries i log in if str_eq m.uuid i then before else before ++ m ∷ []

-- The rounds of startMulticastMessageListener for the messages, with what they emit. Other goroutines
-- may change the server between two rounds, but not its id.
pub data Listens (i : Bytes) : List Message → List Event → Type 0 where
  quiet : Listens i [] []
  round :
      {m : Message} {ms : List Message} {es later : List Event} (s s' : Server)
      → s.id ≡ i
      → on_multicast_message s m ≡ ok (s', es)
      → Listens i ms later
      → Listens i (m ∷ ms) (es ++ later)

-- What is sent into applicationMsgChan.
abbrev pub texts : List Event → List Bytes
texts [] = []
texts (chat text ∷ es) = text ∷ texts es
texts (_ ∷ es) = texts es

-- The multicast carries the chat message of a user.
pub record Carries (m : Message) (c : Bytes × Bytes) : Type 0 where
  pub name : IsName (c.0)
  pub fits : length (line_of c) < 2 ^ 32
  pub made : new_application_message (line_of c) ≡ ok m.message

delivery-Occurs :
    (i : Bytes) (x : Message) (log : List Message)
    → x.uuid ≢ i
    → Occurs x log
    → Occurs x (deliveries i log)
delivery-Occurs i x [] other o = elim o [ ]
delivery-Occurs i _ (x ∷ log) other at_head =
    rw (str_eq_ne x.uuid i other) (Occurs-append_right (deliveries i log) at_head)
delivery-Occurs i x (z ∷ log) other (at_tail _ o) = elim (Bool-cases (str_eq z.uuid i)) [
  | inl own ↦ rw own (delivery-Occurs i x log other o)
  | inr foreign ↦ rw foreign (Occurs-append_left (z ∷ []) (delivery-Occurs i x log other o))
]

delivery-Ahead :
    (i : Bytes) (x y : Message) (t log : List Message)
    → x.uuid ≢ i
    → y.uuid ≢ i
    → After y t log
    → Occurs x t
    → Ahead x y (deliveries i log)
delivery-Ahead i x y t [] ox oy a o = elim a [ ]
delivery-Ahead i x _ _ (y ∷ t) ox oy newest o =
    rw (str_eq_ne y.uuid i oy) (Ahead-append (y ∷ []) (delivery-Occurs i x t ox o) at_head)
delivery-Ahead i x y t (z ∷ log) ox oy (older _ a) o = elim (Bool-cases (str_eq z.uuid i)) [
  | inl own ↦ rw own (delivery-Ahead i x y t log ox oy a o)
  | inr foreign ↦ rw foreign (Ahead-append_left (z ∷ []) (delivery-Ahead i x y t log ox oy a o))
]

pub texts-append : (es later : List Event) → texts (es ++ later) ≡ texts es ++ texts later
texts-append [] later = refl
texts-append (chat text ∷ es) later = ap (◌∷◌ text) (texts-append es later)
texts-append (Event.action a ∷ es) later = texts-append es later
texts-append (Event.forward m ∷ es) later = texts-append es later
texts-append (Event.multicast d ∷ es) later = texts-append es later
texts-append (Event.tell ip uuid d ∷ es) later = texts-append es later
texts-append (Event.ask uuid ip ∷ es) later = texts-append es later
texts-append (Event.serve ∷ es) later = texts-append es later
texts-append (Event.attend ∷ es) later = texts-append es later
texts-append (Event.beat a b ∷ es) later = texts-append es later
texts-append (Event.watch a ∷ es) later = texts-append es later

emits :
    (i : Bytes) (m : Message) (c : Bytes × Bytes) (s s' : Server) (es : List Event)
    → s.id ≡ i
    → m.uuid ≢ i
    → Carries m c
    → on_multicast_message s m ≡ ok (s', es)
    → texts es ≡ line_of c ∷ []
emits i m c s s' es same other k h =
    let e =
      application_is_chat s m (line_of c) m.message (some_line (c.0) (c.1)) k.fits k.made
        (λ p. other (p ∙ same)) refl in
    let both : chat (line_of c) ∷ [] ≡ es = ground (arith, e, h) in ap texts (sym both)

Listens-Occurs :
    (i : Bytes) (x : Message) (c : Bytes × Bytes) (ms : List Message) (es : List Event)
    → x.uuid ≢ i
    → Carries x c
    → Listens i ms es
    → Occurs x ms
    → Occurs (line_of c) (texts es)
Listens-Occurs i x c _ _ other k quiet o = elim o [ ]
Listens-Occurs i x c _ _ other k (round {es = es} {later = later} s s' same h l) at_head =
    rw (texts-append es later, emits i x c s s' es same other k h) at_head
Listens-Occurs i x c _ _ other k (round {ms = ms} {es = es} {later = later} s s' same h l)
      (at_tail _ o) =
    rw (texts-append es later)
      (Occurs-append_right (texts es) (Listens-Occurs i x c ms later other k l o))

Listens-Ahead :
    (i : Bytes) (x y : Message) (c d : Bytes × Bytes) (ms : List Message) (es : List Event)
    → x.uuid ≢ i
    → y.uuid ≢ i
    → Carries x c
    → Carries y d
    → Listens i ms es
    → Ahead x y ms
    → Ahead (line_of c) (line_of d) (texts es)
Listens-Ahead i x y c d _ _ ox oy k j quiet a = elim a [ ]
Listens-Ahead i x y c d _ _ ox oy k j (round {ms = ms} {es = es} {later = later} s s' same h l)
      (first o) =
    rw (texts-append es later, emits i x c s s' es same ox k h)
      (first (Listens-Occurs i y d ms later oy j l o))
Listens-Ahead i x y c d _ _ ox oy k j (round {ms = ms} {es = es} {later = later} s s' same h l)
      (further _ a) =
    rw (texts-append es later)
      (Ahead-append_right (texts es) (Listens-Ahead i x y c d ms later ox oy k j l a))

-- What a client shows of a line.
abbrev pub shown_as : Bytes → Shown
shown_as text = elim (split_2 58 text) [
  | [] ↦ plain text
  | name ∷ rest ↦ elim rest [ [] ↦ plain text | input ∷ others ↦ from name input ]
]

shown_as-line_of : (c : Bytes × Bytes) → IsName (c.0) → shown_as (line_of c) ≡ shown c
shown_as-line_of (username, input) h = rw (shown_as, split_2_at 58 username input h) refl

map-shown_as :
    (cs : List (Bytes × Bytes))
    → All (λ c. IsName (c.0)) cs
    → map shown_as (map line_of cs) ≡ map shown cs
map-shown_as [] h = refl
map-shown_as (c ∷ cs) h = ap₂ ◌∷◌ (shown_as-line_of c h.0) (map-shown_as cs h.1)

-- What a client shows that hears lines of users.
pub screen :
    (is_ip : Bytes → Bool) (cs : ClientServer) (turns : List Turn) (conn : ℕ)
    (chats : List (Bytes × Bytes))
    → cs.clients ≡ []
    → OpensOnce [] turns
    → heard conn false turns ≡ map line_of chats
    → All (λ c. IsName (c.0)) chats
    → All IsLine (map line_of chats)
    → (listen is_ip (written conn (run_turns turns cs))).0 ≡ map shown_as (heard conn false turns)
screen is_ip cs turns conn chats none_yet once_each lines names fits =
    let e : written conn (run_turns turns cs) ≡ write_lines (map line_of chats) =
      written_lines turns cs conn none_yet once_each ∙ ap write_lines lines in
    rw (e, listen-write_lines is_ip chats names fits, lines) (sym (map-shown_as chats names))

-- Causal order on the screens. Let `x` and `y` carry chat messages of users, and let `x` have happened
-- before `y` in a session of the multicasters. The server `i`, which sent neither and has delivered `y`,
-- has handed on all that its multicaster delivered. A client of it hears all of that and all lines of
-- the server's own users, merged in any way, as one that had its session all that time; all that it
-- hears are lines of users whose names have no colon. Then it shows both chat messages, and that of
-- `x` before that of `y`.
pub chats_in_causal_order :
    (ids : List Bytes) (address : Bytes → Bytes) (is_ip : Bytes → Bool) (w v : World) (i : Bytes)
    (x y : Message) (a b : Bytes × Bytes) (before : List Message) (es : List Event)
    (cs : ClientServer) (turns : List Turn) (conn : ℕ) (chats : List (Bytes × Bytes))
    → IsNew ids address w
    → Run ids address w v
    → Occurs i ids
    → HappenedBefore ids address v x y
    → After y before (v.site i).log
    → x.uuid ≢ i
    → y.uuid ≢ i
    → Carries x a
    → Carries y b
    → Listens i (deliveries i (v.site i).log) es
    → cs.clients ≡ []
    → OpensOnce [] turns
    → Merge (texts es) (echoed (run_turns turns cs)) (heard conn false turns)
    → heard conn false turns ≡ map line_of chats
    → All (λ c. IsName (c.0)) chats
    → All IsLine (map line_of chats)
    → Ahead (shown a) (shown b) (listen is_ip (written conn (run_turns turns cs))).0
chats_in_causal_order ids address is_ip w v i x y a b before es cs turns conn chats new run o hb
      after ox oy k j listens none_yet once_each merged lines names fits =
    let o' = causal_order ids address w v i x y before new run o hb after in
    let arrive = delivery-Ahead i x y before (v.site i).log ox oy after o' in
    let read = Listens-Ahead i x y a b (deliveries i (v.site i).log) es ox oy k j listens arrive in
    rw
      (
        screen is_ip cs turns conn chats none_yet once_each lines names fits,
        sym (shown_as-line_of a k.name),
        sym (shown_as-line_of b j.name),
      )
      (Ahead-map shown_as (Ahead-Merge merged read))

-- Every chat message comes to every screen. In a session of the multicasters, let the listener of the
-- member `i` have put every message of the others into its queue at some time, in whatever order, and
-- let none of its goroutines be between its two parts. Let the server `i` have handed on all that its
-- multicaster delivered. A client of it hears all of that and all lines of the server's own users,
-- merged in any way, as one that had its session all that time; all that it hears are lines of
-- users whose names have no colon. Then it shows every chat message that another member has sent.
pub all_chats_shown :
    (ids : List Bytes) (address : Bytes → Bytes) (is_ip : Bytes → Bool) (w v : World) (i : Bytes)
    (es : List Event) (cs : ClientServer) (turns : List Turn) (conn : ℕ)
    (chats : List (Bytes × Bytes))
    → IsNew ids address w
    → (r : Run ids address w v) → Occurs i ids
    → ((y : Message) → Occurs y v.sent → y.uuid ≢ i → Handled ids address i y r)
    → (v.site i).begun ≡ []
    → Listens i (deliveries i (v.site i).log) es
    → cs.clients ≡ []
    → OpensOnce [] turns
    → Merge (texts es) (echoed (run_turns turns cs)) (heard conn false turns)
    → heard conn false turns ≡ map line_of chats
    → All (λ c. IsName (c.0)) chats
    → All IsLine (map line_of chats)
    → (x : Message) (a : Bytes × Bytes) → Occurs x v.sent
    → x.uuid ≢ i
    → Carries x a
    → Occurs (shown a) (listen is_ip (written conn (run_turns turns cs))).0
all_chats_shown ids address is_ip w v i es cs turns conn chats new run o handled idle listens
      none_yet once_each merged lines names fits x a sent other k =
    let (all, empty) = all_delivered ids address w v i new run o handled idle in
    let arrives = delivery-Occurs i x (v.site i).log other (all x sent) in
    let read = Listens-Occurs i x a (deliveries i (v.site i).log) es other k listens arrives in
    rw
      (
        screen is_ip cs turns conn chats none_yet once_each lines names fits,
        sym (shown_as-line_of a k.name),
      )
      (Occurs-map shown_as (Occurs-Merge merged read))
