-- ===== src/Multicast/Group/Session/Third.antt =====
-- The third node of the session, which hears the answer before the question.
use distributed_chat_applica.Prelude.{
  inl, inr, Occurs, ◌≢◌, ◌≡◌, refl, List, [], ◌∷◌, at_head, at_tail, take_all,
}
use distributed_chat_applica.Go.Text.{str_eq}
use distributed_chat_applica.Go.Map.{get, put}
use distributed_chat_applica.Go.Result.{ok}
use distributed_chat_applica.Go.Binary.{read_be, read_new, be_value, put_be}
use distributed_chat_applica.Message as Body
use distributed_chat_applica.Unicast.Codec.Malformed.{buffer_size}
use distributed_chat_applica.Multicast.Codec.RoundTrip.{
  decode_multicast_message-encode_multicast_message,
}
use distributed_chat_applica.Multicast.Datagram.{Message}
use distributed_chat_applica.Multicast.Listen.{ack, arrived, receive, on_multicast, on_body, Event}
use distributed_chat_applica.Message.New.{new_multicast_ack_message}
use distributed_chat_applica.Multicast.Clock.{tick, can_deliver, others_seen}
use distributed_chat_applica.Multicast.HoldBack.{pick, deliver_loop}
use distributed_chat_applica.Multicast.HoldBack.Picked.{here}
use distributed_chat_applica.Multicast.Node.{Multicaster, deliver_messages}
use distributed_chat_applica.Multicast.Send.{multicast_of}
use distributed_chat_applica.Multicast.Group.{
  World, put_site, with_site, site_heard, site_queued, site_delivered, Move, hears, queues,
  delivers, Run, start, after,
}
use distributed_chat_applica.Multicast.Group.Arrived.{Handled}
use distributed_chat_applica.Multicast.Group.Sound.{After, newest}
use distributed_chat_applica.Multicast.Group.Session.{
  node_b, node_c, members, address, question_body, answer_body, a, c, first_world, c_there,
  question, question_datagram, short, can_ask, heard_question, asks, b_hears_it, b_queues,
  b_delivers, b_then, answer, answer_datagram, answer_short, can_answer, answered, answers,
}

-- Node c hears the answer first, and holds it back until it has the question.
abbrev pub heard_answer : List Event
heard_answer = ack (49 ∷ []) node_b (10 ∷ 0 ∷ 0 ∷ 0 ∷ 0 ∷ []) ∷ arrived answer ∷ []

pub c_hears : receive c answer_datagram (49 ∷ []) ≡ ok (c, heard_answer)
unfolding receive on_multicast on_body str_eq new_multicast_ack_message Body.encode put_be
    Body.decode Body.decode_body read_new read_be be_value Body.decode_application
c_hears =
    rw
      (
        take_all buffer_size answer_datagram answer_short,
        decode_multicast_message-encode_multicast_message (multicast_of b_then answer_body)
            (49 ∷ []) can_answer.fits,
        receive,
      )
      refl

abbrev pub c_heard : World
c_heard = with_site answered node_c (site_heard (answered.site node_c) c heard_answer)

unfoldable pub c_hears_it : Move members address answered c_heard
unfolding put_site str_eq
c_hears_it = hears node_c answer_datagram (49 ∷ []) heard_answer c_there at_head c_hears

abbrev pub c_queued : World
c_queued = with_site c_heard node_c (site_queued (c_heard.site node_c) answer [])

unfoldable pub c_queues : Move members address c_heard c_queued
unfolding put_site str_eq
c_queues = queues node_c answer [] c_there here

abbrev pub c_held : World
c_held = with_site c_queued node_c (site_delivered (c_queued.site node_c) [])

unfoldable pub c_holds : Move members address c_queued c_held
unfolding put_site str_eq
c_holds = delivers node_c answer [] c_there here

abbrev pub c_waits : Multicaster
c_waits = record c { hold_back_queue = answer ∷ [] }

pub c_hears_more : receive c_waits question_datagram (49 ∷ []) ≡ ok (c_waits, heard_question)
unfolding receive on_multicast on_body str_eq new_multicast_ack_message Body.encode put_be
    Body.decode Body.decode_body read_new read_be be_value Body.decode_application
c_hears_more =
    rw
      (
        take_all buffer_size question_datagram short,
        decode_multicast_message-encode_multicast_message (multicast_of a question_body) (49 ∷ [])
            can_ask.fits,
        receive,
      )
      refl

abbrev pub c_heard_both : World
c_heard_both = with_site c_held node_c (site_heard (c_held.site node_c) c_waits heard_question)

unfoldable pub c_hears_rest : Move members address c_held c_heard_both
unfolding put_site str_eq deliver_messages deliver_loop pick can_deliver others_seen tick get put
c_hears_rest =
    hears node_c question_datagram (49 ∷ []) heard_question c_there (at_tail _ at_head) c_hears_more

abbrev pub c_queued_both : World
c_queued_both = with_site c_heard_both node_c (site_queued (c_heard_both.site node_c) question [])

unfoldable pub c_queues_rest : Move members address c_heard_both c_queued_both
unfolding put_site str_eq
c_queues_rest = queues node_c question [] c_there here

abbrev pub last_world : World
last_world = with_site c_queued_both node_c (site_delivered (c_queued_both.site node_c) [])

unfoldable pub c_delivers : Move members address c_queued_both last_world
unfolding put_site str_eq
c_delivers = delivers node_c question [] c_there here

unfoldable pub b_run : Run members address first_world answered
b_run = after (after (after (after (after start asks) b_hears_it) b_queues) b_delivers) answers

unfoldable pub c_run : Run members address first_world c_held
c_run = after (after (after b_run c_hears_it) c_queues) c_holds

unfoldable pub run : Run members address first_world last_world
run = after (after (after c_run c_hears_rest) c_queues_rest) c_delivers

pub b_answered : After answer (question ∷ []) (last_world.site node_b).log
unfolding put_site str_eq deliver_messages deliver_loop pick can_deliver others_seen tick get put
b_answered = newest

pub c_answered : After answer (question ∷ []) (last_world.site node_c).log
unfolding put_site str_eq deliver_messages deliver_loop pick can_deliver others_seen tick get put
c_answered = newest

pub all-Handled :
    (y : Message)
    → Occurs y last_world.sent
    → y.uuid ≢ node_c
    → Handled members address node_c y run
unfolding run b_run c_run asks b_hears_it b_queues b_delivers answers c_hears_it c_queues c_holds
    c_hears_rest c_queues_rest c_delivers
all-Handled _ at_head other = inl (inl (inl (inl (inr (refl, refl)))))
all-Handled _ (at_tail _ at_head) other = inl (inr (refl, refl))
all-Handled _ (at_tail _ (at_tail _ o)) other = elim o [ ]

pub none_begun : (last_world.site node_c).begun ≡ []
unfolding put_site str_eq
none_begun = refl

pub answer_sent : Occurs answer last_world.sent
unfolding str_eq put_site deliver_messages deliver_loop pick can_deliver get tick put others_seen
answer_sent = at_head
