-- ===== src/Multicast/Group/Runs.antt =====
-- Concrete sessions of several nodes.
use distributed_chat_applica.Prelude.{◌≡◌, refl, [], ◌∷◌, Occurs, at_head, at_tail}
use distributed_chat_applica.Go.Text.{Bytes, str_eq}
use distributed_chat_applica.Go.Map.{get, put}
use distributed_chat_applica.Multicast.Datagram.{Message}
use distributed_chat_applica.Multicast.Clock.{tick, can_deliver, others_seen}
use distributed_chat_applica.Multicast.HoldBack.{pick, deliver_loop}
use distributed_chat_applica.Multicast.Node.{deliver_messages}
use distributed_chat_applica.Multicast.Group.{put_site}
use distributed_chat_applica.Multicast.Group.Sound.{After-Occurs}
use distributed_chat_applica.Multicast.Group.Order.{
  directly, causal_order, logged_once, same_clock_same_messages,
}
use distributed_chat_applica.Multicast.Group.Arrived.{all_delivered}
use distributed_chat_applica.Multicast.Group.Session.{
  node_b, node_c, members, address, first_world, b_there, c_there, first_world-IsNew, question,
  answer,
}
use distributed_chat_applica.Multicast.Group.Session.Third.{
  all-Handled, none_begun, last_world, run, b_answered, c_answered,
}

causal_order_example : Occurs question (question ∷ [])
causal_order_example =
    causal_order members address first_world last_world node_c question answer (question ∷ [])
      first_world-IsNew run c_there (directly b_there b_answered at_head) c_answered

logged_once_example :
    Occurs answer last_world.sent × Occurs answer.uuid members × (Occurs answer (question ∷ []) → ⊥)
logged_once_example =
    logged_once members address first_world last_world node_c answer (question ∷ [])
      first_world-IsNew run c_there c_answered

clocks_agree :
    (k : Bytes)
    → Occurs k members
    → get (last_world.site node_b).node.vector_clock k
      ≡ get (last_world.site node_c).node.vector_clock k
unfolding put_site str_eq deliver_messages deliver_loop pick can_deliver others_seen tick get put
clocks_agree _ at_head = refl
clocks_agree _ (at_tail _ at_head) = refl
clocks_agree _ (at_tail _ (at_tail _ at_head)) = refl
clocks_agree _ (at_tail _ (at_tail _ (at_tail _ o))) = elim o [ ]

same_clock_same_messages_example : Occurs answer (last_world.site node_c).log
same_clock_same_messages_example =
    same_clock_same_messages members address first_world last_world node_b node_c answer
      first_world-IsNew run b_there c_there clocks_agree (After-Occurs b_answered)

all_delivered_example :
    ((y : Message) → Occurs y last_world.sent → Occurs y (last_world.site node_c).log)
    × ((last_world.site node_c).node.hold_back_queue ≡ [])
all_delivered_example =
    all_delivered members address first_world last_world node_c first_world-IsNew run c_there
      all-Handled none_begun
