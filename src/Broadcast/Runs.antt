-- ===== src/Broadcast/Runs.antt =====
-- The broadcaster at concrete calls and datagrams.
use distributed_chat_applica.Prelude.{◌≡◌, refl, [], ◌∷◌, some, Bool, ◌==◌, length, replicate}
use distributed_chat_applica.Go.Text.{Bytes, str_eq}
use distributed_chat_applica.Go.Result.{ok}
use distributed_chat_applica.Broadcast.{
  Broadcaster, new_broadcaster, datagram, listen, is_any_one_broadcasting,
}
use distributed_chat_applica.Broadcast.Sending.{starts, stops, call_all, call_all-new_broadcaster}

abbrev node_a : Bytes
node_a = replicate 36 97

abbrev node_b : Bytes
node_b = replicate 36 98

abbrev has_uuid_length : Bytes → Bool
has_uuid_length bs = length bs == 36

-- The node's own broadcast, a short datagram, and then another node.
finds_other :
    is_any_one_broadcasting has_uuid_length node_a (
      datagram (some (49 ∷ [])) node_a
      ∷ datagram (some (50 ∷ [])) []
      ∷ datagram (some (51 ∷ [])) node_b
      ∷ [])
    ≡ some (record { uuid = node_b; ip = 51 ∷ [] })
unfolding is_any_one_broadcasting listen str_eq
finds_other = refl

call_all-new_broadcaster_example :
    (b : Broadcaster) × (call_all (starts ∷ stops ∷ starts ∷ starts ∷ []) (new_broadcaster node_a)
      ≡ ok b)
    × (b.senders ≡ 1)
call_all-new_broadcaster_example =
    call_all-new_broadcaster node_a (starts ∷ stops ∷ starts ∷ starts ∷ [])
