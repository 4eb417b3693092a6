-- ===== src/Multicast/Group/Order.antt =====
-- The order of messages in a session of server/multicast/multicast.go, over all its nodes.
use distributed_chat_applica.Prelude.{
  ◌<◌, ◌≡◌, ◌≢◌, refl, sym, ◌∙◌, ◌⊎◌, inl, inr, subst, List, All-Occurs, Occurs, Bool-cases, arith,
}
use distributed_chat_applica.Go.Text.{Bytes, str_eq, str_eq_iff}
use distributed_chat_applica.Go.Map.{get}
use distributed_chat_applica.Multicast.Datagram.{Message}
use distributed_chat_applica.Multicast.Group.{World, IsNew, Run}
use distributed_chat_applica.Multicast.Group.Sound.{
  nth, Found, After, AllBacked-After, After-Occurs, Occurs-After, before-Occurs, After-trans,
}
use distributed_chat_applica.Multicast.Group.Sites.{IsSent}
use distributed_chat_applica.Multicast.Group.Consistent.{IsConsistent}
use distributed_chat_applica.Multicast.Group.Kept.{Run-IsConsistent}

module _ (ids : List Bytes) (address : Bytes → Bytes) where
  -- `x` happened before `y`: the sender of `y` sent or delivered `x` before it sent `y`, or there is
  -- a chain of such steps. The logs say what was before.
  pub data HappenedBefore (w : World) (x : Message) : Message → Type 0 where
    directly :
        {y : Message} {before : List Message}
        → Occurs y.uuid ids
        → After y before (w.site y.uuid).log
        → Occurs x before
        → HappenedBefore w x y
    through :
        {y z : Message} {before : List Message}
        → HappenedBefore w x y
        → Occurs z.uuid ids
        → After z before (w.site z.uuid).log
        → Occurs y before
        → HappenedBefore w x z

  module _ (w : World) (h : IsConsistent ids w) where
    pub logged_sent :
        (i : Bytes) (x : Message) → Occurs i ids → Occurs x (w.site i).log → Occurs x w.sent
    logged_sent i x o l = All-Occurs (IsSent ids w.sent i) (h.sites i o).log l

    -- A message is known by its sender and its place.
    pub by_place :
        (i : Bytes) (x : Message) (t : List Message)
        → Occurs i ids
        → Occurs x w.sent
        → ((z : Message) → Occurs z t → Occurs z (w.site i).log)
        → Found x.uuid (nth x) t
        → Occurs x t
    by_place i x t o s inside f =
        subst (λ m. Occurs m t)
          (h.unique f.msg x (logged_sent i f.msg o (inside f.msg f.there)) s f.from f.is_nth)
          f.there

    direct_order :
        (i : Bytes) (x y : Message) (t u : List Message)
        → Occurs i ids
        → Occurs y.uuid ids
        → After y t (w.site y.uuid).log
        → Occurs x t
        → After y u (w.site i).log
        → Occurs x u
    direct_order i x y t u o o' a b a' =
        let there = AllBacked-After ids y.uuid (h.sites y.uuid o').sound.all_backed a in
        let here = AllBacked-After ids i (h.sites i o).sound.all_backed a' in
        let s = logged_sent y.uuid x o' (before-Occurs a b) in
        let (pos, le) = there.own refl x b in
        let side : (x.uuid ≢ y.uuid) ⊎ (nth x < nth y) = elim (Bool-cases (str_eq x.uuid y.uuid)) [
          | inl same ↦ inr (there.earlier x b ((str_eq_iff x.uuid y.uuid).0 same))
          | inr other ↦ inl (λ p. absurd (ground (arith, str_eq_iff x.uuid y.uuid)))
        ] in
        by_place i x u o s (λ z. before-Occurs a')
          (here.backs x.uuid (nth x) (h.senders x s).member pos le side)

    chain_order :
        (i : Bytes) {x y : Message} (u : List Message)
        → Occurs i ids
        → HappenedBefore w x y
        → After y u (w.site i).log
        → Occurs x u
    chain_order i {x} {y} u o (directly {before = t} o' a b) a' = direct_order i x y t u o o' a b a'
    chain_order i {x} {y = z} u o (through {y = y} {before = t} hb o' a b) a' =
        let at_i = direct_order i y z t u o o' a b a' in
        let (u', a'') = Occurs-After at_i in
        before-Occurs a'' (chain_order i u' o hb (After-trans a' a''))

  -- Causal order over a whole session, whatever its members do, and however the datagrams are lost,
  -- repeated and reordered: if `x` happened before `y`, every member that has sent or delivered `y`
  -- has sent or delivered `x` before. The members begin with the same ids, and send what CanSend
  -- allows.
  pub causal_order :
      (w v : World) (i : Bytes) (x y : Message) (before : List Message)
      → IsNew ids address w
      → Run ids address w v
      → Occurs i ids
      → HappenedBefore v x y
      → After y before (v.site i).log
      → Occurs x before
  causal_order w v i x y before new run o hb a =
      chain_order v (Run-IsConsistent ids address new run) i before o hb a

  -- What a member of such a session delivers was sent by a member, and is in its log once: no message
  -- is delivered twice, and none by its own sender.
  pub logged_once :
      (w v : World) (i : Bytes) (y : Message) (before : List Message)
      → IsNew ids address w
      → Run ids address w v
      → Occurs i ids
      → After y before (v.site i).log
      → Occurs y v.sent × Occurs y.uuid ids × (Occurs y before → ⊥)
  logged_once w v i y before new run o a =
      let h = Run-IsConsistent ids address new run in
      let s = logged_sent v h i y o (After-Occurs a) in
      let backed = AllBacked-After ids i (h.sites i o).sound.all_backed a in
      (s, (h.senders y s).member, λ again. absurd (omega (arith, backed.earlier y again refl)))

  -- Two members of such a session whose vector clocks agree on the members have sent or delivered the
  -- same messages.
  pub same_clock_same_messages :
      (w v : World) (i j : Bytes) (x : Message)
      → IsNew ids address w
      → Run ids address w v
      → Occurs i ids
      → Occurs j ids
      → ((k : Bytes)
          → Occurs k ids
          → get (v.site i).node.vector_clock k ≡ get (v.site j).node.vector_clock k)
      → Occurs x (v.site i).log
      → Occurs x (v.site j).log
  same_clock_same_messages w v i j x new run o o' agree l =
      let h = Run-IsConsistent ids address new run in
      let s = logged_sent v h i x o l in
      let member = (h.senders x s).member in
      let c = (h.sites i o).sound.counts x l in
      by_place v h j x (v.site j).log o' s (λ z p. p)
        ((h.sites j o').sound.covers x.uuid (nth x) c.count member
          (sym (agree x.uuid member) ∙ c.known) c.pos c.le)
