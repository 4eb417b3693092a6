-- ===== src/Multicast/Group/Sound.antt =====
-- What a node of server/multicast/multicast.go has sent and delivered, against its vector clock.
use distributed_chat_applica.Prelude.{
  ℕ, suc, ◌^◌, ◌≤◌, ◌<◌, ◌≡◌, ◌≢◌, sym, ◌∙◌, ◌⊎◌, inl, inr, List, [], ◌∷◌, some, Occurs, ◌==◌, true,
  at_head, at_tail, Bool-cases, if◌then◌else◌, arith, subst,
}
use distributed_chat_applica.Go.Text.{Bytes, str_eq, str_eq_iff, str_eq_refl}
use distributed_chat_applica.Go.Map.{Map, get, get_or, get-put}
use distributed_chat_applica.Multicast.Datagram.{Message}
use distributed_chat_applica.Multicast.Clock.{tick, next_stamp}
use distributed_chat_applica.Multicast.Clock.Causal.{Ready, get-tick}

-- The place of a message among those of its sender, from 1 on.
abbrev pub nth : Message → ℕ
nth m = get_or m.vector_clock m.uuid 0

-- The n-th message of `k` is in the log.
pub record Found (k : Bytes) (n : ℕ) (log : List Message) : Type 0 where
  pub msg : Message
  pub there : Occurs msg log
  pub from : msg.uuid ≡ k
  pub is_nth : nth msg ≡ n

-- The clock counts the message.
pub record Counted (clock : Map ℕ) (m : Message) : Type 0 where
  pub count : ℕ
  pub known : get clock m.uuid ≡ some count
  pub pos : 0 < nth m
  pub le : nth m ≤ count

-- `y` stands in the log, and the second list is what came before it.
pub data After (y : Message) : List Message → List Message → Type 0 where
  newest : {t : List Message} → After y t (y ∷ t)
  older : {t log : List Message} (z : Message) → After y t log → After y t (z ∷ log)

pub Found-tail :
    {k : Bytes} {n : ℕ} {log : List Message} (y : Message) → Found k n log → Found k n (y ∷ log)
Found-tail y f = record { msg = f.msg; there = at_tail y f.there; from = f.from; is_nth = f.is_nth }

pub After-Occurs : {y : Message} {t log : List Message} → After y t log → Occurs y log
After-Occurs newest = at_head
After-Occurs (older z a) = at_tail z (After-Occurs a)

pub Occurs-After :
    {y : Message} {log : List Message} → Occurs y log → (t : List Message) × After y t log
Occurs-After (at_head {xs}) = (xs, newest)
Occurs-After (at_tail z o) = let (t, a) = Occurs-After o in (t, older z a)

-- What came before a message is in the log too.
pub before-Occurs :
    {x y : Message} {t log : List Message} → After y t log → Occurs x t → Occurs x log
before-Occurs newest o = at_tail _ o
before-Occurs (older z a) o = at_tail z (before-Occurs a o)

pub After-trans :
    {y z : Message} {t u log : List Message} → After z u log → After y t u → After y t log
After-trans {z = z} newest b = older z b
After-trans (older w a) b = older w (After-trans a b)

module _ (ids : List Bytes) (self : Bytes) where
  -- What stands before a message: all that its clock counts, and of its sender only what comes
  -- earlier; and before an own message, nothing that its clock does not count.
  pub record Backed (y : Message) (before : List Message) : Type 0 where
    pub backs :
        (k : Bytes) (n : ℕ)
        → Occurs k ids
        → 0 < n
        → n ≤ get_or y.vector_clock k 0
        → (k ≢ y.uuid) ⊎ (n < nth y)
        → Found k n before
    pub earlier : (x : Message) → Occurs x before → x.uuid ≡ y.uuid → nth x < nth y
    pub own :
        y.uuid ≡ self
        → (x : Message) → Occurs x before
        → (0 < nth x) × (nth x ≤ get_or y.vector_clock x.uuid 0)

  abbrev pub AllBacked : List Message → Type 0
  AllBacked [] = Unit {0}
  AllBacked (y ∷ t) = Backed y t × AllBacked t

  pub AllBacked-After :
      {y : Message} {t log : List Message} → AllBacked log → After y t log → Backed y t
  AllBacked-After b newest = b.0
  AllBacked-After b (older z a) = AllBacked-After b.1 a

  -- The log and the clock agree.
  pub record IsSound (clock : Map ℕ) (log : List Message) : Type 0 where
    pub knows : (k : Bytes) → Occurs k ids → (n : ℕ) × (get clock k ≡ some n)
    pub covers :
        (k : Bytes) (n c : ℕ) → Occurs k ids → get clock k ≡ some c → 0 < n → n ≤ c → Found k n log
    pub counts : (x : Message) → Occurs x log → Counted clock x
    pub all_backed : AllBacked log

  -- A message is added to the log when the clock counts it.
  module _ (clock clock' : Map ℕ) (log : List Message) (y : Message) (count : ℕ)
      (known : get clock y.uuid ≡ some count) (is_next : nth y ≡ suc count)
      (now : (k : Bytes)
        → get clock' k ≡ (if str_eq y.uuid k then some (suc count) else get clock k))
      (sound : IsSound clock log) where
    Counted-grows : (x : Message) → Counted clock x → Counted clock' x
    Counted-grows x c = elim (Bool-cases (str_eq y.uuid x.uuid)) [
      | inl same ↦ record {
        count = suc count;
        known = now x.uuid ∙ rw same;
        pos = c.pos;
        le = ground (arith, str_eq_iff y.uuid x.uuid, c.known, c.le);
      }
      | inr other ↦ record {
        count = c.count;
        known = now x.uuid ∙ rw other (c.known);
        pos = c.pos;
        le = c.le;
      }
    ]

    counts_more : (x : Message) → Occurs x (y ∷ log) → Counted clock' x
    counts_more _ at_head = record {
      count = suc count;
      known = now y.uuid ∙ rw (str_eq_refl y.uuid);
      pos = omega (arith, is_next);
      le = omega (arith, is_next);
    }
    counts_more x (at_tail _ o) = Counted-grows x (sound.counts x o)

    knows_more : (k : Bytes) → Occurs k ids → (n : ℕ) × (get clock' k ≡ some n)
    knows_more k o = elim (Bool-cases (str_eq y.uuid k)) [
      | inl same ↦ (suc count, now k ∙ rw same)
      | inr other ↦ let (n, e) = sound.knows k o in (n, now k ∙ rw other e)
    ]

    covers_more :
        (k : Bytes) (n c : ℕ)
        → Occurs k ids
        → get clock' k ≡ some c
        → 0 < n
        → n ≤ c
        → Found k n (y ∷ log)
    covers_more k n c o e pos le = elim (Bool-cases (str_eq y.uuid k)) [
      | inr other ↦ Found-tail y (sound.covers k n c o (ground (arith, now k)) pos le)
      | inl same ↦
          let eq = (str_eq_iff y.uuid k).0 same in
          elim (Bool-cases (n == suc count)) [
            | inl last ↦ record {
              msg = y;
              there = at_head;
              from = eq;
              is_nth = ground (arith, is_next);
            }
            | inr before ↦ Found-tail y (
                sound.covers k n count o (subst (λ j. get clock j ≡ some count) eq known) pos
                  (ground (arith, now k)))
          ]
    ]

    grown-IsSound : Backed y log → IsSound clock' (y ∷ log)
    grown-IsSound b = record {
      knows = knows_more;
      covers = covers_more;
      counts = counts_more;
      all_backed = (b, sound.all_backed);
    }

  before_next :
      (c : ℕ) (k : Bytes) (n : ℕ) (y : Message)
      → nth y ≡ suc c
      → str_eq y.uuid k ≡ true
      → (k ≢ y.uuid) ⊎ (n < nth y)
      → n ≤ c
  before_next c k n y e same (inl other) = absurd (other (sym ((str_eq_iff y.uuid k).0 same)))
  before_next c k n y e same (inr less) = omega (arith, e)

  -- A delivery of another node's message.
  pub delivery-IsSound :
      (clock : Map ℕ) (log : List Message) (y : Message)
      → IsSound clock log
      → Ready clock y
      → y.uuid ≢ self
      → IsSound (tick clock y.uuid) (y ∷ log)
  delivery-IsSound clock log y s r other =
      grown-IsSound clock (tick clock y.uuid) log y r.count r.known (ground (arith, r.is_next))
        (get-tick clock y r) s
        (record {
          own = λ p. absurd (other p);
          earlier =
              λ x o same. let w = s.counts x o in ground (arith, w.known, w.le, r.known, r.is_next);
          backs = λ k n o pos le side. elim (Bool-cases (str_eq y.uuid k)) [
            | inl same ↦
                s.covers k n r.count o
                  (subst (λ j. get clock j ≡ some r.count) ((str_eq_iff y.uuid k).0 same) r.known)
                  pos (before_next r.count k n y (ground (arith, r.is_next)) same side)
            | inr ne ↦
                let (c, e) = s.knows k o in
                let seen = r.others k c (λ p. absurd (ground (arith, str_eq_iff y.uuid k))) e in
                s.covers k n c o e pos (ground (arith, seen.stamped, seen.seen))
          ];
        })

  -- A message of the node itself.
  module _ (clock : Map ℕ) (log : List Message) (y : Message) (c : ℕ) (mine : y.uuid ≡ self)
      (stamped : y.vector_clock ≡ tick clock y.uuid) (known : get clock y.uuid ≡ some c)
      (fits : suc c < 2 ^ 32) (s : IsSound clock log) where
    sent_now :
        (k : Bytes) → get y.vector_clock k ≡ (if str_eq y.uuid k then some (suc c) else get clock k)
    unfolding tick
    sent_now k =
        ground (arith, stamped, known, get-put clock y.uuid k (next_stamp (get_or clock y.uuid 0)))

    sent_next : nth y ≡ suc c
    sent_next = ground (arith, sent_now y.uuid, str_eq_refl y.uuid)

    sent_backs :
        (k : Bytes) (n : ℕ)
        → Occurs k ids
        → 0 < n
        → n ≤ get_or y.vector_clock k 0
        → (k ≢ y.uuid) ⊎ (n < nth y)
        → Found k n log
    sent_backs k n o pos le side = elim (Bool-cases (str_eq y.uuid k)) [
      | inl same ↦
          s.covers k n c o (subst (λ j. get clock j ≡ some c) ((str_eq_iff y.uuid k).0 same) known)
            pos (before_next c k n y sent_next same side)
      | inr ne ↦ let (m, e) = s.knows k o in s.covers k n m o e pos (ground (arith, sent_now k))
    ]

    sent_own : (x : Message) → Occurs x log → (0 < nth x) × (nth x ≤ get_or y.vector_clock x.uuid 0)
    sent_own x o =
        let w = s.counts x o in
        (w.pos, ground (arith, w.known, w.le, sent_now x.uuid, known, str_eq_iff y.uuid x.uuid))

    sent_earlier : (x : Message) → Occurs x log → x.uuid ≡ y.uuid → nth x < nth y
    sent_earlier x o same = let w = s.counts x o in ground (arith, w.known, w.le, known, sent_next)

    pub sending-IsSound : IsSound y.vector_clock (y ∷ log)
    sending-IsSound =
        grown-IsSound clock y.vector_clock log y c known sent_next sent_now s
          (record { backs = sent_backs; earlier = sent_earlier; own = λ p. sent_own })
