-- ===== src/Prelude/Order.antt =====
-- The order of two elements of a list.
use mathlib.Core.List.{List, [], ◌∷◌, ◌++◌, map}
use distributed_chat_applica.Prelude.Lists.{Occurs, Occurs-nil, at_head, at_tail}
use mathlib.Core.Path.{◌≡◌, refl}
use mathlib.Core.Logic.{◌⊎◌, inl, inr}

module _ {ℓ} {A : Type ℓ} where
  -- `x` stands before `y` in the list.
  pub data Ahead (x y : A) : List A → Type ℓ where
    first : {xs : List A} → Occurs y xs → Ahead x y (x ∷ xs)
    further : {xs : List A} (z : A) → Ahead x y xs → Ahead x y (z ∷ xs)

  pub Occurs-append_left : {x : A} {xs : List A} (ys : List A) → Occurs x xs → Occurs x (xs ++ ys)
  Occurs-append_left ys at_head = at_head
  Occurs-append_left ys (at_tail z o) = at_tail z (Occurs-append_left ys o)

  pub Occurs-append_right : {x : A} {ys : List A} (xs : List A) → Occurs x ys → Occurs x (xs ++ ys)
  Occurs-append_right [] o = o
  Occurs-append_right (z ∷ xs) o = at_tail z (Occurs-append_right xs o)

  pub Ahead-append_left :
      {x y : A} {xs : List A} (ys : List A) → Ahead x y xs → Ahead x y (xs ++ ys)
  Ahead-append_left ys (first o) = first (Occurs-append_left ys o)
  Ahead-append_left ys (further z a) = further z (Ahead-append_left ys a)

  pub Ahead-append_right :
      {x y : A} {ys : List A} (xs : List A) → Ahead x y ys → Ahead x y (xs ++ ys)
  Ahead-append_right [] a = a
  Ahead-append_right (z ∷ xs) a = further z (Ahead-append_right xs a)

  pub Ahead-append :
      {x y : A} {xs : List A} (ys : List A) → Occurs x xs → Occurs y ys → Ahead x y (xs ++ ys)
  Ahead-append {xs = x ∷ xs} ys at_head o = first (Occurs-append_right xs o)
  Ahead-append ys (at_tail z o') o = further z (Ahead-append ys o' o)

  pub Occurs-singleton : {x y : A} → Occurs x (y ∷ []) → y ≡ x
  Occurs-singleton at_head = refl
  Occurs-singleton (at_tail y o) = Occurs-nil refl o

  pub Occurs-split : {x : A} (xs ys : List A) → Occurs x (xs ++ ys) → Occurs x xs ⊎ Occurs x ys
  Occurs-split [] ys o = inr o
  Occurs-split (z ∷ xs) ys at_head = inl at_head
  Occurs-split (z ∷ xs) ys (at_tail _ o) = elim (Occurs-split xs ys o) [
    | inl l ↦ inl (at_tail z l)
    | inr r ↦ inr r
  ]

  -- The third list has the elements of the first two, each in their order.
  pub data Merge : List A → List A → List A → Type ℓ where
    empty : Merge [] [] []
    left : {xs ys zs : List A} (x : A) → Merge xs ys zs → Merge (x ∷ xs) ys (x ∷ zs)
    right : {xs ys zs : List A} (y : A) → Merge xs ys zs → Merge xs (y ∷ ys) (y ∷ zs)

  pub Occurs-Merge : {x : A} {xs ys zs : List A} → Merge xs ys zs → Occurs x xs → Occurs x zs
  Occurs-Merge empty o = o
  Occurs-Merge (left x m) at_head = at_head
  Occurs-Merge (left x m) (at_tail _ o) = at_tail x (Occurs-Merge m o)
  Occurs-Merge (right y m) o = at_tail y (Occurs-Merge m o)

  pub Ahead-Merge : {x y : A} {xs ys zs : List A} → Merge xs ys zs → Ahead x y xs → Ahead x y zs
  Ahead-Merge empty a = a
  Ahead-Merge (left x m) (first o) = first (Occurs-Merge m o)
  Ahead-Merge (left x m) (further _ a) = further x (Ahead-Merge m a)
  Ahead-Merge (right y m) a = further y (Ahead-Merge m a)

  pub Merge-Occurs :
      {x : A} {xs ys zs : List A} → Merge xs ys zs → Occurs x zs → Occurs x xs ⊎ Occurs x ys
  Merge-Occurs empty o = inl o
  Merge-Occurs (left x m) at_head = inl at_head
  Merge-Occurs (left x m) (at_tail _ o) = elim (Merge-Occurs m o) [
    | inl l ↦ inl (at_tail x l)
    | inr r ↦ inr r
  ]
  Merge-Occurs (right y m) at_head = inr at_head
  Merge-Occurs (right y m) (at_tail _ o) = elim (Merge-Occurs m o) [
    | inl l ↦ inl l
    | inr r ↦ inr (at_tail y r)
  ]

module _ {ℓ κ} {A : Type ℓ} {B : Type κ} (f : A → B) where
  pub Occurs-map : {x : A} {xs : List A} → Occurs x xs → Occurs (f x) (map f xs)
  Occurs-map at_head = at_head
  Occurs-map (at_tail z o) = at_tail (f z) (Occurs-map o)

  pub Ahead-map : {x y : A} {xs : List A} → Ahead x y xs → Ahead (f x) (f y) (map f xs)
  Ahead-map (first o) = first (Occurs-map o)
  Ahead-map (further z a) = further (f z) (Ahead-map a)

  pub Occurs-unmap : (xs : List A) {y : B} → Occurs y (map f xs) → (x : A) × Occurs x xs × (f x ≡ y)
  Occurs-unmap [] o = elim o [ ]
  Occurs-unmap (x ∷ xs) at_head = (x, at_head, refl)
  Occurs-unmap (x ∷ xs) (at_tail _ o) =
      let (z, there, e) = Occurs-unmap xs o in (z, at_tail x there, e)
