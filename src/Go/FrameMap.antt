-- ===== src/Go/FrameMap.antt =====
-- Go's `map[uint32]V`: an association list read at its first entry for a frame.
use distributed_chat_applica.Prelude.{
  ℕ, ◌≡◌, refl, List, [], ◌∷◌, Option, none, some, ◌==◌, if◌then◌else◌, arith,
}

abbrev pub FrameMap {ℓ} : Type ℓ → Type ℓ
FrameMap V = List (ℕ × V)

module _ {ℓ} {V : Type ℓ} where
  -- v, ok := m[f]
  unfoldable pub find : FrameMap V → ℕ → Option V
  find [] f = none
  find ((g, v) ∷ m) f = if g == f then some v else find m f

  -- m[f] = v
  unfoldable pub store : FrameMap V → ℕ → V → FrameMap V
  store [] f v = (f, v) ∷ []
  store ((g, w) ∷ m) f v = if g == f then (f, v) ∷ m else (g, w) ∷ store m f v

  -- delete(m, f)
  unfoldable pub erase : FrameMap V → ℕ → FrameMap V
  erase [] f = []
  erase ((g, w) ∷ m) f = let rest = erase m f in if g == f then rest else (g, w) ∷ rest

  pub find-store :
      (m : FrameMap V) (f g : ℕ) (v : V)
      → find (store m f v) g ≡ (if f == g then some v else find m g)
  unfolding find store
  find-store [] f g v = refl
  find-store ((i, w) ∷ m) f g v = ground (arith, find-store m f g v)

  pub find-erase :
      (m : FrameMap V) (f g : ℕ) → find (erase m f) g ≡ (if f == g then none else find m g)
  unfolding find erase
  find-erase [] f g = ground arith
  find-erase ((i, w) ∷ m) f g = ground (arith, find-erase m f g)
