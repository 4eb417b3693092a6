-- ===== src/Go/Map.antt =====
-- Go's `map[string]V`: an association list read at its first entry for a key.
use distributed_chat_applica.Prelude.{
  ◌≡◌, refl, List, [], ◌∷◌, ◌++◌, Option, none, some, if◌then◌else◌, arith,
}
use distributed_chat_applica.Go.Text.{Bytes, str_eq, str_eq_iff, str_eq_refl}

abbrev pub Map {ℓ} : Type ℓ → Type ℓ
Map V = List (Bytes × V)

module _ {ℓ} {V : Type ℓ} where
  -- v, ok := m[k]
  unfoldable pub get : Map V → Bytes → Option V
  get [] k = none
  get ((j, v) ∷ m) k = if str_eq j k then some v else get m k

  -- m[k] = v
  unfoldable pub put : Map V → Bytes → V → Map V
  put [] k v = (k, v) ∷ []
  put ((j, w) ∷ m) k v = if str_eq j k then (k, v) ∷ m else (j, w) ∷ put m k v

  -- delete(m, k)
  unfoldable pub delete : Map V → Bytes → Map V
  delete [] k = []
  delete ((j, w) ∷ m) k = let rest = delete m k in if str_eq j k then rest else (j, w) ∷ rest

  -- m[k] with a default, the zero value of V
  abbrev pub get_or : Map V → Bytes → V → V
  get_or m k d = elim (get m k) [ none ↦ d | some v ↦ v ]

  -- No key stands twice.
  abbrev pub Distinct : Map V → Type ℓ
  Distinct [] = Unit {ℓ}
  Distinct ((k, v) ∷ m) = (get m k ≡ none) × Distinct m

  pub get-put :
      (m : Map V) (k j : Bytes) (v : V)
      → get (put m k v) j ≡ (if str_eq k j then some v else get m j)
  unfolding get put
  get-put [] k j v = refl
  get-put ((i, w) ∷ m) k j v =
      ground (arith, str_eq_iff k j, str_eq_iff i k, str_eq_iff i j, get-put m k j v)

  pub get-delete :
      (m : Map V) (k j : Bytes) → get (delete m k) j ≡ (if str_eq k j then none else get m j)
  unfolding get delete
  get-delete [] k j = ground arith
  get-delete ((i, w) ∷ m) k j =
      ground (arith, str_eq_iff k j, str_eq_iff i k, str_eq_iff i j, get-delete m k j)

  pub put-Distinct : (m : Map V) (k : Bytes) (v : V) → Distinct m → Distinct (put m k v)
  unfolding get put
  put-Distinct [] k v d = (refl, tt)
  put-Distinct ((i, w) ∷ m) k v d =
      ground
        (arith, d.0, d.1, str_eq_iff i k, str_eq_iff k i, get-put m k i v, put-Distinct m k v d.1)

  -- No key of the second map is in the first.
  abbrev pub Apart : Map V → Map V → Type ℓ
  Apart acc [] = Unit {ℓ}
  Apart acc ((k, v) ∷ m) = (get acc k ≡ none) × Apart acc m

  pub put_new :
      (acc : Map V) (k : Bytes) (v : V) → get acc k ≡ none → put acc k v ≡ acc ++ ((k, v) ∷ [])
  unfolding get put
  put_new [] k v h = refl
  put_new ((j, w) ∷ acc) k v h = ground (arith, put_new acc k v)

  pub put-Apart :
      (acc m : Map V) (k : Bytes) (v : V) → get m k ≡ none → Apart acc m → Apart (put acc k v) m
  unfolding get
  put-Apart acc [] k v h a = tt
  put-Apart acc ((j, w) ∷ m) k v h a = (
    ground (arith, get-put acc k j v, a.0, str_eq_iff k j, str_eq_iff j k, str_eq_refl k),
    put-Apart acc m k v (ground arith) a.1,
  )

  pub Apart-nil : (m : Map V) → Apart [] m
  unfolding get
  Apart-nil [] = tt
  Apart-nil ((j, w) ∷ m) = (refl, Apart-nil m)
