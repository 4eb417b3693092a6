-- ===== src/Go/Text.antt =====
-- Go's `string` and `[]byte`: lists of byte values. `==` and `>` on strings, strings.HasPrefix.
use distributed_chat_applica.Prelude.{
  ℕ, ◌≡◌, refl, ◌↔◌, List, [], ◌∷◌, Bool, true, false, not, ◌&&◌, ◌||◌, ltb, ◌==◌, arith, ◌≢◌,
}

abbrev pub Bytes : Type 0
Bytes = List ℕ

unfoldable pub str_eq : Bytes → Bytes → Bool
str_eq [] [] = true
str_eq [] (y ∷ ys) = false
str_eq (x ∷ xs) [] = false
str_eq (x ∷ xs) (y ∷ ys) = x == y && str_eq xs ys

pub str_eq_iff : (s t : Bytes) → (str_eq s t ≡ true) ↔ (s ≡ t)
unfolding str_eq
str_eq_iff [] [] = ground arith
str_eq_iff [] (y ∷ ys) = ground arith
str_eq_iff (x ∷ xs) [] = ground arith
str_eq_iff (x ∷ xs) (y ∷ ys) = ground (arith, str_eq_iff xs ys)

pub str_eq_refl : (s : Bytes) → str_eq s s ≡ true
str_eq_refl s = (str_eq_iff s s).1 refl

pub str_eq_ne : (s t : Bytes) → s ≢ t → str_eq s t ≡ false
str_eq_ne s t h = ground (arith, str_eq_iff s t)

-- `a < b` on strings: lexicographic on the bytes.
unfoldable pub str_lt : Bytes → Bytes → Bool
str_lt s [] = false
str_lt [] (y ∷ ys) = true
str_lt (x ∷ xs) (y ∷ ys) = ltb x y || (x == y && str_lt xs ys)

unfoldable pub has_prefix : Bytes → Bytes → Bool
has_prefix s [] = true
has_prefix [] (y ∷ ys) = false
has_prefix (x ∷ xs) (y ∷ ys) = x == y && has_prefix xs ys

-- Of two different strings exactly one is below the other.
pub str_lt_total : (s t : Bytes) → s ≢ t → str_lt s t ≡ not (str_lt t s)
unfolding str_lt
str_lt_total [] [] h = absurd (h refl)
str_lt_total [] (y ∷ ys) h = refl
str_lt_total (x ∷ xs) [] h = refl
str_lt_total (x ∷ xs) (y ∷ ys) h = ground (arith, str_lt_total xs ys)

pub str_lt_irrefl : (s : Bytes) → str_lt s s ≡ false
unfolding str_lt
str_lt_irrefl [] = refl
str_lt_irrefl (x ∷ xs) = ground (arith, str_lt_irrefl xs)

pub str_lt_trans : (s t u : Bytes) → str_lt s t ≡ true → str_lt t u ≡ true → str_lt s u ≡ true
unfolding str_lt
str_lt_trans s t [] h k = absurd (ground arith)
str_lt_trans s [] (z ∷ u) h k = absurd (ground arith)
str_lt_trans [] (y ∷ t) (z ∷ u) h k = refl
str_lt_trans (x ∷ s) (y ∷ t) (z ∷ u) h k = ground (arith, str_lt_trans s t u)

-- The test tells two strings apart.
pub str_ne : (s t : Bytes) → str_eq s t ≡ false → s ≢ t
str_ne s t h e = absurd (ground (arith, (str_eq_iff s t).1 e))
