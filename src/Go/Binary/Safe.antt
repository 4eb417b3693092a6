-- ===== src/Go/Binary/Safe.antt =====
-- Reads that cannot panic: what a sequence of reads keeps, one rule for each way to build it.
use distributed_chat_applica.Prelude.{
  ℕ, zero, suc, ◌+◌, ◌*◌, ◌^◌, ◌≤◌, ◌<◌, ◌≡◌, refl, ap, [], ◌∷◌, ◌++◌, arith, length, take, drop,
  All, replicate, Bool, true, false, if◌then◌else◌, ltb, le→not_ltb, Bool-cases, inl, inr,
}
use distributed_chat_applica.Go.Result.{Result, ok, err, panic}
use distributed_chat_applica.Go.Text.{Bytes}
use distributed_chat_applica.Go.Binary.{
  be_value, Reader, ◌>>=◌, pure, read_be, read_into, read_new, max_alloc,
}
use native.Mathlib.Nat.{pow-suc}

abbrev pub IsByte : ℕ → Type 0
IsByte b = b < 256

-- A success satisfies `P` and leaves bytes; an error is allowed, a panic is not.
abbrev pub Good : {A : Type 0} → (A → Type 0) → Result (A × Bytes) → Type 0
Good P (ok (a, s)) = P a × All IsByte s
Good P (err e) = Unit {0}
Good P panic = ⊥

pub record Safe {A : Type 0} (P : A → Type 0) (m : Reader A) : Type 0 where
  pub at : (s : Bytes) → All IsByte s → Good P (m s)

All-take : (n : ℕ) (s : Bytes) → All IsByte s → All IsByte (take n s)
All-take zero s h = tt
All-take (suc n) [] h = tt
All-take (suc n) (b ∷ s) h = (h.0, All-take n s h.1)

All-drop : (n : ℕ) (s : Bytes) → All IsByte s → All IsByte (drop n s)
All-drop zero s h = h
All-drop (suc n) [] h = tt
All-drop (suc n) (b ∷ s) h = All-drop n s h.1

wider : (acc b p v : ℕ) → b < 256 → v < (acc * 256 + b + 1) * p → v < (acc + 1) * (p * 256)
wider acc b p v h l = grind arith

be_value-lt : (acc : ℕ) (s : Bytes) → All IsByte s → be_value acc s < (acc + 1) * 256 ^ length s
unfolding be_value
be_value-lt acc [] h = omega arith
be_value-lt acc (b ∷ s) h =
    let bound = wider acc b (256 ^ length s) _ h.0 (be_value-lt (acc * 256 + b) s h.1) in
    rw pow-suc bound

length-take_full : (n : ℕ) (s : Bytes) → n ≤ length s → length (take n s) ≡ n
length-take_full zero s h = refl
length-take_full (suc n) [] h = absurd (omega arith)
length-take_full (suc n) (b ∷ s) h = omega (arith, length-take_full n s (omega arith))

pub Safe-read_be : (k : ℕ) → Safe (λ n. n < 256 ^ k) (read_be k)
unfolding read_be
Safe-read_be k = record { at = go }
  where
    go : (s : Bytes) → All IsByte s → Good (λ n. n < 256 ^ k) (read_be k s)
    go [] h = tt
    go (b ∷ s) h = elim (Bool-cases (ltb (length s + 1) k)) [
      | inl short ↦ rw short tt
      | inr full ↦ rw full (
        let size : length (take k (b ∷ s)) ≡ k = length-take_full k (b ∷ s) (ground arith) in
            (let bound = be_value-lt 0 (take k (b ∷ s)) (All-take k (b ∷ s) h) in
              omega (arith, ap (λ (n : ℕ). 256 ^ n) size, bound)),
        All-drop k (b ∷ s) h,
      )
    ]

All-append : (s t : Bytes) → All IsByte s → All IsByte t → All IsByte (s ++ t)
All-append [] t hs ht = ht
All-append (b ∷ s) t hs ht = (hs.0, All-append s t hs.1 ht)

All-zeros : (n : ℕ) → All IsByte (replicate n 0)
All-zeros zero = tt
All-zeros (suc n) = (omega arith, All-zeros n)

pub Safe-read_into : (buf : Bytes) → All IsByte buf → Safe (All IsByte) (read_into buf)
unfolding read_into
Safe-read_into buf hb = record { at = go }
  where
    go : (s : Bytes) → All IsByte s → Good (All IsByte) (read_into buf s)
    go [] h = tt
    go (b ∷ s) h = (
      All-append (take (length buf) (b ∷ s)) (drop (suc (length s)) buf)
          (All-take (length buf) (b ∷ s) h) (All-drop (suc (length s)) buf hb),
      All-drop (length buf) (b ∷ s) h,
    )

pub Safe-read_new : (n : ℕ) → n ≤ max_alloc → Safe (All IsByte) (read_new n)
unfolding read_new
Safe-read_new n small = record {
  at = λ s h.
      rw (le→not_ltb max_alloc n small) ((Safe-read_into (replicate n 0) (All-zeros n)).at s h);
}

pub Safe-pure : {A : Type 0} {P : A → Type 0} (a : A) → P a → Safe P (pure a)
Safe-pure a p = record { at = λ s h. (p, h) }

module _ {A B : Type 0} {P : A → Type 0} {Q : B → Type 0} where
  Good-bind :
      (m : Reader A) (f : A → Reader B) (s : Bytes) (r : Result (A × Bytes))
      → m s ≡ r
      → Good P r
      → ((a : A) → P a → Safe Q (f a))
      → Good Q ((m >>= f) s)
  Good-bind m f s (ok (a, rest)) e g k = rw (e, ◌>>=◌) ((k a g.0).at rest g.1)
  Good-bind m f s (err x) e g k = rw (e, ◌>>=◌) tt
  Good-bind m f s panic e g k = elim g [ ]

  pub Safe-bind :
      (m : Reader A) (f : A → Reader B)
      → Safe P m
      → ((a : A) → P a → Safe Q (f a))
      → Safe Q (m >>= f)
  Safe-bind m f sm k = record { at = λ s h. Good-bind m f s (m s) refl (sm.at s h) k }

pub Safe-if :
    {B : Type 0} {Q : B → Type 0} (b : Bool) (m n : Reader B)
    → Safe Q m
    → Safe Q n
    → Safe Q (if b then m else n)
Safe-if true m n sm sn = sm
Safe-if false m n sm sn = sn
