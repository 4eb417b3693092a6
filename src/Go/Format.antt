-- ===== src/Go/Format.antt =====
-- fmt.Sprintf("%s%d", s, n): the string, then the decimal digits of a uint64.
use distributed_chat_applica.Prelude.{
  ℕ, zero, suc, ◌+◌, ◌-◌, ◌*◌, ◌/◌, ◌%◌, ◌^◌, ◌<◌, ◌≡◌, refl, ap, sym, ◌∙◌, [], ◌∷◌, ◌++◌, arith,
  ◌==◌, if◌then◌else◌, length, take, drop, take-append, drop-append, Bool-cases, inl, inr,
}
use distributed_chat_applica.Go.Text.{Bytes}

-- The digits of a number below 10 ^ k.
unfoldable pub digits : ℕ → ℕ → Bytes
digits zero n = []
digits (suc k) n =
    let front = digits k (n / 10) in
    if n / 10 == 0 then (48 + n % 10) ∷ [] else front ++ ((48 + n % 10) ∷ [])

-- A uint64 has at most 20 digits.
unfoldable pub decimal : ℕ → Bytes
unfolding digits
decimal n = digits 20 n

unfoldable pub sprintf : Bytes → ℕ → Bytes
unfolding decimal
sprintf s n = s ++ decimal n

-- The number that digits stand for, after `acc`.
dec_value : ℕ → Bytes → ℕ
dec_value acc [] = acc
dec_value acc (d ∷ ds) = dec_value (acc * 10 + (d - 48)) ds

dec_value-append :
    (acc : ℕ) (ds : Bytes) (d : ℕ)
    → dec_value acc (ds ++ (d ∷ [])) ≡ dec_value acc ds * 10 + (d - 48)
unfolding dec_value
dec_value-append acc [] d = refl
dec_value-append acc (x ∷ ds) d = dec_value-append (acc * 10 + (x - 48)) ds d

dec_value-digits : (k n : ℕ) → n < 10 ^ k → dec_value 0 (digits k n) ≡ n
unfolding digits
dec_value-digits zero n h = unfold dec_value in omega arith
dec_value-digits (suc k) n h = elim (Bool-cases (n / 10 == 0)) [
  | inl e ↦ rw e (unfold dec_value in ground arith)
  | inr e ↦ rw (e, dec_value-append) (omega (arith, dec_value-digits k (n / 10) (omega arith)))
]

-- Indexes of equal ids tell the numbers apart, and indexes of ids of one length tell the ids apart.
pub sprintf-injective :
    (s t : Bytes) (m n : ℕ)
    → length s ≡ length t
    → m < 2 ^ 64
    → n < 2 ^ 64
    → sprintf s m ≡ sprintf t n
    → (s ≡ t) × (m ≡ n)
unfolding sprintf
sprintf-injective s t m n l hm hn e = (
  sym (take-append (length s) s (decimal m) refl)
      ∙ ap (take (length s)) e
      ∙ take-append (length s) t (decimal n) (sym l),
  unfold decimal in
      (sym (dec_value-digits 20 m (omega arith))
        ∙ ap (dec_value 0) same_digits
        ∙ dec_value-digits 20 n (omega arith)),
)
  where
    same_digits : decimal m ≡ decimal n
    same_digits =
        sym (drop-append (length s) s (decimal m) refl)
        ∙ ap (drop (length s)) e
        ∙ drop-append (length s) t (decimal n) (sym l)
