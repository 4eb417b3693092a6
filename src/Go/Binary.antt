-- ===== src/Go/Binary.antt =====
-- encoding/binary in big-endian order over a bytes.Buffer (a list that grows at its end) and a
-- bytes.Reader (the bytes that are still unread).
pub mod Laws
pub mod Safe
use distributed_chat_applica.Prelude.{
  ℕ, zero, suc, ◌+◌, ◌-◌, ◌*◌, ◌/◌, ◌%◌, ◌^◌, ◌≤◌, ◌<◌, ◌≡◌, refl, sym, ap, ◌∙◌, ◌≢◌, List, [], ◌∷◌,
  ◌++◌, append_assoc, append-nil, arith, length, take, drop, replicate, length-append, take-append,
  drop-append, drop_all, ltb, if◌then◌else◌, lt→ltb, le→not_ltb,
}
use distributed_chat_applica.Go.Result.{Result, ok, err, panic, eof, unexpected_eof}
use distributed_chat_applica.Go.Text.{Bytes}
use native.Mathlib.Numerals.{towards_suc}

-- binary.Write of a k-byte unsigned integer; what does not fit is cut off.
unfoldable pub put_be : ℕ → ℕ → Bytes
put_be zero n = []
put_be (suc k) n = put_be k (n / 256) ++ (n % 256 ∷ [])

-- The number that big-endian bytes stand for, after `acc`.
unfoldable pub be_value : ℕ → Bytes → ℕ
be_value acc [] = acc
be_value acc (b ∷ bs) = be_value (acc * 256 + b) bs

pub length-put_be : (k n : ℕ) → length (put_be k n) ≡ k
unfolding put_be
length-put_be zero n = refl
length-put_be (suc k) n =
    omega (arith, length-append (put_be k (n / 256)) (n % 256 ∷ []), length-put_be k (n / 256))

be_value-append :
    (acc : ℕ) (xs : Bytes) (b : ℕ) → be_value acc (xs ++ (b ∷ [])) ≡ be_value acc xs * 256 + b
unfolding be_value
be_value-append acc [] b = refl
be_value-append acc (x ∷ xs) b = be_value-append (acc * 256 + x) xs b

pub be_value-put_be : (k n : ℕ) → n < 256 ^ k → be_value 0 (put_be k n) ≡ n
unfolding put_be
be_value-put_be zero n h = unfold be_value in omega arith
be_value-put_be (suc k) n h =
    rw be_value-append (omega (arith, be_value-put_be k (n / 256) (omega arith)))

-- A sequence of reads: a reader that goes on after a success and stops at an error or a panic.
abbrev pub Reader {ℓ} : Type ℓ → Type ℓ
Reader A = Bytes → Result (A × Bytes)

infixl 5 ◌>>=◌
abbrev pub ◌>>=◌ {ℓ κ} : {A : Type ℓ} {B : Type κ} → Reader A → (A → Reader B) → Reader B
◌>>=◌ m f s = elim (m s) [ ok (a, s') ↦ f a s' | err e ↦ err e | panic ↦ panic ]

abbrev pub pure {ℓ} : {A : Type ℓ} → A → Reader A
pure a s = ok (a, s)

-- binary.Read of a k-byte unsigned integer: io.ReadFull, then the bytes' value.
unfoldable pub read_be : ℕ → Reader ℕ
read_be k [] = err eof
read_be k (b ∷ bs) =
    if ltb (length bs + 1) k
    then err unexpected_eof
    else ok (be_value 0 (take k (b ∷ bs)), drop k (b ∷ bs))

-- reader.Read(buf): io.EOF at the end of the input, even for an empty buffer; else the bytes that
-- are there overwrite the front of `buf`, and the rest of `buf` stays as it was.
unfoldable pub read_into : Bytes → Reader Bytes
read_into buf [] = err eof
read_into buf (b ∷ bs) =
    ok (take (length buf) (b ∷ bs) ++ drop (suc (length bs)) buf, drop (length buf) (b ∷ bs))

-- The largest allocation of the Go runtime on a 64-bit machine, in bytes.
abbrev pub max_alloc : ℕ
max_alloc = 2 ^ 48

-- buf := make([]byte, n); reader.Read(buf)
unfoldable pub read_new : ℕ → Reader Bytes
unfolding read_into
read_new n s = if ltb max_alloc n then panic else read_into (replicate n 0) s
