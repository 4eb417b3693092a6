-- ===== src/Go/Binary/Laws.antt =====
-- Reading back what was written, for the reads and writes of Go.Binary.
use distributed_chat_applica.Prelude.{
  ℕ, suc, ◌+◌, ◌-◌, ◌^◌, ◌≤◌, ◌<◌, ◌≡◌, refl, sym, ◌∙◌, [], ◌∷◌, ◌++◌, append-nil, arith, length,
  take, drop, replicate, length-append, take-append, drop-append, drop_all, length-replicate,
  drop-replicate, lt→ltb, le→not_ltb,
}
use distributed_chat_applica.Go.Result.{ok, err, panic, Error, eof}
use distributed_chat_applica.Go.Text.{Bytes}
use distributed_chat_applica.Go.Binary.{
  put_be, be_value, length-put_be, be_value-put_be, Reader, ◌>>=◌, read_be, read_into, read_new,
  max_alloc,
}

-- One step of a sequence of reads.
pub bind_ok {ℓ κ} :
    {A : Type ℓ} {B : Type κ} (m : Reader A) (f : A → Reader B) {s s' : Bytes} {a : A}
    → m s ≡ ok (a, s')
    → (m >>= f) s ≡ f a s'
bind_ok m f e = rw (e, ◌>>=◌)

pub bind_err {ℓ κ} :
    {A : Type ℓ} {B : Type κ} (m : Reader A) (f : A → Reader B) {s : Bytes} {e : Error}
    → m s ≡ err e
    → (m >>= f) s ≡ err e
bind_err m f e = rw (e, ◌>>=◌)

pub bind_panic {ℓ κ} :
    {A : Type ℓ} {B : Type κ} (m : Reader A) (f : A → Reader B) {s : Bytes}
    → m s ≡ panic
    → (m >>= f) s ≡ panic
bind_panic m f e = rw (e, ◌>>=◌)

read_be_enough :
    (k : ℕ) (s : Bytes)
    → 0 < length s
    → k ≤ length s
    → read_be k s ≡ ok (be_value 0 (take k s), drop k s)
unfolding read_be
read_be_enough k [] h l = absurd (omega arith)
read_be_enough k (b ∷ bs) h l = rw (le→not_ltb (length bs + 1) k (omega arith))

-- binary.Read gives back the integer that binary.Write wrote, and leaves what follows it.
pub read_be-put_be :
    (k n : ℕ) (rest : Bytes) → 0 < k → n < 256 ^ k → read_be k (put_be k n ++ rest) ≡ ok (n, rest)
read_be-put_be k n rest pos fits =
    let written : length (put_be k n ++ rest) ≡ k + length rest =
      omega (arith, length-append (put_be k n) rest, length-put_be k n) in
    read_be_enough k (put_be k n ++ rest) (omega (arith, written)) (omega (arith, written))
    ∙ rw (
      take-append k (put_be k n) rest (length-put_be k n),
      drop-append k (put_be k n) rest (length-put_be k n),
      be_value-put_be k n fits,
    )

-- A read that finds its buffer's length fills it.
pub read_into-append :
    (buf xs rest : Bytes)
    → length xs ≡ length buf
    → 0 < length xs + length rest
    → read_into buf (xs ++ rest) ≡ ok (xs, rest)
unfolding read_into
read_into-append buf [] [] e h = absurd (omega arith)
read_into-append [] [] (r ∷ rest) e h = refl
read_into-append (b ∷ buf) [] (r ∷ rest) e h = absurd (omega arith)
read_into-append buf (x ∷ xs) rest e h = rw (
  take-append (length buf) (x ∷ xs) rest e,
  drop-append (length buf) (x ∷ xs) rest e,
  drop_all (suc (length (xs ++ rest))) buf (omega (arith, length-append xs rest)),
  append-nil xs,
)

pub read_new-append :
    (n : ℕ) (xs rest : Bytes)
    → length xs ≡ n
    → n ≤ max_alloc
    → 0 < length xs + length rest
    → read_new n (xs ++ rest) ≡ ok (xs, rest)
unfolding read_new
read_new-append n xs rest e small h =
    rw (le→not_ltb max_alloc n small)
      (read_into-append (replicate n 0) xs rest (e ∙ sym (length-replicate n 0)) h)

-- A read of more bytes than the runtime can allocate panics.
pub read_new_panics : (n : ℕ) (s : Bytes) → max_alloc < n → read_new n s ≡ panic
unfolding read_new
read_new_panics n s h = rw (lt→ltb max_alloc n h)

-- A read of `n` bytes of which fewer have arrived is filled up with zeros.
pub read_new_lem :
    (n x : ℕ) (b : Bytes)
    → n ≤ max_alloc
    → read_new n (x ∷ b) ≡ ok (take n (x ∷ b) ++ replicate (n - suc (length b)) 0, drop n (x ∷ b))
unfolding read_new read_into
read_new_lem n x b small = rw (
  le→not_ltb max_alloc n small,
  length-replicate {A = ℕ} n 0,
  drop-replicate {A = ℕ} (suc (length b)) n 0,
)

pub read_new_eof : (n : ℕ) → n ≤ max_alloc → read_new n [] ≡ err eof
unfolding read_new read_into
read_new_eof n small = rw (le→not_ltb max_alloc n small)
