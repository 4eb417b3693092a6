-- ===== src/Go/Scanner.antt =====
-- Go's bufio.Scanner over a stream, with its default split into lines, and strings.SplitN.
use distributed_chat_applica.Prelude.{
  ℕ, ◌+◌, ◌<◌, ◌≡◌, ◌≢◌, refl, ap, ap₂, sym, ◌∙◌, List, [], ◌∷◌, ◌++◌, ◌==◌, ltb, if◌then◌else◌,
  length, All, append_assoc, append-nil, length-append, arith,
}
use distributed_chat_applica.Go.Text.{Bytes}

-- A final carriage return does not belong to the line.
unfoldable pub drop_cr : Bytes → Bytes
drop_cr [] = []
drop_cr (c ∷ []) = if c == 13 then [] else c ∷ []
drop_cr (c ∷ d ∷ cs) = c ∷ drop_cr (d ∷ cs)

-- The lines of a stream, with the begun line first; the scanner stops at a line that does not fit its
-- buffer of 64 KB. A last line may lack its newline.
unfoldable pub scan : Bytes → Bytes → List Bytes
scan [] [] = []
scan (b ∷ line) [] = drop_cr (b ∷ line) ∷ []
scan line (c ∷ stream) =
    let next = scan [] stream in
    let more = scan (line ++ (c ∷ [])) stream in
    if c == 10 then drop_cr line ∷ next else if ltb (length line + 1) 65536 then more else []

-- What a scanner gives back as it was written.
pub record IsLine (line : Bytes) : Type 0 where
  pub one_line : All (λ c. c ≢ 10) line
  pub no_cr : drop_cr line ≡ line
  pub fits : length line < 65536

scan-append :
    (line m rest : Bytes)
    → All (λ c. c ≢ 10) m
    → length line + length m < 65536
    → scan line (m ++ rest) ≡ scan (line ++ m) rest
unfolding scan
scan-append line [] rest h fits = rw (append-nil line)
scan-append line (c ∷ m) rest h fits =
    let fits' : length (line ++ (c ∷ [])) + length m < 65536 =
      omega (arith, length-append line (c ∷ [])) in
    let goes_on : scan line (c ∷ (m ++ rest)) ≡ scan (line ++ (c ∷ [])) (m ++ rest) =
      ground (arith, h.0, fits) in
    goes_on
    ∙ scan-append (line ++ (c ∷ [])) m rest h.1 fits'
    ∙ ap (λ l. scan l rest) (append_assoc line (c ∷ []) m)

-- Each line is written with a newline.
abbrev pub write_lines : List Bytes → Bytes
write_lines [] = []
write_lines (line ∷ lines) = line ++ 10 ∷ write_lines lines

-- What is written in lines is read in the same lines.
pub scan-write_lines : (lines : List Bytes) → All IsLine lines → scan [] (write_lines lines) ≡ lines
unfolding scan
scan-write_lines [] h = refl
scan-write_lines (line ∷ lines) h =
    scan-append [] line (10 ∷ write_lines lines) h.0.one_line (omega (arith, h.0.fits))
    ∙ ap₂ ◌∷◌ h.0.no_cr (scan-write_lines lines h.1)

-- A stream that ends without a newline.
pub scan_last : (line : Bytes) → IsLine line → line ≢ [] → scan [] line ≡ line ∷ []
unfolding scan
scan_last [] h some_text = absurd (some_text refl)
scan_last (c ∷ line) h some_text =
    ap (scan []) (sym (append-nil (c ∷ line)))
    ∙ scan-append [] (c ∷ line) [] h.one_line (omega (arith, h.fits))
    ∙ ap (λ l. l ∷ []) h.no_cr

abbrev onto_first : ℕ → List Bytes → List Bytes
onto_first c [] = []
onto_first c (part ∷ parts) = (c ∷ part) ∷ parts

-- strings.SplitN(text, sep, 2) for a separator of one byte: one part, or two.
unfoldable pub split_2 : ℕ → Bytes → List Bytes
split_2 sep [] = [] ∷ []
split_2 sep (c ∷ text) =
    let parts = onto_first c (split_2 sep text) in if c == sep then [] ∷ text ∷ [] else parts

pub split_2_at :
    (sep : ℕ) (left right : Bytes)
    → All (λ c. c ≢ sep) left
    → split_2 sep (left ++ sep ∷ right) ≡ left ∷ right ∷ []
unfolding split_2
split_2_at sep [] right h = ground arith
split_2_at sep (c ∷ left) right h = ground (arith, h.0, split_2_at sep left right h.1)

pub split_2_whole :
    (sep : ℕ) (text : Bytes) → All (λ c. c ≢ sep) text → split_2 sep text ≡ text ∷ []
unfolding split_2
split_2_whole sep [] h = refl
split_2_whole sep (c ∷ text) h = ground (arith, h.0, split_2_whole sep text h.1)
