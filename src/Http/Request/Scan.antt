-- ===== src/Http/Request/Scan.antt =====
-- The end of a written message head, as get_http_header_len of src/civetweb.c finds it.
use civetweb.Base.{All, Bytes, List, [], ap, arith, false, length, length-append, pos, refl, ℕ}
use civetweb.Base.{◌++◌, ◌+◌, ◌==◌, ◌∙◌, ◌∷◌, ◌≡◌, ◌≢◌}
use civetweb.Http.{cr, lf, is_malformed, header_scan}

-- A byte that may stand in a line.
abbrev pub IsPlain : ℕ → Type 0
IsPlain c = (is_malformed c ≡ false) × (c ≢ cr) × (c ≢ lf)

-- Lines, each with its end, and the empty line behind the last one; then whatever follows.
abbrev pub lines_then : List Bytes → Bytes → Bytes
lines_then [] tail = cr ∷ lf ∷ tail
lines_then (l ∷ ls) tail = l ++ (cr ∷ lf ∷ lines_then ls tail)

step_plain : (c : ℕ) (s : Bytes) (i : ℕ) → IsPlain c → header_scan i (c ∷ s) ≡ header_scan (i + 1) s
unfolding header_scan
step_plain c s i h = ground arith

header_scan-plain :
    (l rest : Bytes) (i : ℕ)
    → All IsPlain l
    → header_scan i (l ++ rest) ≡ header_scan (i + length l) rest
header_scan-plain [] rest i h = ap (λ j. header_scan j rest) (omega arith)
header_scan-plain (c ∷ l) rest i h =
    step_plain c (l ++ rest) i h.0
    ∙ header_scan-plain l rest (i + 1) h.1
    ∙ ap (λ j. header_scan j rest) (omega arith)

step_line_end :
    (x : ℕ) (s : Bytes) (i : ℕ)
    → IsPlain x
    → header_scan i (cr ∷ lf ∷ x ∷ s) ≡ header_scan (i + 2) (x ∷ s)
unfolding header_scan
step_line_end x s i h =
    let p : (x == cr) ≡ false = ground arith in
    let q : (x == lf) ≡ false = ground arith in
    let two : i + 1 + 1 ≡ i + 2 = omega arith in rw (p, q, two) refl

step_head_end : (s : Bytes) (i : ℕ) → header_scan i (cr ∷ lf ∷ cr ∷ lf ∷ s) ≡ pos (i + 4)
unfolding header_scan
step_head_end s i = refl

-- A line that is written is not empty.
abbrev pub IsLine : Bytes → Type 0
IsLine [] = ⊥
IsLine (c ∷ l) = All IsPlain (c ∷ l)

IsLine-IsPlain : (l : Bytes) → IsLine l → All IsPlain l
IsLine-IsPlain [] h = absurd h
IsLine-IsPlain (c ∷ l) h = h

lines_step :
    (l : Bytes) (ls : List Bytes) (tail : Bytes) (i : ℕ)
    → All IsLine (l ∷ ls)
    → header_scan i (cr ∷ lf ∷ lines_then (l ∷ ls) tail)
      ≡ header_scan (i + 2) (lines_then (l ∷ ls) tail)
lines_step [] ls tail i h = absurd h.0
lines_step (c ∷ l) ls tail i h = step_line_end c (l ++ (cr ∷ lf ∷ lines_then ls tail)) i h.0.0

length-lines_then :
    (ls : List Bytes) (tail : Bytes)
    → length (lines_then ls tail) ≡ length (lines_then ls []) + length tail
length-lines_then [] tail = omega arith
length-lines_then (l ∷ ls) tail = omega (
  arith,
  length-append l (cr ∷ lf ∷ lines_then ls tail),
  length-append l (cr ∷ lf ∷ lines_then ls []),
  length-lines_then ls tail,
)

-- The scan of written lines stops behind the empty line.
pub header_scan-lines_then :
    (l : Bytes) (ls : List Bytes) (tail : Bytes) (i : ℕ)
    → All IsLine (l ∷ ls)
    → header_scan i (lines_then (l ∷ ls) tail) ≡ pos (i + length (lines_then (l ∷ ls) []))
header_scan-lines_then l [] tail i h =
    header_scan-plain l (cr ∷ lf ∷ cr ∷ lf ∷ tail) i (IsLine-IsPlain l h.0)
    ∙ step_head_end tail (i + length l)
    ∙ ap pos (omega (arith, length-append l (cr ∷ lf ∷ cr ∷ lf ∷ [])))
header_scan-lines_then l (m ∷ ls) tail i h =
    header_scan-plain l (cr ∷ lf ∷ lines_then (m ∷ ls) tail) i (IsLine-IsPlain l h.0)
    ∙ lines_step m ls tail (i + length l) h.1
    ∙ header_scan-lines_then m ls tail (i + length l + 2) h.1
    ∙ ap pos (omega (arith, length-append l (cr ∷ lf ∷ lines_then (m ∷ ls) [])))
