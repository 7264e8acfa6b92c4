-- ===== src/Http/Headers.antt =====
-- parse_http_headers of src/civetweb.c reads back header lines.
use civetweb.Base.{All, Bool, Bytes, List, [], ap, arith, false, length, peek, refl, some, suc}
use civetweb.Base.{true, zero, ℕ, ◌++◌, ◌∙◌, ◌∷◌, ◌≡◌, ◌≢◌, ◌≤◌}
use civetweb.Http.{span_while, is_name_char, is_space, is_blank, is_value_char, cr, lf, Header}
use civetweb.Http.{next_line, last_line, end_of_line, header_line, add_line, cons_header}
use civetweb.Http.{header_loop, parse_http_headers, max_headers, no_line}

-- A header that can be written: a name of the allowed characters, and a value on one line that does
-- not begin with a blank.
pub record IsHeader (h : Header) : Type 0 where
  pub named : h.name ≢ []
  pub name_chars : All (λ c. is_name_char c ≡ true) h.name
  pub value_chars : All (λ c. is_value_char c ≡ true) h.value
  pub trimmed : is_blank (peek h.value) ≡ false

abbrev pub line_end : Bytes
line_end = cr ∷ lf ∷ []

abbrev pub print_header : Header → Bytes → Bytes
print_header h tail = h.name ++ (b':' ∷ 32 ∷ (h.value ++ (cr ∷ lf ∷ tail)))

abbrev pub print_headers : List Header → Bytes → Bytes
print_headers [] tail = tail
print_headers (h ∷ hs) tail = print_header h (print_headers hs tail)

pub span_while-append :
    (test : ℕ → Bool) (w rest : Bytes)
    → All (λ c. test c ≡ true) w
    → test (peek rest) ≡ false
    → span_while test (w ++ rest) ≡ record { word = w; rest = rest }
unfolding span_while
span_while-append test [] [] h k = refl
span_while-append test [] (c ∷ rest) h k = rw k
span_while-append test (c ∷ w) rest h k = rw (h.0, span_while-append test w rest h.1 k)

colon_ends : is_name_char b':' ≡ false
unfolding is_name_char
colon_ends = refl

colon_no_space : is_space b':' ≡ false
unfolding is_space
colon_no_space = refl

cr_ends : is_value_char cr ≡ false
unfolding is_value_char
cr_ends = refl

cr_no_blank : is_blank cr ≡ false
unfolding is_blank
cr_no_blank = refl

space_blank : is_blank 32 ≡ true
unfolding is_blank
space_blank = refl

trimmed-append :
    (value rest : Bytes)
    → is_blank (peek value) ≡ false
    → is_blank (peek rest) ≡ false
    → is_blank (peek (value ++ rest)) ≡ false
trimmed-append [] rest h k = k
trimmed-append (c ∷ value) rest h k = h

pub peek-append : (w rest : Bytes) → w ≢ [] → peek (w ++ rest) ≡ peek w
peek-append [] rest h = absurd (h refl)
peek-append (c ∷ w) rest h = refl

first_is_name :
    (w : Bytes) → w ≢ [] → All (λ c. is_name_char c ≡ true) w → is_name_char (peek w) ≡ true
first_is_name [] h k = absurd (h refl)
first_is_name (c ∷ w) h k = k.0

pub header_line-print_header :
    (h : Header) (tail : Bytes)
    → IsHeader h
    → header_line (print_header h tail) ≡ end_of_line h (cr ∷ lf ∷ tail)
unfolding header_line
header_line-print_header h tail v =
    let after_value = cr ∷ lf ∷ tail in
    let after_colon = 32 ∷ (h.value ++ after_value) in
    let key = span_while-append is_name_char h.name (b':' ∷ after_colon) v.name_chars colon_ends in
    let spaces : span_while is_space (b':' ∷ after_colon)
        ≡ record { word = []; rest = b':' ∷ after_colon } =
      span_while-append is_space [] (b':' ∷ after_colon) tt colon_no_space in
    let blanks : span_while is_blank after_colon
        ≡ record { word = 32 ∷ []; rest = h.value ++ after_value } =
      span_while-append is_blank (32 ∷ []) (h.value ++ after_value) (space_blank, tt)
        (trimmed-append h.value after_value v.trimmed cr_no_blank) in
    let value = span_while-append is_value_char h.value after_value v.value_chars cr_ends in
    let first =
      ap is_name_char (peek-append h.name (b':' ∷ after_colon) v.named)
      ∙ first_is_name h.name v.named v.name_chars in
    rw (first, key, spaces, blanks, value) refl

end_of_line-more :
    (h : Header) (tail : Bytes)
    → peek tail ≢ cr
    → peek tail ≢ lf
    → end_of_line h (cr ∷ lf ∷ tail) ≡ next_line h tail
unfolding end_of_line
end_of_line-more h tail p q = ground arith

end_of_line-last :
    (h : Header) (tail : Bytes) → peek tail ≡ cr → end_of_line h (cr ∷ lf ∷ tail) ≡ last_line h tail
unfolding end_of_line
end_of_line-last h tail p = rw p refl

header_line-cr : (tail : Bytes) → peek tail ≡ cr → header_line tail ≡ no_line
unfolding header_line is_name_char
header_line-cr tail e = rw e refl

name_no_end : (c : ℕ) → is_name_char c ≡ true → (c ≢ cr) × (c ≢ lf)
unfolding is_name_char
name_no_end c h = ground arith

header_loop-print_headers :
    (n : ℕ) (hs : List Header) (tail : Bytes)
    → length hs ≤ n
    → All IsHeader hs
    → peek tail ≡ cr
    → header_loop n (print_headers hs tail) ≡ some (record { headers = hs; rest = tail })
unfolding header_loop
header_loop-print_headers zero [] tail h v e = refl
header_loop-print_headers zero (x ∷ hs) tail h v e = absurd (omega arith)
header_loop-print_headers (suc n) [] tail h v e =
    ap (λ l. add_line tail l (λ rest. header_loop n rest)) (header_line-cr tail e)
header_loop-print_headers (suc n) (x ∷ []) tail h v e =
    ap (λ l. add_line (print_header x tail) l (λ rest. header_loop n rest))
      (header_line-print_header x tail v.0 ∙ end_of_line-last x tail e)
header_loop-print_headers (suc n) (x ∷ y ∷ hs) tail h v e =
    let next = print_headers (y ∷ hs) tail in
    let first =
      ap is_name_char (peek-append y.name _ v.1.0.named)
      ∙ first_is_name y.name v.1.0.named v.1.0.name_chars in
    ap (λ l. add_line (print_header x next) l (λ rest. header_loop n rest))
      (header_line-print_header x next v.0
        ∙ end_of_line-more x next (name_no_end _ first).0 (name_no_end _ first).1)
    ∙ ap (cons_header x) (header_loop-print_headers n (y ∷ hs) tail (omega arith) v.1 e)

-- Written header lines with valid names and values, no more than the table holds, are read back as
-- they were, and the parsing stops at the empty line behind them.
pub parse_http_headers-print_headers :
    (hs : List Header) (tail : Bytes)
    → length hs ≤ max_headers
    → All IsHeader hs
    → peek tail ≡ cr
    → parse_http_headers (print_headers hs tail) ≡ some (record { headers = hs; rest = tail })
unfolding parse_http_headers
parse_http_headers-print_headers hs tail h v e = header_loop-print_headers max_headers hs tail h v e
