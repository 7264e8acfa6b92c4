-- ===== src/Http/Request/RoundTrip.antt =====
-- A request that is written is read back by parse_http_request of src/civetweb.c.
use civetweb.Base.{All, Bytes, List, [], ap, append_assoc, arith, codes, false, length, map}
use civetweb.Base.{peek, refl, some, sym, take, true, ℕ, ◌++◌, ◌==◌, ◌||◌, ◌∙◌, ◌∷◌, ◌≡◌, ◌≢◌}
use civetweb.Base.{◌≤◌}
use civetweb.Ctype.{isgraph, isspace, starts_with}
use civetweb.Http.{Word, span_while, is_word_char, skip_spaces}
use civetweb.Http.{skip_to_end_of_word_and_terminate, Header, parse_http_headers}
use civetweb.Http.{is_valid_http_method, cr, lf, max_headers, is_malformed, is_name_char}
use civetweb.Http.Headers.{IsHeader, print_header, print_headers, span_while-append}
use civetweb.Http.Headers.{parse_http_headers-print_headers}
use civetweb.Http.Request.{RequestInfo, complete, request_text}
use civetweb.Http.Request.Scan.{IsPlain, lines_then}

abbrev pub IsWord : Bytes → Type 0
IsWord = All (λ c. is_word_char c ≡ true)

-- The request line and the headers, as a client writes them, with what follows the head.
abbrev pub request_line : RequestInfo → Bytes
request_line r =
    r.request_method ++ (32 ∷ (r.request_uri ++ (32 ∷ (codes "HTTP/" ++ r.http_version))))

space_ends : is_word_char 32 ≡ false
unfolding is_word_char
space_ends = refl

pub cr_ends : is_word_char cr ≡ false
unfolding is_word_char
cr_ends = refl

pub no_spaces : (s : Bytes) → isspace (peek s) ≡ false → skip_spaces s ≡ s
unfolding skip_spaces
no_spaces s h =
    let e : span_while isspace s ≡ record { word = []; rest = s } =
      span_while-append isspace [] s tt h in
    ap (λ (w : Word). w.rest) e

pub lf_skipped : (s : Bytes) → isspace (peek s) ≡ false → skip_spaces (lf ∷ s) ≡ s
unfolding skip_spaces isspace
lf_skipped s h =
    let e : span_while isspace (lf ∷ s) ≡ record { word = lf ∷ []; rest = s } =
      span_while-append isspace (lf ∷ []) s (refl, tt) h in
    ap (λ (w : Word). w.rest) e

pub graph_no_space : (c : ℕ) → isgraph c ≡ true → isspace c ≡ false
unfolding isgraph isspace
graph_no_space c h = ground arith

-- A word and one space: the word is cut off, if a printing character follows.
pub word_space :
    (w next : Bytes)
    → IsWord w
    → isgraph (peek next) ≡ true
    → skip_to_end_of_word_and_terminate (w ++ (32 ∷ next)) false
      ≡ some (record { word = w; rest = next })
unfolding skip_to_end_of_word_and_terminate
word_space w next h g =
    rw
      (
        span_while-append is_word_char w (32 ∷ next) h space_ends,
        no_spaces next (graph_no_space _ g),
        g,
      )
      refl

-- The last word of the line.
word_line_end :
    (w next : Bytes)
    → IsWord w
    → isspace (peek next) ≡ false
    → skip_to_end_of_word_and_terminate (w ++ (cr ∷ lf ∷ next)) true
      ≡ some (record { word = w; rest = next })
unfolding skip_to_end_of_word_and_terminate
word_line_end w next h g =
    rw (span_while-append is_word_char w (cr ∷ lf ∷ next) h cr_ends, lf_skipped next g) refl

-- A request that can be written: a method of the table, a target and a version that are words, and
-- headers that fit the table.
pub record IsRequest (r : RequestInfo) : Type 0 where
  pub known : is_valid_http_method r.request_method ≡ true
  pub method_word : IsWord r.request_method
  pub method_first : isgraph (peek r.request_method) ≡ true
  pub uri_word : IsWord r.request_uri
  pub uri_first : isgraph (peek r.request_uri) ≡ true
  pub version_word : IsWord r.http_version
  pub headers : All IsHeader r.http_headers
  pub headers_plain : All (λ (h : Header). All IsPlain h.name × All IsPlain h.value) r.http_headers
  pub headers_fit : length r.http_headers ≤ max_headers

-- The written head with `tail` in place of the empty line.
abbrev pub print_text : RequestInfo → Bytes → Bytes
print_text r tail = request_line r ++ (cr ∷ lf ∷ print_headers r.http_headers tail)

-- The request as it is sent, with what follows it.
abbrev pub print_request : RequestInfo → Bytes → Bytes
print_request r body = print_text r (cr ∷ lf ∷ body)

pub peek-append_graph :
    (w rest : Bytes) → isgraph (peek w) ≡ true → isgraph (peek (w ++ rest)) ≡ true
unfolding isgraph
peek-append_graph [] rest h = cc
peek-append_graph (c ∷ w) rest h = h

pub http-IsWord : (version : Bytes) → IsWord version → IsWord (codes "HTTP/" ++ version)
unfolding is_word_char
http-IsWord version h = (refl, (refl, (refl, (refl, (refl, h)))))

pub name_no_space :
    (h : Header) → IsHeader h → (rest : Bytes) → isspace (peek (print_header h rest)) ≡ false
unfolding isspace is_name_char
name_no_space h v rest = go h.name v.named v.name_chars
  where
    go :
        (name : Bytes)
        → name ≢ []
        → All (λ c. is_name_char c ≡ true) name
        → isspace (peek (name ++ (b':' ∷ 32 ∷ (h.value ++ (cr ∷ lf ∷ rest))))) ≡ false
    go [] e k = absurd (e refl)
    go (c ∷ name) e k = ground arith

-- Without headers the empty line is skipped with the end of the request line.
pub cr_skipped : skip_spaces (lf ∷ cr ∷ []) ≡ []
unfolding skip_spaces isspace span_while
cr_skipped = refl

word_head_end :
    (w : Bytes)
    → IsWord w
    → skip_to_end_of_word_and_terminate (w ++ (cr ∷ lf ∷ cr ∷ [])) true
      ≡ some (record { word = w; rest = [] })
unfolding skip_to_end_of_word_and_terminate
word_head_end w h =
    rw (span_while-append is_word_char w (cr ∷ lf ∷ cr ∷ []) h cr_ends, cr_skipped) refl

pub no_headers : parse_http_headers [] ≡ some (record { headers = []; rest = [] })
unfolding parse_http_headers
no_headers = refl

-- The last word of the request line, and the headers behind it.
version_and_headers :
    (w : Bytes) (hs : List Header)
    → IsWord w
    → All IsHeader hs
    → length hs ≤ max_headers
    → (next : Bytes) × (rest : Bytes) × (skip_to_end_of_word_and_terminate
          (w ++ (cr ∷ lf ∷ print_headers hs (cr ∷ [])))
          true
        ≡ some (record { word = w; rest = next }))
      × (parse_http_headers next ≡ some (record { headers = hs; rest = rest }))
version_and_headers w [] h v fit = ([], [], word_head_end w h, no_headers)
version_and_headers w (x ∷ hs) h v fit = (
  print_headers (x ∷ hs) (cr ∷ []),
  cr ∷ [],
  word_line_end w _ h (name_no_space x v.0 (print_headers hs (cr ∷ []))),
  parse_http_headers-print_headers (x ∷ hs) (cr ∷ []) fit v refl,
)

http_graph : isgraph b'H' ≡ true
unfolding isgraph
http_graph = refl

starts_http : (v : Bytes) → starts_with (codes "HTTP/" ++ v) (codes "HTTP/") ≡ true
unfolding starts_with
starts_http v = refl

pub text_shape :
    (m u v rest : Bytes)
    → (m ++ (32 ∷ (u ++ (32 ∷ v)))) ++ rest ≡ m ++ (32 ∷ (u ++ (32 ∷ (v ++ rest))))
text_shape m u v rest =
    append_assoc m (32 ∷ (u ++ (32 ∷ v))) rest
    ∙ ap (λ l. m ++ (32 ∷ l)) (append_assoc u (32 ∷ v) rest)

graph_no_end : (c : ℕ) → isgraph c ≡ true → (c == 0 || (c == cr || c == lf)) ≡ false
unfolding isgraph
graph_no_end c h = ground arith

pub request_text-print_text :
    (r : RequestInfo) (total : ℕ)
    → IsRequest r
    → request_text (print_text r (cr ∷ [])) total ≡ complete total r
unfolding request_text
request_text-print_text r total v =
    let version = codes "HTTP/" ++ r.http_version in
    let end = cr ∷ lf ∷ print_headers r.http_headers (cr ∷ []) in
    let at_version = version ++ end in
    let at_uri = r.request_uri ++ (32 ∷ at_version) in
    let (next, rest, e, f) =
      version_and_headers version r.http_headers (http-IsWord r.http_version v.version_word)
        v.headers v.headers_fit in
    let verb =
      word_space r.request_method at_uri v.method_word
        (peek-append_graph r.request_uri (32 ∷ at_version) v.uri_first) in
    let uri = word_space r.request_uri at_version v.uri_word http_graph in
    let first = graph_no_end _ (peek-append_graph r.request_method (32 ∷ at_uri) v.method_first) in
    let shape = text_shape r.request_method r.request_uri version end in
    rw (shape, first, verb, uri, e, starts_http r.http_version, v.known, f) refl

-- The same head as lines.
unfoldable pub header_text : Header → Bytes
header_text h = h.name ++ (b':' ∷ 32 ∷ h.value)

pub print_headers-lines :
    (hs : List Header) (body : Bytes)
    → print_headers hs (cr ∷ lf ∷ body) ≡ lines_then (map header_text hs) body
unfolding header_text
print_headers-lines [] body = refl
print_headers-lines (h ∷ hs) body =
    ap (λ l. print_header h l) (print_headers-lines hs body)
    ∙ sym
        (append_assoc h.name (b':' ∷ 32 ∷ h.value) (cr ∷ lf ∷ lines_then (map header_text hs) body))

pub print_headers-append :
    (hs : List Header) (a b : Bytes) → print_headers hs (a ++ b) ≡ print_headers hs a ++ b
print_headers-append [] a b = refl
print_headers-append (h ∷ hs) a b =
    ap (λ l. print_header h l) (print_headers-append hs a b)
    ∙ ap (λ l. h.name ++ (b':' ∷ 32 ∷ l))
        (sym (append_assoc h.value (cr ∷ lf ∷ print_headers hs a) b))
    ∙ sym (append_assoc h.name (b':' ∷ 32 ∷ (h.value ++ (cr ∷ lf ∷ print_headers hs a))) b)

pub print_text-append :
    (r : RequestInfo) (a b : Bytes) → print_text r (a ++ b) ≡ print_text r a ++ b
print_text-append r a b =
    ap (λ l. request_line r ++ (cr ∷ lf ∷ l)) (print_headers-append r.http_headers a b)
    ∙ sym (append_assoc (request_line r) (cr ∷ lf ∷ print_headers r.http_headers a) b)

pub take-length-append : (s t : Bytes) → take (length s) (s ++ t) ≡ s
take-length-append [] t = refl
take-length-append (c ∷ s) t = ap (λ l. c ∷ l) (take-length-append s t)

pub word-IsPlain : (w : Bytes) → IsWord w → All IsPlain w
unfolding is_word_char is_malformed
word-IsPlain [] h = tt
word-IsPlain (c ∷ w) h = (ground arith, word-IsPlain w h.1)
