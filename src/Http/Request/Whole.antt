-- ===== src/Http/Request/Whole.antt =====
-- parse_http_request of src/civetweb.c reads back a request that is written whole.
use civetweb.Base.{All, All-append, Bytes, List, [], ap, arith, codes, false, length}
use civetweb.Base.{length-append, map, peek, pos, refl, suc, sym, take, true, ℕ, ◌++◌, ◌+◌, ◌∙◌}
use civetweb.Base.{◌∷◌, ◌≡◌, ◌≢◌}
use civetweb.Ctype.{isgraph, isspace, iscntrl}
use civetweb.Http.{is_malformed, span_while, get_http_header_len, header_scan, Header, cr, lf}
use civetweb.Http.Headers.{IsHeader, span_while-append, print_headers}
use civetweb.Http.Request.{RequestInfo, complete, request_text}
use civetweb.Http.Request.{parse_http_request}
use civetweb.Http.Request.Scan.{IsPlain, IsLine, lines_then, header_scan-lines_then}
use civetweb.Http.Request.RoundTrip.{IsRequest, request_line, print_text, print_request}
use civetweb.Http.Request.RoundTrip.{
  peek-append_graph, http-IsWord, header_text, print_headers-lines,
}
use civetweb.Http.Request.RoundTrip.{print_text-append, take-length-append, word-IsPlain}
use civetweb.Http.Request.RoundTrip.{request_text-print_text, graph_no_space, text_shape}

plain_test : is_malformed 32 ≡ false
unfolding is_malformed
plain_test = refl

colon_test : is_malformed b':' ≡ false
unfolding is_malformed
colon_test = refl

pub space-IsPlain : IsPlain 32
space-IsPlain = (plain_test, omega arith, omega arith)

pub IsLine-of : (l : Bytes) → l ≢ [] → All IsPlain l → IsLine l
IsLine-of [] h k = absurd (h refl)
IsLine-of (c ∷ l) h k = k

graph_ne_nil : (w rest : Bytes) → isgraph (peek w) ≡ true → (w ++ rest) ≢ []
unfolding isgraph
graph_ne_nil [] rest h = absurd (cc)
graph_ne_nil (c ∷ w) rest h = λ e. cc

request_line-IsLine : (r : RequestInfo) → IsRequest r → IsLine (request_line r)
request_line-IsLine r v =
    let version =
      word-IsPlain (codes "HTTP/" ++ r.http_version) (http-IsWord r.http_version v.version_word) in
    let uri =
      All-append IsPlain r.request_uri _ (word-IsPlain r.request_uri v.uri_word)
        (space-IsPlain, version) in
    IsLine-of (request_line r) (graph_ne_nil r.request_method _ v.method_first) (
      All-append IsPlain r.request_method _ (word-IsPlain r.request_method v.method_word)
        (space-IsPlain, uri))

name_ne_nil : (w rest : Bytes) → w ≢ [] → (w ++ rest) ≢ []
name_ne_nil [] rest h = absurd (h refl)
name_ne_nil (c ∷ w) rest h = λ e. cc

pub headers-IsLine :
    (hs : List Header)
    → All IsHeader hs
    → All (λ (h : Header). All IsPlain h.name × All IsPlain h.value) hs
    → All IsLine (map header_text hs)
unfolding header_text
headers-IsLine [] v p = tt
headers-IsLine (h ∷ hs) v p = (
  IsLine-of (header_text h) (name_ne_nil h.name _ v.0.named) (
      All-append IsPlain h.name (b':' ∷ 32 ∷ h.value) p.0.0
        ((colon_test, omega arith, omega arith), (space-IsPlain, p.0.1))),
  headers-IsLine hs v.1 p.1,
)

-- The written head, counted.
lines_length :
    (r : RequestInfo)
    → length (lines_then (request_line r ∷ map header_text r.http_headers) [])
      ≡ suc (length (print_text r (cr ∷ [])))
lines_length r =
    ap (λ l. length (request_line r ++ (cr ∷ lf ∷ l))) (sym (print_headers-lines r.http_headers []))
    ∙ ap length (print_text-append r (cr ∷ []) (lf ∷ []))
    ∙ omega (arith, length-append (print_text r (cr ∷ [])) (lf ∷ []))

head_length :
    (r : RequestInfo) (body : Bytes)
    → IsRequest r
    → get_http_header_len (print_request r body) ≡ pos (suc (length (print_text r (cr ∷ []))))
unfolding get_http_header_len
head_length r body v =
    ap (λ l. header_scan 0 (request_line r ++ (cr ∷ lf ∷ l)))
      (print_headers-lines r.http_headers body)
    ∙ header_scan-lines_then (request_line r) (map header_text r.http_headers) body 0
        (request_line-IsLine r v, headers-IsLine r.http_headers v.headers v.headers_plain)
    ∙ ap pos (omega (arith, lines_length r))

pub graph_no_control : (c : ℕ) → isgraph c ≡ true → iscntrl c ≡ false
unfolding isgraph iscntrl
graph_no_control c h = ground arith

-- The parser on a buffer that begins with a printing character and holds a whole head.
parse_at :
    (buf : Bytes) (n : ℕ)
    → isgraph (peek buf) ≡ true
    → get_http_header_len buf ≡ pos (suc n)
    → parse_http_request buf ≡ request_text (take n buf) (suc n + 0)
unfolding parse_http_request
parse_at [] n g e = absurd (unfold isgraph in cc)
parse_at (c ∷ s) n g e =
    let w : span_while isspace (c ∷ s) ≡ record { word = []; rest = c ∷ s } =
      span_while-append isspace [] (c ∷ s) tt (graph_no_space c g) in
    rw (w, graph_no_control c g, e) refl

-- A request of valid parts, with no more headers than the table holds, written out,
-- with a body or a next request behind it, is read back as it was, with the length of its head.
pub parse_http_request-print_request :
    (r : RequestInfo) (body : Bytes)
    → IsRequest r
    → parse_http_request (print_request r body) ≡ complete (length (print_text r (cr ∷ lf ∷ []))) r
parse_http_request-print_request r body v =
    let text = print_text r (cr ∷ []) in
    let shape = text_shape r.request_method r.request_uri (codes "HTTP/" ++ r.http_version) in
    let first : isgraph (peek (print_request r body)) ≡ true =
      rw (shape (cr ∷ lf ∷ print_headers r.http_headers (cr ∷ lf ∷ body)))
        (peek-append_graph r.request_method _ v.method_first) in
    let cut : take (length text) (print_request r body) ≡ text =
      ap (take (length text)) (print_text-append r (cr ∷ []) (lf ∷ body))
      ∙ take-length-append text (lf ∷ body) in
    let size : suc (length text) + 0 ≡ length (print_text r (cr ∷ lf ∷ [])) = omega (
      arith,
      lines_length r,
      ap length (print_text-append r (cr ∷ []) (lf ∷ [])),
      length-append text (lf ∷ []),
    ) in
    parse_at (print_request r body) (length text) first (head_length r body v)
    ∙ ap (λ l. request_text l (suc (length text) + 0)) cut
    ∙ request_text-print_text r (suc (length text) + 0) v
    ∙ ap (λ n. complete n r) size
