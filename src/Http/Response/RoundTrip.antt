-- ===== src/Http/Response/RoundTrip.antt =====
-- A response that is written is read back by parse_http_response of src/civetweb.c.
use civetweb.Base.{All, Bytes, List, [], ap, append_assoc, arith, codes, false, leb, length, ltb}
use civetweb.Base.{peek, refl, some, true, ℕ, ◌%◌, ◌++◌, ◌+◌, ◌/◌, ◌<◌, ◌||◌, ◌∙◌, ◌∷◌, ◌≡◌, ◌≤◌}
use civetweb.Http.{Header}
use civetweb.Ctype.{isgraph, isprint, isdigit, starts_with}
use civetweb.Http.{skip_spaces, is_word_char, parse_http_headers, max_headers, cr, lf}
use civetweb.Http.Headers.{
  IsHeader, span_while-append, print_headers, parse_http_headers-print_headers,
}
use civetweb.Http.Request.{complete}
use civetweb.Http.Request.Scan.{IsPlain}
use civetweb.Http.Request.RoundTrip.{
  IsWord, word_space, name_no_space, lf_skipped, cr_skipped, no_headers, peek-append_graph,
}
use civetweb.Http.Response.{ResponseInfo, decimal, status_code_of, response_text}

-- A number of three digits.
abbrev pub three_digits : ℕ → Bytes
three_digits n = (b'0' + n / 100) ∷ (b'0' + n / 10 % 10) ∷ (b'0' + n % 10) ∷ []

-- A response that can be written: a version that is a word, a status code of three digits, a reason
-- of printing characters and headers that fit the table.
pub record IsResponse (r : ResponseInfo) : Type 0 where
  pub version_word : IsWord r.http_version
  pub version_first : isgraph (peek r.http_version) ≡ true
  pub code_low : 100 ≤ r.status_code
  pub code_high : r.status_code < 1000
  pub reason_prints : All (λ c. isprint c ≡ true) r.status_text
  pub reason_first : isgraph (peek r.status_text) ≡ true
  pub headers : All IsHeader r.http_headers
  pub headers_plain : All (λ (h : Header). All IsPlain h.name × All IsPlain h.value) r.http_headers
  pub headers_fit : length r.http_headers ≤ max_headers

abbrev pub first_words : ResponseInfo → Bytes
first_words r = r.http_version ++ (32 ∷ (three_digits r.status_code ++ (32 ∷ r.status_text)))

-- The written head with `tail` in place of the empty line.
abbrev pub print_head : ResponseInfo → Bytes → Bytes
print_head r tail =
    (codes "HTTP/" ++ first_words r) ++ (cr ∷ lf ∷ print_headers r.http_headers tail)

-- The response as it is sent, with what follows it.
abbrev pub print_response : ResponseInfo → Bytes → Bytes
print_response r body = print_head r (cr ∷ lf ∷ body)

digit-IsWord : (d : ℕ) → d < 10 → is_word_char (48 + d) ≡ true
unfolding is_word_char
digit-IsWord d h = ground arith

pub digits-IsWord : (n : ℕ) → n < 1000 → IsWord (three_digits n)
digits-IsWord n h = (
  digit-IsWord (n / 100) (omega arith),
  (digit-IsWord (n / 10 % 10) (omega arith), (digit-IsWord (n % 10) (omega arith), tt)),
)

digit_test : (d : ℕ) → d < 10 → isdigit (48 + d) ≡ true
unfolding isdigit
digit_test d h = ground arith

decimal-three_digits : (n : ℕ) → decimal 0 (three_digits n) ≡ n
unfolding decimal
decimal-three_digits n = omega arith

in_range : (n : ℕ) → 100 ≤ n → n < 1000 → (ltb n 100 || leb 1000 n) ≡ false
in_range n l h = ground arith

status_code_of-three_digits :
    (n : ℕ) → 100 ≤ n → n < 1000 → status_code_of (three_digits n) ≡ some n
unfolding status_code_of
status_code_of-three_digits n l h =
    rw
      (
        digit_test (n / 100) (omega arith),
        digit_test (n / 10 % 10) (omega arith),
        digit_test (n % 10) (omega arith),
        decimal-three_digits n,
        in_range n l h,
      )
      refl

cr_ends_reason : isprint cr ≡ false
unfolding isprint
cr_ends_reason = refl

graph_digit : (d : ℕ) → d < 10 → isgraph (48 + d) ≡ true
unfolding isgraph
graph_digit d h = ground arith

graph_no_zero : isgraph 0 ≡ false
unfolding isgraph
graph_no_zero = refl

-- The headers behind the reason.
headers_after :
    (hs : List Header)
    → All IsHeader hs
    → length hs ≤ max_headers
    → (rest : Bytes) × (parse_http_headers (skip_spaces (lf ∷ print_headers hs (cr ∷ [])))
        ≡ some (record { headers = hs; rest = rest }))
headers_after [] v fit = ([], rw cr_skipped no_headers)
headers_after (x ∷ hs) v fit = (
  cr ∷ [],
  rw (lf_skipped _ (name_no_space x v.0 (print_headers hs (cr ∷ []))))
      (parse_http_headers-print_headers (x ∷ hs) (cr ∷ []) fit v refl),
)

starts_http : (v : Bytes) → starts_with (codes "HTTP/" ++ v) (codes "HTTP/") ≡ true
unfolding starts_with
starts_http v = refl

words_shape :
    (v d t rest : Bytes)
    → (v ++ (32 ∷ (d ++ (32 ∷ t)))) ++ rest ≡ v ++ (32 ∷ (d ++ (32 ∷ (t ++ rest))))
words_shape v d t rest =
    append_assoc v (32 ∷ (d ++ (32 ∷ t))) rest
    ∙ ap (λ l. v ++ (32 ∷ l)) (append_assoc d (32 ∷ t) rest)

pub response_text-print_head :
    (r : ResponseInfo) (total : ℕ)
    → IsResponse r
    → response_text (print_head r (cr ∷ [])) total ≡ complete total r
unfolding response_text
response_text-print_head r total v =
    let end = cr ∷ lf ∷ print_headers r.http_headers (cr ∷ []) in
    let at_reason = r.status_text ++ end in
    let at_code = three_digits r.status_code ++ (32 ∷ at_reason) in
    let (rest, fields) = headers_after r.http_headers v.headers v.headers_fit in
    let version =
      word_space r.http_version at_code v.version_word
        (graph_digit (r.status_code / 100) (omega (arith, v.code_high))) in
    let status =
      word_space (three_digits r.status_code) at_reason (digits-IsWord r.status_code v.code_high)
        (peek-append_graph r.status_text end v.reason_first) in
    rw
      (
        words_shape r.http_version (three_digits r.status_code) r.status_text end,
        starts_http (r.http_version ++ (32 ∷ at_code)),
        peek-append_graph r.http_version (32 ∷ at_code) v.version_first,
        version,
        status,
        status_code_of-three_digits r.status_code v.code_low v.code_high,
        span_while-append isprint r.status_text end v.reason_prints cr_ends_reason,
        fields,
      )
      refl
