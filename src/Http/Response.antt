-- ===== src/Http/Response.antt =====
-- parse_http_response of src/civetweb.c.
pub mod RoundTrip
pub mod Whole
use civetweb.Base.{Bytes, List, Option, [], codes, drop, false, if◌then◌else◌, leb, length, ltb}
use civetweb.Base.{negsuc, none, not, peek, pos, rest_of, some, suc, take, zero, ℕ, ℤ, ◌&&◌, ◌*◌}
use civetweb.Base.{◌+◌, ◌-◌, ◌==◌, ◌||◌, ◌∷◌}
use civetweb.Ctype.{isspace, iscntrl, isgraph, isprint, isdigit, starts_with}
use civetweb.Http.{span_while, skip_spaces, get_http_header_len}
use civetweb.Http.{skip_to_end_of_word_and_terminate, Header, parse_http_headers, cr, lf}
use civetweb.Http.Request.{Parsed, malformed, incomplete, complete, ◌>>=◌, ◌>>◌}

-- The fields of struct mg_response_info.
pub record ResponseInfo : Type 0 where
  pub http_version : Bytes
  pub status_code : ℕ
  pub status_text : Bytes
  pub http_headers : List Header

-- The value that strtol reads from digits.
unfoldable pub decimal : ℕ → Bytes → ℕ
decimal acc [] = acc
decimal acc (c ∷ s) = decimal (acc * 10 + (c - 48)) s

-- `l = strtol(tmp, &tmp2, 10)` on a word, with the tests that follow: three characters are read and
-- they are the whole word. With a sign there are two digits and the value is below 100, so what
-- passes is three digits.
unfoldable pub status_code_of : Bytes → Option ℕ
unfolding isdigit decimal
status_code_of (a ∷ b ∷ c ∷ []) =
    let l = decimal 0 (a ∷ b ∷ c ∷ []) in
    if isdigit a && (isdigit b && isdigit c)
    then if ltb l 100 || leb 1000 l then none else some l
    else none
status_code_of word = none

unfoldable pub response_text : Bytes → ℕ → Parsed ResponseInfo
unfolding status_code_of
response_text text total = do
  not (peek text == 0 || (peek text == cr || peek text == lf))
  starts_with text (codes "HTTP/")
  isgraph (peek (drop 5 text))
  version ← skip_to_end_of_word_and_terminate (drop 5 text) false
  status ← skip_to_end_of_word_and_terminate version.rest false
  code ← status_code_of status.word
  let reason = span_while isprint status.rest
  peek reason.rest == cr || peek reason.rest == lf
  fields ← parse_http_headers (skip_spaces (rest_of reason.rest))
  complete total (record {
    http_version = version.word;
    status_code = code;
    status_text = reason.word;
    http_headers = fields.headers;
  })

unfoldable pub response_at : Bytes → ℕ → ℤ → Parsed ResponseInfo
unfolding response_text
response_at buf init_skip (negsuc n) = malformed
response_at buf init_skip (pos zero) = incomplete
response_at buf init_skip (pos (suc n)) = response_text (take n buf) (suc n + init_skip)

unfoldable pub response_from : Bytes → ℕ → Parsed ResponseInfo
unfolding response_at iscntrl
response_from [] init_skip = incomplete
response_from (c ∷ buf) init_skip =
    if iscntrl c then malformed else response_at (c ∷ buf) init_skip (get_http_header_len (c ∷ buf))

unfoldable pub parse_http_response : Bytes → Parsed ResponseInfo
unfolding response_from
parse_http_response buf = let w = span_while isspace buf in response_from w.rest (length w.word)
