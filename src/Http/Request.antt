-- ===== src/Http/Request.antt =====
-- parse_http_request of src/civetweb.c. What the function leaves in its output when it fails is
-- not modelled.
pub mod Scan
pub mod RoundTrip
pub mod Whole
use civetweb.Base.{Bool, Bytes, List, Option, [], codes, drop, false, if◌then◌else◌, length}
use civetweb.Base.{negsuc, none, not, peek, pos, some, suc, take, true, zero, ℕ, ℤ, ◌+◌, ◌==◌}
use civetweb.Base.{◌||◌, ◌∷◌}
use civetweb.Ctype.{isspace, iscntrl, starts_with}
use civetweb.Http.{Word, span_while, get_http_header_len, skip_to_end_of_word_and_terminate}
use civetweb.Http.{Header, parse_http_headers, is_valid_http_method, cr, lf}

-- The fields of struct mg_request_info that the parser sets.
pub record RequestInfo : Type 0 where
  pub request_method : Bytes
  pub request_uri : Bytes
  pub http_version : Bytes
  pub http_headers : List Header

-- -1, 0, or the length of the head with what is read from it.
pub data Parsed (A : Type 0) : Type 0 where
  malformed incomplete : Parsed A
  complete : ℕ → A → Parsed A

infixl 5 ◌>>=◌
abbrev pub ◌>>=◌ : {A B : Type 0} → Option A → (A → Parsed B) → Parsed B
none >>= f = malformed
some a >>= f = f a

abbrev pub check : {B : Type 0} → Bool → Parsed B → Parsed B
check true r = r
check false r = malformed

infixl 5 ◌>>◌
abbrev pub ◌>>◌ : {B : Type 0} → Bool → Parsed B → Parsed B
b >> r = check b r

-- The part behind the search for the end of the head, on the text in front of the terminator that
-- is written over the last byte of the head.
unfoldable pub request_text : Bytes → ℕ → Parsed RequestInfo
request_text text total = do
  not (peek text == 0 || (peek text == cr || peek text == lf))
  verb ← skip_to_end_of_word_and_terminate text false
  uri ← skip_to_end_of_word_and_terminate verb.rest false
  version ← skip_to_end_of_word_and_terminate uri.rest true
  starts_with version.word (codes "HTTP/")
  is_valid_http_method verb.word
  fields ← parse_http_headers version.rest
  complete total (record {
    request_method = verb.word;
    request_uri = uri.word;
    http_version = drop 5 version.word;
    http_headers = fields.headers;
  })

-- The answer for the length of the head, of a buffer without its leading spaces.
unfoldable pub request_at : Bytes → ℕ → ℤ → Parsed RequestInfo
unfolding request_text
request_at buf init_skip (negsuc n) = malformed
request_at buf init_skip (pos zero) = incomplete
request_at buf init_skip (pos (suc n)) = request_text (take n buf) (suc n + init_skip)

-- Where the request begins, with the number of spaces skipped.
unfoldable pub request_from : Bytes → ℕ → Parsed RequestInfo
unfolding request_at iscntrl
request_from [] init_skip = incomplete
request_from (c ∷ buf) init_skip =
    if iscntrl c then malformed else request_at (c ∷ buf) init_skip (get_http_header_len (c ∷ buf))

unfoldable pub parse_http_request : Bytes → Parsed RequestInfo
unfolding request_from
parse_http_request buf = let w = span_while isspace buf in request_from w.rest (length w.word)
