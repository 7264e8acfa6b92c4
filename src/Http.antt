-- ===== src/Http.antt =====
-- Parsing the head of an HTTP message in src/civetweb.c: get_http_header_len,
-- skip_to_end_of_word_and_terminate, parse_http_headers and the table of methods. The source cuts
-- its buffer into strings by writing terminators; here a string is the list of its bytes. A
-- terminator that ends the scanned text is the end of the list.
pub mod Request
pub mod Response
pub mod HeaderLen
pub mod Headers
pub mod Lookup
use civetweb.Base.{Bool, Bytes, List, Option, String, [], codes, false, if◌then◌else◌, leb, ltb}
use civetweb.Base.{negsuc, none, not, peek, pos, rest_of, some, suc, true, zero, ℕ, ℤ, ◌&&◌, ◌+◌}
use civetweb.Base.{◌==◌, ◌||◌, ◌∷◌}
use civetweb.Ctype.{isprint, isgraph, isspace, str_eq, starts_with}

abbrev pub cr : ℕ
cr = 13

abbrev pub lf : ℕ
lf = 10

abbrev pub lflf : Bytes
lflf = lf ∷ lf ∷ []

abbrev pub crlfcrlf : Bytes
crlfcrlf = cr ∷ lf ∷ cr ∷ lf ∷ []

-- A character that stops the scan: an ASCII control character other than those of line ends.
unfoldable pub is_malformed : ℕ → Bool
unfolding isprint
is_malformed c = ltb c 128 && (not (c == cr) && (not (c == lf) && not (isprint c)))

-- The loop at index `i`; -1 is malformed, 0 is not complete yet.
unfoldable pub header_scan : ℕ → Bytes → ℤ
unfolding is_malformed starts_with
header_scan i [] = pos 0
header_scan i (c ∷ buf) =
    let onward = header_scan (i + 1) buf in
    if is_malformed c
    then negsuc 0
    else if starts_with (c ∷ buf) lflf
    then pos (i + 2)
    else if starts_with (c ∷ buf) crlfcrlf
    then pos (i + 4)
    else onward

unfoldable pub get_http_header_len : Bytes → ℤ
unfolding header_scan
get_http_header_len buf = header_scan 0 buf

-- A word and what follows it.
pub record Word : Type 0 where
  pub word : Bytes
  pub rest : Bytes

abbrev pub cons_word : ℕ → Word → Word
cons_word c w = record { word = c ∷ w.word; rest = w.rest }

-- The longest prefix of bytes that pass the test.
unfoldable pub span_while : (ℕ → Bool) → Bytes → Word
span_while test [] = record { word = []; rest = [] }
span_while test (c ∷ s) =
    let more = cons_word c (span_while test s) in
    if test c then more else record { word = []; rest = c ∷ s }

unfoldable pub is_word_char : ℕ → Bool
unfolding isgraph
is_word_char c = ltb 127 c || isgraph c

unfoldable pub skip_spaces : Bytes → Bytes
unfolding span_while isspace
skip_spaces s = (span_while isspace s).rest

-- The word, and the text from the next word on; `none` is -1.
unfoldable pub skip_to_end_of_word_and_terminate : Bytes → Bool → Option Word
skip_to_end_of_word_and_terminate ppw eol =
    let w = span_while is_word_char ppw in
    let next = skip_spaces (rest_of w.rest) in
    let at_end = if eol then peek w.rest == cr || peek w.rest == lf else peek w.rest == 32 in
    if not at_end
    then none
    else if not eol && not (isgraph (peek next))
    then none
    else some (record { word = w.word; rest = next })

-- struct mg_header
pub record Header : Type 0 where
  pub name : Bytes
  pub value : Bytes

unfoldable pub is_name_char : ℕ → Bool
is_name_char c = not (c == b':') && (leb 33 c && leb c 126)

unfoldable pub is_space : ℕ → Bool
is_space c = c == 32

unfoldable pub is_blank : ℕ → Bool
is_blank c = c == 32 || c == 9

unfoldable pub is_value_char : ℕ → Bool
is_value_char c = not (c == 0) && (not (c == cr) && not (c == lf))

-- How one round of the loop over header lines ends: no further line, a line that is not valid, the
-- last line, or a line with more behind it.
pub data Line : Type 0 where
  no_line bad_line : Line
  last_line : Header → Bytes → Line
  next_line : Header → Bytes → Line

-- The end of a line at the byte behind the value, `dp`.
unfoldable pub end_of_line : Header → Bytes → Line
end_of_line h dp =
    let after = if peek dp == cr then rest_of dp else dp in
    let buf = rest_of after in
    if peek dp == cr && not (peek after == lf)
    then bad_line
    else if peek after == 0
    then last_line h after
    else if peek buf == cr || peek buf == lf
    then last_line h buf
    else next_line h buf

unfoldable pub header_line : Bytes → Line
header_line buf =
    let key = span_while is_name_char buf in
    let colon = (span_while is_space key.rest).rest in
    let value = span_while is_value_char (span_while is_blank (rest_of colon)).rest in
    if not (is_name_char (peek buf))
    then no_line
    else if not (peek colon == b':')
    then bad_line
    else end_of_line (record { name = key.word; value = value.word }) value.rest

-- MG_MAX_HEADERS
abbrev pub max_headers : ℕ
max_headers = 64

-- The headers found and where the parsing stopped.
pub record HeaderList : Type 0 where
  pub headers : List Header
  pub rest : Bytes

abbrev pub cons_header : Header → Option HeaderList → Option HeaderList
cons_header h none = none
cons_header h (some l) = some (record { headers = h ∷ l.headers; rest = l.rest })

-- One round for a line; `more` is the rest of the loop.
abbrev pub add_line : Bytes → Line → (Bytes → Option HeaderList) → Option HeaderList
add_line buf no_line more = some (record { headers = []; rest = buf })
add_line buf bad_line more = none
add_line buf (last_line h rest) more = some (record { headers = h ∷ []; rest = rest })
add_line buf (next_line h rest) more = cons_header h (more rest)

-- The loop with `n` rounds left; `none` is -1.
unfoldable pub header_loop : ℕ → Bytes → Option HeaderList
header_loop zero buf = some (record { headers = []; rest = buf })
header_loop (suc n) buf = add_line buf (header_line buf) (λ rest. header_loop n rest)

unfoldable pub parse_http_headers : Bytes → Option HeaderList
unfolding header_loop header_line span_while is_name_char is_space is_blank is_value_char
    end_of_line
parse_http_headers buf = header_loop max_headers buf

-- struct mg_http_method_info
pub record HttpMethodInfo : Type 0 where
  pub name : Bytes
  pub request_has_body : Bool
  pub response_has_body : Bool
  pub is_safe : Bool
  pub is_idempotent : Bool
  pub is_cacheable : Bool

abbrev method : String → ℕ → ℕ → ℕ → ℕ → ℕ → HttpMethodInfo
method name request response safe idempotent cacheable = record {
  name = codes name;
  request_has_body = request == 1;
  response_has_body = response == 1;
  is_safe = safe == 1;
  is_idempotent = idempotent == 1;
  is_cacheable = cacheable == 1;
}

abbrev pub http_methods : List HttpMethodInfo
http_methods =
    method "GET" 0 1 1 1 1
    ∷ method "POST" 1 1 0 0 0
    ∷ method "PUT" 1 0 0 1 0
    ∷ method "DELETE" 0 0 0 1 0
    ∷ method "HEAD" 0 0 1 1 1
    ∷ method "OPTIONS" 0 0 1 1 0
    ∷ method "CONNECT" 1 1 0 0 0
    ∷ method "PATCH" 1 0 0 0 0
    ∷ method "PROPFIND" 0 1 1 1 0
    ∷ method "MKCOL" 0 0 0 1 0
    ∷ method "LOCK" 1 1 0 0 0
    ∷ method "UNLOCK" 1 0 0 0 0
    ∷ method "PROPPATCH" 1 1 0 0 0
    ∷ method "COPY" 1 0 0 0 0
    ∷ method "MOVE" 1 1 0 0 0
    ∷ method "REPORT" 1 1 1 1 1
    ∷ []

unfoldable pub find_method : Bytes → List HttpMethodInfo → Option HttpMethodInfo
unfolding str_eq
find_method name [] = none
find_method name (m ∷ methods) = if str_eq m.name name then some m else find_method name methods

unfoldable pub get_http_method_info : Bytes → Option HttpMethodInfo
unfolding find_method
get_http_method_info name = find_method name http_methods

abbrev pub is_some {ℓ} : {A : Type ℓ} → Option A → Bool
is_some none = false
is_some (some a) = true

unfoldable pub is_valid_http_method : Bytes → Bool
unfolding get_http_method_info
is_valid_http_method name = is_some (get_http_method_info name)
