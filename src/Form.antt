-- ===== src/Form.antt =====
-- Form data in src/civetweb.c: mg_split_form_urlencoded and mg_get_var2. The source cuts its buffer
-- into strings by writing terminators; here a string is the list of its bytes.
pub mod Encoded
pub mod Split
pub mod Search
pub mod Vars
pub mod Cookie
use civetweb.Base.{Bool, Bytes, List, Option, [], drop, get_or, if◌then◌else◌, leb, length, ltb}
use civetweb.Base.{map, negsuc, none, not, peek, pos, rest_of, some, suc, true, zero, ℕ, ℤ, ◌&&◌}
use civetweb.Base.{◌+◌, ◌-◌, ◌==◌, ◌^◌, ◌||◌, ◌∷◌}
use civetweb.Text.{is_zero, mg_strncasecmp}
use civetweb.Http.{Word, span_while, is_blank}
use civetweb.Url.{Decoded, complete, truncated, invalid, mg_url_decode, url_decode_in_place}

-- The entries of struct mg_header that are filled in; `none` is NULL.
pub record FormField : Type 0 where
  pub name : Bytes
  pub value : Option Bytes

unfoldable pub is_key_char : ℕ → Bool
is_key_char c = not (c == 0) && (not (c == b'&') && not (c == b'='))

unfoldable pub is_field_char : ℕ → Bool
is_field_char c = not (c == 0) && not (c == b'&')

-- One field, and the text from the next & on, if there is one.
unfoldable pub split_field : Bytes → FormField × Bytes
split_field data_ =
    let key = span_while is_key_char data_ in
    let value = span_while is_field_char (rest_of key.rest) in
    if peek key.rest == b'='
    then (record { name = key.word; value = some value.word }, value.rest)
    else (record { name = key.word; value = none }, key.rest)

-- The loop with `n` rounds left.
unfoldable pub split_loop : ℕ → Bytes → List FormField
split_loop zero data_ = []
split_loop (suc n) data_ =
    let text = (span_while is_blank data_).rest in
    let (field, rest) = split_field text in
    let more = split_loop n (rest_of rest) in
    if peek text == 0 then [] else if peek rest == 0 then field ∷ [] else field ∷ more

unfoldable pub count_ampersands : Bytes → ℕ
count_ampersands [] = 0
count_ampersands (c ∷ data_) = (if c == b'&' then 1 else 0) + count_ampersands data_

abbrev pub decode_value : Option Bytes → Option Bytes
decode_value none = none
decode_value (some v) = some (url_decode_in_place v)

abbrev pub decode_field : FormField → FormField
decode_field f = record { name = url_decode_in_place f.name; value = decode_value f.value }

-- What is returned, and the fields that are stored.
pub record Fields : Type 0 where
  pub ret : ℤ
  pub fields : List FormField

-- `has_fields` tells whether `form_fields` is not NULL.
unfoldable pub mg_split_form_urlencoded : Option Bytes → Bool → ℕ → Fields
mg_split_form_urlencoded none has_fields n = record { ret = negsuc 0; fields = [] }
mg_split_form_urlencoded (some data_) has_fields n =
    let fields = map decode_field (split_loop n data_) in
    let expected = if peek data_ == 0 then 0 else 1 + count_ampersands data_ in
    if not has_fields && n == 0
    then record { ret = pos expected; fields = [] }
    else if not has_fields || (n == 0 || leb (2 ^ 31) n)
    then record { ret = negsuc 0; fields = [] }
    else record { ret = pos (length fields); fields = fields }

-- The loop of `mg_get_var2`, which finds the text behind name and `=`. `starts` tells whether `p` is
-- the start or stands behind a &.
unfoldable pub find_var : Bytes → Bool → Bytes → ℕ → Option Bytes
find_var name starts [] occurrence = none
find_var name starts (c ∷ p) occurrence =
    let n = length name in
    let here = starts && (get_or (c ∷ p) n 0 == b'=' && is_zero (mg_strncasecmp name (c ∷ p) n)) in
    let later = find_var name (c == b'&') p (if here then occurrence - 1 else occurrence) in
    if not (ltb n (length (c ∷ p)))
    then none
    else if here && occurrence == 0
    then some (drop (n + 1) (c ∷ p))
    else later

-- What is returned, and what is in `dst`; `none` where it is not written to.
pub record Var : Type 0 where
  pub len : ℤ
  pub dst : Option Bytes

unfoldable pub is_var_char : ℕ → Bool
is_var_char c = not (c == b'&')

abbrev pub decoded_var : Decoded → Var
decoded_var (complete out) = record { len = pos (length out); dst = some out }
decoded_var (truncated out) = record { len = negsuc 1; dst = some out }
decoded_var (invalid out) = record { len = negsuc 1; dst = some out }

abbrev pub var_value : ℕ → Option Bytes → Var
var_value dst_len none = record { len = negsuc 0; dst = some [] }
var_value dst_len (some p) =
    decoded_var (mg_url_decode (span_while is_var_char p).word dst_len true)

abbrev pub get_var : Option Bytes → Option Bytes → ℕ → ℕ → Var
get_var (some data_) (some name) dst_len occurrence =
    var_value dst_len (find_var name true data_ occurrence)
get_var data_ name dst_len occurrence = record { len = negsuc 0; dst = some [] }

-- A length 0 of the buffer stands for NULL, too.
unfoldable pub mg_get_var2 : Option Bytes → Option Bytes → ℕ → ℕ → Var
mg_get_var2 data_ name dst_len occurrence =
    if dst_len == 0
    then record { len = negsuc 1; dst = none }
    else get_var data_ name dst_len occurrence
