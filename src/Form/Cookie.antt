-- ===== src/Form/Cookie.antt =====
-- mg_get_cookie of src/civetweb.c. A pointer into the header is an offset.
pub mod Value
pub mod First
pub mod Answer
use civetweb.Base.{Bool, Bytes, Option, [], drop, get_or, if◌then◌else◌, length, ltb, negsuc}
use civetweb.Base.{none, peek, pos, rest_of, some, suc, zero, ℕ, ℤ, ◌&&◌, ◌+◌, ◌-◌, ◌==◌, ◌||◌}
use civetweb.Base.{◌∷◌}
use civetweb.Text.{mg_strcasestr, mg_strlcpy}

-- How the loop ends: it goes on for ever, at the same place; the name is not found; or a value is,
-- which starts at an offset.
pub data CookieSearch : Type 0 where
  endless missing : CookieSearch
  value_at : ℕ → CookieSearch

-- The tests behind a place where the name was found.
unfoldable pub is_whole_name : Bytes → ℕ → ℕ → Bool
is_whole_name header name_len s =
    get_or header (s + name_len) 0 == b'=' && (s == 0 || get_or header (s - 1) 0 == b' ')

-- What the body of the loop does with what mg_strcasestr gives, as an offset from `s`.
abbrev pub cookie_round : Bytes → ℕ → ℕ → Option ℕ → (ℕ → CookieSearch) → CookieSearch
cookie_round header name_len s none again = missing
cookie_round header name_len s (some k) again =
    if is_whole_name header name_len (s + k)
    then value_at (s + k + name_len + 1)
    else again (s + k + name_len)

-- Each round but the last moves `s` on by the length of the name at least.
unfoldable pub cookie_loop : ℕ → Bytes → Bytes → ℕ → CookieSearch
cookie_loop zero header name s = endless
cookie_loop (suc fuel) header name s =
    cookie_round header (length name) s (mg_strcasestr (drop s header) name)
      (λ next. cookie_loop fuel header name next)

-- The bytes from `s` to `p`, which is the next space or the end.
unfoldable pub until_space : Bytes → Bytes
until_space [] = []
until_space (c ∷ s) = let more = c ∷ until_space s in if c == b' ' then [] else more

-- p[-1], where `prev` is the byte in front of the bytes up to `p`.
unfoldable pub last_of : ℕ → Bytes → ℕ
last_of prev [] = prev
last_of prev (c ∷ s) = last_of c s

-- p--
unfoldable pub without_last : Bytes → Bytes
without_last [] = []
without_last (c ∷ []) = []
without_last (c ∷ d ∷ s) = c ∷ without_last (d ∷ s)

unfoldable pub without_semicolon : Bytes → Bytes
without_semicolon v = if last_of b'=' v == b';' then without_last v else v

abbrev pub quote : ℕ
quote = b'"'

unfoldable pub without_quotes : Bytes → Bytes
without_quotes v =
    if peek v == quote && (last_of b'=' v == quote && ltb 1 (length v))
    then without_last (rest_of v)
    else v

-- What is returned, and the text in `dst`.
pub record Cookie : Type 0 where
  pub ret : ℤ
  pub dst : Bytes

unfoldable pub store_cookie : Bytes → ℕ → Cookie
store_cookie v dst_size =
    if ltb (length v) dst_size
    then record { ret = pos (length v); dst = mg_strlcpy v (length v + 1) }
    else record { ret = negsuc 2; dst = [] }

abbrev pub found_cookie : Bytes → ℕ → CookieSearch → Option Cookie
found_cookie header dst_size endless = none
found_cookie header dst_size missing = some (record { ret = negsuc 0; dst = [] })
found_cookie header dst_size (value_at s) =
    some (store_cookie (without_quotes (without_semicolon (until_space (drop s header)))) dst_size)

-- `none` for a text is NULL, and `none` for an answer is a call that does not return.
abbrev pub searched_cookie : Option Bytes → Option Bytes → ℕ → Option Cookie
searched_cookie cookie_header none dst_size = some (record { ret = negsuc 0; dst = [] })
searched_cookie none (some var_name) dst_size = some (record { ret = negsuc 0; dst = [] })
searched_cookie (some cookie_header) (some var_name) dst_size =
    found_cookie cookie_header dst_size
      (cookie_loop (length cookie_header + 1) cookie_header var_name 0)

-- `dst` is not NULL.
unfoldable pub mg_get_cookie : Option Bytes → Option Bytes → ℕ → Option Cookie
mg_get_cookie cookie_header var_name dst_size =
    if dst_size == 0
    then some (record { ret = negsuc 1; dst = [] })
    else searched_cookie cookie_header var_name dst_size
