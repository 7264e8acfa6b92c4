-- ===== src/Text.antt =====
-- The string helpers of src/civetweb.c: mg_strlcpy, lowercase, mg_strncasecmp, mg_strcasecmp,
-- mg_strndup_ctx (the allocation succeeds) and mg_strcasestr.
pub mod Compare
pub mod Search
use civetweb.Base.{Bool, Bytes, Option, [], false, if◌then◌else◌, leb, length, ltb, negsuc, none}
use civetweb.Base.{not, peek, pos, rest_of, some, sub_ℕ, suc, zero, ℕ, ℤ, ◌&&◌, ◌+◌, ◌-◌, ◌==◌}
use civetweb.Base.{◌∷◌}
use civetweb.Ctype.{tolower}

-- The text that is in `dst` afterwards, for a buffer of `n` bytes.
unfoldable pub mg_strlcpy : Bytes → ℕ → Bytes
mg_strlcpy [] n = []
mg_strlcpy (c ∷ src) n = let more = c ∷ mg_strlcpy src (n - 1) in if ltb 1 n then more else []

-- A copy of the first `len` bytes, as allocated by `mg_strndup_ctx`.
unfoldable pub mg_strndup_ctx : Bytes → ℕ → Bytes
unfolding mg_strlcpy
mg_strndup_ctx ptr len = mg_strlcpy ptr (len + 1)

unfoldable pub lowercase : ℕ → ℕ
lowercase c = tolower c

-- lowercase(s1) - lowercase(s2) at the two bytes that are read.
unfoldable pub case_diff : Bytes → Bytes → ℤ
unfolding lowercase
case_diff s1 s2 = sub_ℕ (lowercase (peek s1)) (lowercase (peek s2))

abbrev pub is_zero : ℤ → Bool
is_zero (pos n) = n == 0
is_zero (negsuc n) = false

-- The `do` loop for a positive `len`, which is counted down behind the comparison.
unfoldable pub mg_strncasecmp : Bytes → Bytes → ℕ → ℤ
unfolding case_diff
mg_strncasecmp s1 s2 zero = pos 0
mg_strncasecmp s1 s2 (suc len) =
    let diff = case_diff s1 s2 in
    let again = mg_strncasecmp (rest_of s1) (rest_of s2) len in
    if is_zero diff && (not (peek s1 == 0) && ltb 0 len) then again else diff

unfoldable pub mg_strcasecmp : Bytes → Bytes → ℤ
unfolding case_diff
mg_strcasecmp [] s2 = case_diff [] s2
mg_strcasecmp (c ∷ s1) s2 =
    let diff = case_diff (c ∷ s1) s2 in
    let again = mg_strcasecmp s1 (rest_of s2) in
    if is_zero diff && not (c == 0) then again else diff

-- The loop of `mg_strcasestr` with `rounds` positions left, from position `i` of the big string on.
unfoldable pub find_from : Bytes → ℕ → ℕ → Bytes → Option ℕ
unfolding mg_strncasecmp
find_from small zero i big = none
find_from small (suc rounds) i big =
    let again = find_from small rounds (i + 1) (rest_of big) in
    if is_zero (mg_strncasecmp big small (length small)) then some i else again

-- The offset of the match in the big string; `none` is NULL.
unfoldable pub mg_strcasestr : Bytes → Bytes → Option ℕ
unfolding find_from
mg_strcasestr big small =
    if leb (length small) (length big)
    then find_from small (length big - length small + 1) 0 big
    else none
