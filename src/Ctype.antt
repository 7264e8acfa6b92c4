-- ===== src/Ctype.antt =====
-- <ctype.h>, <string.h> and strtoul in the "C" locale, as far as src/civetweb.c and src/match.inl use
-- them.
use civetweb.Base.{Bool, Bytes, Option, [], arith, false, if◌then◌else◌, leb, length, ltb, none}
use civetweb.Base.{peek, rest_of, set, some, take, true, ℕ, ◌%◌, ◌&&◌, ◌*◌, ◌+◌, ◌-◌, ◌==◌, ◌^◌}
use civetweb.Base.{◌||◌, ◌↔◌, ◌∷◌, ◌≡◌}

abbrev pub in_range : ℕ → ℕ → ℕ → Bool
in_range lo hi c = leb lo c && leb c hi

unfoldable pub tolower : ℕ → ℕ
tolower c = if in_range 65 90 c then c + 32 else c

unfoldable pub isdigit : ℕ → Bool
isdigit c = in_range 48 57 c

unfoldable pub isxdigit : ℕ → Bool
isxdigit c = in_range 48 57 c || (in_range 65 70 c || in_range 97 102 c)

unfoldable pub isalnum : ℕ → Bool
isalnum c = in_range 48 57 c || (in_range 65 90 c || in_range 97 122 c)

unfoldable pub isprint : ℕ → Bool
isprint c = in_range 32 126 c

unfoldable pub isgraph : ℕ → Bool
isgraph c = in_range 33 126 c

unfoldable pub isspace : ℕ → Bool
isspace c = c == 32 || in_range 9 13 c

unfoldable pub iscntrl : ℕ → Bool
iscntrl c = leb c 31 || c == 127

-- strchr(set, c) != NULL for c other than the terminator; memchr(set, c, n) over the n bytes.
unfoldable pub contains : Bytes → ℕ → Bool
contains [] c = false
contains (x ∷ set) c = x == c || contains set c

-- strcmp(s, t) == 0
unfoldable pub str_eq : Bytes → Bytes → Bool
str_eq [] [] = true
str_eq [] (d ∷ t) = false
str_eq (c ∷ s) [] = false
str_eq (c ∷ s) (d ∷ t) = c == d && str_eq s t

-- strncmp(s, prefix, strlen(prefix)) == 0
unfoldable pub starts_with : Bytes → Bytes → Bool
starts_with s [] = true
starts_with [] (p ∷ prefix) = false
starts_with (c ∷ s) (p ∷ prefix) = c == p && starts_with s prefix

-- strchr(s, c) for c other than the terminator; `none` is NULL.
unfoldable pub strchr : Bytes → ℕ → Option Bytes
strchr [] c = none
strchr (x ∷ s) c = let later = strchr s c in if x == c then some (x ∷ s) else later

-- strtoul(s, &end, 10) of <stdlib.h>, for an `unsigned long` of 64 bits: the digits in front, behind the value `acc` of those in front of them, and what follows them.
unfoldable pub read_digits : ℕ → Bytes → ℕ × Bytes
read_digits acc [] = (acc, [])
read_digits acc (c ∷ s) =
    let more = read_digits (acc * 10 + (c - 48)) s in if isdigit c then more else (acc, c ∷ s)

abbrev pub ulong_max : ℕ
ulong_max = 2 ^ 64 - 1

abbrev pub signed : Bool → ℕ × Bytes → ℕ × Bytes
signed minus (v, end) =
    if ltb ulong_max v
    then (ulong_max, end)
    else if minus
    then ((2 ^ 64 - v) % 2 ^ 64, end)
    else (v, end)

-- The digits behind a sign; `s` is what strtoul was called with.
abbrev pub number_at : Bool → Bytes → Bytes → ℕ × Bytes
number_at minus t s = if isdigit (peek t) then signed minus (read_digits 0 t) else (0, s)

unfoldable pub skip_spaces_in : Bytes → Bytes
skip_spaces_in [] = []
skip_spaces_in (c ∷ s) = let more = skip_spaces_in s in if isspace c then more else c ∷ s

-- The number, and where reading ended.
unfoldable pub strtoul : Bytes → ℕ × Bytes
strtoul s =
    let t = skip_spaces_in s in
    if peek t == b'-'
    then number_at true (rest_of t) s
    else if peek t == b'+'
    then number_at false (rest_of t) s
    else number_at false t s

pub str_eq_iff : (s t : Bytes) → (str_eq s t ≡ true) ↔ (s ≡ t)
unfolding str_eq
str_eq_iff [] [] = ground arith
str_eq_iff [] (d ∷ t) = ground arith
str_eq_iff (c ∷ s) [] = ground arith
str_eq_iff (c ∷ s) (d ∷ t) = ground (arith, str_eq_iff s t)

pub starts_with_iff : (s p : Bytes) → (starts_with s p ≡ true) ↔ (take (length p) s ≡ p)
unfolding starts_with
starts_with_iff s [] = ground arith
starts_with_iff [] (c ∷ p) = ground arith
starts_with_iff (d ∷ s) (c ∷ p) = ground (arith, starts_with_iff s p)

pub tolower_idem : (c : ℕ) → tolower (tolower c) ≡ tolower c
unfolding tolower
tolower_idem c = ground arith

pub tolower-zero_iff : (c : ℕ) → (tolower c ≡ 0) ↔ (c ≡ 0)
unfolding tolower
tolower-zero_iff c = ground arith
