-- ===== src/Options.antt =====
-- Comma separated lists in src/civetweb.c: next_option and header_has_option. A pointer into the list
-- is the rest of the list.
pub mod Entries
pub mod Header
use civetweb.Base.{Bool, Bytes, Option, [], drop, false, get_or, if◌then◌else◌, length, none}
use civetweb.Base.{some, suc, take, true, zero, ℕ, ◌+◌, ◌-◌, ◌==◌, ◌||◌, ◌∷◌}
use civetweb.Text.{is_zero, mg_strncasecmp}

abbrev pub is_lws : ℕ → Bool
is_lws c = c == 32 || c == 9

unfoldable pub skip_lws : Bytes → Bytes
skip_lws [] = []
skip_lws (c ∷ list) = let more = skip_lws list in if is_lws c then more else c ∷ list

-- The text up to the first comma, and what is behind the comma; without one, the whole text.
unfoldable pub until_comma : Bytes → Bytes
until_comma [] = []
until_comma (c ∷ list) = let more = c ∷ until_comma list in if c == b',' then [] else more

unfoldable pub behind_comma : Bytes → Bytes
behind_comma [] = []
behind_comma (c ∷ list) = let more = behind_comma list in if c == b',' then list else more

-- The loop that takes white space off the end, on the length `end` + 1.
unfoldable pub trim_len : Bytes → ℕ → ℕ
trim_len val zero = 0
trim_len val (suc end) =
    let shorter = trim_len val end in if is_lws (get_or val end 0) then shorter else suc end

abbrev pub one_on : Option ℕ → Option ℕ
one_on none = none
one_on (some i) = some (suc i)

-- memchr(val, '=', len), as an offset.
unfoldable pub find_equals : Bytes → ℕ → Option ℕ
find_equals val zero = none
find_equals [] (suc len) = none
find_equals (c ∷ val) (suc len) =
    let more = one_on (find_equals val len) in if c == b'=' then some 0 else more

-- struct vec
pub record Vec : Type 0 where
  pub ptr : Bytes
  pub len : ℕ

pub record Entry : Type 0 where
  pub val : Vec
  pub eq_val : Option Vec

-- With `eq_val`: the value is cut at an equals sign.
unfoldable pub split_value : Vec → Option ℕ → Entry
split_value v none = record { val = v; eq_val = none }
split_value v (some i) = record {
  val = record { ptr = v.ptr; len = i };
  eq_val = some (record { ptr = drop (suc i) v.ptr; len = v.len - suc i });
}

unfoldable pub value_at : Bytes → Vec
unfolding skip_lws until_comma trim_len
value_at list =
    let ptr = skip_lws list in record { ptr = ptr; len = trim_len ptr (length (until_comma ptr)) }

-- The first entry that is not empty, and the list behind it. `with_eq` tells whether `eq_val` is
-- given. `goto reparse` is on fuel: each time the list is shorter.
unfoldable pub next_from : ℕ → Bool → Bytes → Option (Entry × Bytes)
next_from fuel with_eq [] = none
next_from zero with_eq (c ∷ list) = none
next_from (suc fuel) with_eq (c ∷ list) =
    let v = value_at (c ∷ list) in
    let rest = behind_comma (skip_lws (c ∷ list)) in
    let again = next_from fuel with_eq rest in
    if v.len == 0
    then again
    else some (split_value v (if with_eq then find_equals v.ptr v.len else none), rest)

unfoldable pub next_option : Bool → Bytes → Option (Entry × Bytes)
unfolding next_from
next_option with_eq list = next_from (length list) with_eq list

-- The text that a vector refers to.
abbrev pub text : Vec → Bytes
text v = take v.len v.ptr

abbrev pub has_option_at : Bytes → Option (Entry × Bytes) → (Bytes → Bool) → Bool
has_option_at option none again = false
has_option_at option (some (e, rest)) again =
    let more = again rest in
    if is_zero (mg_strncasecmp option e.val.ptr e.val.len) then true else more

-- The loop over the entries, on fuel: each entry shortens the list.
unfoldable pub has_option_loop : ℕ → Bytes → Bytes → Bool
has_option_loop zero option header = false
has_option_loop (suc fuel) option header =
    has_option_at option (next_option true header) (λ rest. has_option_loop fuel option rest)

-- `none` is NULL.
unfoldable pub header_has_option : Option Bytes → Bytes → Bool
header_has_option none option = false
header_has_option (some header) option = has_option_loop (length header + 1) option header
