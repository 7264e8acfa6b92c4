-- ===== src/Path.antt =====
-- Paths in src/civetweb.c: remove_dot_segments. The source works in one buffer, with the output
-- in front of the input that is left; here the output is a list of its own, its last byte first.
-- Each loop runs on fuel, one for each byte: `none` would be a loop that has not ended.
pub mod Clean
pub mod Normal
pub mod Safe
use civetweb.Base.{Bytes, Option, [], codes, drop, if◌then◌else◌, length, none, peek, rest_of}
use civetweb.Base.{some, suc, zero, ℕ, ◌==◌, ◌||◌, ◌∷◌}
use civetweb.Ctype.{str_eq, starts_with}

-- `in` and the bytes in front of `out_end`, the last one first.
pub record Buffer : Type 0 where
  pub input : Bytes
  pub out : Bytes

abbrev pub slash : ℕ
slash = b'/'

abbrev pub dot : ℕ
dot = b'.'

abbrev pub backslash : ℕ
backslash = 92

unfoldable pub slashes_only : Bytes → Bytes
slashes_only [] = []
slashes_only (c ∷ s) = (if c == backslash then slash else c) ∷ slashes_only s

-- Takes the last segment and its slash off the output, when there is any.
unfoldable pub remove_last : Bytes → Bytes
remove_last [] = []
remove_last (c ∷ out) = if c == slash then out else remove_last out

-- Copies bytes up to the next slash or the end.
unfoldable pub move_segment : Bytes → Bytes → Buffer
move_segment [] out = record { input = []; out = out }
move_segment (c ∷ s) out =
    let more = move_segment s (c ∷ out) in
    if c == slash then record { input = c ∷ s; out = out } else more

-- One round of the first loop, at an input that is not empty.
unfoldable pub dot_step : ℕ → Bytes → Bytes → Buffer
unfolding remove_last move_segment str_eq starts_with
dot_step c s out =
    let input = c ∷ s in
    if starts_with input (codes "../")
    then record { input = drop 3 input; out = out }
    else if starts_with input (codes "./")
    then record { input = drop 2 input; out = out }
    else if starts_with input (codes "/./")
    then record { input = drop 2 input; out = out }
    else if str_eq input (codes "/.")
    then record { input = codes "/"; out = out }
    else if starts_with input (codes "/../")
    then record { input = drop 3 input; out = remove_last out }
    else if str_eq input (codes "/..")
    then record { input = codes "/"; out = remove_last out }
    else if str_eq input (codes ".") || str_eq input (codes "..")
    then record { input = []; out = out }
    else move_segment s (c ∷ out)

-- The first loop: the algorithm of RFC 3986, section 5.2.4.
unfoldable pub dot_loop : ℕ → Bytes → Bytes → Option Bytes
unfolding dot_step
dot_loop fuel [] out = some out
dot_loop zero (c ∷ s) out = none
dot_loop (suc fuel) (c ∷ s) out = dot_loop fuel (dot_step c s out).input (dot_step c s out).out

-- The bytes as they stand in memory.
unfoldable pub rev_onto : Bytes → Bytes → Bytes
rev_onto [] s = s
rev_onto (c ∷ out) s = rev_onto out (c ∷ s)

-- Skips a run of one byte.
unfoldable pub skip_run : ℕ → Bytes → Bytes
skip_run c [] = []
skip_run c (x ∷ s) = let more = skip_run c s in if x == c then more else x ∷ s

-- Copies the further dots in front of a byte that is no dot.
unfoldable pub copy_dots : Bytes → Bytes → Bytes
copy_dots [] out = out
copy_dots (x ∷ s) out = let more = copy_dots s (x ∷ out) in if x == dot then more else out

unfoldable pub drop_slash : Bytes → Bytes
drop_slash out = if peek out == slash then rest_of out else out

-- One round of the second loop, at an input that is not empty.
unfoldable pub clean_step : ℕ → Bytes → Bytes → Buffer
unfolding skip_run copy_dots drop_slash
clean_step c s out =
    let ahead = skip_run dot s in
    if c == dot
    then if peek ahead == slash
      then record { input = ahead; out = drop_slash out }
      else if peek ahead == 0
      then record { input = ahead; out = out }
      else record { input = ahead; out = copy_dots s (c ∷ out) }
    else if c == slash
    then record { input = skip_run slash s; out = slash ∷ out }
    else record { input = s; out = c ∷ out }

-- The second loop, against "x." being "x" on Windows, and against empty segments.
unfoldable pub clean_loop : ℕ → Bytes → Bytes → Option Bytes
unfolding clean_step
clean_loop fuel [] out = some out
clean_loop zero (c ∷ s) out = none
clean_loop (suc fuel) (c ∷ s) out =
    clean_loop fuel (clean_step c s out).input (clean_step c s out).out

infixl 5 ◌>>=◌
abbrev ◌>>=◌ : Option Bytes → (Bytes → Option Bytes) → Option Bytes
none >>= f = none
some s >>= f = f s

unfoldable pub remove_dot_segments : Bytes → Option Bytes
unfolding slashes_only dot_loop rev_onto clean_loop
remove_dot_segments inout = do
  out ← dot_loop (length inout) (slashes_only inout) []
  let path = rev_onto out []
  out' ← clean_loop (length path) path []
  some (rev_onto out' [])
