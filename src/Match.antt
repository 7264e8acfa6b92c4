-- ===== src/Match.antt =====
-- Pattern matching of src/match.inl: mg_match_impl, mg_match_alternatives, match_context_reset,
-- match_context_push and match_prefix. The text is a C string;
-- a position in it is the offset from its start.
pub mod Relation
pub mod Longest
pub mod Branches
pub mod Decides
pub mod Prefix
pub mod Joined
use civetweb.Base.{Bool, Bytes, List, Option, [], drop, false, if◌then◌else◌, length, ltb, none}
use civetweb.Base.{not, peek, rest_of, some, suc, true, zero, ℕ, ◌&&◌, ◌++◌, ◌+◌, ◌-◌, ◌==◌, ◌∷◌}
use civetweb.Text.{lowercase}

-- struct mg_match_element
pub record MatchElement : Type 0 where
  pub str : ℕ
  pub len : ℕ

-- struct mg_match_context; the first `num_matches` elements of `match` are the list `matches`.
pub record MatchContext : Type 0 where
  pub case_sensitive : Bool
  pub matches : List MatchElement

-- MG_MATCH_CONTEXT_MAX_MATCHES
abbrev pub max_matches : ℕ
max_matches = 32

unfoldable pub match_context_reset : MatchContext → MatchContext
match_context_reset mcx = record mcx { matches = [] }

unfoldable pub match_context_push : ℕ → ℕ → MatchContext → MatchContext
match_context_push str len mcx =
    if ltb (length mcx.matches) max_matches
    then record mcx { matches = mcx.matches ++ record { str = str; len = len } ∷ [] }
    else mcx

-- `if (mcx) { match_context_push(...) }`; `none` is a NULL context.
abbrev pub push_to : ℕ → ℕ → Option MatchContext → Option MatchContext
push_to str len none = none
push_to str len (some mcx) = some (match_context_push str len mcx)

abbrev pub reset_in : Option MatchContext → Option MatchContext
reset_in none = none
reset_in (some mcx) = some (match_context_reset mcx)

abbrev pub is_case_sensitive : Option MatchContext → Bool
is_case_sensitive none = false
is_case_sensitive (some mcx) = mcx.case_sensitive

-- The length that is matched (`none` is -1), and the context behind the call.
abbrev pub Outcome : Type 0
Outcome = Option ℕ × Option MatchContext

-- A matcher of a fixed pattern, at a text that begins at the given offset.
abbrev pub Matcher : Type 0
Matcher = ℕ → Bytes → Option MatchContext → Outcome

-- Pattern ? takes one byte other than / and the terminator.
unfoldable pub takes_one : ℕ → Bytes → Bool
takes_one c str = c == b'?' && (not (peek str == 0) && not (peek str == b'/'))

unfoldable pub same_char : Bool → ℕ → ℕ → Bool
same_char true p c = p == c
same_char false p c = lowercase p == lowercase c

-- strcspn(str, "/")
unfoldable pub segment_length : Bytes → ℕ
segment_length [] = 0
segment_length (c ∷ str) = if c == b'/' then 0 else segment_length str + 1

abbrev pub add_to : ℕ → Outcome → Outcome
add_to n (none, mcx) = (none, mcx)
add_to n (some m, mcx) = (some (n + m), mcx)

-- One round of the loop for * and **: it ends with a match of `len` bytes, or tries a shorter one.
abbrev pub round : ℕ → ℕ → Outcome → (Option MatchContext → Outcome) → Outcome
round at len (none, mcx) shorter = shorter mcx
round at len (some ret, mcx) shorter = (some (ret + len), push_to at len mcx)

-- The loop: the pattern's rest at `str + len`, `str + (len - 1)`, ... until it matches.
unfoldable pub longest : Matcher → ℕ → Bytes → ℕ → Option MatchContext → Outcome
unfolding match_context_push
longest next at str zero mcx = round at 0 (next at str mcx) (λ m. (none, m))
longest next at str (suc len) mcx =
    round at (suc len) (next (at + suc len) (drop (suc len) str) mcx)
      (λ m. longest next at str len m)

-- The first byte of a run of ?, which one element of the context covers.
abbrev pub run_start : Option ℕ → ℕ → ℕ
run_start none i_str = i_str
run_start (some i_str_start) i_str = i_str_start

abbrev pub close_run : ℕ → ℕ → Option ℕ → Option MatchContext → Option MatchContext
close_run base i_str none mcx = mcx
close_run base i_str (some start) mcx = push_to (base + start) (i_str - start) mcx

-- What follows the test for ? in the loop; `star` is the branch for *, `onward` the next round.
unfoldable pub match_char : ℕ → ℕ → Bytes → Option MatchContext → Outcome → Outcome → Outcome
unfolding same_char
match_char c i_str str mcx star onward =
    if c == b'$'
    then (if peek str == 0 then some i_str else none, mcx)
    else if c == b'*'
    then star
    else if same_char (is_case_sensitive mcx) c (peek str)
    then onward
    else (none, mcx)

-- The branch for * at the end of the pattern.
abbrev pub last_star : ℕ → ℕ → ℕ → Option MatchContext → Outcome
last_star base i_str len mcx = (some (i_str + len), push_to (base + i_str) len mcx)

-- The loop of `mg_match_impl` at `pat + i_pat` and `str + i_str`, for a call whose `str` is at
-- offset `base`. `run` is the start of the run of ? that is under way: the inner loop takes one ?
-- for each round here, and the element is pushed where the run ends.
unfoldable pub match_loop : Bytes → Option ℕ → ℕ → ℕ → Bytes → Option MatchContext → Outcome
unfolding takes_one segment_length longest match_char
match_loop [] run base i_str str mcx = (some i_str, close_run base i_str run mcx)
match_loop (c ∷ []) run base i_str str mcx =
    let mcx' = close_run base i_str run mcx in
    let question = match_loop [] (some (run_start run i_str)) base (i_str + 1) (rest_of str) mcx in
    let star = last_star base i_str (segment_length str) mcx' in
    let onward = match_loop [] none base (i_str + 1) (rest_of str) mcx' in
    let other = match_char c i_str str mcx' star onward in
    if takes_one c str then question else other
match_loop (c ∷ d ∷ pat) run base i_str str mcx =
    let mcx' = close_run base i_str run mcx in
    let question =
      match_loop (d ∷ pat) (some (run_start run i_str)) base (i_str + 1) (rest_of str) mcx in
    let after_two =
      λ (at : ℕ) (s : Bytes) (m : Option MatchContext). match_loop pat none at 0 s m in
    let after_one =
      λ (at : ℕ) (s : Bytes) (m : Option MatchContext). match_loop (d ∷ pat) none at 0 s m in
    let two_stars : Outcome = elim pat [
      | [] ↦ last_star base i_str (length str) mcx'
      | _ ∷ _ ↦ add_to i_str (longest after_two (base + i_str) str (length str) mcx')
    ] in
    let one_star = add_to i_str (longest after_one (base + i_str) str (segment_length str) mcx') in
    let star = if d == b'*' then two_stars else one_star in
    let onward = match_loop (d ∷ pat) none base (i_str + 1) (rest_of str) mcx' in
    let other = match_char c i_str str mcx' star onward in
    if takes_one c str then question else other

unfoldable pub mg_match_impl : Bytes → ℕ → Bytes → Option MatchContext → Outcome
unfolding match_loop
mg_match_impl pat at str mcx = match_loop pat none at 0 str mcx

-- The left string's match, if there is one, or what the right side gives.
abbrev pub or_right : Outcome → (Option MatchContext → Outcome) → Outcome
or_right (some n, mcx) right = (some n, mcx)
or_right (none, mcx) right = right mcx

-- The loop of `mg_match_alternatives`: `left` is the part in front of the next |, as far as read.
unfoldable pub alternatives_loop : Bytes → Bytes → Bytes → Option MatchContext → Outcome
unfolding mg_match_impl match_context_reset
alternatives_loop left [] str mcx = mg_match_impl left 0 str mcx
alternatives_loop left (c ∷ pat) str mcx =
    let further = alternatives_loop (left ++ c ∷ []) pat str mcx in
    let split =
      or_right (mg_match_impl left 0 str mcx) (λ m. alternatives_loop [] pat str (reset_in m)) in
    if c == b'|' then split else further

unfoldable pub mg_match_alternatives : Bytes → Bytes → Option MatchContext → Outcome
unfolding alternatives_loop
mg_match_alternatives pat str mcx = alternatives_loop [] pat str (reset_in mcx)

-- match_prefix and match_prefix_strlen; `none` is a NULL pattern.
unfoldable pub match_prefix : Option Bytes → Bytes → Option ℕ
unfolding mg_match_alternatives
match_prefix none str = none
match_prefix (some pattern) str = (mg_match_alternatives pattern str none).0
