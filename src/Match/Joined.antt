-- ===== src/Match/Joined.antt =====
-- match_compare and mg_match of src/match.inl. The elements of a context are compared by their
-- offsets.
pub mod Order
use civetweb.Base.{Bool, Bytes, List, Option, [], false, if◌then◌else◌, ltb, negsuc, none, pos}
use civetweb.Base.{some, suc, true, zero, ℤ, ◌+◌, ◌==◌, ◌∷◌}
use civetweb.Match.{MatchElement, MatchContext, Outcome, match_context_reset, mg_match_alternatives}
use civetweb.Sort.{mg_sort}

unfoldable pub match_compare : MatchElement → MatchElement → ℤ
match_compare e1 e2 =
    if ltb e2.str e1.str then pos 1 else if ltb e1.str e2.str then negsuc 0 else pos 0

-- What mg_sort asks of the comparison: `cmpres > 0`.
abbrev pub is_positive : ℤ → Bool
is_positive (pos zero) = false
is_positive (pos (suc n)) = true
is_positive (negsuc n) = false

abbrev pub is_behind : MatchElement → MatchElement → Bool
is_behind e1 e2 = is_positive (match_compare e1 e2)

-- The loop over `i`: the elements from `i - 1` on, the first of which is `e`. An element that is
-- joined to `e` leaves the list, and `i` stays.
unfoldable pub join_from : MatchElement → List MatchElement → List MatchElement
join_from e [] = e ∷ []
join_from e (next ∷ rest) =
    let joined = join_from (record e { len = e.len + next.len }) rest in
    let kept = e ∷ join_from next rest in if e.str + e.len == next.str then joined else kept

abbrev pub join_matches : List MatchElement → List MatchElement
join_matches [] = []
join_matches (e ∷ rest) = join_from e rest

abbrev pub join_in : MatchContext → MatchContext
join_in mcx = record mcx { matches = join_matches (mg_sort is_behind mcx.matches) }

-- What is done with the context behind mg_match_alternatives.
abbrev pub with_joined : Outcome → Outcome
with_joined (ret, none) = (ret, none)
with_joined (none, some mcx) = (none, some (match_context_reset mcx))
with_joined (some n, some mcx) = (some n, some (join_in mcx))

unfoldable pub mg_match : Bytes → Bytes → Option MatchContext → Outcome
mg_match pat str mcx = with_joined (mg_match_alternatives pat str mcx)
