-- ===== src/Match/Joined/Order.antt =====
-- The matches that mg_match of src/match.inl leaves in a context.
use civetweb.Base.{Bool, Bytes, List, Option, [], arith, false, if_split, if◌then◌else◌, leb}
use civetweb.Base.{ltb, none, pos, refl, some, sym, true, ℕ, ◌&&◌, ◌+◌, ◌==◌, ◌∙◌, ◌∷◌, ◌≡◌, ◌≢◌}
use civetweb.Base.{◌≤◌}
use civetweb.Match.{MatchElement, MatchContext, Outcome, match_context_reset, mg_match_alternatives}
use civetweb.Match.Joined.{
  match_compare, is_positive, is_behind, join_from, join_matches, join_in, with_joined, mg_match,
}
use civetweb.Sort.{mg_sort}
use civetweb.Sort.Keeps.{count_of}
use civetweb.Sort.Sorted.{IsSorted, mg_sort-IsSorted}

-- The element starts in front of the next one or with it, and does not end where the next one starts.
abbrev pub IsApart : List MatchElement → Type 0
IsApart [] = Unit
IsApart (e ∷ []) = Unit
IsApart (e ∷ next ∷ rest) = (e.str ≤ next.str) × (e.str + e.len ≢ next.str) × IsApart (next ∷ rest)

abbrev pub covers : ℕ → MatchElement → Bool
covers x e = leb e.str x && ltb x (e.str + e.len)

-- What is expected of a context with the pushed matches `pushed`.
abbrev pub IsJoined : Option ℕ → MatchContext → MatchContext → Type 0
IsJoined none pushed left = left.matches ≡ []
IsJoined (some n) pushed left =
    IsApart left.matches
    × ((x : ℕ) → count_of (covers x) left.matches ≡ count_of (covers x) pushed.matches)

abbrev pub Joins : Outcome → Outcome → Type 0
Joins (ret, none) r = r ≡ (ret, none)
Joins (ret, some pushed) r =
    (left : MatchContext) × (r ≡ (ret, some left))
    × (left.case_sensitive ≡ pushed.case_sensitive)
    × IsJoined ret pushed left

is_behind-offsets : (d e : MatchElement) → is_behind d e ≡ ltb e.str d.str
unfolding match_compare
is_behind-offsets d e =
    if_split (λ r. is_positive r ≡ ltb e.str d.str) (ltb e.str d.str) (pos 1) _ (λ h. sym h)
      (λ h.
        if_split (λ r. is_positive r ≡ ltb e.str d.str) (ltb d.str e.str) _ _ (λ g. sym h)
          (λ g. sym h))

is_behind-asym : (d e : MatchElement) → is_behind d e ≡ true → is_behind e d ≡ false
is_behind-asym d e h =
    let front : ltb e.str d.str ≡ true = sym (is_behind-offsets d e) ∙ h in
    is_behind-offsets e d ∙ ground arith

-- The offsets do not fall.
abbrev Rises : List MatchElement → Type 0
Rises [] = Unit
Rises (e ∷ []) = Unit
Rises (e ∷ next ∷ rest) = (e.str ≤ next.str) × Rises (next ∷ rest)

IsSorted-Rises : (ms : List MatchElement) → IsSorted is_behind ms → Rises ms
IsSorted-Rises [] h = tt
IsSorted-Rises (e ∷ []) h = tt
IsSorted-Rises (e ∷ next ∷ rest) (a, h) =
    let ordered : ltb next.str e.str ≡ false = sym (is_behind-offsets e next) ∙ a in
    (ground arith, IsSorted-Rises (next ∷ rest) h)

Rises-longer :
    (e next : MatchElement) (rest : List MatchElement)
    → Rises (e ∷ next ∷ rest)
    → Rises (record e { len = e.len + next.len } ∷ rest)
Rises-longer e next [] h = tt
Rises-longer e next (third ∷ rest) (a, (b, h)) = (omega arith, h)

-- Joining keeps the offset in front.
abbrev StartsAt : ℕ → List MatchElement → Type 0
StartsAt n [] = ⊥
StartsAt n (e ∷ rest) = e.str ≡ n

IsApart-cons :
    (e : MatchElement) (n : ℕ) (ms : List MatchElement)
    → StartsAt n ms
    → e.str ≤ n
    → e.str + e.len ≢ n
    → IsApart ms
    → IsApart (e ∷ ms)
IsApart-cons e n [] s l ne h = absurd s
IsApart-cons e n (next ∷ rest) s l ne h = (omega arith, (λ q. ne (q ∙ s)), h)

join_from-IsApart :
    (e : MatchElement) (rest : List MatchElement)
    → Rises (e ∷ rest)
    → StartsAt e.str (join_from e rest) × IsApart (join_from e rest)
unfolding join_from
join_from-IsApart e [] h = (refl, tt)
join_from-IsApart e (next ∷ rest) h =
    if_split (λ r. StartsAt e.str r × IsApart r) (e.str + e.len == next.str) _ _
      (λ q.
        join_from-IsApart (record e { len = e.len + next.len }) rest (Rises-longer e next rest h))
      (λ q.
        let (s, apart) = join_from-IsApart next rest h.1 in
        (refl, IsApart-cons e next.str _ s h.0 (ground arith) apart))

joined-covers :
    (x : ℕ) (e next : MatchElement)
    → (e.str + e.len == next.str) ≡ true
    → (if covers x (record e { len = e.len + next.len }) then 1 else 0)
      ≡ (if covers x e then 1 else 0) + (if covers x next then 1 else 0)
joined-covers x e next h = ground arith

join_from-covers :
    (x : ℕ) (e : MatchElement) (rest : List MatchElement)
    → count_of (covers x) (join_from e rest) ≡ count_of (covers x) (e ∷ rest)
unfolding join_from count_of
join_from-covers x e [] = refl
join_from-covers x e (next ∷ rest) =
    if_split (λ r. count_of (covers x) r ≡ count_of (covers x) (e ∷ next ∷ rest))
      (e.str + e.len == next.str) _ _
      (λ q. omega (
        arith,
        joined-covers x e next q,
        join_from-covers x (record e { len = e.len + next.len }) rest,
      ))
      (λ q. omega (arith, join_from-covers x next rest))

join_matches-both :
    (ms : List MatchElement)
    → IsSorted is_behind ms
    → IsApart (join_matches ms)
      × ((x : ℕ) → count_of (covers x) (join_matches ms) ≡ count_of (covers x) ms)
join_matches-both [] h = (tt, λ x. refl)
join_matches-both (e ∷ rest) h =
    ((join_from-IsApart e rest (IsSorted-Rises (e ∷ rest) h)).1, λ x. join_from-covers x e rest)

-- Joined elements, from any list in any order.
join_in-IsJoined : (n : ℕ) (pushed : MatchContext) → IsJoined (some n) pushed (join_in pushed)
join_in-IsJoined n pushed =
    let (ordered, (size, kept)) = mg_sort-IsSorted is_behind is_behind-asym pushed.matches in
    let (apart, counts) = join_matches-both (mg_sort is_behind pushed.matches) ordered in
    (apart, λ x. counts x ∙ kept (covers x))

with_joined-Joins : (o : Outcome) → Joins o (with_joined o)
unfolding match_context_reset
with_joined-Joins (ret, none) = refl
with_joined-Joins (none, some pushed) = (match_context_reset pushed, refl, refl, refl)
with_joined-Joins (some n, some pushed) = (join_in pushed, refl, refl, join_in-IsJoined n pushed)

-- mg_match gives what mg_match_alternatives gives. Behind a match, the elements of the context are
-- ordered by their offsets, none ends where the next one starts, and each byte of the text lies in as
-- many of them as among those that were pushed; without a match, none is left.
pub mg_match-Joins :
    (pat str : Bytes) (mcx : Option MatchContext)
    → Joins (mg_match_alternatives pat str mcx) (mg_match pat str mcx)
unfolding mg_match
mg_match-Joins pat str mcx = with_joined-Joins (mg_match_alternatives pat str mcx)
