-- ===== src/Match/Prefix.antt =====
-- The alternatives of a pattern in src/match.inl: mg_match_alternatives and match_prefix.
use civetweb.Base.{All-append, Bool, Bool-cases, Bytes, IsText, List, Option, [], if◌then◌else◌}
use civetweb.Base.{inl, inr, none, refl, some, subst, sym, ℕ, ◌++◌, ◌==◌, ◌∙◌, ◌∷◌, ◌≡◌, ◌⊎◌}
use civetweb.Match.{MatchContext, match_context_reset, is_case_sensitive, reset_in, mg_match_impl}
use civetweb.Match.{Outcome, or_right, alternatives_loop, mg_match_alternatives}
use civetweb.Match.Relation.{Matches}
use civetweb.Match.Longest.{Answers}
use civetweb.Match.Decides.{mode_of, same_mode_of, mg_match_impl_correct, mg_match_impl-same_mode}

-- The parts of a pattern between its | bytes; `left` is what the first one begins with.
pub split_at_bar : Bytes → Bytes → List Bytes
split_at_bar left [] = left ∷ []
split_at_bar left (c ∷ pat) =
    if c == b'|' then left ∷ split_at_bar [] pat else split_at_bar (left ++ c ∷ []) pat

-- `r` comes from the first of the alternatives that matches, and is -1 if none of them does.
abbrev pub AnswersFirst : Bool → Bytes → List Bytes → Option ℕ → Type 0
AnswersFirst cs str [] r = r ≡ none
AnswersFirst cs str (pat ∷ pats) r =
    ((n : ℕ) × (r ≡ some n) × Matches cs pat str n)
    ⊎ (((n : ℕ) → ¬ Matches cs pat str n) × AnswersFirst cs str pats r)

same-reset : (mcx : Option MatchContext) → is_case_sensitive (reset_in mcx) ≡ is_case_sensitive mcx
unfolding match_context_reset
same-reset none = refl
same-reset (some mcx) = refl

module _ (str : Bytes) (ts : IsText str) where
  AnswersFirst-last :
      (cs : Bool) (pat : Bytes) (r : Option ℕ)
      → Answers (Matches cs pat str) r
      → AnswersFirst cs str (pat ∷ []) r
  AnswersFirst-last cs pat none h = inr (h, refl)
  AnswersFirst-last cs pat (some n) h = inl (n, refl, h)

  AnswersFirst-or_right :
      (cs : Bool) (pat : Bytes) (pats : List Bytes) (o : Outcome)
      (right : Option MatchContext → Outcome)
      → is_case_sensitive o.1 ≡ cs
      → Answers (Matches cs pat str) o.0
      → ((m : Option MatchContext)
          → is_case_sensitive m ≡ cs
          → AnswersFirst cs str pats (right m).0)
      → AnswersFirst cs str (pat ∷ pats) (or_right o right).0
  AnswersFirst-or_right cs pat pats (some n, m) right s h rest = inl (n, refl, h)
  AnswersFirst-or_right cs pat pats (none, m) right s h rest = inr (h, rest m s)

  impl-Answers :
      (cs : Bool) (pat : Bytes) (mcx : Option MatchContext)
      → IsText pat
      → is_case_sensitive mcx ≡ cs
      → Answers (Matches cs pat str) (mg_match_impl pat 0 str mcx).0
  impl-Answers cs pat mcx tp s =
      subst (λ b. Answers (Matches b pat str) (mg_match_impl pat 0 str mcx).0)
        (sym (same_mode_of mcx) ∙ s) (mg_match_impl_correct pat 0 str mcx tp ts)

  alternatives_loop-AnswersFirst :
      (cs : Bool) (left pat : Bytes) (mcx : Option MatchContext)
      → IsText left
      → IsText pat
      → is_case_sensitive mcx ≡ cs
      → AnswersFirst cs str (split_at_bar left pat) (alternatives_loop left pat str mcx).0
  unfolding alternatives_loop split_at_bar
  alternatives_loop-AnswersFirst cs left [] mcx tl tp s =
      AnswersFirst-last cs left (mg_match_impl left 0 str mcx).0 (impl-Answers cs left mcx tl s)
  alternatives_loop-AnswersFirst cs left (c ∷ pat) mcx tl tp s = elim (Bool-cases (c == b'|')) [
    | inl e ↦ rw e (
        AnswersFirst-or_right cs left (split_at_bar [] pat) (mg_match_impl left 0 str mcx)
          (λ m. alternatives_loop [] pat str (reset_in m))
          (mg_match_impl-same_mode left 0 str mcx tl ts ∙ s) (impl-Answers cs left mcx tl s)
          λ m s'. alternatives_loop-AnswersFirst cs [] pat (reset_in m) tt tp.1 (same-reset m ∙ s'))
    | inr e ↦ rw e (
        alternatives_loop-AnswersFirst cs (left ++ c ∷ []) pat mcx
          (All-append _ left (c ∷ []) tl (tp.0, tt)) tp.1 s)
  ]

-- For a pattern and a text without a zero byte: the answer comes from the first of the |-separated
-- alternatives that matches the text, and is -1 exactly if none of them does.
pub mg_match_alternatives-AnswersFirst :
    (pat str : Bytes) (mcx : Option MatchContext)
    → IsText pat
    → IsText str
    → AnswersFirst (mode_of mcx) str (split_at_bar [] pat) (mg_match_alternatives pat str mcx).0
unfolding mg_match_alternatives
mg_match_alternatives-AnswersFirst pat str mcx tp ts =
    alternatives_loop-AnswersFirst str ts (mode_of mcx) [] pat (reset_in mcx) tt tp
      (same-reset mcx ∙ same_mode_of mcx)
