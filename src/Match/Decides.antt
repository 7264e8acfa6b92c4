-- ===== src/Match/Decides.antt =====
-- mg_match_impl of src/match.inl decides what a pattern matches.
use civetweb.Base.{Bool, Bytes, IsText, Option, [], arith, false, if◌then◌else◌, length, none}
use civetweb.Base.{refl, rest_of, some, subst, ℕ, ◌+◌, ◌==◌, ◌∙◌, ◌∷◌, ◌≡◌}
use civetweb.Match.{MatchContext, close_run}
use civetweb.Match.{is_case_sensitive, segment_length, longest}
use civetweb.Match.{run_start, last_star, add_to, match_loop, mg_match_impl}
use civetweb.Match.Relation.{Matches, at_end}
use civetweb.Match.Longest.{Answers, same-close_run, Decides, Found, None-of_not-Found}
use civetweb.Match.Longest.{longest-Decides}
use civetweb.Match.Branches.{
  two_stars-Found, last_star-Found, last_two_stars-Found, IsText-rest_of, step-Found,
}
use civetweb.Match.Branches.{star_branch}

module _ (cs : Bool) where
  match_loop-Decides :
      (pat : Bytes) (run : Option ℕ) (base i : ℕ) (str : Bytes) (mcx : Option MatchContext)
      → IsText pat
      → IsText str
      → is_case_sensitive mcx ≡ cs
      → Decides cs (Found cs i pat str) (match_loop pat run base i str mcx)
  unfolding match_loop
  match_loop-Decides [] run base i str mcx tp ts s =
      (same-close_run base i run mcx ∙ s, (0, omega arith, at_end refl))
  match_loop-Decides (c ∷ []) run base i str mcx tp ts s =
      let s' = same-close_run base i run mcx ∙ s in
      let tr = IsText-rest_of cs str ts in
      let mcx' = close_run base i run mcx in
      step-Found cs i c [] str mcx'
        (match_loop [] (some (run_start run i)) base (i + 1) (rest_of str) mcx)
        (last_star base i (segment_length str) mcx')
        (match_loop [] none base (i + 1) (rest_of str) mcx') tp.0.0 ts s'
        (match_loop-Decides [] (some (run_start run i)) base (i + 1) (rest_of str) mcx tt tr s)
        (λ e. last_star-Found cs base i c str mcx' e s')
        (match_loop-Decides [] none base (i + 1) (rest_of str) mcx' tt tr s')
  match_loop-Decides (c ∷ d ∷ []) run base i str mcx tp ts s =
      let s' = same-close_run base i run mcx ∙ s in
      let tr = IsText-rest_of cs str ts in
      let mcx' = close_run base i run mcx in
      let next =
        λ (at : ℕ) (s : Bytes) (m : Option MatchContext). match_loop (d ∷ []) none at 0 s m in
      let one_out = longest next (base + i) str (segment_length str) mcx' in
      step-Found cs i c (d ∷ []) str mcx'
        (match_loop (d ∷ []) (some (run_start run i)) base (i + 1) (rest_of str) mcx)
        (if d == b'*' then last_star base i (length str) mcx' else add_to i one_out)
        (match_loop (d ∷ []) none base (i + 1) (rest_of str) mcx') tp.0.0 ts s'
        (match_loop-Decides (d ∷ []) (some (run_start run i)) base (i + 1) (rest_of str) mcx tp.1 tr
          s)
        (λ e.
          star_branch cs i c d [] str _ one_out e
            (λ f. last_two_stars-Found cs base i c d str mcx' e f s')
            (longest-Decides cs (d ∷ []) str next (base + i) (segment_length str) mcx' ts s'
              (λ at u m tu su. match_loop-Decides (d ∷ []) none at 0 u m tp.1 tu su)))
        (match_loop-Decides (d ∷ []) none base (i + 1) (rest_of str) mcx' tp.1 tr s')
  match_loop-Decides (c ∷ d ∷ e ∷ pat) run base i str mcx tp ts s =
      let s' = same-close_run base i run mcx ∙ s in
      let tr = IsText-rest_of cs str ts in
      let mcx' = close_run base i run mcx in
      let after_one =
        λ (at : ℕ) (s : Bytes) (m : Option MatchContext). match_loop (d ∷ e ∷ pat) none at 0 s m in
      let after_two =
        λ (at : ℕ) (s : Bytes) (m : Option MatchContext). match_loop (e ∷ pat) none at 0 s m in
      let one_out = longest after_one (base + i) str (segment_length str) mcx' in
      let two_out = longest after_two (base + i) str (length str) mcx' in
      step-Found cs i c (d ∷ e ∷ pat) str mcx'
        (match_loop (d ∷ e ∷ pat) (some (run_start run i)) base (i + 1) (rest_of str) mcx)
        (if d == b'*' then add_to i two_out else add_to i one_out)
        (match_loop (d ∷ e ∷ pat) none base (i + 1) (rest_of str) mcx') tp.0.0 ts s'
        (match_loop-Decides (d ∷ e ∷ pat) (some (run_start run i)) base (i + 1) (rest_of str) mcx
          tp.1 tr s)
        (λ g.
          star_branch cs i c d (e ∷ pat) str (add_to i two_out) one_out g
            (λ f. two_stars-Found cs i c d (e ∷ pat) str two_out g f (
              longest-Decides cs (e ∷ pat) str after_two (base + i) (length str) mcx' ts s'
                (λ at u m tu su. match_loop-Decides (e ∷ pat) none at 0 u m tp.1.1 tu su)))
            (longest-Decides cs (d ∷ e ∷ pat) str after_one (base + i) (segment_length str) mcx' ts
              s' (λ at u m tu su. match_loop-Decides (d ∷ e ∷ pat) none at 0 u m tp.1 tu su)))
        (match_loop-Decides (d ∷ e ∷ pat) none base (i + 1) (rest_of str) mcx' tp.1 tr s')

Answers-Found :
    (cs : Bool) (pat str : Bytes) (r : Option ℕ)
    → Answers (Found cs 0 pat str) r
    → Answers (Matches cs pat str) r
Answers-Found cs pat str none h = None-of_not-Found cs 0 pat str h
Answers-Found cs pat str (some m) (n, e, d) =
    let e' : n ≡ m = omega arith in subst (Matches cs pat str) e' d

-- The context keeps its mode.
pub mg_match_impl-same_mode :
    (pat : Bytes) (at : ℕ) (str : Bytes) (mcx : Option MatchContext)
    → IsText pat
    → IsText str
    → is_case_sensitive (mg_match_impl pat at str mcx).1 ≡ is_case_sensitive mcx
unfolding mg_match_impl
mg_match_impl-same_mode pat at str mcx tp ts =
    (match_loop-Decides (is_case_sensitive mcx) pat none at 0 str mcx tp ts refl).0

-- A match is case sensitive if there is a context that asks for it.
abbrev pub mode_of : Option MatchContext → Bool
mode_of none = false
mode_of (some mcx) = mcx.case_sensitive

pub same_mode_of : (mcx : Option MatchContext) → is_case_sensitive mcx ≡ mode_of mcx
same_mode_of none = refl
same_mode_of (some mcx) = refl

-- For a pattern and a text without a zero byte, `mg_match_impl` answers a length to which the
-- pattern matches the text, and -1 only if the pattern matches to no length. There ? takes one byte
-- and * a run of bytes that are no /, ** takes any bytes, $ stands for the end of the text, and any
-- other byte takes itself, in either case unless there is a context that asks for the same case.
pub mg_match_impl_correct :
    (pat : Bytes) (at : ℕ) (str : Bytes) (mcx : Option MatchContext)
    → IsText pat
    → IsText str
    → Answers (Matches (mode_of mcx) pat str) (mg_match_impl pat at str mcx).0
unfolding mg_match_impl
mg_match_impl_correct pat at str mcx tp ts =
    Answers-Found (mode_of mcx) pat str (match_loop pat none at 0 str mcx).0
      (match_loop-Decides (mode_of mcx) pat none at 0 str mcx tp ts (same_mode_of mcx)).1
