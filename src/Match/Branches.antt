-- ===== src/Match/Branches.antt =====
-- The branches of mg_match_impl in src/match.inl: ?, $, the stars and a single character.
use civetweb.Base.{==_iff, Bool, Bool-cases, Bytes, IsText, Option, [], ap, arith, false}
use civetweb.Base.{if◌then◌else◌, inl, inr, length, none, peek, refl, rest_of, some, true, ℕ}
use civetweb.Base.{◌+◌, ◌<◌, ◌==◌, ◌∙◌, ◌∷◌, ◌≡◌, ◌≢◌}
use civetweb.Text.{lowercase}
use civetweb.Ctype.{tolower}
use civetweb.Match.{MatchContext, Outcome}
use civetweb.Match.{is_case_sensitive, takes_one, same_char, segment_length, match_char}
use civetweb.Match.{last_star, add_to}
use civetweb.Match.Relation.{segment_length-BeginsFree, same_char_iff}
use civetweb.Match.Relation.{at_end, question, dollar, star, two_stars, char}
use civetweb.Match.Relation.{None-question, None-dollar, None-star, None-two_stars, None-differ}
use civetweb.Match.Relation.{None-char, None-nil, IsOther}
use civetweb.Match.Longest.{same-push, Decides, Found, not-Found, Decides-onward}
use civetweb.Match.Longest.{FoundWithin}

module _ (cs : Bool) where
  pub same_char_nul : (c : ℕ) → 0 < c → same_char cs c 0 ≡ false
  unfolding same_char lowercase tolower
  same_char_nul c h = elim (Bool-cases cs) [
    | inl e ↦ rw e (ground arith)
    | inr e ↦ rw e (ground arith)
  ]

  pub same_char_question : same_char cs b'?' b'/' ≡ false
  unfolding same_char lowercase tolower
  same_char_question = elim (Bool-cases cs) [ inl e ↦ rw e refl | inr e ↦ rw e refl ]

  pub char_is_no_question :
      (c x : ℕ) → 0 < x → takes_one c (x ∷ []) ≡ false → same_char cs c x ≡ true → c ≢ b'?'
  unfolding takes_one
  char_is_no_question c x h t s e =
      let e' : x ≡ b'/' = ground arith in
      cc (same_char_question, ap (λ y. same_char cs y x) e, ap (same_char cs b'?') e')

  pub match_char_nil :
      (c i : ℕ) (pat : Bytes) (mcx : Option MatchContext) (star_out onward : Outcome)
      → 0 < c
      → is_case_sensitive mcx ≡ cs
      → (c ≡ b'*' → Decides cs (Found cs i (c ∷ pat) []) star_out)
      → Decides cs (Found cs i (c ∷ pat) []) (match_char c i [] mcx star_out onward)
  unfolding match_char
  match_char_nil c i pat mcx star_out onward h s st = elim (Bool-cases (c == b'$')) [
    | inl e ↦ rw e (s, (0, omega arith, dollar ((==_iff c b'$').0 e) refl))
    | inr e ↦ rw e (elim (Bool-cases (c == b'*')) [
      | inl f ↦ rw f (st ((==_iff c b'*').0 f))
      | inr f ↦
          rw (f, s, same_char_nul c h)
            (s, not-Found cs i (c ∷ pat) [] (None-nil cs c pat (ground arith) (ground arith)))
    ])
  ]

  pub match_char_cons :
      (c i x : ℕ) (pat str : Bytes) (mcx : Option MatchContext) (star_out onward : Outcome)
      → 0 < x
      → takes_one c (x ∷ str) ≡ false
      → is_case_sensitive mcx ≡ cs
      → (c ≡ b'*' → Decides cs (Found cs i (c ∷ pat) (x ∷ str)) star_out)
      → Decides cs (Found cs (i + 1) pat str) onward
      → Decides cs (Found cs i (c ∷ pat) (x ∷ str)) (match_char c i (x ∷ str) mcx star_out onward)
  unfolding match_char
  match_char_cons c i x pat str mcx star_out onward h t s st on = elim (Bool-cases (c == b'$')) [
    | inl e ↦
        let zero_not : (x == 0) ≡ false = ground arith in
        rw (e, zero_not)
          (s, not-Found cs i (c ∷ pat) (x ∷ str) (None-dollar cs c x pat str ((==_iff c b'$').0 e)))
    | inr e ↦ rw e (elim (Bool-cases (c == b'*')) [
      | inl f ↦ rw f (st ((==_iff c b'*').0 f))
      | inr f ↦
          rw (f, s)
            (elim (Bool-cases (same_char cs c x)) [
              | inl g ↦
                  let o : IsOther c = (
                    char_is_no_question c x h (unfold takes_one in t) g,
                    ground arith,
                    ground arith,
                  ) in
                  rw g (
                    Decides-onward cs i c x pat str onward
                      (λ n d. char o ((same_char_iff cs c x).0 g) refl d)
                      (None-char cs c x pat str o) on)
              | inr g ↦ rw g (
                s,
                not-Found cs i (c ∷ pat) (x ∷ str)
                    (None-differ cs c x pat str (ground arith) (ground arith) t h g),
              )
            ])
    ])
  ]

  pub star-Found :
      (i c : ℕ) (pat str : Bytes) (o : Outcome)
      → c ≡ b'*'
      → peek pat ≢ b'*'
      → Decides cs (FoundWithin cs (segment_length str) pat str) o
      → Decides cs (Found cs i (c ∷ pat) str) (add_to i o)
  star-Found i c pat str (none, mcx) e f (s, h) = (
    s,
    not-Found cs i (c ∷ pat) str
        (None-star cs c pat str e f (λ k le n d. h (n + k) (k, n, le, refl, d))),
  )
  star-Found i c pat str (some m, mcx) e f (s, (k, n, le, eq, d)) =
      (s, (n + k, omega arith, star e f ((segment_length-BeginsFree k str).0 le) refl d))

  pub two_stars-Found :
      (i c d : ℕ) (pat str : Bytes) (o : Outcome)
      → c ≡ b'*'
      → d ≡ b'*'
      → Decides cs (FoundWithin cs (length str) pat str) o
      → Decides cs (Found cs i (c ∷ d ∷ pat) str) (add_to i o)
  two_stars-Found i c d pat str (none, mcx) e f (s, h) = (
    s,
    not-Found cs i (c ∷ d ∷ pat) str
        (None-two_stars cs c d pat str e f (λ k le n t. h (n + k) (k, n, le, refl, t))),
  )
  two_stars-Found i c d pat str (some m, mcx) e f (s, (k, n, le, eq, t)) =
      (s, (n + k, omega arith, two_stars e f le refl t))

  pub question-Found :
      (i c : ℕ) (pat str : Bytes) (o : Outcome)
      → takes_one c str ≡ true
      → Decides cs (Found cs (i + 1) pat (rest_of str)) o
      → Decides cs (Found cs i (c ∷ pat) str) o
  unfolding takes_one
  question-Found i c pat [] o t h = absurd (ground arith)
  question-Found i c pat (x ∷ str) o t h =
      let e : c ≡ b'?' = ground arith in
      let slash : x ≢ b'/' = ground arith in
      Decides-onward cs i c x pat str o (λ n d. question e slash refl d)
        (None-question cs c x pat str e) h

  -- The rest of a round, for a byte that takes no ? of the pattern.
  pub other-Found :
      (i c : ℕ) (pat str : Bytes) (mcx : Option MatchContext) (star_out onward : Outcome)
      → 0 < c
      → IsText str
      → takes_one c str ≡ false
      → is_case_sensitive mcx ≡ cs
      → (c ≡ b'*' → Decides cs (Found cs i (c ∷ pat) str) star_out)
      → Decides cs (Found cs (i + 1) pat (rest_of str)) onward
      → Decides cs (Found cs i (c ∷ pat) str) (match_char c i str mcx star_out onward)
  other-Found i c pat [] mcx star_out onward h t q s st on =
      match_char_nil c i pat mcx star_out onward h s st
  other-Found i c pat (x ∷ str) mcx star_out onward h t q s st on =
      match_char_cons c i x pat str mcx star_out onward t.0.0 q s st on

  pub last_star-Found :
      (base i c : ℕ) (str : Bytes) (mcx : Option MatchContext)
      → c ≡ b'*'
      → is_case_sensitive mcx ≡ cs
      → Decides cs (Found cs i (c ∷ []) str) (last_star base i (segment_length str) mcx)
  last_star-Found base i c str mcx e s = (
    same-push (base + i) (segment_length str) mcx ∙ s,
    (
      segment_length str,
      omega arith,
      star {k = segment_length str} {m = 0} e (omega arith)
          ((segment_length-BeginsFree _ str).0 (omega arith)) (omega arith) (at_end refl),
    ),
  )

  pub last_two_stars-Found :
      (base i c d : ℕ) (str : Bytes) (mcx : Option MatchContext)
      → c ≡ b'*'
      → d ≡ b'*'
      → is_case_sensitive mcx ≡ cs
      → Decides cs (Found cs i (c ∷ d ∷ []) str) (last_star base i (length str) mcx)
  last_two_stars-Found base i c d str mcx e f s = (
    same-push (base + i) (length str) mcx ∙ s,
    (
      length str,
      omega arith,
      two_stars {k = length str} {m = 0} e f (omega arith) (omega arith) (at_end refl),
    ),
  )

  pub IsText-rest_of : (s : Bytes) → IsText s → IsText (rest_of s)
  IsText-rest_of [] h = tt
  IsText-rest_of (c ∷ s) h = h.1

  -- One round of the loop, from what its three continuations find.
  pub step-Found :
      (i c : ℕ) (pat str : Bytes) (mcx : Option MatchContext)
      (question_out star_out onward : Outcome)
      → 0 < c
      → IsText str
      → is_case_sensitive mcx ≡ cs
      → Decides cs (Found cs (i + 1) pat (rest_of str)) question_out
      → (c ≡ b'*' → Decides cs (Found cs i (c ∷ pat) str) star_out)
      → Decides cs (Found cs (i + 1) pat (rest_of str)) onward
      → Decides cs
          (Found cs i (c ∷ pat) str)
          (if takes_one c str then question_out else match_char c i str mcx star_out onward)
  step-Found i c pat str mcx question_out star_out onward h t s qs st on =
      elim (Bool-cases (takes_one c str)) [
        | inl q ↦ rw q (question-Found i c pat str question_out q qs)
        | inr q ↦ rw q (other-Found i c pat str mcx star_out onward h t q s st on)
      ]

  -- The two branches for a *, with the next byte of the pattern.
  pub star_branch :
      (i c d : ℕ) (pat str : Bytes) (two_out one_out : Outcome)
      → c ≡ b'*'
      → (d ≡ b'*' → Decides cs (Found cs i (c ∷ d ∷ pat) str) two_out)
      → Decides cs (FoundWithin cs (segment_length str) (d ∷ pat) str) one_out
      → Decides cs (Found cs i (c ∷ d ∷ pat) str) (if d == b'*' then two_out else add_to i one_out)
  star_branch i c d pat str two_out one_out e two one = elim (Bool-cases (d == b'*')) [
    | inl f ↦ rw f (two ((==_iff d b'*').0 f))
    | inr f ↦ rw f (star-Found i c (d ∷ pat) str one_out e (ground arith) one)
  ]
