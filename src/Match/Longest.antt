-- ===== src/Match/Longest.antt =====
-- The loop of mg_match_impl in src/match.inl that looks for the longest match of a star.
use civetweb.Base.{Bool, Bytes, IsText, IsText-drop, Option, arith}
use civetweb.Base.{drop, inl, inr, le_split, none, refl}
use civetweb.Base.{some, subst, suc, zero, ℕ, ◌+◌, ◌-◌, ◌∙◌, ◌∷◌, ◌≡◌}
use civetweb.Base.{◌≤◌}
use civetweb.Match.{MatchContext, Outcome, Matcher, match_context_push, push_to, close_run}
use civetweb.Match.{is_case_sensitive, longest}
use civetweb.Match.{round}
use civetweb.Match.Relation.{Matches, None}

-- The answer is right about `P`: a number for which it holds, or -1 if there is none.
abbrev pub Answers : (ℕ → Type 0) → Option ℕ → Type 0
Answers P none = (n : ℕ) → ¬ P n
Answers P (some n) = P n

pub same-push :
    (str len : ℕ) (mcx : Option MatchContext)
    → is_case_sensitive (push_to str len mcx) ≡ is_case_sensitive mcx
unfolding match_context_push
same-push str len none = refl
same-push str len (some mcx) = ground arith

pub same-close_run :
    (base i : ℕ) (run : Option ℕ) (mcx : Option MatchContext)
    → is_case_sensitive (close_run base i run mcx) ≡ is_case_sensitive mcx
same-close_run base i none mcx = refl
same-close_run base i (some start) mcx = same-push (base + start) (i - start) mcx

module _ (cs : Bool) where
  -- The context keeps its mode, and the answer is right.
  abbrev pub Decides : (ℕ → Type 0) → Outcome → Type 0
  Decides P o = (is_case_sensitive o.1 ≡ cs) × Answers P o.0

  -- A match of `pat` that brings the index in the text from `i` to `m`.
  abbrev pub Found : ℕ → Bytes → Bytes → ℕ → Type 0
  Found i pat str m = (n : ℕ) × (m ≡ n + i) × Matches cs pat str n

  pub not-Found : (i : ℕ) (pat str : Bytes) → None cs pat str → (m : ℕ) → ¬ Found i pat str m
  not-Found i pat str h m (n, e, d) = h n d

  pub None-of_not-Found :
      (i : ℕ) (pat str : Bytes) → ((m : ℕ) → ¬ Found i pat str m) → None cs pat str
  None-of_not-Found i pat str h n d = h (n + i) (n, refl, d)

  -- A round that takes one byte of both.
  pub Decides-onward :
      (i c x : ℕ) (pat str : Bytes) (o : Outcome)
      → ((n : ℕ) → Matches cs pat str n → Matches cs (c ∷ pat) (x ∷ str) (suc n))
      → (None cs pat str → None cs (c ∷ pat) (x ∷ str))
      → Decides (Found (i + 1) pat str) o
      → Decides (Found i (c ∷ pat) (x ∷ str)) o
  Decides-onward i c x pat str (none, mcx) f g (s, h) =
      (s, not-Found i (c ∷ pat) (x ∷ str) (g (None-of_not-Found (i + 1) pat str h)))
  Decides-onward i c x pat str (some m, mcx) f g (s, (n, e, d)) = (s, (suc n, omega arith, f n d))

  -- What the loop for * finds within `len` bytes.
  abbrev pub FoundWithin : ℕ → Bytes → Bytes → ℕ → Type 0
  FoundWithin len pat str m =
      (k : ℕ) × (n : ℕ) × (k ≤ len) × (m ≡ n + k) × Matches cs pat (drop k str) n

  abbrev pub DecidesAll : Bytes → Matcher → Type 0
  DecidesAll pat next =
      (at : ℕ) (s : Bytes) (m : Option MatchContext)
      → IsText s
      → is_case_sensitive m ≡ cs
      → Decides (Found 0 pat s) (next at s m)

  pub round-Decides :
      (pat str : Bytes) (at k len : ℕ) (o : Outcome) (shorter : Option MatchContext → Outcome)
      → k ≤ len
      → Decides (Found 0 pat (drop k str)) o
      → (None cs pat (drop k str)
          → (m : Option MatchContext) → is_case_sensitive m ≡ cs
          → Decides (FoundWithin len pat str) (shorter m))
      → Decides (FoundWithin len pat str) (round at k o shorter)
  round-Decides pat str at k len (none, mcx) shorter le (s, h) rest =
      rest (None-of_not-Found 0 pat (drop k str) h) mcx s
  round-Decides pat str at k len (some r, mcx) shorter le (s, (n, e, d)) rest =
      (same-push at k mcx ∙ s, (k, n, le, omega arith, d))

  pub FoundWithin-weaken :
      (len : ℕ) (pat str : Bytes) (o : Outcome)
      → None cs pat (drop (suc len) str)
      → Decides (FoundWithin len pat str) o
      → Decides (FoundWithin (suc len) pat str) o
  FoundWithin-weaken len pat str (some m, mcx) fails (s, (k, n, le, e, d)) =
      (s, (k, n, omega arith, e, d))
  FoundWithin-weaken len pat str (none, mcx) fails (s, h) = (
    s,
    λ m (k, n, le, e, d). elim (le_split k (suc len) le) [
      | inl eq ↦ fails n (subst (λ j. Matches cs pat (drop j str) n) eq d)
      | inr lt ↦ h m (k, n, omega arith, e, d)
    ],
  )

  pub longest-Decides :
      (pat str : Bytes) (next : Matcher) (at len : ℕ) (mcx : Option MatchContext)
      → IsText str
      → is_case_sensitive mcx ≡ cs
      → DecidesAll pat next
      → Decides (FoundWithin len pat str) (longest next at str len mcx)
  unfolding longest
  longest-Decides pat str next at zero mcx t s all =
      round-Decides pat str at 0 0 (next at str mcx) _ (omega arith) (all at str mcx t s)
        λ fails m s'. (
          s',
          λ j (k, n, le, e, d).
              let zero_k : k ≡ 0 = omega arith in
              fails n (subst (λ i. Matches cs pat (drop i str) n) zero_k d),
        )
  longest-Decides pat str next at (suc len) mcx t s all =
      round-Decides pat str at (suc len) (suc len) (next (at + suc len) (drop (suc len) str) mcx) _
        (omega arith) (all (at + suc len) (drop (suc len) str) mcx (IsText-drop (suc len) str t) s)
        λ fails m s'.
          FoundWithin-weaken len pat str (longest next at str len m) fails
            (longest-Decides pat str next at len m t s' all)
