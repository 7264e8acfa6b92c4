-- ===== src/Match/Relation.antt =====
-- What the patterns of src/match.inl mean, with no order of search in it. The text is what the
-- pattern has in front of it, and the number how many of its bytes are matched.
use civetweb.Base.{==_iff, All, Bool, Bytes, [], arith, drop, false, if_split, length, peek, suc}
use civetweb.Base.{take, true, zero, ℕ, ◌+◌, ◌<◌, ◌==◌, ◌↔◌, ◌∷◌, ◌≡◌, ◌≢◌, ◌≤◌}
use civetweb.Ctype.{tolower}
use civetweb.Text.{lowercase}
use civetweb.Match.{same_char, takes_one, segment_length}

-- The text begins with `k` bytes that are no /.
abbrev pub BeginsFree : ℕ → Bytes → Type 0
BeginsFree k str = (k ≤ length str) × All (λ x. x ≢ b'/') (take k str)

pub segment_length-BeginsFree : (k : ℕ) (str : Bytes) → (k ≤ segment_length str) ↔ BeginsFree k str
unfolding segment_length
segment_length-BeginsFree zero str = ((λ h. (omega arith, tt)), λ h. omega arith)
segment_length-BeginsFree (suc k) [] =
    ((λ h. absurd (omega arith)), λ h. absurd (omega (arith, h.0)))
segment_length-BeginsFree (suc k) (c ∷ str) =
    let ih = segment_length-BeginsFree k str in
    if_split (λ n. (suc k ≤ n) ↔ BeginsFree (suc k) (c ∷ str)) (c == b'/') _ _
      (λ e. ((λ h. absurd (omega arith)), λ h. absurd (h.1.0 ((==_iff c b'/').0 e))))
      (λ e. (
        (λ h. let r = ih.0 (omega arith) in (omega (arith, r.0), ((λ q. ground arith), r.1))),
        λ h. omega (arith, ih.1 (omega (arith, h.0), h.1.1)),
      ))

-- Two bytes are the same, but for the case of letters unless the matching is case sensitive.
abbrev pub SameChar : Bool → ℕ → ℕ → Type 0
SameChar true c x = c ≡ x
SameChar false c x = tolower c ≡ tolower x

pub same_char_iff : (cs : Bool) (c x : ℕ) → (same_char cs c x ≡ true) ↔ SameChar cs c x
unfolding same_char lowercase
same_char_iff true c x = ==_iff c x
same_char_iff false c x = ==_iff (tolower c) (tolower x)

-- A byte with no meaning of its own.
abbrev pub IsOther : ℕ → Type 0
IsOther c = (c ≢ b'?') × (c ≢ b'$') × (c ≢ b'*')

pub data Matches (cs : Bool) : Bytes → Bytes → ℕ → Type 0 where
  -- The end of the pattern matches nothing: what follows in the text does not matter.
  at_end : {str : Bytes} {n : ℕ} → n ≡ 0 → Matches cs [] str n
  -- ? takes one byte other than /.
  question :
      {c x : ℕ} {pat str : Bytes} {n m : ℕ}
      → c ≡ b'?'
      → x ≢ b'/'
      → n ≡ suc m
      → Matches cs pat str m
      → Matches cs (c ∷ pat) (x ∷ str) n
  -- $ stands for the end of the text: what follows in the pattern does not matter.
  dollar : {c : ℕ} {pat : Bytes} {n : ℕ} → c ≡ b'$' → n ≡ 0 → Matches cs (c ∷ pat) [] n
  -- * takes bytes as long as they are no /.
  star :
      {c k : ℕ} {pat str : Bytes} {n m : ℕ}
      → c ≡ b'*'
      → peek pat ≢ b'*'
      → BeginsFree k str
      → n ≡ m + k
      → Matches cs pat (drop k str) m
      → Matches cs (c ∷ pat) str n
  -- ** takes any bytes.
  two_stars :
      {c d k : ℕ} {pat str : Bytes} {n m : ℕ}
      → c ≡ b'*'
      → d ≡ b'*'
      → k ≤ length str
      → n ≡ m + k
      → Matches cs pat (drop k str) m
      → Matches cs (c ∷ d ∷ pat) str n
  -- Any other byte takes itself, in either case unless the matching is case sensitive.
  char :
      {c x : ℕ} {pat str : Bytes} {n m : ℕ}
      → IsOther c
      → SameChar cs c x
      → n ≡ suc m
      → Matches cs pat str m
      → Matches cs (c ∷ pat) (x ∷ str) n

module _ (cs : Bool) where
  abbrev pub None : Bytes → Bytes → Type 0
  None pat str = (n : ℕ) → ¬ Matches cs pat str n

  pub None-question :
      (c x : ℕ) (pat str : Bytes) → c ≡ b'?' → None pat str → None (c ∷ pat) (x ∷ str)
  None-question c x pat str e h n (question {m} _ _ _ d) = h m d
  None-question c x pat str e h n (star f _ _ _ _) = omega arith
  None-question c x pat str e h n (two_stars f _ _ _ _) = omega arith
  None-question c x pat str e h n (char o _ _ _) = o.0 e

  pub None-dollar : (c x : ℕ) (pat str : Bytes) → c ≡ b'$' → None (c ∷ pat) (x ∷ str)
  None-dollar c x pat str e n (question f _ _ _) = omega arith
  None-dollar c x pat str e n (star f _ _ _ _) = omega arith
  None-dollar c x pat str e n (two_stars f _ _ _ _) = omega arith
  None-dollar c x pat str e n (char o _ _ _) = o.1 e

  pub None-two_stars :
      (c d : ℕ) (pat str : Bytes)
      → c ≡ b'*'
      → d ≡ b'*'
      → ((k : ℕ) → k ≤ length str → None pat (drop k str))
      → None (c ∷ d ∷ pat) str
  None-two_stars c d pat str e f h n (question g _ _ _) = omega arith
  None-two_stars c d pat str e f h n (dollar g _) = omega arith
  None-two_stars c d pat str e f h n (star _ g _ _ _) = g f
  None-two_stars c d pat str e f h n (two_stars {k} {m} _ _ le _ t) = h k le m t
  None-two_stars c d pat str e f h n (char o _ _ _) = o.2 e

  pub None-star :
      (c : ℕ) (pat str : Bytes)
      → c ≡ b'*'
      → peek pat ≢ b'*'
      → ((k : ℕ) → k ≤ segment_length str → None pat (drop k str))
      → None (c ∷ pat) str
  None-star c pat str e f h n (question g _ _ _) = omega arith
  None-star c pat str e f h n (dollar g _) = omega arith
  None-star c pat str e f h n (star {k} {m} _ _ le _ t) =
      h k ((segment_length-BeginsFree k str).1 le) m t
  None-star c pat str e f h n (two_stars _ g _ _ _) = f g
  None-star c pat str e f h n (char o _ _ _) = o.2 e

  -- A byte that differs, and the end of the text, match no other character.
  pub None-differ :
      (c x : ℕ) (pat str : Bytes)
      → c ≢ b'$'
      → c ≢ b'*'
      → takes_one c (x ∷ str) ≡ false
      → 0 < x
      → same_char cs c x ≡ false
      → None (c ∷ pat) (x ∷ str)
  unfolding takes_one
  None-differ c x pat str p q t h s n (question g k _ _) = ground arith
  None-differ c x pat str p q t h s n (star g _ _ _ _) = q g
  None-differ c x pat str p q t h s n (two_stars g _ _ _ _) = q g
  None-differ c x pat str p q t h s n (char _ k _ _) = let same = (same_char_iff cs c x).1 k in cc

  pub None-char : (c x : ℕ) (pat str : Bytes) → IsOther c → None pat str → None (c ∷ pat) (x ∷ str)
  None-char c x pat str o h n (question g _ _ _) = o.0 g
  None-char c x pat str o h n (star g _ _ _ _) = o.2 g
  None-char c x pat str o h n (two_stars g _ _ _ _) = o.2 g
  None-char c x pat str o h n (char {m} _ _ _ d) = h m d

  pub None-nil : (c : ℕ) (pat : Bytes) → c ≢ b'$' → c ≢ b'*' → None (c ∷ pat) []
  None-nil c pat p q n (dollar g _) = p g
  None-nil c pat p q n (star g _ _ _ _) = q g
  None-nil c pat p q n (two_stars g _ _ _ _) = q g
