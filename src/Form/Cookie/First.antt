-- ===== src/Form/Cookie/First.antt =====
-- The place that the loop of mg_get_cookie in src/civetweb.c finds.
use civetweb.Base.{All, Bytes, IsText, IsText-drop, Option, [], ap, arith, drop, false, get_or}
use civetweb.Base.{if_split, inl, inr, le_split, length, length-drop, map, none, peek, refl}
use civetweb.Base.{rest_of, some, subst, suc, sym, take, true, zero, ℕ, ◌+◌, ◌-◌, ◌<◌, ◌∙◌, ◌∷◌}
use civetweb.Base.{◌≡◌, ◌≢◌, ◌≤◌, ◌⊎◌}
use civetweb.Ctype.{tolower}
use civetweb.Text.Search.{OccursAt, IsFirst, mg_strcasestr-IsFirst}
use civetweb.Form.Cookie.{
  CookieSearch, endless, missing, value_at, is_whole_name, cookie_round, cookie_loop,
}

-- The name stands at the start or behind a space, but for the case of letters, and = behind it.
abbrev pub IsCookieAt : Bytes → Bytes → ℕ → Type 0
IsCookieAt header name j =
    OccursAt header name j
    × (get_or header (j + length name) 0 ≡ b'=')
    × ((j ≡ 0) ⊎ (get_or header (j - 1) 0 ≡ b' '))

-- The search from `lo` on finds the first such place.
abbrev pub IsFirstCookie : Bytes → Bytes → ℕ → CookieSearch → Type 0
IsFirstCookie header name lo endless = ⊥
IsFirstCookie header name lo missing = (j : ℕ) → lo ≤ j → ¬ IsCookieAt header name j
IsFirstCookie header name lo (value_at s) =
    (j : ℕ) × (s ≡ j + length name + 1)
    × (lo ≤ j)
    × IsCookieAt header name j
    × ((i : ℕ) → lo ≤ i → i < j → ¬ IsCookieAt header name i)

drop-drop : (s k n : ℕ) (xs : Bytes) → n ≡ s + k → drop k (drop s xs) ≡ drop n xs
drop-drop zero k n xs e = ap (λ i. drop i xs) (omega arith)
drop-drop (suc s) k zero xs e = absurd (omega arith)
drop-drop (suc s) zero (suc n) [] e = refl
drop-drop (suc s) (suc k) (suc n) [] e = refl
drop-drop (suc s) k (suc n) (x ∷ xs) e = drop-drop s k n xs (omega arith)

get_or-drop : (p m n : ℕ) (xs : Bytes) → n ≡ p + m → get_or (drop p xs) m 0 ≡ get_or xs n 0
get_or-drop zero m n xs e = ap (λ i. get_or xs i 0) (omega arith)
get_or-drop (suc p) m zero xs e = absurd (omega arith)
get_or-drop (suc p) m (suc n) [] e = refl
get_or-drop (suc p) m (suc n) (x ∷ xs) e = get_or-drop p m n xs (omega arith)

get_or-inside : (xs : Bytes) (i : ℕ) → get_or xs i 0 ≢ 0 → i < length xs
get_or-inside [] zero n = absurd (n refl)
get_or-inside [] (suc i) n = absurd (n refl)
get_or-inside (x ∷ xs) zero n = omega arith
get_or-inside (x ∷ xs) (suc i) n = omega (arith, get_or-inside xs i n)

occurs_char :
    (s name : Bytes) (m : ℕ)
    → take (length name) (map tolower s) ≡ map tolower name
    → m < length name
    → tolower (get_or s m 0) ≡ tolower (get_or name m 0)
occurs_char s [] m e l = absurd (omega arith)
occurs_char [] (c ∷ name) m e l = absurd (omega (arith, ap (λ r. length r) e))
occurs_char (x ∷ s) (c ∷ name) zero e l = ap peek e
occurs_char (x ∷ s) (c ∷ name) (suc m) e l = occurs_char s name m (ap rest_of e) (omega arith)

All-get_or : (xs : Bytes) (m : ℕ) → All (λ c. c ≢ b' ') xs → m < length xs → get_or xs m 0 ≢ b' '
All-get_or [] m h l = absurd (omega arith)
All-get_or (x ∷ xs) zero h l = h.0
All-get_or (x ∷ xs) (suc m) h l = All-get_or xs m h.1 (omega arith)

tolower-space : (c d : ℕ) → tolower c ≡ tolower d → c ≡ b' ' → d ≡ b' '
unfolding tolower
tolower-space c d e f = ground arith

-- Where the loop goes on.
between :
    (header name : Bytes) (p j : ℕ)
    → All (λ c. c ≢ b' ') name
    → OccursAt header name p
    → p < j
    → j < p + length name
    → ¬ IsCookieAt header name j
between header name p j h o l r (occurs, equals, inl start) = absurd (omega (arith, start))
between header name p j h o l r (occurs, equals, inr space) =
    let m = j - 1 - p in
    let same = occurs_char (drop p header) name m o (omega arith) in
    let here = get_or-drop p m (j - 1) header (omega arith) ∙ space in
    All-get_or name m h (omega arith) (tolower-space _ _ same here)

module _ (header name : Bytes) (text_h : IsText header) (text_n : IsText name)
    (some_name : 0 < length name) (no_space : All (λ c. c ≢ b' ') name) where
  from_start : (s j i : ℕ) → i ≡ s + j → OccursAt (drop s header) name j ≡ OccursAt header name i
  from_start s j i e =
      ap (λ r. take (length name) (map tolower r) ≡ map tolower name) (drop-drop s j i header e)

  is_whole_name-IsCookieAt :
      (j : ℕ)
      → OccursAt header name j
      → is_whole_name header (length name) j ≡ true
      → IsCookieAt header name j
  unfolding is_whole_name
  is_whole_name-IsCookieAt j o h = (o, ground arith, ground arith)

  IsCookieAt-is_whole_name :
      (j : ℕ) → is_whole_name header (length name) j ≡ false → ¬ IsCookieAt header name j
  unfolding is_whole_name
  IsCookieAt-is_whole_name j h (o, e, inl z) = absurd (ground arith)
  IsCookieAt-is_whole_name j h (o, e, inr z) = absurd (ground arith)

  in_front : (s j : ℕ) → s ≤ j → OccursAt header name j → OccursAt (drop s header) name (j - s)
  in_front s j l o = subst (λ T. T) (sym (from_start s (j - s) j (omega arith))) o

  room :
      (s j : ℕ)
      → s ≤ j
      → IsCookieAt header name j
      → j - s < length (drop s header) + 1 - length name
  room s j l (o, equals, start) =
      let inside =
        get_or-inside header (j + length name) (λ z. absurd (omega (arith, z, equals))) in
      omega (arith, inside, length-drop s header)

  split_at : (mid j : ℕ) → (mid ≤ j) ⊎ (j < mid)
  split_at mid j = ground arith

  later :
      (lo mid : ℕ) (c : CookieSearch)
      → lo ≤ mid
      → ((j : ℕ) → lo ≤ j → j < mid → ¬ IsCookieAt header name j)
      → IsFirstCookie header name mid c
      → IsFirstCookie header name lo c
  later lo mid endless l none_yet h = h
  later lo mid missing l none_yet h =
      λ j p. elim (split_at mid j) [ inl q ↦ h j q | inr q ↦ none_yet j p q ]
  later lo mid (value_at s) l none_yet (j, e, p, c, first) = (
    j,
    e,
    omega arith,
    c,
    λ i q r. elim (split_at mid i) [ inl t ↦ first i t r | inr t ↦ none_yet i q t ],
  )

  not_here :
      (p j : ℕ)
      → OccursAt header name p
      → is_whole_name header (length name) p ≡ false
      → p ≤ j
      → j < p + length name
      → ¬ IsCookieAt header name j
  not_here p j o e l r = elim (le_split p j l) [
    | inl q ↦ rw (← q) (IsCookieAt-is_whole_name p e)
    | inr q ↦ between header name p j no_space o (omega arith) r
  ]

  round-IsFirstCookie :
      (s : ℕ) (r : Option ℕ) (again : ℕ → CookieSearch)
      → s ≤ length header
      → IsFirst (drop s header) name 0 (length (drop s header) + 1 - length name) r
      → ((next : ℕ) → s < next → next ≤ length header → IsFirstCookie header name next (again next))
      → IsFirstCookie header name s (cookie_round header (length name) s r again)
  round-IsFirstCookie s none again l f go =
      λ j p c. f (j - s) (omega arith) (room s j p c) (in_front s j p c.0)
  round-IsFirstCookie s (some k) again l (low, high, o, first) go =
      let here : OccursAt header name (s + k) = subst (λ T. T) (from_start s k (s + k) refl) o in
      let none_before : (j : ℕ) → s ≤ j → j < s + k → ¬ IsCookieAt header name j =
        λ j p q c. first (j - s) (omega arith) (omega arith) (in_front s j p c.0) in
      if_split (IsFirstCookie header name s) (is_whole_name header (length name) (s + k)) _ _
        (λ e. (s + k, refl, omega arith, is_whole_name-IsCookieAt (s + k) here e, none_before))
        (λ e. later s (s + k) _ (omega arith) none_before (
          later (s + k) (s + k + length name) _ (omega arith)
            (λ j p q. not_here (s + k) j here e p q)
            (go (s + k + length name) (omega arith) (omega (arith, length-drop s header)))))

  pub cookie_loop-IsFirstCookie :
      (fuel s : ℕ)
      → s ≤ length header
      → length header < s + fuel
      → IsFirstCookie header name s (cookie_loop fuel header name s)
  unfolding cookie_loop
  cookie_loop-IsFirstCookie zero s l f = absurd (omega arith)
  cookie_loop-IsFirstCookie (suc fuel) s l f =
      round-IsFirstCookie s _ _ l
        (mg_strcasestr-IsFirst (drop s header) name (IsText-drop s header text_h) text_n)
        (λ next p q. cookie_loop-IsFirstCookie fuel next q (omega arith))
