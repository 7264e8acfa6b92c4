-- ===== src/Form/Cookie/Value.antt =====
-- The value of a cookie in mg_get_cookie of src/civetweb.c.
use civetweb.Base.{==_iff, All, Bytes, [], ap, append-nil, ap₂, arith, if_split, inl, inr}
use civetweb.Base.{length, ltb, peek, refl, rest_of, subst, sym, true, ℕ, ◌&&◌, ◌++◌, ◌==◌, ◌∙◌}
use civetweb.Base.{◌∷◌, ◌≡◌, ◌≢◌, ◌⊎◌}
use civetweb.Form.Cookie.{
  quote, until_space, last_of, without_last, without_semicolon, without_quotes,
}

-- The text up to a space or the end, with or without a semicolon behind it, is `v` or is `v` in
-- quotes.
abbrev pub IsValue : Bytes → Bytes → Type 0
IsValue tail v =
    (core : Bytes) × (mark : Bytes) × (after : Bytes) × (tail ≡ (core ++ mark) ++ after)
    × All (λ c. c ≢ b' ') (core ++ mark)
    × ((after ≡ []) ⊎ (peek after ≡ b' '))
    × ((mark ≡ []) ⊎ (mark ≡ b';' ∷ []))
    × ((core ≡ v) ⊎ (core ≡ quote ∷ (v ++ quote ∷ [])))

until_space-split :
    (s : Bytes)
    → (after : Bytes) × (s ≡ until_space s ++ after)
      × All (λ c. c ≢ b' ') (until_space s)
      × ((after ≡ []) ⊎ (peek after ≡ b' '))
unfolding until_space
until_space-split [] = ([], refl, tt, inl refl)
until_space-split (c ∷ s) =
    let (after, e, all, stop) = until_space-split s in
    if_split
      (λ (r : Bytes).
        (after : Bytes) × (c ∷ s ≡ r ++ after)
        × All (λ c. c ≢ b' ') r
        × ((after ≡ []) ⊎ (peek after ≡ b' ')))
      (c == b' ') _ _ (λ q. (c ∷ s, refl, tt, inr ((==_iff c b' ').0 q)))
      (λ q. (after, ap (λ r. c ∷ r) e, ((λ f. ground arith), all), stop))

last_of-split : (c : ℕ) (s : Bytes) → without_last (c ∷ s) ++ last_of c s ∷ [] ≡ c ∷ s
unfolding last_of without_last
last_of-split c [] = refl
last_of-split c (d ∷ s) = ap (λ r. c ∷ r) (last_of-split d s)

ends_with :
    (s : Bytes) (b : ℕ) → b ≢ b'=' → (last_of b'=' s == b) ≡ true → s ≡ without_last s ++ b ∷ []
unfolding last_of
ends_with [] b n e = absurd (n (sym ((==_iff b'=' b).0 e)))
ends_with (c ∷ s) b n e =
    sym (last_of-split c s)
    ∙ ap (λ x. without_last (c ∷ s) ++ x ∷ []) ((==_iff (last_of c s) b).0 e)

abbrev Marked : Bytes → Bytes → Type 0
Marked raw core = (mark : Bytes) × (raw ≡ core ++ mark) × ((mark ≡ []) ⊎ (mark ≡ b';' ∷ []))

without_semicolon-Marked : (raw : Bytes) → Marked raw (without_semicolon raw)
unfolding without_semicolon
without_semicolon-Marked raw =
    if_split (Marked raw) (last_of b'=' raw == b';') _ _
      (λ e. (b';' ∷ [], ends_with raw b';' (λ q. absurd (omega arith)) e, inr refl))
      (λ e. ([], sym (append-nil raw), inl refl))

IsBare : Bytes → Bytes → Type 0
IsBare core v = (core ≡ v) ⊎ (core ≡ quote ∷ (v ++ quote ∷ []))

quoted :
    (core : Bytes)
    → (peek core == quote && (last_of b'=' core == quote && ltb 1 (length core))) ≡ true
    → core ≡ quote ∷ (without_last (rest_of core) ++ quote ∷ [])
unfolding last_of
quoted [] e = absurd (ground arith)
quoted (c ∷ []) e = absurd (ground arith)
quoted (c ∷ d ∷ s) e =
    let first : c ≡ quote = ground arith in
    let last : last_of d s ≡ quote = ground arith in
    ap₂ (λ x r. x ∷ r) first
      (sym (last_of-split d s) ∙ ap (λ x. without_last (d ∷ s) ++ x ∷ []) last)

without_quotes-IsBare : (core : Bytes) → IsBare core (without_quotes core)
unfolding without_quotes IsBare
without_quotes-IsBare core =
    if_split (IsBare core)
      (peek core == quote && (last_of b'=' core == quote && ltb 1 (length core))) _ _
      (λ e. inr (quoted core e)) (λ e. inl refl)

pub stripped-IsValue :
    (tail : Bytes) → IsValue tail (without_quotes (without_semicolon (until_space tail)))
unfolding IsBare
stripped-IsValue tail =
    let (after, e, all, stop) = until_space-split tail in
    let (mark, split, shape) = without_semicolon-Marked (until_space tail) in
    let core = without_semicolon (until_space tail) in
    (
      core,
      mark,
      after,
      e ∙ ap (λ r. r ++ after) split,
      subst (All (λ c. c ≢ b' ')) split all,
      stop,
      shape,
      without_quotes-IsBare core,
    )
