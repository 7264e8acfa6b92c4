-- ===== src/Text/Compare.antt =====
-- What the comparisons of src/civetweb.c decide.
use civetweb.Base.{Bytes, IsText, [], ap, ap₂, arith, length, map, peek, pos, refl, rest_of}
use civetweb.Base.{sub_ℕ-eq-zero_iff, suc, take, zero, ℕ, ◌-◌, ◌<◌, ◌↔◌, ◌∷◌, ◌≡◌}
use civetweb.Text.{mg_strlcpy, lowercase, mg_strcasecmp, mg_strncasecmp, case_diff}
use civetweb.Ctype.{tolower, tolower-zero_iff}

-- A copy keeps the text as far as the buffer holds it, with one byte kept for the terminator.
pub mg_strlcpy-eq-take : (src : Bytes) (n : ℕ) → mg_strlcpy src n ≡ take (n - 1) src
unfolding mg_strlcpy
mg_strlcpy-eq-take [] zero = refl
mg_strlcpy-eq-take [] (suc zero) = refl
mg_strlcpy-eq-take [] (suc (suc n)) = ground arith
mg_strlcpy-eq-take (c ∷ src) zero = refl
mg_strlcpy-eq-take (c ∷ src) (suc zero) = refl
mg_strlcpy-eq-take (c ∷ src) (suc (suc n)) = ground (arith, mg_strlcpy-eq-take src (suc n))

pub case_diff-eq-zero_iff :
    (s t : Bytes) → (case_diff s t ≡ pos 0) ↔ (lowercase (peek s) ≡ lowercase (peek t))
unfolding case_diff
case_diff-eq-zero_iff s t = sub_ℕ-eq-zero_iff (lowercase (peek s)) (lowercase (peek t))

pub lowercase-pos : (c : ℕ) → 0 < c → 0 < lowercase c
unfolding lowercase
lowercase-pos c h = ground (arith, tolower-zero_iff c)

pub lowercase_zero : lowercase 0 ≡ 0
unfolding lowercase tolower
lowercase_zero = refl

pub lowercase-tolower : (c : ℕ) → lowercase c ≡ tolower c
unfolding lowercase
lowercase-tolower c = refl

-- For texts without a zero byte, `mg_strcasecmp` answers zero exactly if they agree, byte for byte and
-- in length, when each of their capital letters is made small, as tolower does.
pub mg_strcasecmp-eq-zero_iff :
    (s t : Bytes)
    → IsText s
    → IsText t
    → (mg_strcasecmp s t ≡ pos 0) ↔ (map tolower s ≡ map tolower t)
unfolding mg_strcasecmp
mg_strcasecmp-eq-zero_iff [] [] hs ht = ground (arith, case_diff-eq-zero_iff [] [])
mg_strcasecmp-eq-zero_iff [] (d ∷ t) hs ht =
    ground (
      arith,
      case_diff-eq-zero_iff [] (d ∷ t),
      lowercase-tolower d,
      lowercase-pos d,
      lowercase_zero,
    )
mg_strcasecmp-eq-zero_iff (c ∷ s) [] hs ht =
    ground (
      arith,
      case_diff-eq-zero_iff (c ∷ s) [],
      lowercase-tolower c,
      lowercase-pos c,
      lowercase_zero,
    )
mg_strcasecmp-eq-zero_iff (c ∷ s) (d ∷ t) hs ht = ground (
  arith,
  case_diff-eq-zero_iff (c ∷ s) (d ∷ t),
  lowercase-tolower c,
  lowercase-tolower d,
  mg_strcasecmp-eq-zero_iff s t,
)

-- For texts without a zero byte, `mg_strncasecmp` with the limit `n` answers zero exactly if the
-- first `n` bytes of the two, as far as they reach, agree when capital letters are made small.
pub mg_strncasecmp-eq-zero_iff :
    (s t : Bytes) (n : ℕ)
    → IsText s
    → IsText t
    → (mg_strncasecmp s t n ≡ pos 0) ↔ (take n (map tolower s) ≡ take n (map tolower t))
unfolding mg_strncasecmp
mg_strncasecmp-eq-zero_iff s t zero hs ht = ground arith
mg_strncasecmp-eq-zero_iff [] [] (suc n) hs ht = ground (arith, case_diff-eq-zero_iff [] [])
mg_strncasecmp-eq-zero_iff [] (d ∷ t) (suc n) hs ht =
    ground (
      arith,
      case_diff-eq-zero_iff [] (d ∷ t),
      lowercase-tolower d,
      lowercase-pos d,
      lowercase_zero,
    )
mg_strncasecmp-eq-zero_iff (c ∷ s) [] (suc n) hs ht =
    ground (
      arith,
      case_diff-eq-zero_iff (c ∷ s) [],
      lowercase-tolower c,
      lowercase-pos c,
      lowercase_zero,
    )
mg_strncasecmp-eq-zero_iff (c ∷ s) (d ∷ t) (suc zero) hs ht =
    ground (arith, case_diff-eq-zero_iff (c ∷ s) (d ∷ t), lowercase-tolower c, lowercase-tolower d)
mg_strncasecmp-eq-zero_iff (c ∷ s) (d ∷ t) (suc (suc n)) hs ht = ground (
  arith,
  case_diff-eq-zero_iff (c ∷ s) (d ∷ t),
  lowercase-tolower c,
  lowercase-tolower d,
  mg_strncasecmp-eq-zero_iff s t (suc n),
)

-- What agrees with a text without a zero byte, as far as that reaches, begins with it.
pub mg_strncasecmp-prefix :
    (s t : Bytes)
    → IsText t
    → mg_strncasecmp s t (length t) ≡ pos 0
    → map tolower (take (length t) s) ≡ map tolower t
unfolding mg_strncasecmp
mg_strncasecmp-prefix s [] h e = refl
mg_strncasecmp-prefix [] (d ∷ []) h e =
    absurd (ground (arith, case_diff-eq-zero_iff [] (d ∷ []), lowercase-pos d, lowercase_zero))
mg_strncasecmp-prefix [] (d ∷ t) h e =
    absurd (ground (arith, case_diff-eq-zero_iff [] (d ∷ t), lowercase-pos d, lowercase_zero))
mg_strncasecmp-prefix (c ∷ s) (d ∷ []) h e =
    let first : tolower c ≡ tolower d =
      ground
        (arith, case_diff-eq-zero_iff (c ∷ s) (d ∷ []), lowercase-tolower c, lowercase-tolower d) in
    ap (λ x. x ∷ []) first
mg_strncasecmp-prefix (c ∷ s) (d ∷ x ∷ t) h e =
    let first : tolower c ≡ tolower d = ground (
      arith,
      case_diff-eq-zero_iff (c ∷ s) (d ∷ x ∷ t),
      lowercase-tolower c,
      lowercase-tolower d,
    ) in
    let again : mg_strncasecmp s (x ∷ t) (length (x ∷ t)) ≡ pos 0 = ground (
      arith,
      case_diff-eq-zero_iff (c ∷ s) (d ∷ x ∷ t),
      first,
      tolower-zero_iff c,
      tolower-zero_iff d,
    ) in
    ap₂ (λ y r. y ∷ r) first (mg_strncasecmp-prefix s (x ∷ t) h.1 again)

-- Texts that agree are found to be the same.
pub mg_strcasecmp-same : (s t : Bytes) → map tolower s ≡ map tolower t → mg_strcasecmp s t ≡ pos 0
unfolding mg_strcasecmp
mg_strcasecmp-same [] [] e = ground (arith, case_diff-eq-zero_iff [] [])
mg_strcasecmp-same [] (d ∷ t) e = absurd (omega (arith, ap (λ l. length l) e))
mg_strcasecmp-same (c ∷ s) [] e = absurd (omega (arith, ap (λ l. length l) e))
mg_strcasecmp-same (c ∷ s) (d ∷ t) e =
    let first : tolower c ≡ tolower d = ap peek e in
    let rest = mg_strcasecmp-same s t (ap rest_of e) in
    ground
      (arith, case_diff-eq-zero_iff (c ∷ s) (d ∷ t), lowercase-tolower c, lowercase-tolower d, rest)
