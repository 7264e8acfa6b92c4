-- ===== src/Uri/Parts.antt =====
-- Ends of strings: strchr and strtoul in src/civetweb.c.
use civetweb.Base.{==_iff, All, Bool, Bytes, Option, [], ap, append_assoc, ap₂, arith, false}
use civetweb.Base.{if_split, length, length-append, ltb, none, peek, refl, rest_of, some, subst}
use civetweb.Base.{sym, true, ℕ, ◌*◌, ◌++◌, ◌+◌, ◌-◌, ◌==◌, ◌∙◌, ◌∷◌, ◌≡◌, ◌≢◌, ◌≤◌}
use civetweb.Ctype.{
  isdigit, isspace, strchr, read_digits, signed, number_at, skip_spaces_in, strtoul, ulong_max,
}

abbrev pub IsEnd : Bytes → Bytes → Type 0
IsEnd s t = (front : Bytes) × (s ≡ front ++ t)

IsEnd-cons : (c : ℕ) (s t : Bytes) → IsEnd s t → IsEnd (c ∷ s) t
IsEnd-cons c s t (front, e) = (c ∷ front, ap (λ r. c ∷ r) e)

IsEnd-trans : (s t u : Bytes) → IsEnd s t → IsEnd t u → IsEnd s u
IsEnd-trans s t u (f, e) (g, h) = (f ++ g, e ∙ ap (λ r. f ++ r) h ∙ sym (append_assoc f g u))

IsEnd-refl : (s : Bytes) → IsEnd s s
IsEnd-refl s = ([], refl)

-- One of two ends of a string is an end of the other.
pub overlap :
    (f t g u : Bytes)
    → f ++ t ≡ g ++ u
    → length t ≤ length u
    → (mid : Bytes) × (f ≡ g ++ mid) × (u ≡ mid ++ t)
overlap f t [] u e h = (f, refl, sym e)
overlap [] t (c ∷ g) u e h = absurd (omega (arith, ap (λ r. length r) e, length-append g u))
overlap (b ∷ f) t (c ∷ g) u e h =
    let (mid, p, q) = overlap f t g u (ap rest_of e) h in
    (mid, (ap₂ (λ d r. d ∷ r) (ap peek e) p), q)

pub same_end : (s t u : Bytes) → IsEnd s t → IsEnd s u → length t ≡ length u → t ≡ u
same_end s t u (f, e) (g, h) l =
    let (mid, p, q) = overlap f t g u (sym e ∙ h) (omega arith) in nothing_between mid q
  where
    nothing_between : (mid : Bytes) → u ≡ mid ++ t → t ≡ u
    nothing_between [] q = sym q
    nothing_between (c ∷ mid) q = absurd (omega (arith, ap (λ r. length r) q, length-append mid t))

-- What strchr finds.
abbrev pub Found : ℕ → Bytes → Option Bytes → Type 0
Found c s none = All (λ x. x ≢ c) s
Found c s (some t) = (front : Bytes) × (s ≡ front ++ t) × All (λ x. x ≢ c) front × (peek t ≡ c)

Found-cons : (c x : ℕ) (s : Bytes) (o : Option Bytes) → x ≢ c → Found c s o → Found c (x ∷ s) o
Found-cons c x s none n h = (n, h)
Found-cons c x s (some t) n (front, e, all, p) = (x ∷ front, ap (λ r. x ∷ r) e, (n, all), p)

pub strchr-Found : (s : Bytes) (c : ℕ) → Found c s (strchr s c)
unfolding strchr
strchr-Found [] c = tt
strchr-Found (x ∷ s) c =
    if_split (Found c (x ∷ s)) (x == c) _ _ (λ e. ([], refl, tt, (==_iff x c).0 e))
      (λ e. Found-cons c x s _ (λ q. ground arith) (strchr-Found s c))

read_digits-IsEnd : (acc : ℕ) (s : Bytes) → IsEnd s (read_digits acc s).1
unfolding read_digits
read_digits-IsEnd acc [] = ([], refl)
read_digits-IsEnd acc (c ∷ s) =
    if_split (λ (r : ℕ × Bytes). IsEnd (c ∷ s) r.1) (isdigit c) _ _
      (λ e. IsEnd-cons c s _ (read_digits-IsEnd (acc * 10 + (c - 48)) s)) (λ e. IsEnd-refl (c ∷ s))

skip_spaces_in-IsEnd : (s : Bytes) → IsEnd s (skip_spaces_in s)
unfolding skip_spaces_in
skip_spaces_in-IsEnd [] = ([], refl)
skip_spaces_in-IsEnd (c ∷ s) =
    if_split (IsEnd (c ∷ s)) (isspace c) _ _ (λ e. IsEnd-cons c s _ (skip_spaces_in-IsEnd s))
      (λ e. IsEnd-refl (c ∷ s))

rest_of-IsEnd : (s : Bytes) → IsEnd s (rest_of s)
rest_of-IsEnd [] = ([], refl)
rest_of-IsEnd (c ∷ s) = (c ∷ [], refl)

signed-end : (minus : Bool) (v : ℕ) (end : Bytes) → (signed minus (v, end)).1 ≡ end
signed-end minus v end =
    if_split (λ (r : ℕ × Bytes). r.1 ≡ end) (ltb ulong_max v) _ _ (λ e. refl)
      (λ e. if_split (λ (r : ℕ × Bytes). r.1 ≡ end) minus _ _ (λ f. refl) (λ f. refl))

number_at-IsEnd : (minus : Bool) (s t : Bytes) → IsEnd s t → IsEnd s (number_at minus t s).1
number_at-IsEnd minus s t h =
    if_split (λ (r : ℕ × Bytes). IsEnd s r.1) (isdigit (peek t)) _ _
      (λ e.
        subst (IsEnd s) (sym (signed-end minus (read_digits 0 t).0 (read_digits 0 t).1))
          (IsEnd-trans s t _ h (read_digits-IsEnd 0 t)))
      (λ e. IsEnd-refl s)

pub strtoul-IsEnd : (s : Bytes) → IsEnd s (strtoul s).1
unfolding strtoul
strtoul-IsEnd s =
    let t = skip_spaces_in s in
    let start = skip_spaces_in-IsEnd s in
    let behind = IsEnd-trans s t (rest_of t) start (rest_of-IsEnd t) in
    if_split (λ (r : ℕ × Bytes). IsEnd s r.1) (peek t == b'-') _ _
      (λ e. number_at-IsEnd true s (rest_of t) behind)
      (λ e.
        if_split (λ (r : ℕ × Bytes). IsEnd s r.1) (peek t == b'+') _ _
          (λ f. number_at-IsEnd false s (rest_of t) behind) (λ f. number_at-IsEnd false s t start))
