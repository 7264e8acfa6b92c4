-- ===== src/Options/Header.antt =====
-- What header_has_option of src/civetweb.c finds in a list.
use civetweb.Base.{Bool, Bytes, IsText, List, Option, Option-cases, [], ap, arith, false}
use civetweb.Base.{if_split, if◌then◌else◌, inl, inr, length, length-take, map, none, refl, some}
use civetweb.Base.{subst, suc, take, true, zero, ℕ, ◌+◌, ◌<◌, ◌==◌, ◌↔◌, ◌∷◌, ◌≡◌, ◌≢◌, ◌≤◌, ◌⊎◌}
use civetweb.Ctype.{tolower}
use civetweb.Text.{is_zero, mg_strncasecmp}
use civetweb.Text.Compare.{mg_strncasecmp-eq-zero_iff}
use civetweb.Text.Search.{is_zero_iff}
use civetweb.Options.{
  is_lws, skip_lws, behind_comma, find_equals, one_on, Vec, Entry, split_value, value_at, next_from,
  next_option, text, has_option_loop, header_has_option,
}
use civetweb.Options.Entries.{
  entries, split_equals, view, cut, IsNext, next_option-IsNext, value_at-piece,
}

IsText-skip_lws : (s : Bytes) → IsText s → IsText (skip_lws s)
unfolding skip_lws
IsText-skip_lws [] h = tt
IsText-skip_lws (c ∷ s) h = if_split IsText (is_lws c) _ _ (λ e. IsText-skip_lws s h.1) (λ e. h)

IsText-behind_comma : (s : Bytes) → IsText s → IsText (behind_comma s)
unfolding behind_comma
IsText-behind_comma [] h = tt
IsText-behind_comma (c ∷ s) h =
    if_split IsText (c == b',') _ _ (λ e. h.1) (λ e. IsText-behind_comma s h.1)

-- The parts of an answer stay within the list.
abbrev Inside : Option (Entry × Bytes) → Type 0
Inside none = Unit
Inside (some (e, rest)) = (e.val.len ≤ length e.val.ptr) × IsText e.val.ptr × IsText rest

abbrev Below : ℕ → Option ℕ → Type 0
Below n none = Unit
Below n (some i) = i < n

one_on-Below : (n : ℕ) (o : Option ℕ) → Below n o → Below (suc n) (one_on o)
one_on-Below n none h = tt
one_on-Below n (some i) h = omega (arith, h)

find_equals-Below : (s : Bytes) (n : ℕ) → Below n (find_equals s n)
unfolding find_equals
find_equals-Below s zero = tt
find_equals-Below [] (suc n) = tt
find_equals-Below (c ∷ s) (suc n) =
    if_split (Below (suc n)) (c == b'=') _ _ (λ e. omega arith)
      (λ e. one_on-Below n (find_equals s n) (find_equals-Below s n))

split_value-Inside :
    (v : Vec) (o : Option ℕ) (rest : Bytes)
    → Below v.len o
    → v.len ≤ length v.ptr
    → IsText v.ptr
    → IsText rest
    → Inside (some (split_value v o, rest))
unfolding split_value
split_value-Inside v none rest f l h k = (l, h, k)
split_value-Inside v (some i) rest f l h k = (omega (arith, f), h, k)

next_from-Inside : (fuel : ℕ) (list : Bytes) → IsText list → Inside (next_from fuel true list)
unfolding next_from
next_from-Inside fuel [] h = tt
next_from-Inside zero (c ∷ list) h = tt
next_from-Inside (suc fuel) (c ∷ list) h =
    let v = value_at (c ∷ list) in
    let rest = behind_comma (skip_lws (c ∷ list)) in
    let inner = IsText-skip_lws (c ∷ list) h in
    let further = IsText-behind_comma (skip_lws (c ∷ list)) inner in
    if_split Inside (v.len == 0) _ _ (λ e. next_from-Inside fuel rest further)
      (λ e.
        split_value-Inside v (find_equals v.ptr v.len) rest (find_equals-Below v.ptr v.len)
          (value_at-piece (c ∷ list)).1 (unfold value_at in inner) further)

-- Some element of the list has the property.
abbrev pub Some : (Bytes → Type 0) → List Bytes → Type 0
Some P [] = ⊥
Some P (w ∷ ws) = P w ⊎ Some P ws

-- The part of the piece in front of an equals sign is a prefix of the option, but for the case of
-- letters.
abbrev pub IsPrefix : Bytes → Bytes → Type 0
IsPrefix option w =
    take (length (split_equals w).0) (map tolower option) ≡ map tolower (split_equals w).0

take-map : (n : ℕ) (s : Bytes) → take n (map tolower s) ≡ map tolower (take n s)
take-map zero s = refl
take-map (suc n) [] = refl
take-map (suc n) (c ∷ s) = ap (λ l. tolower c ∷ l) (take-map n s)

test_iff :
    (option : Bytes) (e : Entry) (w : Bytes)
    → IsText option
    → IsText e.val.ptr
    → e.val.len ≤ length e.val.ptr
    → view e ≡ cut true w
    → (is_zero (mg_strncasecmp option e.val.ptr e.val.len) ≡ true) ↔ IsPrefix option w
test_iff option e w h k l v =
    let key : text e.val ≡ (split_equals w).0 = ap (λ (p : Bytes × Option Bytes). p.0) v in
    let size : length (text e.val) ≡ e.val.len =
      omega (arith, length-take e.val.len e.val.ptr, l) in
    let zero_iff = is_zero_iff (mg_strncasecmp option e.val.ptr e.val.len) in
    let same_iff = mg_strncasecmp-eq-zero_iff option e.val.ptr e.val.len h k in
    rw (← key, size, ← take-map e.val.len e.val.ptr)
      (λ t. same_iff.0 (zero_iff.0 t), λ t. zero_iff.1 (same_iff.1 t))

false≢true : false ≢ true
false≢true e = cc

either_iff :
    (a b : Bool) (P Q : Type 0)
    → ((a ≡ true) ↔ P)
    → ((b ≡ true) ↔ Q)
    → ((if a then true else b) ≡ true) ↔ (P ⊎ Q)
either_iff true b P Q h k = (λ t. inl (h.0 refl), λ t. refl)
either_iff false b P Q h k =
    (λ t. inr (k.0 t), λ t. elim t [ inl p ↦ absurd (false≢true (h.1 p)) | inr q ↦ k.1 q ])

has_option_loop_iff :
    (fuel : ℕ) (option header : Bytes)
    → IsText option
    → IsText header
    → length header < fuel
    → (has_option_loop fuel option header ≡ true) ↔ Some (IsPrefix option) (entries header)
unfolding has_option_loop next_option
has_option_loop_iff zero option header h k l = absurd (omega arith)
has_option_loop_iff (suc fuel) option header h k l = elim (Option-cases (next_option true header)) [
  | inl e ↦
      let n = subst (IsNext true header) e (next_option-IsNext true header) in
      rw (e, n) (λ t. cc, λ t. absurd t)
  | inr ((entry, rest), e) ↦
      let (w, f, n, v, s) = subst (IsNext true header) e (next_option-IsNext true header) in
      let (a, b, c) = subst Inside e (next_from-Inside (length header) header k) in
      rw (e, f)
        (either_iff _ _ _ _ (test_iff option entry w h b a v)
          (has_option_loop_iff fuel option rest h c (omega arith)))
]

-- For texts without a zero byte: `header_has_option` accepts a header exactly if one of its
-- entries, up to its equals sign, is a prefix of the option, but for the case of letters.
pub header_has_option_iff :
    (header option : Bytes)
    → IsText header
    → IsText option
    → (header_has_option (some header) option ≡ true) ↔ Some (IsPrefix option) (entries header)
unfolding header_has_option
header_has_option_iff header option h k =
    has_option_loop_iff (length header + 1) option header k h (omega arith)
