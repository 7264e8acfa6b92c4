-- ===== src/Http/Lookup.antt =====
-- get_header and get_req_headers of src/civetweb.c, on the headers that a parser has stored.
use civetweb.Base.{All, Bool-cases, Bytes, IsText, List, Option, [], ap, arith, false, get_elem?}
use civetweb.Base.{if◌then◌else◌, inl, inr, ltb, map, none, refl, some, subst, suc, sym, take}
use civetweb.Base.{true, zero, ℕ, ◌+◌, ◌∷◌, ◌≡◌, ◌≢◌}
use civetweb.Ctype.{tolower}
use civetweb.Text.{is_zero, mg_strcasecmp}
use civetweb.Text.Search.{is_zero_iff}
use civetweb.Text.Compare.{mg_strcasecmp-eq-zero_iff}
use civetweb.Http.{Header}

-- `none` is NULL.
unfoldable pub get_header : List Header → Bytes → Option Bytes
get_header [] name = none
get_header (h ∷ hdr) name =
    let later = get_header hdr name in
    if is_zero (mg_strcasecmp name h.name) then some h.value else later

-- The values written to `output` from index `cnt` on; the result of the function is their number.
unfoldable pub req_headers_loop : ℕ → List Header → Bytes → ℕ → List Bytes
req_headers_loop cnt [] name output_max_size = []
req_headers_loop cnt (h ∷ hdr) name output_max_size =
    let found = h.value ∷ req_headers_loop (cnt + 1) hdr name output_max_size in
    let other = req_headers_loop cnt hdr name output_max_size in
    if ltb cnt output_max_size
    then (if is_zero (mg_strcasecmp name h.name) then found else other)
    else []

unfoldable pub get_req_headers : List Header → Bytes → ℕ → List Bytes
unfolding req_headers_loop
get_req_headers hdr name output_max_size = req_headers_loop 0 hdr name output_max_size

-- The values of the headers with a given name, but for the case of letters, in order.
pub data Values (name : Bytes) : List Header → List Bytes → Type 0 where
  end : Values name [] []
  hit :
      {h : Header} {hs : List Header} {vs : List Bytes}
      → map tolower name ≡ map tolower h.name
      → Values name hs vs
      → Values name (h ∷ hs) (h.value ∷ vs)
  miss :
      {h : Header} {hs : List Header} {vs : List Bytes}
      → map tolower name ≢ map tolower h.name
      → Values name hs vs
      → Values name (h ∷ hs) vs

same_name :
    (a b : Bytes)
    → IsText a
    → IsText b
    → map tolower a ≡ map tolower b
    → is_zero (mg_strcasecmp a b) ≡ true
same_name a b ha hb e = rw ((mg_strcasecmp-eq-zero_iff a b ha hb).1 e) refl

other_name :
    (a b : Bytes)
    → IsText a
    → IsText b
    → map tolower a ≢ map tolower b
    → is_zero (mg_strcasecmp a b) ≡ false
other_name a b ha hb e = elim (Bool-cases (is_zero (mg_strcasecmp a b))) [
  | inl f ↦
      absurd (e ((mg_strcasecmp-eq-zero_iff a b ha hb).0 ((is_zero_iff (mg_strcasecmp a b)).0 f)))
  | inr f ↦ f
]

zero_add : (n : ℕ) → 0 + n ≡ n
zero_add n = omega arith

take-nil : (n : ℕ) → Path (List Bytes) (take n []) []
take-nil zero = refl
take-nil (suc n) = refl

ltb-none : (cnt : ℕ) → ltb cnt (cnt + 0) ≡ false
ltb-none cnt = ground arith

ltb-some : (cnt n : ℕ) → ltb cnt (cnt + suc n) ≡ true
ltb-some cnt n = ground arith

add_suc : (cnt n : ℕ) → cnt + suc n ≡ cnt + 1 + n
add_suc cnt n = omega arith

req_headers_loop-take :
    (name : Bytes) (hs : List Header) (vs : List Bytes) (cnt n : ℕ)
    → IsText name
    → All (λ (h : Header). IsText h.name) hs
    → Values name hs vs
    → req_headers_loop cnt hs name (cnt + n) ≡ take n vs
unfolding req_headers_loop
req_headers_loop-take name [] _ cnt n t h end = sym (take-nil n)
req_headers_loop-take name (x ∷ hs) vs cnt zero t h v = rw (ltb-none cnt) refl
req_headers_loop-take name (x ∷ hs) _ cnt (suc n) t h (hit {vs} e v) =
    rw (ltb-some cnt n, same_name name x.name t h.0 e, add_suc cnt n)
      (ap (λ l. x.value ∷ l) (req_headers_loop-take name hs vs (cnt + 1) n t h.1 v))
req_headers_loop-take name (x ∷ hs) vs cnt (suc n) t h (miss e v) =
    rw (ltb-some cnt n, other_name name x.name t h.0 e)
      (req_headers_loop-take name hs vs cnt (suc n) t h.1 v)

get_header-first :
    (name : Bytes) (hs : List Header) (vs : List Bytes)
    → IsText name
    → All (λ (h : Header). IsText h.name) hs
    → Values name hs vs
    → get_header hs name ≡ get_elem? vs 0
unfolding get_header
get_header-first name [] _ t h end = refl
get_header-first name (x ∷ hs) _ t h (hit e v) = rw (same_name name x.name t h.0 e) refl
get_header-first name (x ∷ hs) vs t h (miss e v) =
    rw (other_name name x.name t h.0 e) (get_header-first name hs vs t h.1 v)

-- For a table of headers with texts as names, and the values of one name in it, `get_header` gives
-- the first of them, or NULL, and `get_req_headers` as many of them as there is room for, in order.
pub get_req_headers-take :
    (name : Bytes) (hs : List Header) (vs : List Bytes) (n : ℕ)
    → IsText name
    → All (λ (h : Header). IsText h.name) hs
    → Values name hs vs
    → (get_header hs name ≡ get_elem? vs 0) × (get_req_headers hs name n ≡ take n vs)
unfolding get_req_headers
get_req_headers-take name hs vs n t h v = (
  get_header-first name hs vs t h v,
  subst (λ m. req_headers_loop 0 hs name m ≡ take n vs) (zero_add n)
      (req_headers_loop-take name hs vs 0 n t h v),
)
