-- ===== src/Uri/Clean.antt =====
-- What mg_url_decode makes of a URI that get_uri_type accepts.
use civetweb.Base.{==_iff, All, Bool, Bool-cases, Bytes, [], ap, arith, bit_or, codes, false}
use civetweb.Base.{holds_up_to, holds_up_to-true, if_split, inl, inr, leb, ltb, refl, suc, sym}
use civetweb.Base.{true, zero, ℕ, ◌%◌, ◌&&◌, ◌*◌, ◌+◌, ◌-◌, ◌<◌, ◌==◌, ◌^◌, ◌∙◌, ◌∷◌, ◌≡◌, ◌≢◌}
use civetweb.Base.{◌⊎◌}
use civetweb.Ctype.{isdigit, isxdigit, str_eq, str_eq_iff, tolower}
use civetweb.Url.{
  complete, truncated, invalid, Decoded, write, hextoi, hex_byte, decode_plain, decode_loop,
  mg_url_decode,
}
use civetweb.Url.Decode.{written}
use civetweb.Uri.{get_uri_type, are_allowed, is_newline_code}

abbrev pub IsNoNewline : ℕ → Type 0
IsNoNewline b = (b ≢ b'\n') × (b ≢ b'\r')

contradict : {b : Bool} → true ≡ b → b ≡ false → ⊥
contradict p q = absurd (ground arith)

nibbles : (x y : ℕ) → x < 16 → y < 16 → bit_or (x * 2 ^ 4) y % 2 ^ 8 ≡ x * 16 + y
unfolding holds_up_to
nibbles x y p q =
    let row =
      holds_up_to-true 16 (λ a. holds_up_to 16 (λ b. bit_or (a * 2 ^ 4) b % 2 ^ 8 == a * 16 + b)) x
        refl p in
    let cell = holds_up_to-true 16 (λ b. bit_or (x * 2 ^ 4) b % 2 ^ 8 == x * 16 + b) y row q in
    (==_iff _ _).0 cell

hextoi_bound : (x : ℕ) → isxdigit x ≡ true → hextoi (tolower x) < 16
unfolding isxdigit hextoi isdigit tolower
hextoi_bound x h = ground arith

digit_zero : (x : ℕ) → isxdigit x ≡ true → hextoi (tolower x) ≡ 0 → x ≡ b'0'
unfolding isxdigit hextoi isdigit tolower
digit_zero x h e = ground arith

digit_newline :
    (y v : ℕ)
    → isxdigit y ≡ true
    → hextoi (tolower y) ≡ v
    → (v ≡ 10) ⊎ (v ≡ 13)
    → (y ≡ b'd') ⊎ ((y ≡ b'D') ⊎ ((y ≡ b'a') ⊎ (y ≡ b'A')))
unfolding isxdigit hextoi isdigit tolower
digit_newline y v h e f = ground arith

hex_byte-newline :
    (x y : ℕ)
    → isxdigit x ≡ true
    → isxdigit y ≡ true
    → (hex_byte x y ≡ 10) ⊎ (hex_byte x y ≡ 13)
    → (s : Bytes) → is_newline_code (b'%' ∷ x ∷ y ∷ s) ≡ true
unfolding hex_byte is_newline_code
hex_byte-newline x y p q e s =
    let hi = hextoi_bound x p in
    let lo = hextoi_bound y q in
    let value = nibbles (hextoi (tolower x)) (hextoi (tolower y)) hi lo in
    let zero_digit = digit_zero x p (omega (arith, value, hi, lo)) in
    let last = digit_newline y (hextoi (tolower y)) q refl (omega (arith, value, hi, lo)) in
    ground arith

hex_byte-IsNoNewline :
    (x y : ℕ) (s : Bytes)
    → isxdigit x ≡ true
    → isxdigit y ≡ true
    → is_newline_code (b'%' ∷ x ∷ y ∷ s) ≡ false
    → IsNoNewline (hex_byte x y)
hex_byte-IsNoNewline x y s p q h = (
  (λ e. contradict (sym (hex_byte-newline x y p q (inl e) s)) h),
  (λ e. contradict (sym (hex_byte-newline x y p q (inr e) s)) h),
)

write-IsNoNewline :
    (c : ℕ) (d : Decoded)
    → IsNoNewline c
    → All IsNoNewline (written d)
    → All IsNoNewline (written (write c d))
write-IsNoNewline c (complete out) h a = (h, a)
write-IsNoNewline c (truncated out) h a = (h, a)
write-IsNoNewline c (invalid out) h a = (h, a)

decode_plain-IsNoNewline :
    (form : Bool) (c : ℕ) (d : Decoded)
    → ltb c 33 ≡ false
    → All IsNoNewline (written d)
    → All IsNoNewline (written (decode_plain form c d))
unfolding decode_plain
decode_plain-IsNoNewline form c d h a =
    if_split (λ r. All IsNoNewline (written r)) (form && c == b'+') _ _
      (λ e. write-IsNoNewline 32 d ((λ q. absurd (omega arith)), (λ q. absurd (omega arith))) a)
      (λ e.
        if_split (λ r. All IsNoNewline (written r)) (leb c 32) _ _ (λ f. tt)
          (λ f. write-IsNoNewline c d ((λ q. ground arith), (λ q. ground arith)) a))

are_allowed-parts :
    (c : ℕ) (s : Bytes)
    → are_allowed (c ∷ s) ≡ true
    → (is_newline_code (c ∷ s) ≡ false) × (ltb c 33 ≡ false) × (are_allowed s ≡ true)
unfolding are_allowed
are_allowed-parts c s h = ground arith

decode_loop-IsNoNewline :
    (form : Bool) (src : Bytes) (room : ℕ)
    → are_allowed src ≡ true
    → All IsNoNewline (written (decode_loop form src room))
unfolding decode_loop
decode_loop-IsNoNewline form [] room h = tt
decode_loop-IsNoNewline form (c ∷ src) zero h = tt
decode_loop-IsNoNewline form (c ∷ x ∷ y ∷ src) (suc room) h =
    let (code, wide, rest) = are_allowed-parts c (x ∷ y ∷ src) h in
    let (code_x, wide_x, rest_x) = are_allowed-parts x (y ∷ src) rest in
    let (code_y, wide_y, rest_y) = are_allowed-parts y src rest_x in
    if_split (λ r. All IsNoNewline (written r)) (c == b'%' && (isxdigit x && isxdigit y)) _ _
      (λ e.
        let (percent, digit_x, digit_y) = parts c (isxdigit x) (isxdigit y) e in
        write-IsNoNewline (hex_byte x y) _
          (hex_byte-IsNoNewline x y src digit_x digit_y
            (ap (λ d. is_newline_code (d ∷ x ∷ y ∷ src)) (sym percent) ∙ code))
          (decode_loop-IsNoNewline form src room rest_y))
      (λ e.
        decode_plain-IsNoNewline form c _ wide
          (decode_loop-IsNoNewline form (x ∷ y ∷ src) room rest))
  where
    parts :
        (c : ℕ) (p q : Bool) → (c == b'%' && (p && q)) ≡ true → (c ≡ b'%') × (p ≡ true) × (q ≡ true)
    parts c p q e = ground arith
decode_loop-IsNoNewline form (c ∷ []) (suc room) h =
    decode_plain-IsNoNewline form c (decode_loop form [] room) ((are_allowed-parts c [] h).1) tt
decode_loop-IsNoNewline form (c ∷ x ∷ []) (suc room) h =
    let (code, wide, rest) = are_allowed-parts c (x ∷ []) h in
    decode_plain-IsNoNewline form c _ wide (decode_loop-IsNoNewline form (x ∷ []) room rest)

get_uri_type-are_allowed : (uri : Bytes) → get_uri_type uri ≢ 0 → are_allowed uri ≡ true
unfolding get_uri_type are_allowed is_newline_code
get_uri_type-are_allowed uri h = elim (Bool-cases (str_eq uri (codes "*"))) [
  | inl e ↦ ap are_allowed ((str_eq_iff uri (codes "*")).0 e)
  | inr e ↦ elim (Bool-cases (are_allowed uri)) [ inl f ↦ f | inr f ↦ absurd (h (rw (e, f) refl)) ]
]

-- A URI that get_uri_type gives a type other than 0 decodes, as far as the buffer reaches and as a
-- form or not, to bytes without a carriage return and without a line feed.
pub get_uri_type-IsNoNewline :
    (uri : Bytes) (dst_len : ℕ) (form : Bool)
    → get_uri_type uri ≢ 0
    → All IsNoNewline (written (mg_url_decode uri dst_len form))
unfolding mg_url_decode
get_uri_type-IsNoNewline uri dst_len form h =
    decode_loop-IsNoNewline form uri (dst_len - 1) (get_uri_type-are_allowed uri h)
