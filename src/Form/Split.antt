-- ===== src/Form/Split.antt =====
-- mg_split_form_urlencoded of src/civetweb.c on fields that are encoded by mg_url_encode.
use civetweb.Base.{All, Bytes, IsText, List, Option, [], ap, append-nil, append_assoc, ap₂}
use civetweb.Base.{arith, false, leb, length, map, none, peek, pos, refl, some, suc, true, zero}
use civetweb.Base.{ℕ, ◌++◌, ◌<◌, ◌==◌, ◌^◌, ◌||◌, ◌∙◌, ◌∷◌, ◌≡◌, ◌≢◌, ◌≤◌}
use civetweb.Http.{Word, span_while, is_blank}
use civetweb.Http.Headers.{span_while-append, peek-append}
use civetweb.Url.{}
use civetweb.Form.{
  FormField, is_key_char, is_field_char, split_field, split_loop, decode_value, decode_field,
  mg_split_form_urlencoded,
}
use civetweb.Form.Encoded.{encoded, encoded-decoded, encoded-longer, encoded-plain, is_plain}

abbrev pub value_text : Option Bytes → Bytes
value_text none = []
value_text (some v) = b'=' ∷ encoded v

abbrev pub more_text : List FormField → Bytes
more_text [] = []
more_text (g ∷ gs) = b'&' ∷ ((encoded g.name ++ value_text g.value) ++ more_text gs)

-- Fields, written as form data.
abbrev pub form_text : List FormField → Bytes
form_text [] = []
form_text (f ∷ fs) = (encoded f.name ++ value_text f.value) ++ more_text fs

abbrev pub IsValue : Option Bytes → Type 0
IsValue none = Unit
IsValue (some v) = IsText v

abbrev pub IsField : FormField → Type 0
IsField f = (f.name ≢ []) × (IsText f.name × IsValue f.value)

pub All-weaken :
    {A : Type 0} {P Q : A → Type 0} (xs : List A) → ((x : A) → P x → Q x) → All P xs → All Q xs
All-weaken [] g h = tt
All-weaken (x ∷ xs) g h = (g x h.0, All-weaken xs g h.1)

pub plain_key : (c : ℕ) → is_plain c ≡ true → is_key_char c ≡ true
plain_key c e = ground arith

plain_field : (c : ℕ) → is_plain c ≡ true → is_field_char c ≡ true
unfolding is_key_char is_field_char
plain_field c e = ground arith

-- What follows a field ends its key and its value.
pub more_ends :
    (fs : List FormField)
    → (is_key_char (peek (more_text fs)) ≡ false)
      × ((is_field_char (peek (more_text fs)) ≡ false) × ((peek (more_text fs) == b'=') ≡ false))
unfolding is_key_char is_field_char
more_ends [] = (refl, (refl, refl))
more_ends (g ∷ gs) = (refl, (refl, refl))

pub equals_ends : is_key_char b'=' ≡ false
unfolding is_key_char
equals_ends = refl

abbrev encode_value : Option Bytes → Option Bytes
encode_value none = none
encode_value (some v) = some (encoded v)

plain_no_blank : (c : ℕ) → is_plain c ≡ true → is_blank c ≡ false
plain_no_blank c e = ground arith

plain_not_end : (c : ℕ) → is_plain c ≡ true → (c == 0) ≡ false
unfolding is_key_char
plain_not_end c e = ground arith

first_plain : (w : Bytes) → w ≢ [] → All (λ c. is_plain c ≡ true) w → is_plain (peek w) ≡ true
first_plain [] n h = absurd (n refl)
first_plain (c ∷ w) n h = h.0

too_short : {m n : ℕ} → m ≡ 0 → suc n ≤ m → ⊥
too_short e h = omega arith

pub encoded-nonempty : (s : Bytes) → s ≢ [] → encoded s ≢ []
encoded-nonempty [] n = absurd (n refl)
encoded-nonempty (c ∷ s) n = λ e. absurd (too_short (ap length e) (encoded-longer (c ∷ s)))

in_range : (n : ℕ) → 0 < n → n < 2 ^ 31 → (n == 0 || leb (2 ^ 31) n) ≡ false
in_range n h k = ground arith

split_field-bare :
    (key tail : Bytes)
    → All (λ c. is_key_char c ≡ true) key
    → is_key_char (peek tail) ≡ false
    → (peek tail == b'=') ≡ false
    → split_field (key ++ tail) ≡ (record { name = key; value = none }, tail)
unfolding split_field
split_field-bare key tail h e f = rw (span_while-append is_key_char key tail h e, f) refl

split_field-valued :
    (key value tail : Bytes)
    → All (λ c. is_key_char c ≡ true) key
    → All (λ c. is_field_char c ≡ true) value
    → is_field_char (peek tail) ≡ false
    → split_field (key ++ (b'=' ∷ (value ++ tail)))
      ≡ (record { name = key; value = some value }, tail)
unfolding split_field
split_field-valued key value tail h k e =
    rw
      (
        span_while-append is_key_char key (b'=' ∷ (value ++ tail)) h equals_ends,
        span_while-append is_field_char value tail k e,
      )
      refl

split_field-text :
    (name : Bytes) (value : Option Bytes) (fs : List FormField)
    → IsText name
    → IsValue value
    → split_field ((encoded name ++ value_text value) ++ more_text fs)
      ≡ (record { name = encoded name; value = encode_value value }, more_text fs)
split_field-text name none fs h v =
    let (key_ends, (value_ends, no_equals)) = more_ends fs in
    ap (λ t. split_field (t ++ more_text fs)) (append-nil (encoded name))
    ∙ split_field-bare (encoded name) (more_text fs)
        (All-weaken (encoded name) plain_key (encoded-plain name h)) key_ends no_equals
split_field-text name (some w) fs h v =
    let (key_ends, (value_ends, no_equals)) = more_ends fs in
    ap split_field (append_assoc (encoded name) (b'=' ∷ encoded w) (more_text fs))
    ∙ split_field-valued (encoded name) (encoded w) (more_text fs)
        (All-weaken (encoded name) plain_key (encoded-plain name h))
        (All-weaken (encoded w) plain_field (encoded-plain w v)) value_ends

abbrev encode_field : FormField → FormField
encode_field f = record { name = encoded f.name; value = encode_value f.value }

-- A field begins with a byte that is no blank and no end.
begins_plain : (name : Bytes) → name ≢ [] → IsText name → is_plain (peek (encoded name)) ≡ true
begins_plain name n h = first_plain (encoded name) (encoded-nonempty name n) (encoded-plain name h)

begins_text :
    (f : FormField) (tail : Bytes)
    → IsField f
    → is_plain (peek ((encoded f.name ++ value_text f.value) ++ tail)) ≡ true
begins_text f tail (n, (h, v)) =
    ap is_plain (
      ap peek (append_assoc (encoded f.name) (value_text f.value) tail)
      ∙ peek-append (encoded f.name) (value_text f.value ++ tail) (encoded-nonempty f.name n))
    ∙ begins_plain f.name n h

no_blanks : (t : Bytes) → is_plain (peek t) ≡ true → (span_while is_blank t).rest ≡ t
no_blanks t e =
    ap (λ (w : Word). w.rest) (span_while-append is_blank [] t tt (plain_no_blank (peek t) e))

split_loop-form_text :
    (fs : List FormField) (n : ℕ)
    → length fs ≤ n
    → All IsField fs
    → split_loop n (form_text fs) ≡ map encode_field fs
unfolding split_loop
split_loop-form_text [] zero h v = refl
split_loop-form_text [] (suc n) h v = unfold span_while in refl
split_loop-form_text (f ∷ fs) zero h v = absurd (omega arith)
split_loop-form_text (f ∷ []) (suc n) h v =
    let plain = begins_text f [] v.0 in
    rw
      (
        no_blanks (form_text (f ∷ [])) plain,
        plain_not_end (peek (form_text (f ∷ []))) plain,
        split_field-text f.name f.value [] v.0.1.0 v.0.1.1,
      )
      refl
split_loop-form_text (f ∷ g ∷ gs) (suc n) h v =
    let plain = begins_text f (more_text (g ∷ gs)) v.0 in
    rw
      (
        no_blanks (form_text (f ∷ g ∷ gs)) plain,
        plain_not_end (peek (form_text (f ∷ g ∷ gs))) plain,
        split_field-text f.name f.value (g ∷ gs) v.0.1.0 v.0.1.1,
        split_loop-form_text (g ∷ gs) n (omega arith) v.1,
      )
      refl

decode_value-encode_value : (v : Option Bytes) → IsValue v → decode_value (encode_value v) ≡ v
decode_value-encode_value none h = refl
decode_value-encode_value (some v) h = ap some (encoded-decoded v h)

fields_back : (fs : List FormField) → All IsField fs → map decode_field (map encode_field fs) ≡ fs
fields_back [] h = refl
fields_back (f ∷ fs) h =
    ap₂ (λ g gs. g ∷ gs)
      (ap₂ (λ n v. record { name = n; value = v }) (encoded-decoded f.name h.0.1.0)
        (decode_value-encode_value f.value h.0.1.1))
      (fields_back fs h.1)

-- Fields whose names are not empty and whose names and values are texts, each name and value encoded
-- by mg_url_encode and written with = and & between them, are had back by mg_split_form_urlencoded,
-- when there is room for them, fewer than 2^31 places; the result is their number.
pub mg_split_form_urlencoded-form_text :
    (fs : List FormField) (n : ℕ)
    → All IsField fs
    → 0 < n
    → n < 2 ^ 31
    → length fs ≤ n
    → mg_split_form_urlencoded (some (form_text fs)) true n
      ≡ record { ret = pos (length fs); fields = fs }
unfolding mg_split_form_urlencoded
mg_split_form_urlencoded-form_text fs n h k l m =
    let e = ap (map decode_field) (split_loop-form_text fs n m h) ∙ fields_back fs h in
    rw (in_range n k l, e) refl
