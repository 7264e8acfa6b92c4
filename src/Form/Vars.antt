-- ===== src/Form/Vars.antt =====
-- mg_get_var2 of src/civetweb.c on fields that are encoded by mg_url_encode.
use civetweb.Base.{All, All-append, Bool, Bool-cases, Bytes, IsText, List, Option, [], ap}
use civetweb.Base.{append-nil, append_assoc, arith, drop, false, get_elem?, if◌then◌else◌, inl}
use civetweb.Base.{inr, length, length-map, map, negsuc, none, peek, pos, refl, some, subst, suc}
use civetweb.Base.{sym, true, zero, ℕ, ◌&&◌, ◌++◌, ◌+◌, ◌-◌, ◌<◌, ◌==◌, ◌∙◌, ◌∷◌, ◌≡◌, ◌≢◌, ◌⊎◌}
use civetweb.Ctype.{tolower, str_eq_iff}
use civetweb.Http.{Word, span_while}
use civetweb.Http.Headers.{span_while-append}
use civetweb.Url.{mg_url_decode}
use civetweb.Form.{
  FormField, is_key_char, is_var_char, find_var, var_value, decoded_var, Var, mg_get_var2,
}
use civetweb.Form.Encoded.{encoded, is_plain, encoded-plain, encoded-IsText, encoded-into}
use civetweb.Form.Split.{
  value_text, more_text, form_text, IsField, IsValue, All-weaken, plain_key, equals_ends,
  encoded-nonempty, more_ends,
}
use civetweb.Form.Search.{
  same_name, is_here, is_here-field, find_var-skip, find_var-ampersand, find_var-match,
  find_var-miss,
}

abbrev keep_value : Option Bytes → List Bytes → List Bytes
keep_value none vs = vs
keep_value (some v) vs = v ∷ vs

-- The values of the fields with a name, but for the case of letters, in order.
pub values_of : Bytes → List FormField → List Bytes
values_of name [] = []
values_of name (f ∷ fs) =
    let later = values_of name fs in
    if same_name name (encoded f.name) then keep_value f.value later else later

IsText-append : (xs ys : Bytes) → IsText xs → IsText ys → IsText (xs ++ ys)
IsText-append = All-append (λ c. (0 < c) × (c < 256))

value-IsText : (v : Option Bytes) → IsValue v → IsText (value_text v)
value-IsText none h = tt
value-IsText (some v) h = ((omega arith, omega arith), encoded-IsText v h)

-- What the loop comes to, where this is the value that is looked for.
abbrev Reads : Option Bytes → Option Bytes → Type 0
Reads none r = r ≡ none
Reads (some v) r = (gs : List FormField) × (r ≡ some (encoded v ++ more_text gs)) × IsText v

no_ampersand : (c : ℕ) → is_key_char c ≡ true → (c == b'&') ≡ false
unfolding is_key_char
no_ampersand c e = ground arith

more-IsText : (fs : List FormField) → All IsField fs → IsText (more_text fs)
more-IsText [] h = tt
more-IsText (f ∷ fs) h = (
  (omega arith, omega arith),
  IsText-append (encoded f.name ++ value_text f.value) (more_text fs)
      (IsText-append (encoded f.name) (value_text f.value) (encoded-IsText f.name h.0.1.0)
        (value-IsText f.value h.0.1.1))
      (more-IsText fs h.1),
)

abbrev Passes : Bytes → List FormField → Type 0
Passes name fs =
    (k : ℕ) → Reads (get_elem? (values_of name fs) k) (find_var name false (more_text fs) k)

keeps_none : (b : Bool) (vs : List Bytes) → (if b then vs else vs) ≡ vs
keeps_none true vs = refl
keeps_none false vs = refl

-- A field without a value.
find_bare :
    (name key : Bytes) (fs : List FormField)
    → IsText name
    → All (λ c. is_key_char c ≡ true) name
    → key ≢ []
    → IsText key
    → All IsField fs
    → Passes name fs
    → (k : ℕ)
    → Reads
        (get_elem? (values_of name fs) k)
        (find_var name true ((encoded key ++ []) ++ more_text fs) k)
find_bare name key fs a h n t v ih k =
    let (key_ends, (value_ends, no_equals)) = more_ends fs in
    let chars = All-weaken (encoded key) plain_key (encoded-plain key t) in
    let misses : is_here name (encoded key ++ more_text fs) ≡ false =
      is_here-field name (encoded key) (more_text fs) a h
        (IsText-append (encoded key) (more_text fs) (encoded-IsText key t) (more-IsText fs v)) chars
        key_ends
      ∙ ap (λ b. b && same_name name (encoded key)) no_equals in
    subst (Reads (get_elem? (values_of name fs) k))
      (sym (
        ap (λ w. find_var name true (w ++ more_text fs) k) (append-nil (encoded key))
        ∙ find_var-miss name (encoded key) (more_text fs) k (encoded-nonempty key n)
            (All-weaken (encoded key) no_ampersand chars) misses))
      (ih k)

one_more : (n m : ℕ) → n ≡ m → n + 1 ≡ suc m
one_more n m e = omega arith

drop_whole :
    {A : Type 0} (xs : List A) (x : A) (ys : List A) → drop (suc (length xs)) (xs ++ (x ∷ ys)) ≡ ys
drop_whole [] x ys = refl
drop_whole (y ∷ xs) x ys = drop_whole xs x ys

drop_behind :
    {A : Type 0} (xs : List A) (x : A) (ys : List A) (n : ℕ)
    → n ≡ length xs
    → drop (n + 1) (xs ++ (x ∷ ys)) ≡ ys
drop_behind xs x ys n e =
    ap (λ m. drop m (xs ++ (x ∷ ys))) (one_more n (length xs) e) ∙ drop_whole xs x ys

same-length : (name key : Bytes) → same_name name key ≡ true → length name ≡ length key
same-length name key e =
    sym (length-map name tolower)
    ∙ ap length ((str_eq_iff (map tolower name) (map tolower key)).0 e)
    ∙ length-map key tolower

value_passed :
    (name value : Bytes) (fs : List FormField) (k : ℕ)
    → IsText value
    → find_var name false (b'=' ∷ (encoded value ++ more_text fs)) k
      ≡ find_var name false (more_text fs) k
value_passed name value fs k u = find_var-skip name (b'=' ∷ encoded value) (more_text fs) k (
  refl,
  All-weaken (encoded value) (λ c e. no_ampersand c (plain_key c e)) (encoded-plain value u),
)

next_one :
    {A : Type 0} (a : A) (f : ℕ → A) (j : ℕ) → (if suc j == 0 then a else f (suc j - 1)) ≡ f j
next_one a f j = ground arith

find_hit :
    (name value : Bytes) (vs : List Bytes) (fs : List FormField) (rest : Bytes)
    → rest ≡ encoded value ++ more_text fs
    → IsText value
    → ((k : ℕ) → Reads (get_elem? vs k) (find_var name false (more_text fs) k))
    → (k : ℕ)
    → Reads (get_elem? (value ∷ vs) k) (
        if k == 0
        then some rest
        else find_var name false (b'=' ∷ (encoded value ++ more_text fs)) (k - 1))
find_hit name value vs fs rest e u ih zero = (fs, ap some e, u)
find_hit name value vs fs rest e u ih (suc j) =
    let tail : Bytes = b'=' ∷ (encoded value ++ more_text fs) in
    subst (Reads (get_elem? vs j))
      (sym
        (next_one (some rest) (λ i. find_var name false tail i) j ∙ value_passed name value fs j u))
      (ih j)

-- A field with a value.
find_valued :
    (name key value : Bytes) (fs : List FormField)
    → IsText name
    → All (λ c. is_key_char c ≡ true) name
    → key ≢ []
    → IsText key
    → IsText value
    → All IsField fs
    → Passes name fs
    → (k : ℕ)
    → Reads
        (get_elem?
          (if same_name name (encoded key) then value ∷ values_of name fs else values_of name fs)
          k)
        (find_var name true ((encoded key ++ (b'=' ∷ encoded value)) ++ more_text fs) k)
find_valued name key value fs a h n t u v ih k =
    let tail : Bytes = b'=' ∷ (encoded value ++ more_text fs) in
    let chars = All-weaken (encoded key) plain_key (encoded-plain key t) in
    let no_break = All-weaken (encoded key) no_ampersand chars in
    let begins = encoded-nonempty key n in
    let here : is_here name (encoded key ++ tail) ≡ same_name name (encoded key) =
      is_here-field name (encoded key) tail a h
        (IsText-append (encoded key) tail (encoded-IsText key t) (
          (omega arith, omega arith),
          IsText-append (encoded value) (more_text fs) (encoded-IsText value u) (more-IsText fs v),
        ))
        chars equals_ends in
    let joined =
      ap (λ w. find_var name true w k)
        (append_assoc (encoded key) (b'=' ∷ encoded value) (more_text fs)) in
    elim (Bool-cases (same_name name (encoded key))) [
      | inl f ↦ rw f (
          subst (Reads (get_elem? (value ∷ values_of name fs) k))
            (sym (joined ∙ find_var-match name (encoded key) tail k begins no_break (here ∙ f)))
            (find_hit name value (values_of name fs) fs
              (drop (length name + 1) (encoded key ++ tail))
              (drop_behind (encoded key) b'=' (encoded value ++ more_text fs) (length name)
                (same-length name (encoded key) f))
              u ih k))
      | inr f ↦ rw f (
          subst (Reads (get_elem? (values_of name fs) k))
            (sym (
              joined
              ∙ find_var-miss name (encoded key) tail k begins no_break (here ∙ f)
              ∙ value_passed name value fs k u))
            (ih k))
    ]

find_field :
    (name key : Bytes) (value : Option Bytes) (fs : List FormField)
    → IsText name
    → All (λ c. is_key_char c ≡ true) name
    → key ≢ []
    → IsText key
    → IsValue value
    → All IsField fs
    → Passes name fs
    → (k : ℕ)
    → Reads
        (get_elem?
          (if same_name name (encoded key)
            then keep_value value (values_of name fs)
            else values_of name fs)
          k)
        (find_var name true ((encoded key ++ value_text value) ++ more_text fs) k)
find_field name key none fs a h n t u v ih k =
    subst
      (λ vs. Reads (get_elem? vs k) (find_var name true ((encoded key ++ []) ++ more_text fs) k))
      (sym (keeps_none (same_name name (encoded key)) (values_of name fs)))
      (find_bare name key fs a h n t v ih k)
find_field name key (some value) fs a h n t u v ih k =
    find_valued name key value fs a h n t u v ih k

find_more :
    (name : Bytes) (fs : List FormField)
    → IsText name
    → All (λ c. is_key_char c ≡ true) name
    → All IsField fs
    → Passes name fs
unfolding values_of
find_more name [] a h v k = unfold find_var in refl
find_more name (f ∷ fs) a h v k =
    subst (Reads (get_elem? (values_of name (f ∷ fs)) k))
      (sym (find_var-ampersand name ((encoded f.name ++ value_text f.value) ++ more_text fs) k))
      (find_field name f.name f.value fs a h v.0.0 v.0.1.0 v.0.1.1 v.1 (find_more name fs a h v.1)
        k)

find_form :
    (name : Bytes) (fs : List FormField) (k : ℕ)
    → IsText name
    → All (λ c. is_key_char c ≡ true) name
    → All IsField fs
    → Reads (get_elem? (values_of name fs) k) (find_var name true (form_text fs) k)
unfolding values_of
find_form name [] k a h v = unfold find_var in refl
find_form name (f ∷ fs) k a h v =
    find_field name f.name f.value fs a h v.0.0 v.0.1.0 v.0.1.1 v.1 (find_more name fs a h v.1) k

-- What is asked for: the value, where it fits, or the information that there is none.
abbrev pub Answers : ℕ → Option Bytes → Var → Type 0
Answers dst_len none r = r ≡ record { len = negsuc 0; dst = some [] }
Answers dst_len (some v) r = length v < dst_len → r ≡ record { len = pos (length v); dst = some v }

var_ends : (fs : List FormField) → is_var_char (peek (more_text fs)) ≡ false ⊎ (more_text fs ≡ [])
unfolding is_var_char
var_ends [] = inr refl
var_ends (f ∷ fs) = inl refl

plain_var : (c : ℕ) → is_plain c ≡ true → is_var_char c ≡ true
unfolding is_var_char is_key_char
plain_var c e = ground arith

whole_span :
    (test : ℕ → Bool) (w : Bytes) → All (λ c. test c ≡ true) w → (span_while test w).word ≡ w
unfolding span_while
whole_span test [] h = refl
whole_span test (c ∷ w) h = rw h.0 (ap (λ v. c ∷ v) (whole_span test w h.1))

raw_value :
    (v : Bytes) (fs : List FormField)
    → IsText v
    → (span_while is_var_char (encoded v ++ more_text fs)).word ≡ encoded v
raw_value v fs u =
    let chars = All-weaken (encoded v) plain_var (encoded-plain v u) in
    elim (var_ends fs) [
      | inl e ↦
          ap (λ (w : Word). w.word)
            (span_while-append is_var_char (encoded v) (more_text fs) chars e)
      | inr e ↦
          ap (λ t. (span_while is_var_char (encoded v ++ t)).word) e
          ∙ ap (λ t. (span_while is_var_char t).word) (append-nil (encoded v))
          ∙ whole_span is_var_char (encoded v) chars
    ]

var_value-Answers :
    (dst_len : ℕ) (o found : Option Bytes)
    → Reads o found
    → Answers dst_len o (var_value dst_len found)
var_value-Answers dst_len none found e = ap (var_value dst_len) e
var_value-Answers dst_len (some v) found (fs, e, u) = λ fits.
    ap (var_value dst_len) e
    ∙ ap (λ w. decoded_var (mg_url_decode w dst_len true)) (raw_value v fs u)
    ∙ ap decoded_var (encoded-into v dst_len u fits)

not_empty : (n : ℕ) → 0 < n → (n == 0) ≡ false
not_empty n h = ground arith

-- In form data of fields whose names are not empty and whose names and values are texts, each encoded
-- by mg_url_encode and written with = and & between them, and for a name that is a text without & and
-- =: `mg_get_var2` answers -1 if at most `occurrence` of the fields have a value and a name whose
-- encoding is this name, but for the case of letters; otherwise, where the value of the one that
-- comes behind `occurrence` others fits the buffer with its terminator, the length of this value,
-- with the value in the buffer.
pub mg_get_var2-form_text :
    (name : Bytes) (fs : List FormField) (dst_len occurrence : ℕ)
    → IsText name
    → All (λ c. is_key_char c ≡ true) name
    → All IsField fs
    → 0 < dst_len
    → Answers dst_len
        (get_elem? (values_of name fs) occurrence)
        (mg_get_var2 (some (form_text fs)) (some name) dst_len occurrence)
unfolding mg_get_var2
mg_get_var2-form_text name fs dst_len occurrence a h v l = rw (not_empty dst_len l) (
    var_value-Answers dst_len (get_elem? (values_of name fs) occurrence)
      (find_var name true (form_text fs) occurrence) (find_form name fs occurrence a h v))
