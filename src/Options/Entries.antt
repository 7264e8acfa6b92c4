-- ===== src/Options/Entries.antt =====
-- next_option of src/civetweb.c takes the entries of a comma separated list off it, one by one.
use civetweb.Base.{==_iff, Bool, Bool-cases, Bytes, List, Option, [], ap, arith, false, get_or}
use civetweb.Base.{if_split, if◌then◌else◌, inl, inr, length, none, refl, some, suc, take, true}
use civetweb.Base.{zero, ℕ, ◌++◌, ◌-◌, ◌<◌, ◌==◌, ◌||◌, ◌∙◌, ◌∷◌, ◌≡◌, ◌≢◌, ◌≤◌}
use civetweb.Options.{
  is_lws, skip_lws, until_comma, behind_comma, trim_len, find_equals, one_on, Vec, Entry,
  split_value, value_at, next_from, next_option, text,
}

-- The pieces between the commas.
abbrev pub cons_first : ℕ → List Bytes → List Bytes
cons_first c [] = (c ∷ []) ∷ []
cons_first c (w ∷ ws) = (c ∷ w) ∷ ws

pub split_commas : Bytes → List Bytes
split_commas [] = [] ∷ []
split_commas (c ∷ s) =
    let more = cons_first c (split_commas s) in
    let next = [] ∷ split_commas s in if c == b',' then next else more

-- Blanks are spaces and tabs.
abbrev is_blank : ℕ → Bool
is_blank c = c == b' ' || c == b'\t'

is_lws-is_blank : (c : ℕ) → is_lws c ≡ is_blank c
is_lws-is_blank c = refl

-- Without the blanks in front.
pub trim_front : Bytes → Bytes
trim_front [] = []
trim_front (c ∷ s) = if is_blank c then trim_front s else c ∷ s

skip_lws-trim_front : (s : Bytes) → skip_lws s ≡ trim_front s
unfolding skip_lws trim_front
skip_lws-trim_front [] = refl
skip_lws-trim_front (c ∷ s) = elim (Bool-cases (is_blank c)) [
  | inl e ↦ rw (is_lws-is_blank c, e) (skip_lws-trim_front s)
  | inr e ↦ rw (is_lws-is_blank c, e) refl
]

-- Without the blanks at the end.
abbrev trim_cons : ℕ → Bytes → Bytes
trim_cons c [] = if is_blank c then [] else c ∷ []
trim_cons c (d ∷ w) = c ∷ d ∷ w

pub trim_end : Bytes → Bytes
trim_end [] = []
trim_end (c ∷ s) = trim_cons c (trim_end s)

-- The pieces that are not empty without the blanks around them.
abbrev keep : Bytes → List Bytes → List Bytes
keep [] ws = ws
keep (c ∷ w) ws = (c ∷ w) ∷ ws

pub trimmed : List Bytes → List Bytes
trimmed [] = []
trimmed (p ∷ ps) = keep (trim_end (trim_front p)) (trimmed ps)

pub entries : Bytes → List Bytes
entries list = trimmed (split_commas list)

split_commas-first :
    (s : Bytes)
    → (ws : List Bytes) × (split_commas s ≡ until_comma s ∷ ws)
      × (trimmed ws ≡ entries (behind_comma s))
unfolding entries trimmed split_commas until_comma behind_comma trim_end trim_front
split_commas-first [] = ([], refl, refl)
split_commas-first (c ∷ s) = elim (Bool-cases (c == b',')) [
  | inl e ↦ rw e (split_commas s, refl, refl)
  | inr e ↦ let (ws, f, g) = split_commas-first s in rw (e, f) (ws, refl, g)
]

entries-keep :
    (list : Bytes)
    → entries list ≡ keep (trim_end (trim_front (until_comma list))) (entries (behind_comma list))
unfolding entries trimmed
entries-keep list = let (ws, f, g) = split_commas-first list in rw (f, g) refl

comma_no_lws : (c : ℕ) → is_lws c ≡ true → (c == b',') ≡ false
comma_no_lws c h = ground arith

until_comma-skip_lws : (s : Bytes) → until_comma (skip_lws s) ≡ skip_lws (until_comma s)
unfolding until_comma skip_lws
until_comma-skip_lws [] = refl
until_comma-skip_lws (c ∷ s) = elim (Bool-cases (is_lws c)) [
  | inl e ↦ rw (e, comma_no_lws c e, e) (until_comma-skip_lws s)
  | inr e ↦ elim (Bool-cases (c == b',')) [ inl f ↦ rw (e, f) refl | inr f ↦ rw (e, f, e) refl ]
]

behind_comma-skip_lws : (s : Bytes) → behind_comma (skip_lws s) ≡ behind_comma s
unfolding behind_comma skip_lws
behind_comma-skip_lws [] = refl
behind_comma-skip_lws (c ∷ s) = elim (Bool-cases (is_lws c)) [
  | inl e ↦ rw (e, comma_no_lws c e) (behind_comma-skip_lws s)
  | inr e ↦ rw e refl
]

take-until_comma : (s : Bytes) → take (length (until_comma s)) s ≡ until_comma s
unfolding until_comma
take-until_comma [] = refl
take-until_comma (c ∷ s) = elim (Bool-cases (c == b',')) [
  | inl e ↦ rw e refl
  | inr e ↦ rw e (ap (λ l. c ∷ l) (take-until_comma s))
]

trim_cons-snoc : (d : ℕ) (s : Bytes) (c : ℕ) → trim_cons d (s ++ c ∷ []) ≡ d ∷ (s ++ c ∷ [])
trim_cons-snoc d [] c = refl
trim_cons-snoc d (x ∷ s) c = refl

trim_end-snoc :
    (s : Bytes) (c : ℕ) → trim_end (s ++ c ∷ []) ≡ (if is_blank c then trim_end s else s ++ c ∷ [])
unfolding trim_end
trim_end-snoc [] c = refl
trim_end-snoc (d ∷ s) c = elim (Bool-cases (is_blank c)) [
  | inl e ↦ rw (trim_end-snoc s c, e) refl
  | inr e ↦ rw (trim_end-snoc s c, e) (trim_cons-snoc d s c)
]

take-snoc : (s : Bytes) (n : ℕ) → n < length s → take (suc n) s ≡ take n s ++ get_or s n 0 ∷ []
take-snoc [] n h = absurd (omega arith)
take-snoc (c ∷ s) zero h = refl
take-snoc (c ∷ s) (suc n) h = ap (λ l. c ∷ l) (take-snoc s n (omega arith))

take-trim_len : (s : Bytes) (n : ℕ) → n ≤ length s → take (trim_len s n) s ≡ trim_end (take n s)
unfolding trim_len
take-trim_len s zero h = unfold trim_end in refl
take-trim_len s (suc n) h =
    let e = take-snoc s n (omega arith) in
    let f = trim_end-snoc (take n s) (get_or s n 0) in
    elim (Bool-cases (is_blank (get_or s n 0))) [
      | inl g ↦ rw (is_lws-is_blank (get_or s n 0), g, e, f, g) (take-trim_len s n (omega arith))
      | inr g ↦ rw (is_lws-is_blank (get_or s n 0), g, e, f, g) refl
    ]

-- A piece cut at its first equals sign, and what an entry shows.
abbrev cons_key : ℕ → Bytes × Option Bytes → Bytes × Option Bytes
cons_key c (k, v) = (c ∷ k, v)

pub split_equals : Bytes → Bytes × Option Bytes
split_equals [] = ([], none)
split_equals (c ∷ w) =
    let more = cons_key c (split_equals w) in if c == b'=' then ([], some w) else more

abbrev pub cut : Bool → Bytes → Bytes × Option Bytes
cut true w = split_equals w
cut false w = (w, none)

abbrev pub text_of : Option Vec → Option Bytes
text_of none = none
text_of (some v) = some (text v)

abbrev pub view : Entry → Bytes × Option Bytes
view e = (text e.val, text_of e.eq_val)

split_value-shift :
    (c : ℕ) (s : Bytes) (n : ℕ) (o : Option ℕ)
    → view (split_value (record { ptr = c ∷ s; len = suc n }) (one_on o))
      ≡ cons_key c (view (split_value (record { ptr = s; len = n }) o))
unfolding split_value
split_value-shift c s n none = refl
split_value-shift c s n (some i) =
    let e : suc n - suc (suc i) ≡ n - suc i = omega arith in rw e refl

split_value-zero :
    (c : ℕ) (s : Bytes) (n : ℕ)
    → view (split_value (record { ptr = c ∷ s; len = suc n }) (some 0)) ≡ ([], some (take n s))
unfolding split_value
split_value-zero c s n = let f : suc n - 1 ≡ n = omega arith in rw f refl

view-split_value :
    (s : Bytes) (n : ℕ)
    → n ≤ length s
    → view (split_value (record { ptr = s; len = n }) (find_equals s n)) ≡ split_equals (take n s)
unfolding find_equals split_equals
view-split_value s zero h = unfold split_value in refl
view-split_value [] (suc n) h = absurd (omega arith)
view-split_value (c ∷ s) (suc n) h = elim (Bool-cases (c == b'=')) [
  | inl e ↦ rw e (split_value-zero c s n)
  | inr e ↦ rw e (
      split_value-shift c s n (find_equals s n)
      ∙ ap (cons_key c) (view-split_value s n (omega arith)))
]

trim_len-le : (s : Bytes) (n : ℕ) → trim_len s n ≤ n
unfolding trim_len
trim_len-le s zero = omega arith
trim_len-le s (suc n) = ground (arith, trim_len-le s n)

until_comma-length : (s : Bytes) → length (until_comma s) ≤ length s
unfolding until_comma
until_comma-length [] = omega arith
until_comma-length (c ∷ s) = ground (arith, until_comma-length s)

-- The piece at the front of the list, as the code finds it.
pub value_at-piece :
    (list : Bytes)
    → (text (value_at list) ≡ trim_end (trim_front (until_comma list)))
      × ((value_at list).len ≤ length (value_at list).ptr)
unfolding value_at
value_at-piece list =
    let p = skip_lws list in
    let n = length (until_comma p) in
    let h : n ≤ length p = until_comma-length p in
    (
      take-trim_len p n h
          ∙ ap trim_end (
              take-until_comma p
              ∙ until_comma-skip_lws list
              ∙ skip_lws-trim_front (until_comma list)),
      omega (arith, trim_len-le p n),
    )

behind_comma-length : (s : Bytes) → length (behind_comma s) ≤ length s
unfolding behind_comma
behind_comma-length [] = omega arith
behind_comma-length (c ∷ s) = ground (arith, behind_comma-length s)

-- What an answer of `next_option` says.
abbrev pub IsNext : Bool → Bytes → Option (Entry × Bytes) → Type 0
IsNext with_eq list none = entries list ≡ []
IsNext with_eq list (some (e, rest)) =
    (w : Bytes) × (entries list ≡ w ∷ entries rest)
    × (w ≢ [])
    × (view e ≡ cut with_eq w)
    × (length rest < length list)

IsNext-later :
    (with_eq : Bool) (list rest : Bytes) (o : Option (Entry × Bytes))
    → entries list ≡ entries rest
    → length rest < length list
    → IsNext with_eq rest o
    → IsNext with_eq list o
IsNext-later with_eq list rest none e l h = e ∙ h
IsNext-later with_eq list rest (some (entry, r)) e l (w, f, n, v, k) = (w, e ∙ f, n, v, omega arith)

keep-nonempty : (w : Bytes) (ws : List Bytes) → w ≢ [] → keep w ws ≡ w ∷ ws
keep-nonempty [] ws h = absurd (h refl)
keep-nonempty (c ∷ w) ws h = refl

take-nonempty : (n : ℕ) (s : Bytes) → n ≤ length s → (n == 0) ≡ false → take n s ≢ []
take-nonempty zero s h e = cc
take-nonempty (suc n) [] h e = absurd (omega arith)
take-nonempty (suc n) (c ∷ s) h e = λ f. cc

take-zero : (n : ℕ) (s : Bytes) → (n == 0) ≡ true → take n s ≡ []
take-zero n s e = rw ((==_iff n 0).0 e) refl

behind_comma-shorter : (c : ℕ) (s : Bytes) → length (behind_comma (c ∷ s)) < length (c ∷ s)
unfolding behind_comma
behind_comma-shorter c s = ground (arith, behind_comma-length s)

view-cut :
    (with_eq : Bool) (v : Vec)
    → v.len ≤ length v.ptr
    → view (split_value v (if with_eq then find_equals v.ptr v.len else none))
      ≡ cut with_eq (text v)
view-cut true v h = view-split_value v.ptr v.len h
view-cut false v h = unfold split_value in refl

next_from-IsNext :
    (fuel : ℕ) (with_eq : Bool) (list : Bytes)
    → length list ≤ fuel
    → IsNext with_eq list (next_from fuel with_eq list)
unfolding next_from
next_from-IsNext fuel with_eq [] h = unfold entries trimmed split_commas trim_end trim_front in refl
next_from-IsNext zero with_eq (c ∷ list) h = absurd (omega arith)
next_from-IsNext (suc fuel) with_eq (c ∷ list) h =
    let all = c ∷ list in
    let v = value_at all in
    let rest = behind_comma (skip_lws all) in
    let (piece, fits) = value_at-piece all in
    let same = behind_comma-skip_lws all in
    let shorter : length rest < length all =
      omega (arith, ap length same, behind_comma-shorter c list) in
    let front : entries all ≡ keep (text v) (entries rest) = rw (piece, same) (entries-keep all) in
    if_split (IsNext with_eq all) (v.len == 0) _ _
      (λ e.
        IsNext-later with_eq all rest (next_from fuel with_eq rest)
          (front ∙ ap (λ w. keep w (entries rest)) (take-zero v.len v.ptr e)) shorter
          (next_from-IsNext fuel with_eq rest (omega arith)))
      (λ e.
        let n = take-nonempty v.len v.ptr fits e in
        (
          text v,
          front ∙ keep-nonempty (text v) (entries rest) n,
          n,
          view-cut with_eq v fits,
          shorter,
        ))

-- `next_option` gives the next of the pieces between the commas that are not empty without the
-- spaces and tabs around them, without these, cut at its first equals sign if this is asked for, and a shorter list
-- that holds the further pieces; NULL tells that there are no more.
pub next_option-IsNext :
    (with_eq : Bool) (list : Bytes) → IsNext with_eq list (next_option with_eq list)
unfolding next_option
next_option-IsNext with_eq list = next_from-IsNext (length list) with_eq list (omega arith)
