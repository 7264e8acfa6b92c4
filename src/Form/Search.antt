-- ===== src/Form/Search.antt =====
-- Where the loop of mg_get_var2 in src/civetweb.c stops on form data.
use civetweb.Base.{==_iff, All, Bool, Bytes, IsText, [], ap₂, arith, drop, false, get_or}
use civetweb.Base.{if_split, if◌then◌else◌, length, length-append, ltb, map, none, not, peek}
use civetweb.Base.{refl, some, suc, sym, take, true, zero, ℕ, ◌&&◌, ◌++◌, ◌+◌, ◌-◌, ◌<◌, ◌==◌}
use civetweb.Base.{◌↔◌, ◌∙◌, ◌∷◌, ◌≡◌, ◌≢◌, ◌≤◌}
use civetweb.Ctype.{tolower, str_eq, str_eq_iff}
use civetweb.Text.{is_zero, mg_strncasecmp}
use civetweb.Text.Search.{is_zero_iff}
use civetweb.Text.Compare.{mg_strncasecmp-eq-zero_iff}
use civetweb.Form.{is_key_char, find_var}

lowercase_differs : (a c : ℕ) → is_key_char a ≡ true → is_key_char c ≡ false → tolower a ≢ tolower c
unfolding is_key_char tolower
lowercase_differs a c e f = λ g. ground arith

equals_differs : (c : ℕ) → is_key_char c ≡ true → c ≢ b'='
unfolding is_key_char
equals_differs c e = λ g. ground arith

head_of : (a b : ℕ) (xs ys : Bytes) → Path Bytes (a ∷ xs) (b ∷ ys) → a ≡ b
head_of a b xs ys e = cc

tail_of : (a b : ℕ) (xs ys : Bytes) → Path Bytes (a ∷ xs) (b ∷ ys) → xs ≡ ys
tail_of a b xs ys e = cc

first_of : (tail : Bytes) → get_or tail 0 0 ≡ peek tail
first_of [] = refl
first_of (c ∷ tail) = refl

-- Up to the first byte that is in no key, and that byte is an equals sign.
prefix_whole :
    (name key tail : Bytes)
    → All (λ c. is_key_char c ≡ true) name
    → All (λ c. is_key_char c ≡ true) key
    → is_key_char (peek tail) ≡ false
    → get_or (key ++ tail) (length name) 0 ≡ b'='
    → take (length name) (map tolower name) ≡ take (length name) (map tolower (key ++ tail))
    → (peek tail ≡ b'=') × (map tolower name ≡ map tolower key)
prefix_whole [] [] tail h k t e g = (sym (first_of tail) ∙ e, refl)
prefix_whole [] (c ∷ key) tail h k t e g = absurd (equals_differs c k.0 e)
prefix_whole (a ∷ name) [] [] h k t e g = cc
prefix_whole (a ∷ name) [] (c ∷ tail) h k t e g =
    absurd (lowercase_differs a c h.0 t (head_of _ _ _ _ g))
prefix_whole (a ∷ name) (c ∷ key) tail h k t e g =
    let (p, q) = prefix_whole name key tail h.1 k.1 t e (tail_of _ _ _ _ g) in
    (p, ap₂ (λ x xs. x ∷ xs) (head_of _ _ _ _ g) q)

whole_prefix :
    (name key tail : Bytes)
    → peek tail ≡ b'='
    → map tolower name ≡ map tolower key
    → (get_or (key ++ tail) (length name) 0 ≡ b'=')
      × (take (length name) (map tolower name) ≡ take (length name) (map tolower (key ++ tail)))
whole_prefix [] [] tail e g = (first_of tail ∙ e, refl)
whole_prefix [] (c ∷ key) tail e g = cc
whole_prefix (a ∷ name) [] tail e g = cc
whole_prefix (a ∷ name) (c ∷ key) tail e g =
    let (p, q) = whole_prefix name key tail e (tail_of _ _ _ _ g) in
    (p, ap₂ (λ x xs. x ∷ xs) (head_of _ _ _ _ g) q)

-- The test of the loop at a place.
abbrev pub is_here : Bytes → Bytes → Bool
is_here name p = get_or p (length name) 0 == b'=' && is_zero (mg_strncasecmp name p (length name))

-- The name of a field, but for the case of letters.
abbrev pub same_name : Bytes → Bytes → Bool
same_name name key = str_eq (map tolower name) (map tolower key)

both_iff : (a b : Bool) → ((a ≡ true) ↔ (b ≡ true)) → a ≡ b
both_iff true true h = refl
both_iff false false h = refl
both_iff true false h = sym (h.0 refl)
both_iff false true h = h.1 refl

and_iff : (a b : Bool) → ((a && b) ≡ true) ↔ ((a ≡ true) × (b ≡ true))
and_iff a b = ground arith

pub is_here-field :
    (name key tail : Bytes)
    → IsText name
    → All (λ c. is_key_char c ≡ true) name
    → IsText (key ++ tail)
    → All (λ c. is_key_char c ≡ true) key
    → is_key_char (peek tail) ≡ false
    → is_here name (key ++ tail) ≡ (peek tail == b'=' && same_name name key)
is_here-field name key tail a h b k t =
    let text = key ++ tail in
    let n = length name in
    let compares = mg_strncasecmp-eq-zero_iff name text n a b in
    let zero_test = is_zero_iff (mg_strncasecmp name text n) in
    let names = str_eq_iff (map tolower name) (map tolower key) in
    both_iff _ _ (
      (λ e.
          let (p, q) = (and_iff _ _).0 e in
          let (x, y) =
            prefix_whole name key tail h k t ((==_iff _ _).0 p) (compares.0 (zero_test.0 q)) in
          (and_iff _ _).1 ((==_iff _ _).1 x, names.1 y)),
      (λ e.
          let (p, q) = (and_iff _ _).0 e in
          let (x, y) = whole_prefix name key tail ((==_iff _ _).0 p) (names.0 q) in
          (and_iff _ _).1 ((==_iff _ _).1 x, zero_test.1 (compares.1 y))),
    )

short_test : (a b : ℕ) → b ≤ a → not (ltb a b) ≡ true
short_test a b h = ground arith

-- No place is found where no more than the name is left.
pub find_var-short :
    (name : Bytes) (starts : Bool) (p : Bytes) (k : ℕ)
    → length p ≤ length name
    → find_var name starts p k ≡ none
unfolding find_var
find_var-short name starts [] k h = refl
find_var-short name starts (c ∷ p) k h = rw (short_test (length name) (length (c ∷ p)) h) refl

-- Text without & is passed over.
pub find_var-skip :
    (name w tail : Bytes) (k : ℕ)
    → All (λ c. (c == b'&') ≡ false) w
    → find_var name false (w ++ tail) k ≡ find_var name false tail k
unfolding find_var
find_var-skip name [] tail k h = refl
find_var-skip name (c ∷ w) tail k h =
    if_split (λ r. r ≡ find_var name false tail k)
      (not (ltb (length name) (length (c ∷ w ++ tail)))) _ _
      (λ e. sym (find_var-short name false tail k (shorter e)))
      (λ e. rw h.0 (find_var-skip name w tail k h.1))
  where
    shorter : not (ltb (length name) (length (c ∷ w ++ tail))) ≡ true → length tail ≤ length name
    shorter e = ground (arith, length-append (c ∷ w) tail)

-- A & starts a field.
pub find_var-ampersand :
    (name p : Bytes) (k : ℕ) → find_var name false (b'&' ∷ p) k ≡ find_var name true p k
unfolding find_var
find_var-ampersand name p k =
    if_split (λ r. r ≡ find_var name true p k) (not (ltb (length name) (length (b'&' ∷ p)))) _ _
      (λ e. sym (find_var-short name true p k (ground arith))) (λ e. refl)

inside : (p : Bytes) (i : ℕ) → get_or p i 0 ≡ b'=' → i < length p
inside [] i e = absurd (omega arith)
inside (c ∷ p) zero e = omega arith
inside (c ∷ p) (suc i) e = omega (arith, inside p i e)

long_test : (a b : ℕ) → a < b → not (ltb a b) ≡ false
long_test a b h = ground arith

-- At the start of a field.
pub find_var-match :
    (name key tail : Bytes) (k : ℕ)
    → key ≢ []
    → All (λ c. (c == b'&') ≡ false) key
    → is_here name (key ++ tail) ≡ true
    → find_var name true (key ++ tail) k ≡ (
        if k == 0
        then some (drop (length name + 1) (key ++ tail))
        else find_var name false tail (k - 1))
unfolding find_var
find_var-match name [] tail k n h e = absurd (n refl)
find_var-match name (c ∷ w) tail k n h e =
    let long = inside (c ∷ w ++ tail) (length name) ((==_iff _ _).0 ((and_iff _ _).0 e).0) in
    rw
      (
        long_test (length name) (length (c ∷ w ++ tail)) long,
        e,
        h.0,
        find_var-skip name w tail (k - 1) h.1,
      )
      refl

pub find_var-miss :
    (name key tail : Bytes) (k : ℕ)
    → key ≢ []
    → All (λ c. (c == b'&') ≡ false) key
    → is_here name (key ++ tail) ≡ false
    → find_var name true (key ++ tail) k ≡ find_var name false tail k
unfolding find_var
find_var-miss name [] tail k n h e = absurd (n refl)
find_var-miss name (c ∷ w) tail k n h e =
    if_split (λ r. r ≡ find_var name false tail k)
      (not (ltb (length name) (length (c ∷ w ++ tail)))) _ _
      (λ f. sym (find_var-short name false tail k (shorter f)))
      (λ f. rw (e, h.0) (find_var-skip name w tail k h.1))
  where
    shorter : not (ltb (length name) (length (c ∷ w ++ tail))) ≡ true → length tail ≤ length name
    shorter f = ground (arith, length-append (c ∷ w) tail)
