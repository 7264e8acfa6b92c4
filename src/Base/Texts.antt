-- ===== src/Base/Texts.antt =====
-- Texts as lists of bytes. A C string is the list of the bytes in front of its terminating zero.
use Prim.Native.Nat.{ℕ, zero, suc, ◌+◌, ◌<◌}
use Prim.Native.Char.{code}
use Prim.Native.String.{String}
use civetweb.Base.Lists.{drop}
use civetweb.Base.Tests.{ltb}
use mathlib.Core.Bool.{Bool, true, ◌&&◌}
use native.Mathlib.Omega.{arith}
use mathlib.Core.Path.{◌≡◌, refl}
use native.Mathlib.Numerals.{add-one}
use mathlib.Core.List.{List, [], ◌∷◌, ◌++◌}

abbrev pub Bytes : Type 0
Bytes = List ℕ

-- The code points of a text: its bytes, as the literals used here are ASCII.
abbrev pub codes : String → Bytes
codes String.[] = []
codes (String.◌∷◌ c s) = code c ∷ codes s

-- A property of every element.
abbrev pub All {ℓ κ} : {A : Type ℓ} → (A → Type κ) → List A → Type κ
All P [] = Unit
All P (x ∷ xs) = P x × All P xs

-- What can stand in a C string: a byte other than the terminator.
abbrev pub IsText : Bytes → Type 0
IsText = All (λ c. (0 < c) × (c < 256))

-- The value of the byte that a pointer into the string refers to: 0 at the terminator.
abbrev pub peek : Bytes → ℕ
peek [] = 0
peek (c ∷ s) = c

abbrev pub rest_of : Bytes → Bytes
rest_of [] = []
rest_of (c ∷ s) = s

module _ {ℓ κ} {A : Type ℓ} (P : A → Type κ) where
  pub All-append : (xs ys : List A) → All P xs → All P ys → All P (xs ++ ys)
  All-append [] ys h k = k
  All-append (x ∷ xs) ys h k = (h.0, All-append xs ys h.1 k)

  pub All-append_left : (xs ys : List A) → All P (xs ++ ys) → All P xs
  All-append_left [] ys h = tt
  All-append_left (x ∷ xs) ys h = (h.0, All-append_left xs ys h.1)

  pub All-append_right : (xs ys : List A) → All P (xs ++ ys) → All P ys
  All-append_right [] ys h = h
  All-append_right (x ∷ xs) ys h = All-append_right xs ys h.1

pub IsText-drop : (n : ℕ) (s : Bytes) → IsText s → IsText (drop n s)
IsText-drop zero s h = h
IsText-drop (suc n) [] h = tt
IsText-drop (suc n) (c ∷ s) h = IsText-drop n s h.1

rest_of-drop-suc : (i : ℕ) (s : Bytes) → rest_of (drop i s) ≡ drop (suc i) s
rest_of-drop-suc zero [] = refl
rest_of-drop-suc zero (c ∷ s) = refl
rest_of-drop-suc (suc i) [] = refl
rest_of-drop-suc (suc i) (c ∷ s) = rest_of-drop-suc i s

pub rest_of-drop : (i : ℕ) (s : Bytes) → rest_of (drop i s) ≡ drop (i + 1) s
rest_of-drop i s = rw add-one (rest_of-drop-suc i s)

-- A property that a test implies, for a text of which the test holds throughout.
abbrev pub all_of {ℓ} : {A : Type ℓ} → (A → Bool) → List A → Bool
all_of p [] = true
all_of p (x ∷ xs) = p x && all_of p xs

pub and_parts : (a b : Bool) → (a && b) ≡ true → (a ≡ true) × (b ≡ true)
and_parts a b h = ground arith

pub All-of {ℓ κ} :
    {A : Type ℓ} (P : A → Type κ) (p : A → Bool)
    → ((x : A) → p x ≡ true → P x)
    → (xs : List A) → all_of p xs ≡ true
    → All P xs
All-of P p f [] h = tt
All-of P p f (x ∷ xs) h =
    (f x (and_parts (p x) (all_of p xs) h).0, All-of P p f xs (and_parts (p x) (all_of p xs) h).1)

abbrev pub is_text : Bytes → Bool
is_text = all_of (λ c. ltb 0 c && ltb c 256)

pub IsText-of : (s : Bytes) → is_text s ≡ true → IsText s
IsText-of =
    All-of (λ c. (0 < c) × (c < 256)) (λ c. ltb 0 c && ltb c 256)
      (λ c h. (ground arith, ground arith))
