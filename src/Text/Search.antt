-- ===== src/Text/Search.antt =====
-- What mg_strcasestr of src/civetweb.c finds.
use civetweb.Base.{Bool-cases, Bytes, IsText, IsText-drop, List, Option, [], ap, arith, drop}
use civetweb.Base.{inl, inr, le_split, leb, length, length-map, map, negsuc, none, pos, refl}
use civetweb.Base.{rest_of-drop, some, suc, take, tests, true, zero, ℕ, ℤ, ◌+◌, ◌-◌, ◌<◌, ◌↔◌}
use civetweb.Base.{◌∷◌, ◌≡◌, ◌≤◌}
use civetweb.Ctype.{tolower}
use civetweb.Text.{is_zero, mg_strncasecmp, find_from, mg_strcasestr}
use civetweb.Text.Compare.{mg_strncasecmp-eq-zero_iff}

-- The small text stands at offset `i`, but for the case of letters.
abbrev pub OccursAt : Bytes → Bytes → ℕ → Type 0
OccursAt big small i = take (length small) (map tolower (drop i big)) ≡ map tolower small

-- `found` is the least of the offsets that leave room for the small text and at which it stands.
abbrev pub IsFirst : Bytes → Bytes → ℕ → ℕ → Option ℕ → Type 0
IsFirst big small lo hi none = (j : ℕ) → lo ≤ j → j < hi → ¬ OccursAt big small j
IsFirst big small lo hi (some i) =
    (lo ≤ i) × (i < hi) × OccursAt big small i × ((j : ℕ) → lo ≤ j → j < i → ¬ OccursAt big small j)

take-all {ℓ} : {A : Type ℓ} (xs : List A) → take (length xs) xs ≡ xs
take-all [] = refl
take-all (x ∷ xs) = ap (λ l. x ∷ l) (take-all xs)

take-map-length : (s : Bytes) → take (length s) (map tolower s) ≡ map tolower s
take-map-length s = rw (← length-map s tolower) (take-all (map tolower s))

pub is_zero_iff : (z : ℤ) → (is_zero z ≡ true) ↔ (z ≡ pos 0)
is_zero_iff (pos n) = ground arith
is_zero_iff (negsuc n) = ground arith

module _ (big small : Bytes) (hb : IsText big) (hs : IsText small) where
  test_iff :
      (i : ℕ)
      → (is_zero (mg_strncasecmp (drop i big) small (length small)) ≡ true) ↔ OccursAt big small i
  test_iff i = ground (
    arith,
    is_zero_iff (mg_strncasecmp (drop i big) small (length small)),
    mg_strncasecmp-eq-zero_iff (drop i big) small (length small) (IsText-drop i big hb) hs,
    take-map-length small,
  )

  IsFirst-later :
      (lo hi : ℕ) (r : Option ℕ)
      → ¬ OccursAt big small lo
      → IsFirst big small (lo + 1) hi r
      → IsFirst big small lo hi r
  IsFirst-later lo hi none n h =
      λ j p q. elim (le_split lo j p) [ inl e ↦ rw (← e) n | inr l ↦ h j l q ]
  IsFirst-later lo hi (some i) n (p, q, o, h) =
      (omega arith, q, o, λ j r s. elim (le_split lo j r) [ inl e ↦ rw (← e) n | inr l ↦ h j l s ])

  find_from-IsFirst :
      (rounds i hi : ℕ)
      → i + rounds ≡ hi
      → IsFirst big small i hi (find_from small rounds i (drop i big))
  unfolding find_from
  find_from-IsFirst zero i hi s = λ j p q. absurd (omega arith)
  find_from-IsFirst (suc rounds) i hi s =
      elim (Bool-cases (is_zero (mg_strncasecmp (drop i big) small (length small)))) [
        | inl e ↦ rw e (omega arith, omega arith, (test_iff i).0 e, λ j p q. absurd (omega arith))
        | inr e ↦
            rw (e, rest_of-drop i big)
              (IsFirst-later i hi _ (λ o. cc ((test_iff i).1 o))
                (find_from-IsFirst rounds (i + 1) hi (omega arith)))
      ]

  -- For texts without a zero byte: the search answers the least offset at which the small text
  -- stands in the big one, but for the case of letters, and NULL exactly when it stands nowhere.
  pub mg_strcasestr-IsFirst :
      IsFirst big small 0 (length big + 1 - length small) (mg_strcasestr big small)
  unfolding mg_strcasestr
  mg_strcasestr-IsFirst = elim (Bool-cases (leb (length small) (length big))) [
    | inl e ↦ rw e (find_from-IsFirst (length big - length small + 1) 0 _ (omega tests))
    | inr e ↦ rw e (λ j p q. absurd (ground arith))
  ]
