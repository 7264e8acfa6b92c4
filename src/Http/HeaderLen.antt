-- ===== src/Http/HeaderLen.antt =====
-- get_http_header_len of src/civetweb.c finds the first end of a message head.
use civetweb.Base.{Bytes, [], ap, arith, codes, drop, false, if_split, if◌then◌else◌, inl, inr}
use civetweb.Base.{le_split, length, length-drop, negsuc, peek, pos, refl, rest_of, rest_of-drop}
use civetweb.Base.{subst, suc, sym, take, true, zero, ℕ, ℤ, ◌+◌, ◌<◌, ◌↔◌, ◌∙◌, ◌∷◌, ◌≡◌, ◌≢◌}
use civetweb.Base.{◌≤◌, ◌⊎◌}
use civetweb.Ctype.{isprint, starts_with, starts_with_iff}
use civetweb.Http.{lflf, crlfcrlf, is_malformed, header_scan, get_http_header_len}

-- A byte that may not be in a head: a control character of ASCII other than the line ends.
abbrev pub IsControl : ℕ → Type 0
IsControl c = ((c < 32) ⊎ (c ≡ 127)) × (c ≢ b'\n') × (c ≢ b'\r')

is_malformed_iff : (c : ℕ) → (is_malformed c ≡ true) ↔ IsControl c
unfolding is_malformed isprint
is_malformed_iff c = ground arith

not-IsControl : (c : ℕ) → is_malformed c ≡ false → ¬ IsControl c
unfolding is_malformed isprint
not-IsControl c h (p, q, r) = absurd (ground arith)

-- What stands at an offset: an end of the head of `n` bytes.
abbrev pub EndsAt : Bytes → ℕ → ℕ → Type 0
EndsAt buf i n =
    ((take 2 (drop i buf) ≡ codes "\n\n") × (n ≡ i + 2))
    ⊎ ((take 4 (drop i buf) ≡ codes "\r\n\r\n") × (n ≡ i + 4))

-- A byte before the end of the head: allowed, and no end begins at it.
abbrev pub Passes : Bytes → ℕ → Type 0
Passes buf i =
    (¬ IsControl (peek (drop i buf)))
    × (take 2 (drop i buf) ≢ codes "\n\n")
    × (take 4 (drop i buf) ≢ codes "\r\n\r\n")

-- What the answer says of the offsets from `i` on.
abbrev pub ScanFrom : Bytes → ℕ → ℤ → Type 0
ScanFrom buf i (negsuc m) =
    (m ≡ 0)
    × ((k : ℕ) × (i ≤ k)
        × (k < length buf)
        × IsControl (peek (drop k buf))
        × ((j : ℕ) → i ≤ j → j < k → Passes buf j))
ScanFrom buf i (pos zero) = (j : ℕ) → i ≤ j → j < length buf → Passes buf j
ScanFrom buf i (pos (suc n)) =
    (k : ℕ) × (i ≤ k)
    × EndsAt buf k (suc n)
    × (¬ IsControl (peek (drop k buf)))
    × ((j : ℕ) → i ≤ j → j < k → Passes buf j)

below_split :
    (P : ℕ → Type 0) (i k : ℕ)
    → P i
    → ((j : ℕ) → i + 1 ≤ j → j < k → P j)
    → (j : ℕ) → i ≤ j
    → j < k
    → P j
below_split P i k here later j p q = elim (le_split i j p) [
  | inl e ↦ subst P e here
  | inr l ↦ later j l q
]

ScanFrom-later :
    (buf : Bytes) (i : ℕ) (r : ℤ) → Passes buf i → ScanFrom buf (i + 1) r → ScanFrom buf i r
ScanFrom-later buf i (negsuc m) h (e, (k, p, q, b, f)) =
    (e, (k, omega arith, q, b, below_split (Passes buf) i k h f))
ScanFrom-later buf i (pos zero) h f = below_split (Passes buf) i (length buf) h f
ScanFrom-later buf i (pos (suc n)) h (k, p, a, b, f) =
    (k, omega arith, a, b, below_split (Passes buf) i k h f)

-- What the tests at the rest of a buffer say of the buffer.
found : {s t : Bytes} (p : Bytes) → t ≡ s → starts_with s p ≡ true → take (length p) t ≡ p
found p e h = ap (take (length p)) e ∙ (starts_with_iff _ p).0 h

missed : {s t : Bytes} (p : Bytes) → t ≡ s → starts_with s p ≡ false → take (length p) t ≢ p
missed {s} p e h q =
    true≢false (sym ((starts_with_iff s p).1 (ap (take (length p)) (sym e) ∙ q)) ∙ h)
  where
    true≢false : true ≢ false
    true≢false r = ground arith

module _ (buf : Bytes) where
  -- The branches at one index.
  ScanFrom-end :
      (i n : ℕ)
      → ¬ IsControl (peek (drop i buf))
      → EndsAt buf i (suc n)
      → ScanFrom buf i (pos (suc n))
  ScanFrom-end i n m e = (i, omega arith, e, m, λ j p q. absurd (omega arith))

  scan_one :
      (i c : ℕ) (s : Bytes) (onward : ℤ)
      → drop i buf ≡ c ∷ s
      → i < length buf
      → ScanFrom buf (i + 1) onward
      → ScanFrom buf i (
          if is_malformed c
          then negsuc 0
          else if starts_with (c ∷ s) lflf
          then pos (i + 2)
          else if starts_with (c ∷ s) crlfcrlf
          then pos (i + 4)
          else onward)
  scan_one i c s onward e lt rest =
      let same : is_malformed (peek (drop i buf)) ≡ is_malformed c =
        ap (λ l. is_malformed (peek l)) e in
      let allowed = λ (m : is_malformed c ≡ false). not-IsControl _ (same ∙ m) in
      if_split (ScanFrom buf i) (is_malformed c) _ _
        (λ m. (
          refl,
          (i, omega arith, lt, (is_malformed_iff _).0 (same ∙ m), λ j p q. absurd (omega arith)),
        ))
        λ m.
          if_split (ScanFrom buf i) (starts_with (c ∷ s) lflf) _ _
            (λ a.
              let n : suc (i + 1) ≡ i + 2 = omega arith in
              subst (λ k. ScanFrom buf i (pos k)) n
                (ScanFrom-end i (i + 1) (allowed m) (inl (found lflf e a, omega arith))))
            λ a.
              if_split (ScanFrom buf i) (starts_with (c ∷ s) crlfcrlf) _ _
                (λ b.
                  let n : suc (i + 3) ≡ i + 4 = omega arith in
                  subst (λ k. ScanFrom buf i (pos k)) n
                    (ScanFrom-end i (i + 3) (allowed m) (inr (found crlfcrlf e b, omega arith))))
                λ b.
                  ScanFrom-later buf i onward (allowed m, missed lflf e a, missed crlfcrlf e b) rest

  header_scan-ScanFrom : (s : Bytes) (i : ℕ) → drop i buf ≡ s → ScanFrom buf i (header_scan i s)
  unfolding header_scan
  header_scan-ScanFrom [] i e = λ j p q. absurd (omega (arith, ap length e, length-drop i buf))
  header_scan-ScanFrom (c ∷ s) i e =
      scan_one i c s (header_scan (i + 1) s) e (omega (arith, ap length e, length-drop i buf))
        (header_scan-ScanFrom s (i + 1) (sym (rest_of-drop i buf) ∙ ap rest_of e))

-- A positive answer is the length up to the first end of the head, and no byte in front of that end
-- is a control character of ASCII other than a line end; -1 tells that such a byte comes before any
-- end, and 0 that neither is there. An end is two line feeds, or twice a carriage return with a line
-- feed.
pub get_http_header_len-ScanFrom : (buf : Bytes) → ScanFrom buf 0 (get_http_header_len buf)
unfolding get_http_header_len
get_http_header_len-ScanFrom buf = header_scan-ScanFrom buf buf 0 refl
