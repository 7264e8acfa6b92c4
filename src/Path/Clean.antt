-- ===== src/Path/Clean.antt =====
-- What the second loop of remove_dot_segments in src/civetweb.c establishes.
use civetweb.Base.{All, Bool-cases, Bytes, [], arith, inl, inr, length, peek, refl, some, suc}
use civetweb.Base.{zero, ℕ, ◌<◌, ◌==◌, ◌∷◌, ◌≡◌, ◌≢◌, ◌≤◌}
use civetweb.Path.{slash, dot, backslash, rev_onto, skip_run, copy_dots, drop_slash}
use civetweb.Path.{clean_step, clean_loop}

-- No backslash, no empty segment inside the path, and no segment that ends with a dot: so none
-- that is "." or "..".
abbrev pub IsClean : Bytes → Type 0
IsClean [] = Unit
IsClean (c ∷ s) =
    (c ≢ backslash)
    × (c ≡ slash → peek s ≢ slash)
    × (c ≡ dot → (peek s ≢ slash) × (peek s ≢ 0))
    × IsClean s

-- The same of output that is still written, the last byte first; what follows is not known yet.
abbrev pub RevClean : Bytes → Type 0
RevClean [] = Unit
RevClean (c ∷ out) =
    ((0 < c) × (c ≢ backslash)) × (c ≡ slash → (peek out ≢ slash) × (peek out ≢ dot)) × RevClean out

-- The last byte written, `a`, may be followed by `b`.
abbrev pub Links : ℕ → ℕ → Type 0
Links a b = (a ≡ slash → b ≢ slash) × (a ≡ dot → (b ≢ slash) × (b ≢ dot) × (b ≢ 0))

pub record Inv (input out : Bytes) : Type 0 where
  pub no_backslash : All (λ c. (0 < c) × (c ≢ backslash)) input
  pub written : RevClean out
  pub links : Links (peek out) (peek input)

abbrev pub IsInput : Bytes → Type 0
IsInput = All (λ c. (0 < c) × (c ≢ backslash))

skip_run-IsInput : (c : ℕ) (s : Bytes) → IsInput s → IsInput (skip_run c s)
unfolding skip_run
skip_run-IsInput c [] h = h
skip_run-IsInput c (x ∷ s) h = elim (Bool-cases (x == c)) [
  | inl e ↦ rw e (skip_run-IsInput c s h.1)
  | inr e ↦ rw e h
]

peek-skip_run : (c : ℕ) (s : Bytes) → 0 < c → peek (skip_run c s) ≢ c
unfolding skip_run
peek-skip_run c [] h = omega arith
peek-skip_run c (x ∷ s) h = ground (arith, peek-skip_run c s h)

pub length-skip_run : (c : ℕ) (s : Bytes) → length (skip_run c s) ≤ length s
unfolding skip_run
length-skip_run c [] = omega arith
length-skip_run c (x ∷ s) = ground (arith, length-skip_run c s)

copy_dots-RevClean : (s out : Bytes) → RevClean out → RevClean (copy_dots s out)
unfolding copy_dots
copy_dots-RevClean [] out h = h
copy_dots-RevClean (x ∷ s) out h = elim (Bool-cases (x == dot)) [
  | inl e ↦
      let e' : x ≡ dot = ground arith in
      rw e
        (copy_dots-RevClean s (x ∷ out) ((omega arith, omega arith), λ f. absurd (omega arith), h))
  | inr e ↦ rw e h
]

-- Copying at least one dot leaves a dot as the last byte.
peek-copy_dots : (s out : Bytes) → peek out ≡ dot → peek (copy_dots s out) ≡ dot
unfolding copy_dots
peek-copy_dots [] out h = h
peek-copy_dots (x ∷ s) out h = ground (arith, peek-copy_dots s (x ∷ out))

drop_slash-lem :
    (out : Bytes)
    → RevClean out
    → peek out ≢ dot
    → RevClean (drop_slash out) × (peek (drop_slash out) ≢ slash) × (peek (drop_slash out) ≢ dot)
unfolding drop_slash
drop_slash-lem [] h k = (tt, omega arith, omega arith)
drop_slash-lem (c ∷ out) h k = elim (Bool-cases (c == slash)) [
  | inl e ↦ rw e (h.2, (h.1 (ground arith)).0, (h.1 (ground arith)).1)
  | inr e ↦ rw e (h, ground arith, k)
]

clean_step-Inv :
    (c : ℕ) (s out : Bytes)
    → Inv (c ∷ s) out
    → Inv (clean_step c s out).input (clean_step c s out).out
unfolding clean_step
clean_step-Inv c s out i = elim (Bool-cases (c == dot)) [
  | inl d ↦
      let is_dot : c ≡ dot = ground arith in
      let last : peek out ≢ dot = λ f. (i.links.1 f).1 is_dot in
      let ahead = skip_run-IsInput dot s i.no_backslash.1 in
      rw d (elim (Bool-cases (peek (skip_run dot s) == slash)) [
        | inl e ↦
            let is_slash : peek (skip_run dot s) ≡ slash = ground arith in
            let (p, q, r) = drop_slash-lem out i.written last in
            rw e (record {
              no_backslash = ahead;
              written = p;
              links = (λ f. absurd (q f), λ f. absurd (r f));
            })
        | inr e ↦ rw e (elim (Bool-cases (peek (skip_run dot s) == 0)) [
          | inl z ↦ rw z (record {
            no_backslash = ahead;
            written = i.written;
            links = (λ f. ground arith, λ f. absurd (last f));
          })
          | inr z ↦ rw z (record {
            no_backslash = ahead;
            written =
                copy_dots-RevClean s (c ∷ out)
                  (i.no_backslash.0, λ f. absurd (omega arith), i.written);
            links = (
              λ f. ground arith,
              λ f. (ground arith, peek-skip_run dot s (omega arith), ground arith),
            );
          })
        ])
      ])
  | inr d ↦ rw d (elim (Bool-cases (c == slash)) [
    | inl e ↦
        let is_slash : c ≡ slash = ground arith in
        rw e (record {
          no_backslash = skip_run-IsInput slash s i.no_backslash.1;
          written = (
            (omega arith, omega arith),
            λ f. (λ g. i.links.0 g is_slash, λ g. (i.links.1 g).0 is_slash),
            i.written,
          );
          links = (λ f. peek-skip_run slash s (omega arith), λ f. absurd (omega arith));
        })
    | inr e ↦ rw e (record {
      no_backslash = i.no_backslash.1;
      written = (i.no_backslash.0, λ f. absurd (ground arith), i.written);
      links = (λ f. absurd (ground arith), λ f. absurd (ground arith));
    })
  ])
]

pub clean_step-length : (c : ℕ) (s out : Bytes) → length (clean_step c s out).input ≤ length s
unfolding clean_step
clean_step-length c s out = ground (arith, length-skip_run dot s, length-skip_run slash s)

pub clean_loop-RevClean :
    (fuel : ℕ) (input out : Bytes)
    → length input ≤ fuel
    → Inv input out
    → (r : Bytes) × (clean_loop fuel input out ≡ some r) × RevClean r × (peek r ≢ dot)
unfolding clean_loop
clean_loop-RevClean fuel [] out h i = (out, refl, i.written, λ f. (i.links.1 f).2 refl)
clean_loop-RevClean zero (c ∷ s) out h i = absurd (omega arith)
clean_loop-RevClean (suc fuel) (c ∷ s) out h i =
    clean_loop-RevClean fuel (clean_step c s out).input (clean_step c s out).out
      (omega (arith, clean_step-length c s out)) (clean_step-Inv c s out i)

pub rev_onto-IsClean :
    (out s : Bytes)
    → RevClean out
    → IsClean s
    → (peek out ≡ slash → peek s ≢ slash)
    → (peek out ≡ dot → (peek s ≢ slash) × (peek s ≢ 0))
    → IsClean (rev_onto out s)
unfolding rev_onto
rev_onto-IsClean [] s h k p q = k
rev_onto-IsClean (c ∷ out) s h k p q =
    rev_onto-IsClean out (c ∷ s) h.2 (h.0.1, p, q, k) (λ f g. (h.1 g).0 f)
      (λ f. (λ g. (h.1 g).1 f, λ e. absurd (omega arith)))
