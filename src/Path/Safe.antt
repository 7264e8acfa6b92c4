-- ===== src/Path/Safe.antt =====
-- remove_dot_segments of src/civetweb.c as a whole.
use civetweb.Base.{==_iff, Bool-cases, Bytes, IsText, [], arith, if_split, inl, inr, length}
use civetweb.Base.{peek, refl, some, suc, zero, ℕ, ◌+◌, ◌==◌, ◌∙◌, ◌∷◌, ◌≡◌, ◌≤◌}
use civetweb.Path.{Buffer, slash, dot, backslash, slashes_only, rev_onto, skip_run, copy_dots}
use civetweb.Path.{drop_slash, clean_step, clean_loop, remove_dot_segments}
use civetweb.Path.Clean.{IsClean, IsInput, clean_loop-RevClean, rev_onto-IsClean}
use civetweb.Path.Clean.{length-skip_run}
use civetweb.Path.Normal.{bottom, bottom_mono, peek-rev_onto, length-rev_onto, rev_onto-IsInput}
use civetweb.Path.Normal.{dot_loop_lem}
use native.Mathlib.Nat.{le_trans}

slashes_only-IsInput :
    (s : Bytes) → IsText s → IsInput (slashes_only s) × (length (slashes_only s) ≡ length s)
unfolding slashes_only
slashes_only-IsInput [] h = (tt, refl)
slashes_only-IsInput (c ∷ s) h =
    let ih = slashes_only-IsInput s h.1 in
    elim (Bool-cases (c == backslash)) [
      | inl e ↦ rw e (((omega arith, omega arith), ih.0), omega arith)
      | inr e ↦ rw e (((h.0.0, ground arith), ih.0), omega arith)
    ]

length-copy_dots :
    (s out : Bytes) → length (skip_run dot s) + length (copy_dots s out) ≡ length s + length out
unfolding skip_run copy_dots
length-copy_dots [] out = omega arith
length-copy_dots (x ∷ s) out = ground (arith, length-copy_dots s (x ∷ out))

bottom-copy_dots : (d c : ℕ) (s out : Bytes) → bottom d (copy_dots s (c ∷ out)) ≡ bottom c out
unfolding copy_dots
bottom-copy_dots d c [] out = refl
bottom-copy_dots d c (x ∷ s) out = ground (arith, bottom-copy_dots d x s (c ∷ out))

length-drop_slash : (out : Bytes) → length (drop_slash out) ≤ length out
unfolding drop_slash
length-drop_slash [] = omega arith
length-drop_slash (c ∷ out) = ground arith

bottom-drop_slash :
    (d : ℕ) (out : Bytes) → bottom d out ≡ slash → bottom slash (drop_slash out) ≡ slash
unfolding drop_slash
bottom-drop_slash d [] h = refl
bottom-drop_slash d (c ∷ out) h = elim (Bool-cases (c == slash)) [
  | inl e ↦ rw e (bottom_mono c slash out (λ f. refl) h)
  | inr e ↦ rw e h
]

-- What a round of the second loop keeps.
abbrev Keeps : ℕ → Bytes → Bytes → Buffer → Type 0
Keeps c s out b =
    (length b.input + length b.out ≤ suc (length s) + length out)
    × (bottom c out ≡ slash → bottom (peek b.input) b.out ≡ slash)

drop_slash-Keeps :
    (c : ℕ) (s out : Bytes)
    → peek (skip_run dot s) ≡ slash
    → Keeps c s out (record { input = skip_run dot s; out = drop_slash out })
drop_slash-Keeps c s out e = (
  omega (arith, length-skip_run dot s, length-drop_slash out),
  λ f.
      bottom_mono slash (peek (skip_run dot s)) (drop_slash out) (λ g. e)
        (bottom-drop_slash c out f),
)

skip_dots-Keeps :
    (c : ℕ) (s out : Bytes) → c ≡ dot → Keeps c s out (record { input = skip_run dot s; out = out })
skip_dots-Keeps c s out e = (
  omega (arith, length-skip_run dot s),
  bottom_mono c (peek (skip_run dot s)) out (λ f. absurd (omega arith)),
)

copy_dots-Keeps :
    (c : ℕ) (s out : Bytes)
    → Keeps c s out (record { input = skip_run dot s; out = copy_dots s (c ∷ out) })
copy_dots-Keeps c s out = (
  omega (arith, length-copy_dots s (c ∷ out)),
  λ f. bottom-copy_dots (peek (skip_run dot s)) c s out ∙ f,
)

slash-Keeps :
    (c : ℕ) (s out : Bytes) → Keeps c s out (record { input = skip_run slash s; out = slash ∷ out })
slash-Keeps c s out = (omega (arith, length-skip_run slash s), bottom_mono c slash out (λ f. refl))

clean_step-Keeps : (c : ℕ) (s out : Bytes) → Keeps c s out (clean_step c s out)
unfolding clean_step
clean_step-Keeps c s out =
    if_split (Keeps c s out) (c == dot) _ _
      (λ d.
        if_split (Keeps c s out) (peek (skip_run dot s) == slash) _ _
          (λ e. drop_slash-Keeps c s out ((==_iff _ slash).0 e))
          λ _.
            if_split (Keeps c s out) (peek (skip_run dot s) == 0) _ _
              (λ e. skip_dots-Keeps c s out ((==_iff c dot).0 d)) λ _. copy_dots-Keeps c s out)
      λ _.
        if_split (Keeps c s out) (c == slash) _ _ (λ e. slash-Keeps c s out)
          λ _. (omega arith, λ f. f)

clean_loop-Keeps :
    (fuel : ℕ) (input out r : Bytes)
    → clean_loop fuel input out ≡ some r
    → (length r ≤ length input + length out)
      × (bottom (peek input) out ≡ slash → bottom 0 r ≡ slash)
unfolding clean_loop
clean_loop-Keeps fuel [] out r e = let e' : out ≡ r = cc in rw (← e') (omega arith, λ f. f)
clean_loop-Keeps zero (c ∷ s) out r e = absurd (cc)
clean_loop-Keeps (suc fuel) (c ∷ s) out r e =
    let b = clean_step c s out in
    let k = clean_step-Keeps c s out in
    let ih = clean_loop-Keeps fuel b.input b.out r e in (le_trans ih.0 k.0, λ f. ih.1 (k.1 f))

-- What a cleaned path is: `r` holds no backslash, no empty segment inside it and no segment that
-- ends with a dot, is not longer than `p`, and begins with a slash if `p` does.
pub record IsSafe (p r : Bytes) : Type 0 where
  pub clean : IsClean r
  pub shorter : length r ≤ length p
  pub rooted : peek (slashes_only p) ≡ slash → peek r ≡ slash

-- For every text without a zero byte `remove_dot_segments` ends within its fuel. Its result holds no
-- backslash, no empty segment inside it and no segment that ends with a dot, so none that is `.` or
-- `..`; it is not longer than the text, and begins with a slash if the text does.
pub remove_dot_segments-IsSafe :
    (p : Bytes) → IsText p → (r : Bytes) × (remove_dot_segments p ≡ some r) × IsSafe p r
unfolding remove_dot_segments
remove_dot_segments-IsSafe p h =
    let (ok, same) = slashes_only-IsInput p h in
    let (o, e, o_ok, o_le, o_root) =
      dot_loop_lem (length p) (slashes_only p) [] (omega arith) ok tt in
    let path = rev_onto o [] in
    let path_ok = rev_onto-IsInput o [] o_ok tt in
    let (r, e', r_clean, r_dot) = clean_loop-RevClean (length path) path [] (omega arith) (record {
      no_backslash = path_ok;
      written = tt;
      links = (λ f. absurd (omega arith), λ f. absurd (omega arith));
    }) in
    let keeps = clean_loop-Keeps (length path) path [] r e' in
    (
      rev_onto r [],
      rw (e, e') refl,
      record {
        clean = rev_onto-IsClean r [] r_clean tt (λ f. omega arith) (λ f. absurd (r_dot f));
        shorter = omega (arith, length-rev_onto r [], length-rev_onto o []);
        rooted = λ f. peek-rev_onto r [] ∙ keeps.1 (peek-rev_onto o [] ∙ o_root f);
      },
    )
