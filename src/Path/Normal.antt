-- ===== src/Path/Normal.antt =====
-- The first loop of remove_dot_segments in src/civetweb.c: it ends, it stays inside its buffer, and
-- it keeps a leading slash.
use civetweb.Base.{Bool-cases, Bytes, [], ap, arith, codes, drop, if_split, inl, inr, length}
use civetweb.Base.{length-drop, peek, refl, some, suc, sym, take, true, zero, ℕ, ◌+◌, ◌<◌, ◌==◌}
use civetweb.Base.{◌||◌, ◌∙◌, ◌∷◌, ◌≡◌, ◌≢◌, ◌≤◌}
use civetweb.Ctype.{str_eq, starts_with, starts_with_iff, str_eq_iff}
use civetweb.Path.{Buffer, slash, remove_last, move_segment, dot_step}
use civetweb.Path.{dot_loop, rev_onto}
use civetweb.Path.Clean.{IsInput}
use native.Mathlib.Nat.{le_trans}

-- The first byte of a buffer: that of the output, or `d` while there is none.
abbrev pub bottom : ℕ → Bytes → ℕ
bottom d [] = d
bottom d (c ∷ out) = bottom c out

pub peek-rev_onto : (out s : Bytes) → peek (rev_onto out s) ≡ bottom (peek s) out
unfolding rev_onto
peek-rev_onto [] s = refl
peek-rev_onto (c ∷ out) s = peek-rev_onto out (c ∷ s)

pub length-rev_onto : (out s : Bytes) → length (rev_onto out s) ≡ length out + length s
unfolding rev_onto
length-rev_onto [] s = omega arith
length-rev_onto (c ∷ out) s = omega (arith, length-rev_onto out (c ∷ s))

pub rev_onto-IsInput : (out s : Bytes) → IsInput out → IsInput s → IsInput (rev_onto out s)
unfolding rev_onto
rev_onto-IsInput [] s h k = k
rev_onto-IsInput (c ∷ out) s h k = rev_onto-IsInput out (c ∷ s) h.1 (h.0, k)

pub bottom_mono :
    (d e : ℕ) (out : Bytes) → (d ≡ slash → e ≡ slash) → bottom d out ≡ slash → bottom e out ≡ slash
bottom_mono d e [] f h = f h
bottom_mono d e (c ∷ out) f h = h

remove_last-bottom :
    (d : ℕ) (out : Bytes) → bottom d out ≡ slash → bottom slash (remove_last out) ≡ slash
unfolding remove_last
remove_last-bottom d [] h = refl
remove_last-bottom d (c ∷ out) h = elim (Bool-cases (c == slash)) [
  | inl e ↦ rw e (bottom_mono c slash out (λ f. refl) h)
  | inr e ↦ rw e (remove_last-bottom c out h)
]

remove_last-IsInput :
    (out : Bytes)
    → IsInput out
    → IsInput (remove_last out) × (length (remove_last out) ≤ length out)
unfolding remove_last
remove_last-IsInput [] h = (tt, omega arith)
remove_last-IsInput (c ∷ out) h =
    let ih = remove_last-IsInput out h.1 in
    elim (Bool-cases (c == slash)) [
      | inl e ↦ rw e (h.1, omega arith)
      | inr e ↦ rw e (ih.0, omega arith)
    ]

-- What a round keeps.
record IsRound (c : ℕ) (s out : Bytes) (b : Buffer) : Type 0 where
  input_ok : IsInput b.input
  out_ok : IsInput b.out
  shorter : length b.input ≤ length s
  total : length b.input + length b.out ≤ suc (length s) + length out
  lead : bottom c out ≡ slash → bottom (peek b.input) b.out ≡ slash

IsInput-drop : (n : ℕ) (s : Bytes) → IsInput s → IsInput (drop n s)
IsInput-drop zero s h = h
IsInput-drop (suc n) [] h = tt
IsInput-drop (suc n) (c ∷ s) h = IsInput-drop n s h.1

drop-IsRound :
    (n c : ℕ) (s out : Bytes)
    → IsInput (c ∷ s)
    → IsInput out
    → (c ≡ slash → peek (drop (suc n) (c ∷ s)) ≡ slash)
    → IsRound c s out (record { input = drop (suc n) (c ∷ s); out = out })
drop-IsRound n c s out h k f = record {
  input_ok = IsInput-drop n s h.1;
  out_ok = k;
  shorter = omega (arith, length-drop n s);
  total = omega (arith, length-drop n s);
  lead = bottom_mono c (peek (drop n s)) out f;
}

up-IsRound :
    (c : ℕ) (s out input : Bytes)
    → IsInput input
    → IsInput out
    → length input ≤ length s
    → peek input ≡ slash
    → IsRound c s out (record { input = input; out = remove_last out })
up-IsRound c s out input h k le e = record {
  input_ok = h;
  out_ok = (remove_last-IsInput out k).0;
  shorter = le;
  total = omega (arith, (remove_last-IsInput out k).1);
  lead = λ f. rw e (remove_last-bottom c out f);
}

root-IsRound :
    (c : ℕ) (s out : Bytes)
    → IsInput out
    → 1 ≤ length s
    → IsRound c s out (record { input = codes "/"; out = out })
root-IsRound c s out k le = record {
  input_ok = ((omega arith, omega arith), tt);
  out_ok = k;
  shorter = omega arith;
  total = omega arith;
  lead = bottom_mono c slash out (λ f. refl);
}

end-IsRound :
    (c : ℕ) (s out : Bytes)
    → IsInput out
    → c ≢ slash
    → IsRound c s out (record { input = []; out = out })
end-IsRound c s out k ne = record {
  input_ok = tt;
  out_ok = k;
  shorter = omega arith;
  total = omega arith;
  lead = bottom_mono c 0 out (λ f. absurd (ne f));
}

move_segment-bottom :
    (d c : ℕ) (s out : Bytes) → bottom d (move_segment s (c ∷ out)).out ≡ bottom c out
unfolding move_segment
move_segment-bottom d c [] out = refl
move_segment-bottom d c (x ∷ s) out = ground (arith, move_segment-bottom d x s (c ∷ out))

move_segment-sizes :
    (s out : Bytes)
    → (length (move_segment s out).input ≤ length s)
      × (length (move_segment s out).input + length (move_segment s out).out
          ≡ length s + length out)
unfolding move_segment
move_segment-sizes [] out = (omega arith, omega arith)
move_segment-sizes (x ∷ s) out = ground (arith, move_segment-sizes s (x ∷ out))

move_segment-IsInput :
    (s out : Bytes)
    → IsInput s
    → IsInput out
    → IsInput (move_segment s out).input × IsInput (move_segment s out).out
unfolding move_segment
move_segment-IsInput [] out h k = (tt, k)
move_segment-IsInput (x ∷ s) out h k = elim (Bool-cases (x == slash)) [
  | inl e ↦ rw e (h, k)
  | inr e ↦ rw e (move_segment-IsInput s (x ∷ out) h.1 (h.0, k))
]

move-IsRound :
    (c : ℕ) (s out : Bytes)
    → IsInput (c ∷ s)
    → IsInput out
    → IsRound c s out (move_segment s (c ∷ out))
move-IsRound c s out h k = record {
  input_ok = (move_segment-IsInput s (c ∷ out) h.1 (h.0, k)).0;
  out_ok = (move_segment-IsInput s (c ∷ out) h.1 (h.0, k)).1;
  shorter = (move_segment-sizes s (c ∷ out)).0;
  total = omega (arith, move_segment-sizes s (c ∷ out));
  lead = λ f. move_segment-bottom (peek (move_segment s (c ∷ out)).input) c s out ∙ f;
}

peek-drop-take : (n m : ℕ) (s : Bytes) → n < m → peek (drop n (take m s)) ≡ peek (drop n s)
peek-drop-take n zero s h = absurd (omega arith)
peek-drop-take zero (suc m) [] h = refl
peek-drop-take zero (suc m) (c ∷ s) h = refl
peek-drop-take (suc n) (suc m) [] h = refl
peek-drop-take (suc n) (suc m) (c ∷ s) h = peek-drop-take n m s (omega arith)

-- The byte at `n` of a text that starts with a prefix.
peek_of_prefix :
    (n : ℕ) (s p : Bytes)
    → n < length p
    → starts_with s p ≡ true
    → peek (drop n s) ≡ peek (drop n p)
peek_of_prefix n s p h e =
    sym (peek-drop-take n (length p) s h) ∙ ap (λ l. peek (drop n l)) ((starts_with_iff s p).0 e)

-- The length of a text that is known.
length_of_eq : (s p : Bytes) → str_eq s p ≡ true → length s ≡ length p
length_of_eq s p e = ap length ((str_eq_iff s p).0 e)

dots_only :
    (c : ℕ) (s : Bytes)
    → (str_eq (c ∷ s) (codes ".") || str_eq (c ∷ s) (codes "..")) ≡ true
    → c ≢ slash
dots_only c s e f = elim (Bool-cases (str_eq (c ∷ s) (codes "."))) [
  | inl g ↦ absurd (omega (arith, ap peek ((str_eq_iff (c ∷ s) (codes ".")).0 g)))
  | inr g ↦
      let h : str_eq (c ∷ s) (codes "..") ≡ true = rw g at e in
      absurd (omega (arith, ap peek ((str_eq_iff (c ∷ s) (codes "..")).0 h)))
]

dot_step-IsRound :
    (c : ℕ) (s out : Bytes) → IsInput (c ∷ s) → IsInput out → IsRound c s out (dot_step c s out)
unfolding dot_step
dot_step-IsRound c s out h k =
    let at = peek_of_prefix in
    let size = length_of_eq (c ∷ s) in
    if_split (IsRound c s out) _ _ _
      (λ e.
        drop-IsRound 2 c s out h k
          (λ f. absurd (omega (arith, at 0 (c ∷ s) (codes "../") (omega arith) e))))
      λ _.
        if_split (IsRound c s out) _ _ _
          (λ e.
            drop-IsRound 1 c s out h k
              (λ f. absurd (omega (arith, at 0 (c ∷ s) (codes "./") (omega arith) e))))
          λ _.
            if_split (IsRound c s out) _ _ _
              (λ e. drop-IsRound 1 c s out h k (λ f. at 2 (c ∷ s) (codes "/./") (omega arith) e))
              λ _.
                if_split (IsRound c s out) _ _ _
                  (λ e. root-IsRound c s out k (omega (arith, size (codes "/.") e)))
                  λ _.
                    if_split (IsRound c s out) _ _ _
                      (λ e.
                        up-IsRound c s out (drop 2 s) (IsInput-drop 2 s h.1) k
                          (omega (arith, length-drop 2 s))
                          (at 3 (c ∷ s) (codes "/../") (omega arith) e))
                      λ _.
                        if_split (IsRound c s out) _ _ _
                          (λ e.
                            up-IsRound c s out (codes "/") ((omega arith, omega arith), tt) k
                              (omega (arith, size (codes "/..") e)) refl)
                          λ _.
                            if_split (IsRound c s out) _ _ _
                              (λ e. end-IsRound c s out k (dots_only c s e))
                              λ _. move-IsRound c s out h k

-- The first loop ends within the fuel, in what is left of its buffer, and keeps a leading slash.
pub dot_loop_lem :
    (fuel : ℕ) (input out : Bytes)
    → length input ≤ fuel
    → IsInput input
    → IsInput out
    → (r : Bytes) × (dot_loop fuel input out ≡ some r)
      × IsInput r
      × (length r ≤ length input + length out)
      × (bottom (peek input) out ≡ slash → bottom 0 r ≡ slash)
unfolding dot_loop
dot_loop_lem fuel [] out h k l = (out, refl, l, omega arith, λ f. f)
dot_loop_lem zero (c ∷ s) out h k l = absurd (omega arith)
dot_loop_lem (suc fuel) (c ∷ s) out h k l =
    let b = dot_step c s out in
    let r = dot_step-IsRound c s out k l in
    let (x, e, p, q, g) =
      dot_loop_lem fuel b.input b.out (le_trans r.shorter (omega arith)) r.input_ok r.out_ok in
    (x, e, p, le_trans q r.total, λ f. g (r.lead f))
