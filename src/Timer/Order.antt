-- ===== src/Timer/Order.antt =====
-- The order of the timers of src/timer.inl.
use civetweb.Base.{==_iff, Bool, arith, false, if_split, inl, inr, refl, suc, true, zero, ℕ, ◌<◌}
use civetweb.Base.{◌==◌, ◌∙◌, ◌≡◌, ◌≢◌, ◌≤◌, ◌⊎◌}
use civetweb.Timer.{Timer, write, shift_up}

pub write_self : {A : Type 0} (a : ℕ → A) (i j : ℕ) (v : A) → j ≡ i → write a i v j ≡ v
write_self a i j v e = rw ((==_iff j i).1 e) refl

pub write-other : {A : Type 0} (a : ℕ → A) (i j : ℕ) (v : A) → j ≢ i → write a i v j ≡ a j
write-other a i j v e =
    if_split (λ r. r ≡ a j) (j == i) v (a j) (λ t. absurd (e ((==_iff j i).0 t))) (λ t. refl)

suc_inj : (a b : ℕ) → suc a ≡ suc b → a ≡ b
suc_inj a b e = omega arith

pub ℕ-cases : (j u : ℕ) → j ≤ u → (j ≡ u) ⊎ (j < u)
ℕ-cases j u h = omega arith

module _ {Time Code Arg : Type 0} (lt : Time → Time → Bool) where
  -- What the loop that makes room has done when it stops at `p`, from index `u` of `a` down.
  abbrev pub Shifted : Time → ℕ → (ℕ → Timer Time Code Arg) → (ℕ → Timer Time Code Arg) × ℕ → Type 0
  Shifted t u a r =
      (r.1 ≤ u)
      × (((j : ℕ) → j < r.1 → r.0 j ≡ a j)
          × (((j : ℕ) → r.1 ≤ j → j < u → (r.0 (suc j) ≡ a j) × (lt t (a j).time ≡ true))
              × (((j : ℕ) → u < j → r.0 j ≡ a j)
                  × ((q : ℕ) → suc q ≡ r.1 → lt t (a q).time ≡ false))))

  Shifted-suc :
      (t : Time) (u : ℕ) (a : ℕ → Timer Time Code Arg) (r : (ℕ → Timer Time Code Arg) × ℕ)
      → lt t (a u).time ≡ true
      → Shifted t u (write a (suc u) (a u)) r
      → Shifted t (suc u) a r
  Shifted-suc t u a r e h =
      let low : (j : ℕ) → j ≤ u → write a (suc u) (a u) j ≡ a j =
        λ j k. write-other a (suc u) j (a u) (λ f. absurd (omega arith)) in
      let mid : (j : ℕ) → r.1 ≤ j → j < suc u → (r.0 (suc j) ≡ a j) × (lt t (a j).time ≡ true) =
        λ j k l. elim (ℕ-cases j u (omega arith)) [
          | inl f ↦
              rw f (h.1.1.1.0 (suc u) (omega arith) ∙ write_self a (suc u) (suc u) (a u) refl, e)
          | inr f ↦ rw (← low j (omega arith)) (h.1.1.0 j k f)
        ] in
      (
        omega (arith, h.0),
        (
          (λ j k. h.1.0 j k ∙ low j (omega (arith, h.0))),
          (
            mid,
            (
              (λ j k.
                  h.1.1.1.0 j (omega arith)
                  ∙ write-other a (suc u) j (a u) (λ f. absurd (omega arith))),
              λ q f. rw (← low q (omega (arith, h.0))) (h.1.1.1.1 q f),
            ),
          ),
        ),
      )

  pub shift_up-Shifted :
      (t : Time) (u : ℕ) (a : ℕ → Timer Time Code Arg) → Shifted t u a (shift_up lt t u a)
  unfolding shift_up
  shift_up-Shifted t zero a = (
    omega arith,
    (
      (λ j h. absurd (omega arith)),
      ((λ j h k. absurd (omega arith)), ((λ j h. refl), λ q e. absurd (omega arith))),
    ),
  )
  shift_up-Shifted t (suc u) a =
      if_split (Shifted t (suc u) a) (lt t (a u).time) _ _
        (λ e. Shifted-suc t u a _ e (shift_up-Shifted t u (write a (suc u) (a u))))
        (λ e. (
          omega arith,
          (
            (λ j h. refl),
            ((λ j h k. absurd (omega arith)), ((λ j h. refl), λ q f. rw (suc_inj q u f) e)),
          ),
        ))
