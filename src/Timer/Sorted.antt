-- ===== src/Timer/Sorted.antt =====
-- timer_add of src/timer.inl keeps the timers in order.
use civetweb.Base.{Bool, arith, false, inl, inr, refl, suc, true, zero, ℕ, ◌+◌, ◌<◌, ◌∙◌, ◌≡◌}
use civetweb.Base.{◌≤◌, ◌⊎◌}
use civetweb.Timer.{Timer, Timers, write, shift_up, insert}
use civetweb.Timer.Order.{Shifted, shift_up-Shifted, write_self, write-other}

tri : (i p : ℕ) → (i < p) ⊎ ((i ≡ p) ⊎ (p < i))
tri i p = omega arith

pred_of : (p j : ℕ) → p < j → (i : ℕ) × (j ≡ suc i)
pred_of p zero h = absurd (omega arith)
pred_of p (suc i) h = (i, refl)

module _ {Time Code Arg : Type 0} (lt : Time → Time → Bool) where
  -- No timer is later than one that stands behind it.
  abbrev pub IsSorted : Timers Time Code Arg → Type 0
  IsSorted s =
      (i j : ℕ) → i < j → j < s.timer_count → lt (s.timers j).time (s.timers i).time ≡ false

  -- The new timer stands at `p`, behind all timers that are not later than it and in front of
  -- those that are, which have moved up by one.
  abbrev pub InsertedAt :
      Timers Time Code Arg → Timer Time Code Arg → Timers Time Code Arg → ℕ → Type 0
  InsertedAt s tm r p =
      (p ≤ s.timer_count)
      × ((r.timer_count ≡ s.timer_count + 1)
          × ((r.timers p ≡ tm)
              × (((j : ℕ)
                    → j < p
                    → (r.timers j ≡ s.timers j) × (lt tm.time (s.timers j).time ≡ false))
                  × ((j : ℕ)
                      → p ≤ j
                      → j < s.timer_count
                      → (r.timers (suc j) ≡ s.timers j) × (lt tm.time (s.timers j).time ≡ true)))))

  module _ (asym : (a b : Time) → lt a b ≡ true → lt b a ≡ false)
      (le_trans : (a b c : Time) → lt b a ≡ false → lt c b ≡ false → lt c a ≡ false) where
    not_later :
        (s : Timers Time Code Arg) (tm : Timer Time Code Arg)
        → IsSorted s
        → (p : ℕ) → p ≤ s.timer_count
        → ((q : ℕ) → suc q ≡ p → lt tm.time (s.timers q).time ≡ false)
        → (j : ℕ) → j < p
        → lt tm.time (s.timers j).time ≡ false
    not_later s tm h zero k e j l = absurd (omega arith)
    not_later s tm h (suc q) k e j l = elim (tri j q) [
      | inl a ↦ le_trans _ _ _ (h j q a (omega arith)) (e q refl)
      | inr (inl a) ↦ rw a (e q refl)
      | inr (inr a) ↦ absurd (omega arith)
    ]

    pub insert-InsertedAt :
        (s : Timers Time Code Arg) (tm : Timer Time Code Arg)
        → IsSorted s
        → (p : ℕ) × InsertedAt s tm (insert lt s tm) p
    unfolding insert
    insert-InsertedAt s tm h =
        let r = shift_up lt tm.time s.timer_count s.timers in
        let k : Shifted lt tm.time s.timer_count s.timers r =
          shift_up-Shifted lt tm.time s.timer_count s.timers in
        let p = r.1 in
        let self = write_self r.0 p p tm refl in
        let low : (j : ℕ) → j < p → write r.0 p tm j ≡ s.timers j =
          λ j l. write-other r.0 p j tm (λ f. absurd (omega arith)) ∙ k.1.0 j l in
        let high : (j : ℕ) → p ≤ j → j < s.timer_count → write r.0 p tm (suc j) ≡ s.timers j =
          λ j l m. write-other r.0 p (suc j) tm (λ f. absurd (omega arith)) ∙ (k.1.1.0 j l m).0 in
        let early : (j : ℕ) → j < p → lt tm.time (s.timers j).time ≡ false =
          λ j l. not_later s tm h p (omega (arith, k.0)) k.1.1.1.1 j l in
        (
          p,
          (
            k.0,
            (
              refl,
              (self, ((λ j l. (low j l, early j l)), λ j l m. (high j l m, (k.1.1.0 j l m).1))),
            ),
          ),
        )

    pub InsertedAt-IsSorted :
        (s r : Timers Time Code Arg) (tm : Timer Time Code Arg) (p : ℕ)
        → IsSorted s
        → InsertedAt s tm r p
        → IsSorted r
    InsertedAt-IsSorted s r tm p h k i j l m =
        let low = k.1.1.1.0 in
        let high = k.1.1.1.1 in
        let self : r.timers p ≡ tm = k.1.1.0 in
        let small : j < s.timer_count + 1 = omega (arith, k.1.0) in
        elim (tri j p) [
          | inl a ↦ rw ((low j a).0, (low i (omega arith)).0) (h i j l (omega (arith, k.0)))
          | inr (inl a) ↦ rw (a, self, (low i (omega arith)).0) (low i (omega arith)).1
          | inr (inr a) ↦
              let q = pred_of p j a in
              let b : (p ≤ q.0) × (q.0 < s.timer_count) =
                (omega (arith, q.1), omega (arith, q.1)) in
              let up = high q.0 b.0 b.1 in
              elim (tri i p) [
                | inl c ↦ rw (q.1, up.0, (low i c).0) (h i q.0 (omega arith) b.1)
                | inr (inl c) ↦ rw (q.1, up.0, c, self) (asym _ _ up.1)
                | inr (inr c) ↦
                    let z = pred_of p i c in
                    rw (q.1, up.0, z.1, (high z.0 (omega (arith, z.1)) (omega (arith, z.1, q.1))).0)
                      (h z.0 q.0 (omega (arith, z.1, q.1)) b.1)
              ]
        ]
