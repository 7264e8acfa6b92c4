-- ===== src/Timer/Rounds.antt =====
-- timer_add and the rounds of timer_thread_run in src/timer.inl.
use civetweb.Base.{==_iff, Bool, Bool-cases, Option, ap, arith, false, if_split, inl, inr, ltb}
use civetweb.Base.{ltb→lt, not, refl, some, suc, sym, true, zero, ℕ, ◌&&◌, ◌+◌, ◌-◌, ◌<◌, ◌==◌}
use civetweb.Base.{◌∙◌, ◌≡◌, ◌≢◌, ◌≤◌, ◌⊎◌}
use civetweb.Timer.{Timer, Timers, write, shift_down, insert, make_room, due_time, added}
use civetweb.Timer.{timer_add, without_first, Round, sleeps, reschedules, cancels, after_action}
use civetweb.Timer.{timer_round}
use civetweb.Timer.Due.{IsDueTime, due_time-IsDueTime}
use civetweb.Timer.Order.{write_self, write-other, ℕ-cases}
use civetweb.Timer.Sorted.{IsSorted, InsertedAt, insert-InsertedAt, InsertedAt-IsSorted}

-- The timer that is added for `tm`: the one with its time made absolute and not in the past.
abbrev pub timed : {Time Code Arg : Type 0} → Time → Timer Time Code Arg → Timer Time Code Arg
timed t tm = record {
  time = t;
  period = tm.period;
  action = tm.action;
  arg = tm.arg;
  cancel = tm.cancel;
}

pub shift_down_lem :
    {A : Type 0} (rounds u : ℕ) (a : ℕ → A)
    → ((j : ℕ) → j < u → shift_down rounds (suc u) a j ≡ a j)
      × ((j : ℕ) → u ≤ j → j < u + rounds → shift_down rounds (suc u) a j ≡ a (suc j))
unfolding shift_down
shift_down_lem zero u a = ((λ j h. refl), λ j h k. absurd (omega arith))
shift_down_lem (suc rounds) u a =
    let b = write a (suc u - 1) (a (suc u)) in
    let ih = shift_down_lem rounds (suc u) b in
    (
      (λ j h.
          ih.0 j (omega arith)
          ∙ write-other a (suc u - 1) j (a (suc u)) (λ f. absurd (omega arith))),
      λ j h k. elim (ℕ-cases u j h) [
        | inl e ↦
            ih.0 j (omega arith)
            ∙ write_self a (suc u - 1) j (a (suc u)) (omega arith)
            ∙ ap (λ i. a (suc i)) e
        | inr l ↦
            ih.1 j (omega arith) (omega arith)
            ∙ write-other a (suc u - 1) (suc j) (a (suc u)) (λ f. absurd (omega arith))
      ],
    )

and_not : (n : ℕ) (b : Bool) → (ltb 0 n && not b) ≡ true → (ltb 0 n ≡ true) × (b ≡ false)
and_not n b e = ground arith

idle : (n : ℕ) (b : Bool) → (ltb 0 n && not b) ≡ false → 0 < n → b ≡ true
idle n b e h = ground arith

true≢false : true ≢ false
true≢false e = ground arith

module _ {Time Code Arg : Type 0} (lt : Time → Time → Bool) (add : Time → Time → Time)
    (nought : Time) where
  abbrev pub IsValid : Timers Time Code Arg → Type 0
  IsValid s = IsSorted lt s × (s.timer_count ≤ s.timer_capacity)

  lt_of :
      (s : Timers Time Code Arg)
      → s.timer_count ≤ s.timer_capacity
      → (s.timer_count == s.timer_capacity) ≡ false
      → s.timer_count + 1 ≤ s.timer_capacity
  lt_of s h e = ground arith

  insert-fits :
      (s : Timers Time Code Arg) (capacity : ℕ) (tm : Timer Time Code Arg)
      → s.timer_count + 1 ≤ capacity
      → (insert lt
          (record { timers = s.timers; timer_count = s.timer_count; timer_capacity = capacity })
          tm).timer_count
        ≤ capacity
  unfolding insert
  insert-fits s capacity tm l = l

  -- The timers behind the first one have moved down by one.
  abbrev pub Removes : Timers Time Code Arg → Timers Time Code Arg → Type 0
  Removes s r =
      (r.timer_count + 1 ≡ s.timer_count)
      × ((j : ℕ) → j + 1 < s.timer_count → r.timers j ≡ s.timers (suc j))

  -- A timer that runs is the first of the array: it is due, and no other is earlier.
  abbrev pub IsNext : Time → Timers Time Code Arg → Timer Time Code Arg → Type 0
  IsNext d s t =
      (t ≡ s.timers 0)
      × ((lt d t.time ≡ false)
          × ((0 < s.timer_count)
              × ((j : ℕ) → 0 < j → j < s.timer_count → lt (s.timers j).time t.time ≡ false)))

  without_first-Removes :
      (s : Timers Time Code Arg) → 0 < s.timer_count → Removes s (without_first lt add nought s)
  unfolding without_first
  without_first-Removes s h = (
    omega arith,
    λ j k. (shift_down_lem (s.timer_count - 1) 0 s.timers).1 j (omega arith) (omega arith),
  )

  without_first-IsValid :
      (s : Timers Time Code Arg)
      → 0 < s.timer_count
      → IsValid s
      → IsValid (without_first lt add nought s)
  unfolding without_first
  without_first-IsValid s l h =
      let low : (j : ℕ)
          → j + 1 < s.timer_count
          → shift_down (s.timer_count - 1) 1 s.timers j ≡ s.timers (suc j) =
        (without_first-Removes s l).1 in
      (
        (λ i j k m.
            rw (low j (omega arith), low i (omega arith))
              (h.0 (suc i) (suc j) (omega arith) (omega arith))),
        omega (arith, h.1),
      )

  -- An error leaves the timers as they are and has one of two reasons; without an error the new
  -- timer stands among the others in its place, and the array stays in order and within bounds.
  abbrev pub Adds :
      ℕ → Bool → Timers Time Code Arg → Timer Time Code Arg → ℕ × Timers Time Code Arg → Type 0
  Adds max_timers allocated s tm r =
      ((r.0 ≡ 1)
        × ((r.1 ≡ s)
            × ((s.timer_count ≡ max_timers)
                ⊎ ((s.timer_count ≡ s.timer_capacity) × (allocated ≡ false)))))
      ⊎ ((r.0 ≡ 0) × (((p : ℕ) × InsertedAt lt s tm r.1 p) × IsValid r.1))

  -- The new timer with the time at which it is to run.
  abbrev pub AddsDue :
      ℕ
      → Bool
      → Time
      → Bool
      → Timer Time Code Arg
      → Timers Time Code Arg
      → ℕ × Timers Time Code Arg
      → Type 0
  AddsDue max_timers allocated now is_relative tm s r =
      (t : Time) × IsDueTime lt add now tm.time is_relative t
      × Adds max_timers allocated s (timed t tm) r

  module _ (asym : (a b : Time) → lt a b ≡ true → lt b a ≡ false)
      (le_trans : (a b c : Time) → lt b a ≡ false → lt c b ≡ false → lt c a ≡ false) where
    insert-Adds :
        (max_timers : ℕ) (allocated : Bool) (s : Timers Time Code Arg) (tm : Timer Time Code Arg)
        → (capacity : ℕ) → IsSorted lt s
        → s.timer_count + 1 ≤ capacity
        → Adds max_timers allocated s tm (
            added lt
              (some (record {
                timers = s.timers;
                timer_count = s.timer_count;
                timer_capacity = capacity;
              }))
              s
              tm)
    unfolding added
    insert-Adds max_timers allocated s tm capacity h l =
        let room : Timers Time Code Arg = record {
          timers = s.timers;
          timer_count = s.timer_count;
          timer_capacity = capacity;
        } in
        let i = insert-InsertedAt lt asym le_trans room tm h in
        inr (
          refl,
          (
            i,
            (
              InsertedAt-IsSorted lt asym le_trans room (insert lt room tm) tm i.0 h i.1,
              insert-fits s capacity tm l,
            ),
          ),
        )

    timer_add-Adds_due :
        (max_timers : ℕ) (allocated : Bool) (now : Time) (is_relative : Bool)
        → (tm : Timer Time Code Arg) (s : Timers Time Code Arg) → IsValid s
        → Adds max_timers allocated s
            (timed (due_time lt add now tm.time is_relative) tm)
            (timer_add lt add nought max_timers allocated now is_relative tm s)
    unfolding timer_add make_room added
    timer_add-Adds_due max_timers allocated now is_relative tm s h =
        let new = timed (due_time lt add now tm.time is_relative) tm in
        let P : Option (Timers Time Code Arg) → Type 0 =
          λ o. Adds max_timers allocated s new (added lt o s new) in
        if_split P (s.timer_count == max_timers) _ _
          (λ e. inl (refl, (refl, inl ((==_iff _ _).0 e))))
          (λ e.
            if_split P (s.timer_count == s.timer_capacity) _ _
              (λ f.
                if_split P allocated _ _
                  (λ g. insert-Adds max_timers allocated s new _ h.0 (omega (arith, h.1)))
                  (λ g. inl (refl, (refl, inr ((==_iff _ _).0 f, g)))))
              (λ f. insert-Adds max_timers allocated s new s.timer_capacity h.0 (lt_of s h.1 f)))

    -- For a comparison that orders the times: from an ordered array within its capacity, `timer_add`
    -- fails without a change, for one of its two reasons, or puts the timer at its place behind those
    -- that are not later, and the array stays ordered and within its capacity. The timer's time there
    -- is the one that was asked for, counted from now if it is relative, or now if that is in the past.
    pub timer_add-Adds :
        (max_timers : ℕ) (allocated : Bool) (now : Time) (is_relative : Bool)
        → (tm : Timer Time Code Arg) (s : Timers Time Code Arg) → IsValid s
        → AddsDue max_timers allocated now is_relative tm s
            (timer_add lt add nought max_timers allocated now is_relative tm s)
    timer_add-Adds max_timers allocated now is_relative tm s h = (
      due_time lt add now tm.time is_relative,
      due_time-IsDueTime lt add now tm.time is_relative,
      timer_add-Adds_due max_timers allocated now is_relative tm s h,
    )

    not_due :
        (d : Time) (s : Timers Time Code Arg)
        → IsSorted lt s
        → (0 < s.timer_count → lt d (s.timers 0).time ≡ true)
        → (j : ℕ) → j < s.timer_count
        → lt d (s.timers j).time ≡ true
    not_due d s h e zero k = e k
    not_due d s h e (suc j) k = elim (Bool-cases (lt d (s.timers (suc j)).time)) [
      | inl f ↦ f
      | inr f ↦
          absurd
            (true≢false (sym (e (omega arith)) ∙ le_trans _ _ _ (h 0 (suc j) (omega arith) k) f))
    ]

    -- What a round does: it sleeps only while no timer is due; otherwise it runs the next timer,
    -- takes it out of the array and cancels it, or adds it again.
    abbrev pub Runs :
        ℕ
        → Bool
        → Time
        → Time
        → Timers Time Code Arg
        → Round Time Code Arg × Timers Time Code Arg
        → Type 0
    Runs max_timers allocated d now s (sleeps, r) =
        (r ≡ s) × ((j : ℕ) → j < s.timer_count → lt d (s.timers j).time ≡ true)
    Runs max_timers allocated d now s (cancels t, r) = IsNext d s t × (Removes s r × IsValid r)
    Runs max_timers allocated d now s (reschedules t error, r) =
        IsNext d s t
        × ((q : Timers Time Code Arg) × (Removes s q
              × (IsValid q
                  × Adds max_timers allocated q
                      (timed (due_time lt add now (add t.time t.period) false) t) (error, r))))

    -- For a comparison that orders the times, from an ordered array within its capacity: a round of the
    -- timer thread sleeps only if no timer is due; otherwise it runs a timer that is due and than
    -- which none is earlier, takes it out, and cancels it or hands it to `timer_add`.
    pub timer_round-Runs :
        (max_timers : ℕ) (allocated : Bool) (d now : Time) (positive : Bool)
        → (s : Timers Time Code Arg) → IsValid s
        → Runs max_timers allocated d now s
            (timer_round lt add nought max_timers allocated d now positive s)
    unfolding timer_round after_action
    timer_round-Runs max_timers allocated d now positive s h =
        let P : Round Time Code Arg × Timers Time Code Arg → Type 0 =
          Runs max_timers allocated d now s in
        let b : Bool = lt d (s.timers 0).time in
        if_split P (ltb 0 s.timer_count && not b) _ _
          (λ e.
            let k = and_not _ b e in
            let l : 0 < s.timer_count = ltb→lt 0 s.timer_count k.0 in
            let next : IsNext d s (s.timers 0) = (refl, (k.1, (l, λ j m n. h.0 0 j m n))) in
            let out = without_first-Removes s l in
            let valid = without_first-IsValid s l h in
            if_split P (positive && lt nought (s.timers 0).period) _ _
              (λ f. (
                next,
                (
                  without_first lt add nought s,
                  (
                    out,
                    (
                      valid,
                      timer_add-Adds_due max_timers allocated now false _
                          (without_first lt add nought s) valid,
                    ),
                  ),
                ),
              ))
              (λ f. (next, (out, valid))))
          (λ e. (refl, λ j k. not_due d s h.0 (idle _ b e) j k))
