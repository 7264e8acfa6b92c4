-- ===== src/Timer/Life/Counts.antt =====
-- How many timers of an array in src/timer.inl pass a test.
use civetweb.Base.{Bool, Option, ap, ap₂, arith, if_split, if◌then◌else◌, none, refl, some, suc}
use civetweb.Base.{zero, ℕ, ◌+◌, ◌<◌, ◌==◌, ◌∙◌, ◌≡◌, ◌≤◌}
use civetweb.Timer.{Timer, Timers, write, shift_up, insert, make_room, added}
use civetweb.Timer.Order.{write_self, write-other}

module _ {A : Type 0} (p : A → Bool) where
  abbrev pub weight : A → ℕ
  weight t = if p t then 1 else 0

  -- How many of the first elements of an array pass the test.
  unfoldable pub count_upto : ℕ → (ℕ → A) → ℕ
  count_upto zero a = 0
  count_upto (suc n) a = count_upto n a + weight (a n)

  pub count_upto-same :
      (n : ℕ) (a b : ℕ → A) → ((j : ℕ) → j < n → a j ≡ b j) → count_upto n a ≡ count_upto n b
  unfolding count_upto
  count_upto-same zero a b h = refl
  count_upto-same (suc n) a b h =
      ap₂ (λ x y. x + y) (count_upto-same n a b (λ j l. h j (omega arith)))
        (ap weight (h n (omega arith)))

  pub count_upto-first :
      (n : ℕ) (a : ℕ → A) → count_upto (suc n) a ≡ weight (a 0) + count_upto n (λ j. a (suc j))
  unfolding count_upto
  count_upto-first zero a = omega arith
  count_upto-first (suc n) a = omega (arith, count_upto-first n a)

  count_upto-write_high :
      (n i : ℕ) (a : ℕ → A) (v : A) → n ≤ i → count_upto n (write a i v) ≡ count_upto n a
  count_upto-write_high n i a v l =
      count_upto-same n (write a i v) a (λ j h. write-other a i j v (λ e. absurd (omega arith)))

module _ {Time Code Arg : Type 0} (lt : Time → Time → Bool) (p : Timer Time Code Arg → Bool) where
  -- The loop that makes room, together with the write behind it.
  shift_up-both :
      (t : Time) (n : ℕ) (a : ℕ → Timer Time Code Arg) (tm : Timer Time Code Arg)
      → (count_upto p (suc n) (write (shift_up lt t n a).0 (shift_up lt t n a).1 tm)
          ≡ count_upto p n a + weight p tm)
        × ((j : ℕ) → n < j → write (shift_up lt t n a).0 (shift_up lt t n a).1 tm j ≡ a j)
  unfolding shift_up count_upto
  shift_up-both t zero a tm = (
    omega (arith, ap (weight p) (write_self a 0 0 tm refl)),
    λ j l. write-other a 0 j tm (λ e. absurd (omega arith)),
  )
  shift_up-both t (suc u) a tm =
      if_split
        (λ (r : (ℕ → Timer Time Code Arg) × ℕ).
          (count_upto p (suc (suc u)) (write r.0 r.1 tm) ≡ count_upto p (suc u) a + weight p tm)
          × ((j : ℕ) → suc u < j → write r.0 r.1 tm j ≡ a j))
        (lt t (a u).time) _ _
        (λ e.
          let b = write a (suc u) (a u) in
          let (counts, above) = shift_up-both t u b tm in
          let top = above (suc u) (omega arith) ∙ write_self a (suc u) (suc u) (a u) refl in
          (
            omega (
              arith,
              counts,
              ap (weight p) top,
              count_upto-write_high p u (suc u) a (a u) (omega arith),
            ),
            λ j l.
                above j (omega arith) ∙ write-other a (suc u) j (a u) (λ q. absurd (omega arith)),
          ))
        (λ e. (
          omega (
            arith,
            count_upto-write_high p (suc u) (suc u) a tm (omega arith),
            ap (weight p) (write_self a (suc u) (suc u) tm refl),
          ),
          λ j l. write-other a (suc u) j tm (λ q. absurd (omega arith)),
        ))

  abbrev pub kept : Timers Time Code Arg → ℕ
  kept s = count_upto p s.timer_count s.timers

  insert-kept :
      (s : Timers Time Code Arg) (tm : Timer Time Code Arg)
      → kept (insert lt s tm) ≡ kept s + weight p tm
  unfolding insert
  insert-kept s tm =
      let r = shift_up lt tm.time s.timer_count s.timers in
      ap (λ n. count_upto p n (write r.0 r.1 tm)) (one_more s.timer_count)
      ∙ (shift_up-both tm.time s.timer_count s.timers tm).0
    where
      one_more : (n : ℕ) → n + 1 ≡ suc n
      one_more n = omega arith

  abbrev pub SameTimers : Timers Time Code Arg → Option (Timers Time Code Arg) → Type 0
  SameTimers s none = Unit
  SameTimers s (some r) = (r.timer_count ≡ s.timer_count) × (r.timers ≡ s.timers)

  pub make_room-SameTimers :
      (max_timers : ℕ) (allocated : Bool) (s : Timers Time Code Arg)
      → SameTimers s (make_room max_timers allocated s)
  unfolding make_room
  make_room-SameTimers max_timers allocated s =
      if_split (SameTimers s) (s.timer_count == max_timers) _ _ (λ e. tt)
        (λ e.
          if_split (SameTimers s) (s.timer_count == s.timer_capacity) _ _
            (λ f. if_split (SameTimers s) allocated _ _ (λ g. (refl, refl)) (λ g. tt))
            (λ f. (refl, refl)))

  abbrev pub Adding : Timers Time Code Arg → Timer Time Code Arg → ℕ × Timers Time Code Arg → Type 0
  Adding s tm r = kept r.1 ≡ kept s + (if r.0 == 0 then weight p tm else 0)

  pub added-Adding :
      (s : Timers Time Code Arg) (tm : Timer Time Code Arg) (o : Option (Timers Time Code Arg))
      → SameTimers s o
      → Adding s tm (added lt o s tm)
  unfolding added
  added-Adding s tm none h = omega arith
  added-Adding s tm (some r) (n, a) =
      insert-kept r tm ∙ ap₂ (λ m b. count_upto p m b + weight p tm) n a
