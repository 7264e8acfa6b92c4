-- ===== src/Timer/Life/Account.antt =====
-- No timer of src/timer.inl is lost: what becomes of the timers in a run.
use civetweb.Base.{Bool, List, Option, [], ap, arith, false, if_split, if◌then◌else◌, ltb, none}
use civetweb.Base.{not, refl, some, suc, ℕ, ◌&&◌, ◌+◌, ◌-◌, ◌<◌, ◌==◌, ◌∷◌, ◌≡◌}
use civetweb.Timer.{
  Timer, Timers, Round, sleeps, reschedules, cancels, timer_add, make_room, without_first,
  after_action,
}
use civetweb.Timer.Rounds.{shift_down_lem}
use civetweb.Timer.Life.{
  Thread, Move, adds, looks, ends, Event, nothing, enters, leaves, drops, looked, event_of, ended,
  move, run,
}
use civetweb.Timer.Life.Counts.{
  weight, count_upto, count_upto-same, count_upto-first, make_room-SameTimers, added-Adding,
}

module _ {Time Code Arg : Type 0} (lt : Time → Time → Bool) (add : Time → Time → Time)
    (nought : Time) (max_timers : ℕ) (q : Arg → Bool) where
  abbrev pub has_arg : Timer Time Code Arg → Bool
  has_arg t = q t.arg

  abbrev pub kept_by : Timers Time Code Arg → ℕ
  kept_by s = count_upto has_arg s.timer_count s.timers

  timer_add-kept :
      (allocated : Bool) (now : Time) (is_relative : Bool) (tm : Timer Time Code Arg)
      (s : Timers Time Code Arg)
      → kept_by (timer_add lt add nought max_timers allocated now is_relative tm s).1
        ≡ kept_by s
          + (if (timer_add lt add nought max_timers allocated now is_relative tm s).0 == 0
              then weight has_arg tm
              else 0)
  unfolding timer_add
  timer_add-kept allocated now is_relative tm s =
      added-Adding lt has_arg s _ (make_room max_timers allocated s)
        (make_room-SameTimers lt has_arg max_timers allocated s)

  without_first-kept :
      (s : Timers Time Code Arg)
      → 0 < s.timer_count
      → kept_by (without_first lt add nought s) + weight has_arg (s.timers 0) ≡ kept_by s
  unfolding without_first
  without_first-kept s h =
      let n = s.timer_count - 1 in
      let low = (shift_down_lem n 0 s.timers).1 in
      let shifted =
        count_upto-same has_arg n _ (λ j. s.timers (suc j))
          (λ j l. low j (omega arith) (omega arith)) in
      let whole : count_upto has_arg (suc n) s.timers ≡ count_upto has_arg s.timer_count s.timers =
        ap (λ k. count_upto has_arg k s.timers) (omega arith) in
      omega (arith, shifted, count_upto-first has_arg n s.timers, whole)

  -- The timers in the list and the one whose action runs.
  abbrev pub of_running : Option (Timer Time Code Arg) → ℕ
  of_running none = 0
  of_running (some t) = weight has_arg t

  abbrev pub in_use : Thread Time Code Arg → ℕ
  in_use th = kept_by th.list + of_running th.running

  abbrev pub entered : Event Time Code Arg → ℕ
  entered (enters t) = weight has_arg t
  entered nothing = 0
  entered (leaves t) = 0
  entered (drops t) = 0

  abbrev pub released : Event Time Code Arg → ℕ
  released (leaves t) = weight has_arg t
  released nothing = 0
  released (enters t) = 0
  released (drops t) = 0

  abbrev pub dropped : Event Time Code Arg → ℕ
  dropped (drops t) = weight has_arg t
  dropped nothing = 0
  dropped (enters t) = 0
  dropped (leaves t) = 0

  abbrev pub Balances : Thread Time Code Arg → Event Time Code Arg × Thread Time Code Arg → Type 0
  Balances th r = in_use th + entered r.0 ≡ in_use r.1 + released r.0 + dropped r.0

  adds-Balances :
      (allocated : Bool) (now : Time) (is_relative : Bool) (tm : Timer Time Code Arg)
      (th : Thread Time Code Arg)
      → Balances th (move lt add nought max_timers (adds allocated now is_relative tm) th)
  unfolding move
  adds-Balances allocated now is_relative tm th =
      let r = timer_add lt add nought max_timers allocated now is_relative tm th.list in
      let counts = timer_add-kept allocated now is_relative tm th.list in
      if_split
        (λ (e : Event Time Code Arg).
          in_use th + entered e
          ≡ in_use (record { list = r.1; running = th.running }) + released e + dropped e)
        (r.0 == 0) (enters tm) nothing (λ e. ground (arith, counts)) (λ e. ground (arith, counts))

  looked-Balances :
      (th : Thread Time Code Arg) (d : Time) (o : Option (Timer Time Code Arg))
      → th.running ≡ o
      → in_use (looked lt add nought max_timers th d o) ≡ in_use th
  looked-Balances th d (some t) e = refl
  looked-Balances th d none e =
      if_split (λ (r : Thread Time Code Arg). in_use r ≡ in_use th)
        (ltb 0 th.list.timer_count && not (lt d (th.list.timers 0).time)) _ _
        (λ f. omega (arith, without_first-kept th.list (ground arith), ap of_running e)) (λ f. refl)

  abbrev Closes :
      Timer Time Code Arg
      → Timers Time Code Arg
      → Round Time Code Arg × Timers Time Code Arg
      → Type 0
  Closes t s r =
      kept_by s + weight has_arg t
      ≡ kept_by r.1
        + released (event_of lt add nought max_timers r.0)
        + dropped (event_of lt add nought max_timers r.0)

  after_action-Closes :
      (allocated : Bool) (now : Time) (positive : Bool) (t : Timer Time Code Arg)
      (s : Timers Time Code Arg)
      → Closes t s (after_action lt add nought max_timers allocated now positive t s)
  unfolding after_action
  after_action-Closes allocated now positive t s =
      if_split (λ (r : Round Time Code Arg × Timers Time Code Arg). Closes t s r)
        (positive && lt nought t.period) _ _
        (λ e.
          let n =
            timer_add lt add nought max_timers allocated now false
              (record {
                time = add t.time t.period;
                period = t.period;
                action = t.action;
                arg = t.arg;
                cancel = t.cancel;
              })
              s in
          let counts =
            timer_add-kept allocated now false
              (record {
                time = add t.time t.period;
                period = t.period;
                action = t.action;
                arg = t.arg;
                cancel = t.cancel;
              })
              s in
          if_split
            (λ (e : Event Time Code Arg).
              kept_by s + weight has_arg t ≡ kept_by n.1 + released e + dropped e)
            (n.0 == 0) nothing (drops t) (λ f. ground (arith, counts))
            (λ f. ground (arith, counts)))
        (λ e. omega arith)

  entered-event_of : (r : Round Time Code Arg) → entered (event_of lt add nought max_timers r) ≡ 0
  entered-event_of sleeps = refl
  entered-event_of (reschedules t error) =
      if_split (λ (e : Event Time Code Arg). entered e ≡ 0) (error == 0) _ _ (λ f. refl) (λ f. refl)
  entered-event_of (cancels t) = refl

  ended-Balances :
      (positive allocated : Bool) (now : Time) (th : Thread Time Code Arg)
      (o : Option (Timer Time Code Arg))
      → th.running ≡ o
      → Balances th (ended lt add nought max_timers positive allocated now th o)
  ended-Balances positive allocated now th none e = omega arith
  ended-Balances positive allocated now th (some t) e =
      let r = after_action lt add nought max_timers allocated now positive t th.list in
      omega (
        arith,
        after_action-Closes allocated now positive t th.list,
        ap of_running e,
        entered-event_of r.0,
      )

  move-Balances :
      (m : Move Time Code Arg) (th : Thread Time Code Arg)
      → Balances th (move lt add nought max_timers m th)
  unfolding move
  move-Balances (adds allocated now is_relative tm) th =
      adds-Balances allocated now is_relative tm th
  move-Balances (looks d) th = omega (arith, looked-Balances th d th.running refl)
  move-Balances (ends positive allocated now) th =
      ended-Balances positive allocated now th th.running refl

  -- How many timers with such an argument the events are about.
  unfoldable pub total : (Event Time Code Arg → ℕ) → List (Event Time Code Arg) → ℕ
  total f [] = 0
  total f (e ∷ es) = f e + total f es

  -- In any sequence of moves of the threads, for any test on arguments: the timers that were in the
  -- list or running at first and those that entered since are as many as those in the list or running
  -- at the end, those whose action ended for good so that cancel was called where there is one, and
  -- those that could not be added again.
  pub run-total :
      (ms : List (Move Time Code Arg)) (th : Thread Time Code Arg)
      → in_use th + total entered (run lt add nought max_timers ms th).0
        ≡ in_use (run lt add nought max_timers ms th).1
          + total released (run lt add nought max_timers ms th).0
          + total dropped (run lt add nought max_timers ms th).0
  unfolding run total
  run-total [] th = omega arith
  run-total (m ∷ ms) th =
      let r = move lt add nought max_timers m th in
      omega (arith, move-Balances m th, run-total ms r.1)
