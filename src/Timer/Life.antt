-- ===== src/Timer/Life.antt =====
-- The life of timers in src/timer.inl, as steps of the threads that share the list. The thread of the timers takes a timer out with the mutex
-- held, runs its action without it and then adds the timer again or cancels it, so that other threads
-- can add timers in between.
pub mod Counts
pub mod Account
use civetweb.Base.{Bool, List, Option, [], if◌then◌else◌, ltb, none, not, some, ℕ, ◌&&◌, ◌==◌}
use civetweb.Base.{◌∷◌}
use civetweb.Timer.{
  Timer, Timers, Round, sleeps, reschedules, cancels, timer_add, without_first, after_action,
}

-- The list, and the timer whose action runs.
pub record Thread (Time Code Arg : Type 0) : Type 0 where
  pub list : Timers Time Code Arg
  pub running : Option (Timer Time Code Arg)

-- What some thread does next: it adds a timer; the thread of the timers looks at the list at a time;
-- or an action ends, with a positive result or not.
pub data Move (Time Code Arg : Type 0) : Type 0 where
  adds : Bool → Time → Bool → Timer Time Code Arg → Move Time Code Arg
  looks : Time → Move Time Code Arg
  ends : Bool → Bool → Time → Move Time Code Arg

-- What becomes of a timer: it enters the list, leaves it with its cancel function, or leaves it
-- because it could not be added again.
pub data Event (Time Code Arg : Type 0) : Type 0 where
  nothing : Event Time Code Arg
  enters leaves drops : Timer Time Code Arg → Event Time Code Arg

module _ {Time Code Arg : Type 0} (lt : Time → Time → Bool) (add : Time → Time → Time)
    (nought : Time) (max_timers : ℕ) where
  abbrev pub looked :
      Thread Time Code Arg → Time → Option (Timer Time Code Arg) → Thread Time Code Arg
  looked th d (some t) = th
  looked th d none =
      let t = th.list.timers 0 in
      if ltb 0 th.list.timer_count && not (lt d t.time)
      then record { list = without_first lt add nought th.list; running = some t }
      else th

  abbrev pub event_of : Round Time Code Arg → Event Time Code Arg
  event_of sleeps = nothing
  event_of (reschedules t error) = if error == 0 then nothing else drops t
  event_of (cancels t) = leaves t

  abbrev pub ended :
      Bool
      → Bool
      → Time
      → Thread Time Code Arg
      → Option (Timer Time Code Arg)
      → Event Time Code Arg × Thread Time Code Arg
  ended positive allocated now th none = (nothing, th)
  ended positive allocated now th (some t) =
      let r = after_action lt add nought max_timers allocated now positive t th.list in
      (event_of r.0, record { list = r.1; running = none })

  unfoldable pub move :
      Move Time Code Arg → Thread Time Code Arg → Event Time Code Arg × Thread Time Code Arg
  move (adds allocated now is_relative tm) th =
      let r = timer_add lt add nought max_timers allocated now is_relative tm th.list in
      (if r.0 == 0 then enters tm else nothing, record { list = r.1; running = th.running })
  move (looks d) th = (nothing, looked th d th.running)
  move (ends positive allocated now) th = ended positive allocated now th th.running

  abbrev pub with_event :
      Event Time Code Arg
      → List (Event Time Code Arg) × Thread Time Code Arg
      → List (Event Time Code Arg) × Thread Time Code Arg
  with_event e (es, th) = (e ∷ es, th)

  unfoldable pub run :
      List (Move Time Code Arg)
      → Thread Time Code Arg
      → List (Event Time Code Arg) × Thread Time Code Arg
  run [] th = ([], th)
  run (m ∷ ms) th = let r = move m th in with_event r.0 (run ms r.1)
