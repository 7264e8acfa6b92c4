-- ===== src/Timer.antt =====
-- The timers of src/timer.inl: timer_add and a round of the loop of timer_thread_run. The mutex is
-- held over each piece that is a function here. The clock and the allocation are arguments, and so
-- are `double` and what the function pointers point to. The context has its timers: the return of
-- timer_add for a context without them is left out.
pub mod Order
pub mod Sorted
pub mod Due
pub mod Rounds
pub mod Life
use civetweb.Base.{Bool, Option, false, if◌then◌else◌, ltb, none, not, some, suc, zero, ℕ, ◌&&◌}
use civetweb.Base.{◌*◌, ◌+◌, ◌-◌, ◌==◌}

-- `code` stands for the pair of action and cancel, `arg` for their argument.
pub record Timer (Time Code Arg : Type 0) : Type 0 where
  pub time : Time
  pub period : Time
  pub action : Code
  pub arg : Arg
  pub cancel : Option Code

-- The array, read and written at indexes below the capacity, and what is known of it.
pub record Timers (Time Code Arg : Type 0) : Type 0 where
  pub timers : ℕ → Timer Time Code Arg
  pub timer_count : ℕ
  pub timer_capacity : ℕ

abbrev pub write : {A : Type 0} → (ℕ → A) → ℕ → A → ℕ → A
write a i v j = if j == i then v else a j

-- The loop of `timer_thread_run` that shifts all other timers, at index `u` with `rounds` to go.
unfoldable pub shift_down : {A : Type 0} → ℕ → ℕ → (ℕ → A) → ℕ → A
shift_down zero u a = a
shift_down (suc rounds) u a = shift_down rounds (suc u) (write a (u - 1) (a u))

-- What a round of the thread does: it sleeps, or it runs a timer and then adds it again, with the
-- answer of `timer_add`, or calls its cancel function.
pub data Round (Time Code Arg : Type 0) : Type 0 where
  sleeps : Round Time Code Arg
  reschedules : Timer Time Code Arg → ℕ → Round Time Code Arg
  cancels : Timer Time Code Arg → Round Time Code Arg

-- The time at which a new timer runs, for the comparison and the sum of two `double`.
module _ {Time : Type 0} (lt : Time → Time → Bool) (add : Time → Time → Time) where
  unfoldable pub due_time : Time → Time → Bool → Time
  due_time now next_time is_relative =
      let t = if is_relative then add next_time now else next_time in if lt t now then now else t

-- MAX_TIMERS is `max_timers`, `allocated` tells whether `mg_realloc_ctx` succeeds; `none` is the
-- error.
unfoldable pub make_room :
    {Time Code Arg : Type 0} → ℕ → Bool → Timers Time Code Arg → Option (Timers Time Code Arg)
make_room max_timers allocated s =
    if s.timer_count == max_timers
    then none
    else if s.timer_count == s.timer_capacity
    then (if allocated
        then some (record {
          timers = s.timers;
          timer_count = s.timer_count;
          timer_capacity = s.timer_capacity * 2 + 1;
        })
        else none)
    else some s

-- The second component of the pair is the state of the timers afterwards.
module _ {Time Code Arg : Type 0} (lt : Time → Time → Bool) where
  -- The loop that makes room: it moves timers that are later than `t` one place up. With the array
  -- it returns the index where it stops.
  unfoldable pub shift_up : Time → ℕ → (ℕ → Timer Time Code Arg) → (ℕ → Timer Time Code Arg) × ℕ
  shift_up t zero a = (a, zero)
  shift_up t (suc u) a =
      let more = shift_up t u (write a (suc u) (a u)) in
      if lt t (a u).time then more else (a, suc u)

  unfoldable pub insert : Timers Time Code Arg → Timer Time Code Arg → Timers Time Code Arg
  unfolding shift_up
  insert s tm =
      let r = shift_up tm.time s.timer_count s.timers in
      record {
        timers = write r.0 r.1 tm;
        timer_count = s.timer_count + 1;
        timer_capacity = s.timer_capacity;
      }

  unfoldable pub added :
      Option (Timers Time Code Arg)
      → Timers Time Code Arg
      → Timer Time Code Arg
      → ℕ × Timers Time Code Arg
  unfolding insert
  added none s tm = (1, s)
  added (some r) s tm = (0, insert r tm)

-- `nought` is 0.
module _ {Time Code Arg : Type 0} (lt : Time → Time → Bool) (add : Time → Time → Time)
    (nought : Time) where
  -- The time of `tm` is the argument `next_time`.
  unfoldable pub timer_add :
      ℕ → Bool → Time → Bool → Timer Time Code Arg → Timers Time Code Arg → ℕ × Timers Time Code Arg
  unfolding make_room added due_time
  timer_add max_timers allocated now is_relative tm s =
      added lt (make_room max_timers allocated s) s (record {
        time = due_time lt add now tm.time is_relative;
        period = tm.period;
        action = tm.action;
        arg = tm.arg;
        cancel = tm.cancel;
      })

  -- The array and the count when the timer in front has been taken out.
  unfoldable pub without_first : Timers Time Code Arg → Timers Time Code Arg
  unfolding shift_down
  without_first s = record {
    timers = shift_down (s.timer_count - 1) 1 s.timers;
    timer_count = s.timer_count - 1;
    timer_capacity = s.timer_capacity;
  }

  -- Behind the call of the action, whose result is positive or not.
  unfoldable pub after_action :
      ℕ
      → Bool
      → Time
      → Bool
      → Timer Time Code Arg
      → Timers Time Code Arg
      → Round Time Code Arg × Timers Time Code Arg
  unfolding timer_add
  after_action max_timers allocated now positive t s =
      let again =
        timer_add max_timers allocated now false
          (record {
            time = add t.time t.period;
            period = t.period;
            action = t.action;
            arg = t.arg;
            cancel = t.cancel;
          })
          s in
      if positive && lt nought t.period then (reschedules t again.0, again.1) else (cancels t, s)

  -- `d` is the time the loop last read, `now` the time that `timer_add` reads.
  unfoldable pub timer_round :
      ℕ
      → Bool
      → Time
      → Time
      → Bool
      → Timers Time Code Arg
      → Round Time Code Arg × Timers Time Code Arg
  unfolding after_action without_first
  timer_round max_timers allocated d now positive s =
      let t = s.timers 0 in
      let ran = after_action max_timers allocated now positive t (without_first s) in
      if ltb 0 s.timer_count && not (lt d t.time) then ran else (sleeps, s)
