-- ===== src/Queue.antt =====
-- The queue of accepted sockets in src/civetweb.c: produce_socket of the master thread and
-- consume_socket of the workers (the variant without ALTERNATIVE_QUEUE). The mutex makes what a
-- thread does between two waits one step, and a call that waits on a condition variable is
-- resumed by a step of its own. The indices are counted without the bounds of `int`.
pub mod Wrap
pub mod Fifo
pub mod Runs
use civetweb.Base.{Bool, Option, false, if◌then◌else◌, leb, ltb, none, not, some, suc, true}
use civetweb.Base.{zero, ℕ, ◌%◌, ◌&&◌, ◌+◌, ◌-◌, ◌<◌, ◌==◌, ◌≤◌}

pub record SocketQueue {ℓ} (A : Type ℓ) : Type ℓ where
  pub squeue : ℕ → A
  pub sq_size : ℕ
  pub sq_head : ℕ
  pub sq_tail : ℕ
  pub sq_blocked : Bool
  pub idle_worker_thread_count : ℕ
  pub stop_flag : Bool

-- Either the thread waits on the condition variable, or the call returns.
pub data Step {ℓ κ} (A : Type ℓ) (R : Type κ) : Type (ℓ ⊔ κ) where
  waits : SocketQueue A → Step A R
  returns : R → SocketQueue A → Step A R

module _ {ℓ} {A : Type ℓ} where
  unfoldable pub store : (ℕ → A) → ℕ → A → ℕ → A
  store squeue k sp i = if i == k then sp else squeue i

  unfoldable pub queue_filled : SocketQueue A → ℕ
  queue_filled q = q.sq_head - q.sq_tail

  -- Behind the loop of `produce_socket`; the answer tells whether the socket was queued.
  unfoldable pub enqueue : A → SocketQueue A → Step A Bool
  unfolding store queue_filled
  enqueue sp q =
      if ltb (queue_filled q) q.sq_size
      then returns true
          (record q { squeue = store q.squeue (q.sq_head % q.sq_size) sp; sq_head = q.sq_head + 1 })
      else returns false q

  -- One test of the loop in `produce_socket`, with what follows up to the next wait or the end.
  unfoldable pub produce_socket : A → SocketQueue A → Step A Bool
  unfolding enqueue
  produce_socket sp q =
      if not q.stop_flag && leb q.sq_size (queue_filled q)
      then waits (record q { sq_blocked = true })
      else enqueue sp q

  -- The producer goes on after `pthread_cond_wait`.
  unfoldable pub produce_resumed : A → SocketQueue A → Step A Bool
  unfolding produce_socket
  produce_resumed sp q = produce_socket sp (record q { sq_blocked = false })

  -- `while (sq_tail > sq_size)`, on fuel; each round takes `sq_size` off the tail.
  unfoldable pub wrap_pointers : ℕ → SocketQueue A → SocketQueue A
  wrap_pointers zero q = q
  wrap_pointers (suc fuel) q = elim (ltb q.sq_size q.sq_tail) [
    | true ↦
        wrap_pointers fuel
          (record q { sq_tail = q.sq_tail - q.sq_size; sq_head = q.sq_head - q.sq_size })
    | false ↦ q
  ]

  -- The socket that is taken, if any, and the returned flag, which is false when stopping.
  unfoldable pub dequeue : SocketQueue A → Step A (Option A × Bool)
  unfolding wrap_pointers
  dequeue q =
      let idle = q.idle_worker_thread_count - 1 in
      let taken = wrap_pointers (q.sq_tail + 1) (record q { sq_tail = q.sq_tail + 1 }) in
      if ltb q.sq_tail q.sq_head
      then returns (some (q.squeue (q.sq_tail % q.sq_size)), not q.stop_flag)
          (record taken { idle_worker_thread_count = idle })
      else returns (none, not q.stop_flag) (record q { idle_worker_thread_count = idle })

  -- One test of the loop in `consume_socket`; also how the consumer goes on after its wait.
  unfoldable pub consume_resumed : SocketQueue A → Step A (Option A × Bool)
  unfolding dequeue
  consume_resumed q = if q.sq_head == q.sq_tail && not q.stop_flag then waits q else dequeue q

  -- The call from its start; the thread that started the worker may have counted it as idle.
  unfoldable pub consume_socket : Bool → SocketQueue A → Step A (Option A × Bool)
  unfolding consume_resumed
  consume_socket counter_was_preincremented q =
      if counter_was_preincremented
      then consume_resumed q
      else consume_resumed (record q { idle_worker_thread_count = q.idle_worker_thread_count + 1 })

-- The indices are in order, at most the size apart, and the tail has been wrapped.
pub record IsValid {ℓ} {A : Type ℓ} (q : SocketQueue A) : Type 0 where
  pub size_pos : 0 < q.sq_size
  pub ordered : q.sq_tail ≤ q.sq_head
  pub fits : q.sq_head ≤ q.sq_tail + q.sq_size
  pub wrapped : q.sq_tail ≤ q.sq_size
