-- ===== src/Queue/Fifo.antt =====
-- produce_socket and consume_socket of src/civetweb.c against a first-in, first-out list.
use civetweb.Base.{Bool, Bool-cases, List, Option, [], ap, arith, false, inl, inr, leb, length}
use civetweb.Base.{ltb, ltb→lt, none, not, refl, some, sym, true, ◌%◌, ◌&&◌, ◌++◌, ◌+◌, ◌-◌, ◌<◌}
use civetweb.Base.{◌==◌, ◌∙◌, ◌∷◌, ◌≡◌, ◌≢◌, ◌≤◌, ◌⊎◌}
use civetweb.Queue.{SocketQueue, Step, waits, returns, IsValid}
use civetweb.Queue.{queue_filled, enqueue, produce_socket, dequeue}
use civetweb.Queue.{consume_resumed}
use civetweb.Queue.{wrap_pointers}
use civetweb.Queue.Wrap.{contents-blocked, contents-idle, IsValid-blocked, IsValid-idle}
use civetweb.Queue.Wrap.{contents, length-contents, contents-store, contents-next, IsWrapped}
use civetweb.Queue.Wrap.{wrap_pointers-IsWrapped}

nil_of_length {ℓ} : {A : Type ℓ} (xs : List A) → length xs ≡ 0 → xs ≡ []
nil_of_length [] h = refl
nil_of_length (x ∷ xs) h = absurd (omega arith)

module _ {ℓ} {A : Type ℓ} where
  -- What a step of a producer does to the list of waiting sockets: it waits only while the list is
  -- full and the server runs, it appends the socket if there is room, and it gives the socket up
  -- only when the server stops with a full list.
  abbrev pub Produces : A → SocketQueue A → Step A Bool → Type ℓ
  Produces sp q (waits r) =
      IsValid r
      × (contents r ≡ contents q)
      × (length (contents q) ≡ q.sq_size)
      × (q.stop_flag ≡ false)
  Produces sp q (returns true r) =
      IsValid r × (contents r ≡ contents q ++ sp ∷ []) × (length (contents q) < q.sq_size)
  Produces sp q (returns false r) =
      IsValid r
      × (contents r ≡ contents q)
      × (length (contents q) ≡ q.sq_size)
      × (q.stop_flag ≡ true)

  -- What a step of a consumer does: it waits only while the list is empty and the server runs, it
  -- takes the oldest socket if there is one, and it returns with none only when the server stops.
  abbrev pub Consumes : SocketQueue A → Step A (Option A × Bool) → Type ℓ
  Consumes q (waits r) = IsValid r × (contents r ≡ []) × (contents q ≡ []) × (q.stop_flag ≡ false)
  Consumes q (returns (some sp, go) r) =
      IsValid r × (contents q ≡ sp ∷ contents r) × (go ≡ not q.stop_flag)
  Consumes q (returns (none, go) r) =
      IsValid r × (contents r ≡ []) × (contents q ≡ []) × (go ≡ false) × (q.stop_flag ≡ true)

  -- The list when the indices meet, and when they are the size apart.
  contents-nil : (q : SocketQueue A) → q.sq_head ≤ q.sq_tail → contents q ≡ []
  contents-nil q le = nil_of_length (contents q) (omega (arith, length-contents q))

  enqueue-Produces :
      (sp : A) (q : SocketQueue A)
      → IsValid q
      → (queue_filled q < q.sq_size) ⊎ (q.stop_flag ≡ true)
      → Produces sp q (enqueue sp q)
  unfolding enqueue queue_filled
  enqueue-Produces sp q v ready = elim (Bool-cases (ltb (queue_filled q) q.sq_size)) [
    | inl e ↦
        let lt : q.sq_head - q.sq_tail < q.sq_size = ltb→lt _ _ e in
        rw e (
          record {
            size_pos = v.size_pos;
            ordered = omega arith;
            fits = omega arith;
            wrapped = v.wrapped;
          },
          contents-store sp q v lt,
          omega (arith, length-contents q),
        )
    | inr e ↦ rw e (v, refl, ground (arith, length-contents q), ground arith)
  ]

  -- From a valid queue, `produce_socket` waits only while the queue is full and the server runs,
  -- and leaves the sockets as they are; it appends the socket if there is room; it gives the
  -- socket up only if the queue is full and the server stops. The queue stays valid.
  pub produce_socket-Produces :
      (sp : A) (q : SocketQueue A) → IsValid q → Produces sp q (produce_socket sp q)
  unfolding produce_socket queue_filled
  produce_socket-Produces sp q v =
      elim (Bool-cases (not q.stop_flag && leb q.sq_size (queue_filled q))) [
        | inl e ↦ rw e (
          IsValid-blocked true v,
          contents-blocked q true,
          ground (arith, length-contents q),
          ground arith,
        )
        | inr e ↦ rw e (enqueue-Produces sp q v (ground arith))
      ]

  dequeue-Consumes :
      (q : SocketQueue A)
      → IsValid q
      → (q.sq_head ≢ q.sq_tail) ⊎ (q.stop_flag ≡ true)
      → Consumes q (dequeue q)
  unfolding dequeue
  dequeue-Consumes q v ready = elim (Bool-cases (ltb q.sq_tail q.sq_head)) [
    | inl e ↦
        let lt : q.sq_tail < q.sq_head = ltb→lt _ _ e in
        let q' : SocketQueue A = record q { sq_tail = q.sq_tail + 1 } in
        let w : IsWrapped q' (wrap_pointers (q.sq_tail + 1) q') =
          wrap_pointers-IsWrapped (q.sq_tail + 1) q' v.size_pos (omega arith) (omega arith)
            (omega arith) in
        rw e (
          IsValid-idle (q.idle_worker_thread_count - 1) w.valid,
          contents-next q lt
              ∙ ap (λ l. q.squeue (q.sq_tail % q.sq_size) ∷ l)
                  (sym (
                    contents-idle (wrap_pointers (q.sq_tail + 1) q')
                      (q.idle_worker_thread_count - 1)
                    ∙ w.same_contents)),
          refl,
        )
    | inr e ↦
        let le : q.sq_head ≤ q.sq_tail = ground arith in
        rw e (
          IsValid-idle (q.idle_worker_thread_count - 1) v,
          contents-idle q (q.idle_worker_thread_count - 1) ∙ contents-nil q le,
          contents-nil q le,
          ground arith,
          ground arith,
        )
  ]

  -- From a valid queue, a consumer waits only while the queue is empty and the server runs; it
  -- takes the oldest socket if there is one; it returns without a socket only if the queue is
  -- empty and the server stops. The queue stays valid.
  pub consume_resumed-Consumes : (q : SocketQueue A) → IsValid q → Consumes q (consume_resumed q)
  unfolding consume_resumed
  consume_resumed-Consumes q v = elim (Bool-cases (q.sq_head == q.sq_tail && not q.stop_flag)) [
    | inl e ↦
        let le : q.sq_head ≤ q.sq_tail = ground arith in
        rw e (v, contents-nil q le, contents-nil q le, ground arith)
    | inr e ↦ rw e (dequeue-Consumes q v (ground arith))
  ]
