-- ===== src/Queue/Runs.antt =====
-- Interleavings of the master thread and the workers at the socket queue of src/civetweb.c.
use civetweb.Base.{Bool, List, [], ap, append-nil, append_assoc, false, none, some, subst, sym}
use civetweb.Base.{true, ◌++◌, ◌+◌, ◌∙◌, ◌∷◌, ◌≡◌}
use civetweb.Queue.{SocketQueue, waits, returns, IsValid}
use civetweb.Queue.{produce_socket, consume_resumed}
use civetweb.Queue.Wrap.{contents, contents-blocked, contents-idle, contents-stop}
use civetweb.Queue.Wrap.{IsValid-blocked, IsValid-idle, IsValid-stop}
use civetweb.Queue.Fifo.{Produces, Consumes, produce_socket-Produces, consume_resumed-Consumes}

-- `Run q ins outs r`: from `q` on the threads make steps, in any order, that end in `r`; the
-- sockets `ins` are queued by them and `outs` are handed to workers, in these orders.
pub data Run {ℓ} {A : Type ℓ} (q : SocketQueue A) : List A → List A → SocketQueue A → Type ℓ where
  start : Run q [] [] q
  produced :
      {ins outs : List A} {r s : SocketQueue A} (sp : A)
      → Run q ins outs r
      → produce_socket sp r ≡ returns true s
      → Run q (ins ++ sp ∷ []) outs s
  produce_waits :
      {ins outs : List A} {r s : SocketQueue A} (sp : A)
      → Run q ins outs r
      → produce_socket sp r ≡ waits s
      → Run q ins outs s
  given_up :
      {ins outs : List A} {r s : SocketQueue A} (sp : A)
      → Run q ins outs r
      → produce_socket sp r ≡ returns false s
      → Run q ins outs s
  -- A waiting producer leaves its wait, and then goes on as from the call.
  woken :
      {ins outs : List A} {r : SocketQueue A}
      → Run q ins outs r
      → Run q ins outs (record r { sq_blocked = false })
  -- A worker enters `consume_socket` and is counted as idle.
  idle :
      {ins outs : List A} {r : SocketQueue A}
      → Run q ins outs r
      → Run q ins outs (record r { idle_worker_thread_count = r.idle_worker_thread_count + 1 })
  consumed :
      {ins outs : List A} {r s : SocketQueue A} (sp : A) (go : Bool)
      → Run q ins outs r
      → consume_resumed r ≡ returns (some sp, go) s
      → Run q ins (outs ++ sp ∷ []) s
  consume_waits :
      {ins outs : List A} {r s : SocketQueue A}
      → Run q ins outs r
      → consume_resumed r ≡ waits s
      → Run q ins outs s
  consumed_none :
      {ins outs : List A} {r s : SocketQueue A} (go : Bool)
      → Run q ins outs r
      → consume_resumed r ≡ returns (none, go) s
      → Run q ins outs s
  stopped :
      {ins outs : List A} {r : SocketQueue A}
      → Run q ins outs r
      → Run q ins outs (record r { stop_flag = true })

module _ {ℓ} {A : Type ℓ} {q : SocketQueue A} (v : IsValid q) where
  record Keeps (ins outs : List A) (r : SocketQueue A) : Type ℓ where
    valid : IsValid r
    kept : outs ++ contents r ≡ contents q ++ ins

  Keeps-same :
      {ins outs : List A} {r s : SocketQueue A}
      → Keeps ins outs r
      → IsValid s
      → contents s ≡ contents r
      → Keeps ins outs s
  Keeps-same {outs} k w e = record { valid = w; kept = ap (λ l. outs ++ l) e ∙ k.kept }

  Run-Keeps : {ins outs : List A} {r : SocketQueue A} → Run q ins outs r → Keeps ins outs r
  Run-Keeps start = record { valid = v; kept = sym (append-nil (contents q)) }
  Run-Keeps (produced {ins} {outs} {r} {s} sp run e) =
      let k = Run-Keeps run in
      let p = subst (Produces sp r) e (produce_socket-Produces sp r k.valid) in
      record {
        valid = p.0;
        kept =
            ap (λ l. outs ++ l) p.1
            ∙ sym (append_assoc outs (contents r) (sp ∷ []))
            ∙ ap (λ l. l ++ sp ∷ []) k.kept
            ∙ append_assoc (contents q) ins (sp ∷ []);
      }
  Run-Keeps (produce_waits {r = r} sp run e) =
      let k = Run-Keeps run in
      let p = subst (Produces sp r) e (produce_socket-Produces sp r k.valid) in Keeps-same k p.0 p.1
  Run-Keeps (given_up {r = r} sp run e) =
      let k = Run-Keeps run in
      let p = subst (Produces sp r) e (produce_socket-Produces sp r k.valid) in Keeps-same k p.0 p.1
  Run-Keeps (woken {r = r} run) =
      let k = Run-Keeps run in
      Keeps-same k (IsValid-blocked false k.valid) (contents-blocked r false)
  Run-Keeps (idle {r = r} run) =
      let k = Run-Keeps run in Keeps-same k (IsValid-idle _ k.valid) (contents-idle r _)
  Run-Keeps (consumed {ins} {outs} {r} {s} sp go run e) =
      let k = Run-Keeps run in
      let p = subst (Consumes r) e (consume_resumed-Consumes r k.valid) in
      record {
        valid = p.0;
        kept = append_assoc outs (sp ∷ []) (contents s) ∙ ap (λ l. outs ++ l) (sym p.1) ∙ k.kept;
      }
  Run-Keeps (consume_waits {r = r} run e) =
      let k = Run-Keeps run in
      let p = subst (Consumes r) e (consume_resumed-Consumes r k.valid) in
      Keeps-same k p.0 (p.1 ∙ sym p.2)
  Run-Keeps (consumed_none {r = r} go run e) =
      let k = Run-Keeps run in
      let p = subst (Consumes r) e (consume_resumed-Consumes r k.valid) in
      Keeps-same k p.0 (p.1 ∙ sym p.2)
  Run-Keeps (stopped {r = r} run) =
      let k = Run-Keeps run in Keeps-same k (IsValid-stop true k.valid) (contents-stop r true)

  -- From a valid queue, whatever the order of the steps, the sockets handed to workers, followed by those that wait,
  -- are those that waited at first followed by those that were queued since, in order: none is
  -- lost, doubled or overtaken, and the queue stays valid.
  pub Run-fifo :
      {ins outs : List A} {r : SocketQueue A}
      → Run q ins outs r
      → IsValid r × (outs ++ contents r ≡ contents q ++ ins)
  Run-fifo run = let k = Run-Keeps run in (k.valid, k.kept)
