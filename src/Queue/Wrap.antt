-- ===== src/Queue/Wrap.antt =====
-- Indices modulo the size of the queue of src/civetweb.c, and its wrapping of the pointers.
use civetweb.Base.{Bool, Bool-cases, List, [], ap, ap₂, arith, inl, inr, length, ltb, ltb→lt}
use civetweb.Base.{refl, suc, zero, ℕ, ◌%◌, ◌++◌, ◌+◌, ◌-◌, ◌<◌, ◌∙◌, ◌∷◌, ◌≡◌, ◌≢◌, ◌≤◌}
use native.Mathlib.Nat.{div-add-mod}
use civetweb.Queue.{SocketQueue, store, wrap_pointers, IsValid}

-- The sockets in `n` slots from index `t` on.
pub slots {ℓ} : {A : Type ℓ} → (ℕ → A) → ℕ → ℕ → ℕ → List A
slots squeue m t zero = []
slots squeue m t (suc n) = squeue (t % m) ∷ slots squeue m (t + 1) n

-- The waiting sockets, the oldest first.
pub contents {ℓ} : {A : Type ℓ} → SocketQueue A → List A
contents q = slots q.squeue q.sq_size q.sq_tail (q.sq_head - q.sq_tail)

-- Two indices less than the size apart fall into different slots.
mod-ne : (m t h : ℕ) → 0 < m → t < h → h < t + m → t % m ≢ h % m
mod-ne m t h p q r e = grind (arith, div-add-mod t m, div-add-mod h m)

sub_size-mod : (m t : ℕ) → 0 < m → m ≤ t → (t - m) % m ≡ t % m
sub_size-mod m t p q = grind arith

module _ {ℓ} {A : Type ℓ} where
  slots-sub_size : (f : ℕ → A) (m n t : ℕ) → 0 < m → m ≤ t → slots f m (t - m) n ≡ slots f m t n
  unfolding slots
  slots-sub_size f m zero t p q = refl
  slots-sub_size f m (suc n) t p q =
      let e : t - m + 1 ≡ t + 1 - m = omega arith in
      ap₂ (λ (a : ℕ) b. f a ∷ b) (sub_size-mod m t p q)
        (rw e (slots-sub_size f m n (t + 1) p (omega arith)))

  store_self : (f : ℕ → A) (k : ℕ) (sp : A) → store f k sp k ≡ sp
  unfolding store
  store_self f k sp = ground arith

  store_ne : (f : ℕ → A) (k i : ℕ) (sp : A) → i ≢ k → store f k sp i ≡ f i
  unfolding store
  store_ne f k i sp ne = ground arith

  -- Writing the slot behind the last one appends to the sockets.
  slots-store :
      (f : ℕ → A) (m n t h : ℕ) (sp : A)
      → t + n ≡ h
      → n < m
      → slots (store f (h % m) sp) m t (suc n) ≡ slots f m t n ++ sp ∷ []
  unfolding slots
  slots-store f m zero t h sp e lt =
      let e' : t ≡ h = omega arith in rw e' (ap (λ a. a ∷ []) (store_self f (h % m) sp))
  slots-store f m (suc n) t h sp e lt =
      ap₂ ◌∷◌
        (store_ne f (h % m) (t % m) sp (mod-ne m t h (omega arith) (omega arith) (omega arith)))
        (slots-store f m n (t + 1) h sp (omega arith) (omega arith))

  slots-suc_left :
      (f : ℕ → A) (m t h : ℕ)
      → t < h
      → slots f m t (h - t) ≡ f (t % m) ∷ slots f m (t + 1) (h - (t + 1))
  slots-suc_left f m t h lt =
      let e : h - t ≡ suc (h - (t + 1)) = omega arith in rw e (unfold slots in refl)

  contents-sub_size :
      (q : SocketQueue A)
      → 0 < q.sq_size
      → q.sq_size ≤ q.sq_tail
      → contents (record q { sq_tail = q.sq_tail - q.sq_size; sq_head = q.sq_head - q.sq_size })
        ≡ contents q
  unfolding contents
  contents-sub_size q p le =
      let e : q.sq_head - q.sq_size - (q.sq_tail - q.sq_size) ≡ q.sq_head - q.sq_tail =
        omega arith in
      rw e (slots-sub_size q.squeue q.sq_size _ q.sq_tail p le)

  -- What wrapping keeps, and that the tail ends up within the size.
  pub record IsWrapped (q r : SocketQueue A) : Type ℓ where
    pub valid : IsValid r
    pub same_contents : contents r ≡ contents q
    pub same_size : r.sq_size ≡ q.sq_size
    pub same_stop : r.stop_flag ≡ q.stop_flag
    pub same_blocked : r.sq_blocked ≡ q.sq_blocked

  pub wrap_pointers-IsWrapped :
      (fuel : ℕ) (q : SocketQueue A)
      → 0 < q.sq_size
      → q.sq_tail ≤ q.sq_head
      → q.sq_head ≤ q.sq_tail + q.sq_size
      → q.sq_tail ≤ fuel
      → IsWrapped q (wrap_pointers fuel q)
  unfolding wrap_pointers
  wrap_pointers-IsWrapped zero q p o f lt = record {
    valid = record { size_pos = p; ordered = o; fits = f; wrapped = omega arith };
    same_contents = refl;
    same_size = refl;
    same_stop = refl;
    same_blocked = refl;
  }
  wrap_pointers-IsWrapped (suc fuel) q p o f lt = elim (Bool-cases (ltb q.sq_size q.sq_tail)) [
    | inl e ↦
        let big : q.sq_size < q.sq_tail = ltb→lt _ _ e in
        let q' : SocketQueue A = record q {
          sq_tail = q.sq_tail - q.sq_size;
          sq_head = q.sq_head - q.sq_size;
        } in
        let ih = wrap_pointers-IsWrapped fuel q' p (omega arith) (omega arith) (omega arith) in
        rw (e, wrap_pointers)
          (record {
            valid = ih.valid;
            same_contents = ih.same_contents ∙ contents-sub_size q p (omega arith);
            same_size = ih.same_size;
            same_stop = ih.same_stop;
            same_blocked = ih.same_blocked;
          })
    | inr e ↦
        rw (e, wrap_pointers)
          (record {
            valid = record { size_pos = p; ordered = o; fits = f; wrapped = ground arith };
            same_contents = refl;
            same_size = refl;
            same_stop = refl;
            same_blocked = refl;
          })
  ]

  pub length-slots : (f : ℕ → A) (m t n : ℕ) → length (slots f m t n) ≡ n
  unfolding slots
  length-slots f m t zero = refl
  length-slots f m t (suc n) = ap suc (length-slots f m (t + 1) n)

  pub length-contents : (q : SocketQueue A) → length (contents q) ≡ q.sq_head - q.sq_tail
  unfolding contents
  length-contents q = length-slots q.squeue q.sq_size q.sq_tail (q.sq_head - q.sq_tail)

  pub contents-store :
      (sp : A) (q : SocketQueue A)
      → IsValid q
      → q.sq_head - q.sq_tail < q.sq_size
      → contents
          (record q { squeue = store q.squeue (q.sq_head % q.sq_size) sp; sq_head = q.sq_head + 1 })
        ≡ contents q ++ sp ∷ []
  unfolding contents
  contents-store sp q v lt =
      let e : q.sq_head + 1 - q.sq_tail ≡ suc (q.sq_head - q.sq_tail) = omega arith in
      let sum : q.sq_tail + (q.sq_head - q.sq_tail) ≡ q.sq_head = omega arith in
      rw e (slots-store q.squeue q.sq_size (q.sq_head - q.sq_tail) q.sq_tail q.sq_head sp sum lt)

  pub contents-next :
      (q : SocketQueue A)
      → q.sq_tail < q.sq_head
      → contents q
        ≡ q.squeue (q.sq_tail % q.sq_size) ∷ contents (record q { sq_tail = q.sq_tail + 1 })
  unfolding contents
  contents-next q lt = slots-suc_left q.squeue q.sq_size q.sq_tail q.sq_head lt

  -- The other fields are no part of the list.
  pub contents-blocked :
      (q : SocketQueue A) (b : Bool) → contents (record q { sq_blocked = b }) ≡ contents q
  unfolding contents
  contents-blocked q b = refl

  pub contents-idle :
      (q : SocketQueue A) (n : ℕ)
      → contents (record q { idle_worker_thread_count = n }) ≡ contents q
  unfolding contents
  contents-idle q n = refl

  pub contents-stop :
      (q : SocketQueue A) (b : Bool) → contents (record q { stop_flag = b }) ≡ contents q
  unfolding contents
  contents-stop q b = refl

  pub IsValid-idle :
      {q : SocketQueue A} (n : ℕ) → IsValid q → IsValid (record q { idle_worker_thread_count = n })
  IsValid-idle n v = record {
    size_pos = v.size_pos;
    ordered = v.ordered;
    fits = v.fits;
    wrapped = v.wrapped;
  }

  pub IsValid-blocked :
      {q : SocketQueue A} (b : Bool) → IsValid q → IsValid (record q { sq_blocked = b })
  IsValid-blocked b v = record {
    size_pos = v.size_pos;
    ordered = v.ordered;
    fits = v.fits;
    wrapped = v.wrapped;
  }

  pub IsValid-stop :
      {q : SocketQueue A} (b : Bool) → IsValid q → IsValid (record q { stop_flag = b })
  IsValid-stop b v = record {
    size_pos = v.size_pos;
    ordered = v.ordered;
    fits = v.fits;
    wrapped = v.wrapped;
  }
