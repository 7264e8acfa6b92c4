-- ===== src/Handlers/Steps.antt =====
-- Interleavings of changes of the table, requests and releases in src/civetweb.c: a handler that was
-- handed out stays until it is given back.
use civetweb.Base.{All, Bool, Bool-cases, Bytes, List, Option, [], ap, arith, false, if_split}
use civetweb.Base.{if◌then◌else◌, inl, inr, refl, some, subst, sym, true, ℕ, ◌++◌, ◌+◌, ◌<◌, ◌∙◌}
use civetweb.Base.{◌∷◌, ◌≡◌, ◌≢◌, ◌≤◌}
use civetweb.Ctype.{str_eq, str_eq_iff}
use civetweb.Handlers.{
  HandlerType, request_handler, Callbacks, HandlerInfo, Attempt, waits, done, set_attempt,
  are_valid, mg_set_handler_type, hits, get_request_handler, release_handler_ref,
}
use civetweb.Handlers.Lookup.{relevant, lookup, IsUnique, entry, Sets, set_attempt-Sets, true≢false}
use civetweb.Handlers.Refs.{refs, refs-nil, KeepsRefs, set_attempt-KeepsRefs}
use civetweb.Handlers.Handout.{
  HandsOut, Answer, get_request_handler-Answer, release_handler_ref-same,
  release_handler_ref-IsUnique, release_handler_ref-refs,
}

-- A handler that a worker holds: its URI, and the pointers with their argument that it was given.
abbrev pub Held : Type 0 → Type 0 → Type 0
Held F D = Bytes × (List (Option F) × D)

module _ {F D : Type 0} where
  abbrev pub held_of : HandlerInfo F D → Held F D
  held_of x = (x.uri, (relevant request_handler x.callbacks, x.cbdata))

-- `Run hs held`: from an empty table on, changes of the table, requests and releases lead to the
-- table `hs` while the handlers `held` are with workers.
pub data Run (F D : Type 0) : List (HandlerInfo F D) → List (Held F D) → Type 0 where
  start : Run F D [] []
  changed :
      {hs r : List (HandlerInfo F D)} {held : List (Held F D)}
      → (type : HandlerType) (uri : Bytes) (is_delete : Bool) (c : Callbacks F) (cbdata : D)
      → Run F D hs held
      → mg_set_handler_type type uri is_delete c cbdata hs ≡ done r
      → Run F D r held
  postponed :
      {hs r : List (HandlerInfo F D)} {held : List (Held F D)}
      → (type : HandlerType) (uri : Bytes) (is_delete : Bool) (c : Callbacks F) (cbdata : D)
      → Run F D hs held
      → mg_set_handler_type type uri is_delete c cbdata hs ≡ waits r
      → Run F D r held
  handed_out :
      {hs r : List (HandlerInfo F D)} {held : List (Held F D)} {x : HandlerInfo F D}
      → (uri : Bytes) → Run F D hs held
      → get_request_handler request_handler uri hs ≡ hits x r
      → Run F D r (held_of x ∷ held)
  released :
      {hs : List (HandlerInfo F D)} {held : List (Held F D)}
      → (first last : List (Held F D)) (x : Held F D) → Run F D hs held
      → held ≡ first ++ x ∷ last
      → Run F D (release_handler_ref x.0 hs) (first ++ last)

module _ {F D : Type 0} where
  pub count : Bytes → List (Held F D) → ℕ
  count u [] = 0
  count u (x ∷ held) = (if str_eq x.0 u then 1 else 0) + count u held

  -- Each counter is the number of workers that hold the handler, and what they hold is in the table.
  pub record IsSound (hs : List (HandlerInfo F D)) (held : List (Held F D)) : Type 0 where
    pub unique : IsUnique hs
    pub counted : (u : Bytes) → refs u hs ≡ count u held
    pub present : All (λ (x : Held F D). lookup request_handler x.0 hs ≡ some x.1) held

All-zip :
    {A : Type 0} {P Q R : A → Type 0} (xs : List A)
    → ((x : A) → P x → Q x → R x)
    → All P xs
    → All Q xs
    → All R xs
All-zip [] f p q = tt
All-zip (x ∷ xs) f p q = (f x p.0 q.0, All-zip xs f p.1 q.1)

drop_one :
    {A : Type 0} (P : A → Type 0) (first last : List A) (x : A)
    → All P (first ++ x ∷ last)
    → All P (first ++ last)
drop_one P [] last x p = p.1
drop_one P (y ∷ first) last x p = (p.0, drop_one P first last x p.1)

positive : (n : ℕ) → 0 < n → n ≡ 0 → ⊥
positive n h e = omega arith

str_eq_self : (s : Bytes) → str_eq s s ≡ true
str_eq_self s = (str_eq_iff s s).1 refl

str_eq-other : (s t : Bytes) → s ≢ t → str_eq s t ≡ false
str_eq-other s t n = elim (Bool-cases (str_eq s t)) [
  | inl e ↦ absurd (n ((str_eq_iff s t).0 e))
  | inr e ↦ e
]

module _ {F D : Type 0} where
  count_self : (x : Held F D) (held : List (Held F D)) → count x.0 (x ∷ held) ≡ count x.0 held + 1
  unfolding count
  count_self x held = rw (str_eq_self x.0) (omega arith)

  count-other :
      (x : Held F D) (held : List (Held F D)) (u : Bytes)
      → u ≢ x.0
      → count u (x ∷ held) ≡ count u held
  unfolding count
  count-other x held u n = rw (str_eq-other x.0 u (λ e. n (sym e))) (omega arith)

  count-append :
      (u : Bytes) (xs ys : List (Held F D)) → count u (xs ++ ys) ≡ count u xs + count u ys
  unfolding count
  count-append u [] ys = omega arith
  count-append u (x ∷ xs) ys = omega (arith, count-append u xs ys)

  count-cons :
      (u : Bytes) (x : Held F D) (held : List (Held F D)) → count u held ≤ count u (x ∷ held)
  unfolding count
  count-cons u x held = omega arith

  All-held :
      (all held : List (Held F D))
      → ((u : Bytes) → count u held ≤ count u all)
      → All (λ (x : Held F D). 0 < count x.0 all) held
  All-held all [] h = tt
  All-held all (x ∷ held) h = (
    omega (arith, h x.0, count_self x held),
    All-held all held (λ u. omega (arith, h u, count-cons u x held)),
  )

  abbrev After : List (Held F D) → Attempt F D → Type 0
  After held (waits r) = IsSound r held
  After held (done r) = IsSound r held

  attempt-After :
      (type : HandlerType) (uri : Bytes) (e : Option (List (Option F) × D))
      → (hs : List (HandlerInfo F D)) (held : List (Held F D)) (a : Attempt F D) → IsSound hs held
      → Sets type uri e hs a
      → KeepsRefs type uri hs a
      → After held a
  attempt-After type uri e hs held (waits r) s (same, v) k = record {
    unique = v;
    counted = λ u. k u ∙ s.counted u;
    present = All-zip held (λ x p q. same request_handler x.0 ∙ p) s.present s.present;
  }
  attempt-After type uri e hs held (done r) s (new, same, v) (k, z) = record {
    unique = v;
    counted = λ u. k u ∙ s.counted u;
    present =
        All-zip held
          (λ x p q. elim (same request_handler x.0) [
            | inl t ↦
                absurd (positive _ q (sym (s.counted x.0) ∙ ap (λ u. refs u hs) t.1 ∙ z (sym t.0)))
            | inr f ↦ f ∙ p
          ])
          s.present (All-held held held (λ u. omega arith));
  }

  set-After :
      (type : HandlerType) (uri : Bytes) (is_delete : Bool) (c : Callbacks F) (cbdata : D)
      → (hs : List (HandlerInfo F D)) (held : List (Held F D)) → IsSound hs held
      → After held (mg_set_handler_type type uri is_delete c cbdata hs)
  unfolding mg_set_handler_type
  set-After type uri is_delete c cbdata hs held s =
      if_split (After held) (are_valid type is_delete c) _ _
        (λ e.
          attempt-After type uri (entry type is_delete c cbdata) hs held
            (set_attempt type uri is_delete c cbdata hs) s
            (set_attempt-Sets type uri is_delete c cbdata hs s.unique)
            (set_attempt-KeepsRefs type uri is_delete c cbdata hs s.unique))
        (λ e. s)

  handed_out-IsSound :
      (hs r : List (HandlerInfo F D)) (held : List (Held F D)) (x : HandlerInfo F D)
      → IsSound hs held
      → HandsOut hs x r
      → IsSound r (held_of x ∷ held)
  handed_out-IsSound hs r held x s w = record {
    unique = w.unique;
    counted = λ u. elim (Bool-cases (str_eq x.uri u)) [
      | inl e ↦
          subst (λ v. refs v r ≡ count v (held_of x ∷ held)) ((str_eq_iff x.uri u).0 e)
            (w.counted ∙ ap (λ n. n + 1) (s.counted x.uri) ∙ sym (count_self (held_of x) held))
      | inr e ↦
          let n : u ≢ x.uri = λ p. true≢false (sym ((str_eq_iff x.uri u).1 (sym p)) ∙ e) in
          elim (w.others u) [
            | inl p ↦ absurd (n p)
            | inr p ↦ p ∙ s.counted u ∙ sym (count-other (held_of x) held u n)
          ]
    ];
    present = (
      w.stays request_handler x.uri ∙ w.found,
      All-zip held (λ y p q. w.stays request_handler y.0 ∙ p) s.present s.present,
    );
  }

  count-middle :
      (first last : List (Held F D)) (x : Held F D) (u : Bytes)
      → count u (first ++ x ∷ last) ≡ count u (x ∷ first ++ last)
  unfolding count
  count-middle first last x u =
      omega (arith, count-append u first (x ∷ last), count-append u first last)

  released-IsSound :
      (hs : List (HandlerInfo F D)) (first last : List (Held F D)) (x : Held F D)
      → IsSound hs (first ++ x ∷ last)
      → IsSound (release_handler_ref x.0 hs) (first ++ last)
  released-IsSound hs first last x s =
      let (own, others) = release_handler_ref-refs x.0 hs in
      record {
        unique = release_handler_ref-IsUnique x.0 hs s.unique;
        counted = λ u. elim (Bool-cases (str_eq x.0 u)) [
          | inl e ↦
              subst (λ v. refs v (release_handler_ref x.0 hs) ≡ count v (first ++ last))
                ((str_eq_iff x.0 u).0 e)
                (omega (
                  arith,
                  own,
                  s.counted x.0,
                  count-middle first last x x.0,
                  count_self x (first ++ last),
                ))
          | inr e ↦
              let n : u ≢ x.0 = λ p. true≢false (sym ((str_eq_iff x.0 u).1 (sym p)) ∙ e) in
              others u n
              ∙ s.counted u
              ∙ count-middle first last x u
              ∙ count-other x (first ++ last) u n
        ];
        present =
            All-zip (first ++ last)
              (λ y p q. release_handler_ref-same x.0 hs request_handler y.0 ∙ p)
              (drop_one _ first last x s.present) (drop_one _ first last x s.present);
      }

-- When, from an empty table on, handlers are set and removed, requests take handlers and give them
-- back, in any order, then at each point the table has no type and URI twice; the counter of each
-- request handler is the number of requests that hold it; and what a request holds is still in the
-- table, with the pointers and the argument that were handed out.
pub Run-IsSound :
    {F D : Type 0} (hs : List (HandlerInfo F D)) (held : List (Held F D))
    → Run F D hs held
    → IsSound hs held
unfolding count
Run-IsSound {F} {D} _ _ start = record { unique = tt; counted = λ u. refs-nil F D u; present = tt }
Run-IsSound r held (changed {hs} type uri is_delete c cbdata run e) =
    subst (After held) e (set-After type uri is_delete c cbdata hs held (Run-IsSound hs held run))
Run-IsSound r held (postponed {hs} type uri is_delete c cbdata run e) =
    subst (After held) e (set-After type uri is_delete c cbdata hs held (Run-IsSound hs held run))
Run-IsSound _ _ (handed_out {hs} {r} {held} {x} uri run e) =
    let s = Run-IsSound hs held run in
    handed_out-IsSound hs r held x s
      (subst (Answer hs) e (get_request_handler-Answer uri hs s.unique))
Run-IsSound _ _ (released {hs} {held} first last x run e) =
    released-IsSound hs first last x (subst (IsSound hs) e (Run-IsSound hs held run))
