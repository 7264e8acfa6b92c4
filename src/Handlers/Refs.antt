-- ===== src/Handlers/Refs.antt =====
-- The counters of the request handlers in src/civetweb.c.
use civetweb.Base.{Bool, Bool-cases, Bytes, List, Option, [], arith, false, if_split}
use civetweb.Base.{if◌then◌else◌, inl, inr, ltb, none, refl, some, subst, sym, true, ℕ, ◌&&◌}
use civetweb.Base.{◌∙◌, ◌∷◌, ◌≡◌}
use civetweb.Handlers.{
  HandlerType, request_handler, same_type, Callbacks, HandlerInfo, assign, new_handler, is_key,
  is_used, Attempt, waits, done, behind, replace, set_attempt,
}
use civetweb.Handlers.Lookup.{lookup, IsUnique, lookup-head, lookup-tail, one_key, is_key_iff}

pub none≢some : {A : Type 0} (a : A) → Path (Option A) none (some a) → ⊥
none≢some a e = cc

zero_of : {n : ℕ} → (true && ltb 0 n) ≡ false → n ≡ 0
zero_of {n} e = ground arith

module _ {F D : Type 0} where
  -- The counter of the request handler for a URI.
  pub refs : Bytes → List (HandlerInfo F D) → ℕ
  refs u [] = 0
  refs u (h ∷ hs) =
      let later = refs u hs in if is_key request_handler u h then h.refcount else later

pub refs-nil : (F D : Type 0) (u : Bytes) → refs {F = F} {D = D} u [] ≡ 0
unfolding refs
refs-nil F D u = refl

module _ {F D : Type 0} where
  pub refs-head :
      (u : Bytes) (h : HandlerInfo F D) (hs : List (HandlerInfo F D))
      → is_key request_handler u h ≡ true
      → refs u (h ∷ hs) ≡ h.refcount
  unfolding refs
  refs-head u h hs e = rw e refl

  pub refs-tail :
      (u : Bytes) (h : HandlerInfo F D) (hs : List (HandlerInfo F D))
      → is_key request_handler u h ≡ false
      → refs u (h ∷ hs) ≡ refs u hs
  unfolding refs
  refs-tail u h hs e = rw e refl

  pub refs-same_key :
      (u : Bytes) (g h : HandlerInfo F D) (hs : List (HandlerInfo F D))
      → g.handler_type ≡ h.handler_type
      → g.uri ≡ h.uri
      → g.refcount ≡ h.refcount
      → refs u (g ∷ hs) ≡ refs u (h ∷ hs)
  unfolding refs is_key
  refs-same_key u g h hs a b c = rw (a, b, c) refl

  pub refs-none :
      (u : Bytes) (hs : List (HandlerInfo F D)) → lookup request_handler u hs ≡ none → refs u hs ≡ 0
  unfolding refs
  refs-none u [] e = refl
  refs-none u (h ∷ hs) e = elim (Bool-cases (is_key request_handler u h)) [
    | inl f ↦ absurd (none≢some _ (sym e ∙ lookup-head request_handler u h hs f))
    | inr f ↦ refs-tail u h hs f ∙ refs-none u hs (sym (lookup-tail request_handler u h hs f) ∙ e)
  ]

  unused_zero :
      (type : HandlerType) (h : HandlerInfo F D)
      → is_used type h ≡ false
      → type ≡ request_handler
      → h.refcount ≡ 0
  unfolding same_type
  unused_zero type h e t = zero_of (subst (λ s. is_used s h ≡ false) t e)

  pub refs-cons :
      (u : Bytes) (h : HandlerInfo F D) (r hs : List (HandlerInfo F D))
      → refs u r ≡ refs u hs
      → refs u (h ∷ r) ≡ refs u (h ∷ hs)
  unfolding refs
  refs-cons u h r hs e = rw e refl

  -- An attempt leaves all counters as they are, and does not get done while the handler is in use.
  abbrev pub KeepsRefs : HandlerType → Bytes → List (HandlerInfo F D) → Attempt F D → Type 0
  KeepsRefs type uri hs (waits r) = (u : Bytes) → refs u r ≡ refs u hs
  KeepsRefs type uri hs (done r) =
      ((u : Bytes) → refs u r ≡ refs u hs) × (type ≡ request_handler → refs uri hs ≡ 0)

  refs-removed :
      (type : HandlerType) (uri : Bytes) (h : HandlerInfo F D) (hs : List (HandlerInfo F D))
      → is_key type uri h ≡ true
      → is_used type h ≡ false
      → lookup h.handler_type h.uri hs ≡ none
      → (u : Bytes) → refs u hs ≡ refs u (h ∷ hs)
  refs-removed type uri h hs k e n u = elim (Bool-cases (is_key request_handler u h)) [
    | inr f ↦ sym (refs-tail u h hs f)
    | inl f ↦
        let (a, b) = (is_key_iff request_handler u h).0 f in
        let t = (one_key request_handler u h type uri f k).0 in
        refs-none u hs
          (subst (λ s. lookup s u hs ≡ none) a (subst (λ v. lookup h.handler_type v hs ≡ none) b n))
        ∙ sym (refs-head u h hs f ∙ unused_zero type h e t)
  ]

  replace-KeepsRefs :
      (type : HandlerType) (uri : Bytes) (is_delete : Bool) (c : Callbacks F) (cbdata : D)
      → (h : HandlerInfo F D) (hs : List (HandlerInfo F D)) → is_key type uri h ≡ true
      → IsUnique (h ∷ hs)
      → KeepsRefs type uri (h ∷ hs) (replace type is_delete c cbdata h hs)
  unfolding replace
  replace-KeepsRefs type uri true c cbdata h hs k v =
      if_split (KeepsRefs type uri (h ∷ hs)) (is_used type h) _ _
        (λ e u. refs-same_key u (record h { removing = true }) h hs refl refl refl)
        (λ e. (
          refs-removed type uri h hs k e v.0,
          λ t. refs-head uri h hs (subst (λ s. is_key s uri h ≡ true) t k) ∙ unused_zero type h e t,
        ))
  replace-KeepsRefs type uri false c cbdata h hs k v =
      let g = record h { callbacks = assign type c h.callbacks; cbdata = cbdata } in
      if_split (KeepsRefs type uri (h ∷ hs)) (is_used type h) _ _ (λ e u. refl)
        (λ e. (
          (λ u. refs-same_key u g h hs refl refl refl),
          λ t. refs-head uri h hs (subst (λ s. is_key s uri h ≡ true) t k) ∙ unused_zero type h e t,
        ))

  KeepsRefs-behind :
      (type : HandlerType) (uri : Bytes) (h : HandlerInfo F D) (hs : List (HandlerInfo F D))
      → (a : Attempt F D) → is_key type uri h ≡ false
      → KeepsRefs type uri hs a
      → KeepsRefs type uri (h ∷ hs) (behind h a)
  KeepsRefs-behind type uri h hs (waits r) k same = λ u. refs-cons u h r hs (same u)
  KeepsRefs-behind type uri h hs (done r) k (same, z) = (
    (λ u. refs-cons u h r hs (same u)),
    λ t. refs-tail uri h hs (subst (λ s. is_key s uri h ≡ false) t k) ∙ z t,
  )

  pub set_attempt-KeepsRefs :
      (type : HandlerType) (uri : Bytes) (is_delete : Bool) (c : Callbacks F) (cbdata : D)
      → (hs : List (HandlerInfo F D)) → IsUnique hs
      → KeepsRefs type uri hs (set_attempt type uri is_delete c cbdata hs)
  unfolding set_attempt refs new_handler
  set_attempt-KeepsRefs type uri true c cbdata [] v = ((λ u. refl), λ t. refl)
  set_attempt-KeepsRefs type uri false c cbdata [] v = (
    (λ u.
        if_split (λ n. n ≡ 0) (is_key request_handler u (new_handler type uri c cbdata)) 0 0
          (λ e. refl) (λ e. refl)),
    λ t. refl,
  )
  set_attempt-KeepsRefs type uri is_delete c cbdata (h ∷ hs) v =
      if_split (KeepsRefs type uri (h ∷ hs)) (is_key type uri h) _ _
        (λ k. replace-KeepsRefs type uri is_delete c cbdata h hs k v)
        (λ k.
          KeepsRefs-behind type uri h hs (set_attempt type uri is_delete c cbdata hs) k
            (set_attempt-KeepsRefs type uri is_delete c cbdata hs v.1))
