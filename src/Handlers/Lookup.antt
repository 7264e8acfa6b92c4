-- ===== src/Handlers/Lookup.antt =====
-- The table of handlers of src/civetweb.c as a map from types and URIs.
use civetweb.Base.{Bool, Bool-cases, Bytes, List, Option, [], ap, arith, false, if_split}
use civetweb.Base.{if◌then◌else◌, inl, inr, none, refl, some, subst, sym, true, ◌&&◌, ◌↔◌, ◌∙◌}
use civetweb.Base.{◌∷◌, ◌≡◌, ◌≢◌, ◌⊎◌}
use civetweb.Ctype.{str_eq_iff}
use civetweb.Handlers.{
  HandlerType, request_handler, websocket_handler, auth_handler, same_type, Callbacks, HandlerInfo,
  assign, nulls, new_handler, is_key, is_used, Attempt, waits, done, behind, replace, set_attempt,
}

pub same_type_iff : (s t : HandlerType) → (same_type s t ≡ true) ↔ (s ≡ t)
unfolding same_type
same_type_iff request_handler request_handler = (λ e. refl, λ e. refl)
same_type_iff request_handler websocket_handler = (λ e. cc, λ e. cc)
same_type_iff request_handler auth_handler = (λ e. cc, λ e. cc)
same_type_iff websocket_handler request_handler = (λ e. cc, λ e. cc)
same_type_iff websocket_handler websocket_handler = (λ e. refl, λ e. refl)
same_type_iff websocket_handler auth_handler = (λ e. cc, λ e. cc)
same_type_iff auth_handler request_handler = (λ e. cc, λ e. cc)
same_type_iff auth_handler websocket_handler = (λ e. cc, λ e. cc)
same_type_iff auth_handler auth_handler = (λ e. refl, λ e. refl)

-- The pointers that are used for a type.
abbrev pub relevant : {F : Type 0} → HandlerType → Callbacks F → List (Option F)
relevant request_handler c = c.handler ∷ []
relevant websocket_handler c =
    c.subprotocols ∷ c.connect_handler ∷ c.ready_handler ∷ c.data_handler ∷ c.close_handler ∷ []
relevant auth_handler c = c.auth ∷ []

relevant-assign :
    {F : Type 0} (type : HandlerType) (new old : Callbacks F)
    → relevant type (assign type new old) ≡ relevant type new
unfolding assign
relevant-assign request_handler new old = refl
relevant-assign websocket_handler new old = refl
relevant-assign auth_handler new old = refl

pub true≢false : true ≢ false
true≢false e = cc

pub and_true : (a b : Bool) → (a && b) ≡ true → (a ≡ true) × (b ≡ true)
and_true a b h = ground arith

module _ {F D : Type 0} where
  -- What the table holds for a type and a URI.
  unfoldable pub lookup :
      HandlerType → Bytes → List (HandlerInfo F D) → Option (List (Option F) × D)
  lookup type uri [] = none
  lookup type uri (h ∷ hs) =
      let later = lookup type uri hs in
      if is_key type uri h then some (relevant type h.callbacks, h.cbdata) else later

  -- No two nodes have the same type and URI.
  abbrev pub IsUnique : List (HandlerInfo F D) → Type 0
  IsUnique [] = Unit
  IsUnique (h ∷ hs) = (lookup h.handler_type h.uri hs ≡ none) × IsUnique hs

  pub is_key_iff :
      (type : HandlerType) (uri : Bytes) (h : HandlerInfo F D)
      → (is_key type uri h ≡ true) ↔ ((h.handler_type ≡ type) × (h.uri ≡ uri))
  unfolding is_key
  is_key_iff type uri h =
      let t = same_type_iff h.handler_type type in
      let u = str_eq_iff h.uri uri in
      (λ e. let (a, b) = and_true _ _ e in (t.0 a, u.0 b), λ (a, b). rw (t.1 a, u.1 b) refl)

  -- The table as a map, behind an attempt to set or remove the entry of `type` and
  -- `uri`.
  abbrev pub Sets :
      HandlerType
      → Bytes
      → Option (List (Option F) × D)
      → List (HandlerInfo F D)
      → Attempt F D
      → Type 0
  Sets type uri entry hs (waits r) =
      ((t : HandlerType) (u : Bytes) → lookup t u r ≡ lookup t u hs) × IsUnique r
  Sets type uri entry hs (done r) =
      (lookup type uri r ≡ entry)
      × ((t : HandlerType) (u : Bytes) → (t ≡ type) × (u ≡ uri) ⊎ (lookup t u r ≡ lookup t u hs))
      × IsUnique r

  -- The entry that a call asks for.
  abbrev pub entry : HandlerType → Bool → Callbacks F → D → Option (List (Option F) × D)
  entry type is_delete c cbdata = if is_delete then none else some (relevant type c, cbdata)

  pub lookup-head :
      (t : HandlerType) (u : Bytes) (h : HandlerInfo F D) (hs : List (HandlerInfo F D))
      → is_key t u h ≡ true
      → lookup t u (h ∷ hs) ≡ some (relevant t h.callbacks, h.cbdata)
  unfolding lookup
  lookup-head t u h hs e = rw e refl

  pub lookup-tail :
      (t : HandlerType) (u : Bytes) (h : HandlerInfo F D) (hs : List (HandlerInfo F D))
      → is_key t u h ≡ false
      → lookup t u (h ∷ hs) ≡ lookup t u hs
  unfolding lookup
  lookup-tail t u h hs e = rw e refl

  pub lookup-cons :
      (t : HandlerType) (u : Bytes) (h : HandlerInfo F D) (r hs : List (HandlerInfo F D))
      → lookup t u r ≡ lookup t u hs
      → lookup t u (h ∷ r) ≡ lookup t u (h ∷ hs)
  unfolding lookup
  lookup-cons t u h r hs e = rw e refl

  pub is_key_self : (h : HandlerInfo F D) → is_key h.handler_type h.uri h ≡ true
  is_key_self h = (is_key_iff h.handler_type h.uri h).1 (refl, refl)

  pub one_key :
      (type : HandlerType) (uri : Bytes) (h : HandlerInfo F D) (t : HandlerType) (u : Bytes)
      → is_key type uri h ≡ true
      → is_key t u h ≡ true
      → (t ≡ type) × (u ≡ uri)
  one_key type uri h t u a b =
      let p = (is_key_iff type uri h).0 a in
      let q = (is_key_iff t u h).0 b in (sym q.0 ∙ p.0, sym q.1 ∙ p.1)

  -- Two lists that agree behind their first nodes, where these have one type and URI.
  head_replaced :
      (type : HandlerType) (uri : Bytes) (g h : HandlerInfo F D) (hs : List (HandlerInfo F D))
      → is_key type uri g ≡ true
      → is_key type uri h ≡ true
      → (t : HandlerType) (u : Bytes)
      → ((t ≡ type) × (u ≡ uri)) ⊎ (lookup t u (g ∷ hs) ≡ lookup t u (h ∷ hs))
  head_replaced type uri g h hs a b t u = elim (Bool-cases (is_key t u g)) [
    | inl e ↦ inl (one_key type uri g t u a e)
    | inr e ↦ elim (Bool-cases (is_key t u h)) [
      | inl f ↦ inl (one_key type uri h t u b f)
      | inr f ↦ inr (lookup-tail t u g hs e ∙ sym (lookup-tail t u h hs f))
    ]
  ]

  Sets-behind :
      (type : HandlerType) (uri : Bytes) (e : Option (List (Option F) × D))
      → (h : HandlerInfo F D) (hs : List (HandlerInfo F D)) (a : Attempt F D)
      → is_key type uri h ≡ false
      → lookup h.handler_type h.uri hs ≡ none
      → Sets type uri e hs a
      → Sets type uri e (h ∷ hs) (behind h a)
  Sets-behind type uri e h hs (waits r) k n (same, v) = (
    (λ t u. elim (Bool-cases (is_key t u h)) [
      | inl f ↦ lookup-head t u h r f ∙ sym (lookup-head t u h hs f)
      | inr f ↦ lookup-tail t u h r f ∙ same t u ∙ sym (lookup-tail t u h hs f)
    ]),
    (same h.handler_type h.uri ∙ n, v),
  )
  Sets-behind type uri e h hs (done r) k n (new, same, v) = (
    lookup-tail type uri h r k ∙ new,
    (λ t u. elim (Bool-cases (is_key t u h)) [
      | inl f ↦ inr (lookup-head t u h r f ∙ sym (lookup-head t u h hs f))
      | inr f ↦ elim (same t u) [
        | inl p ↦ inl p
        | inr q ↦ inr (lookup-tail t u h r f ∙ q ∙ sym (lookup-tail t u h hs f))
      ]
    ]),
    (
      elim (same h.handler_type h.uri) [
        | inl p ↦ absurd (true≢false (sym ((is_key_iff type uri h).1 p) ∙ k))
        | inr q ↦ q ∙ n
      ],
      v,
    ),
  )

  pub lookup-same_key :
      (t : HandlerType) (u : Bytes) (g h : HandlerInfo F D) (hs : List (HandlerInfo F D))
      → g.handler_type ≡ h.handler_type
      → g.uri ≡ h.uri
      → g.callbacks ≡ h.callbacks
      → g.cbdata ≡ h.cbdata
      → lookup t u (g ∷ hs) ≡ lookup t u (h ∷ hs)
  unfolding lookup is_key
  lookup-same_key t u g h hs a b c d = rw (a, b, c, d) refl

  -- The node that was found.
  replace-Sets :
      (type : HandlerType) (uri : Bytes) (is_delete : Bool) (c : Callbacks F) (cbdata : D)
      → (h : HandlerInfo F D) (hs : List (HandlerInfo F D)) → is_key type uri h ≡ true
      → IsUnique (h ∷ hs)
      → Sets type uri
          (entry type is_delete c cbdata)
          (h ∷ hs)
          (replace type is_delete c cbdata h hs)
  unfolding replace
  replace-Sets type uri true c cbdata h hs k v =
      let p = (is_key_iff type uri h).0 k in
      if_split (Sets type uri none (h ∷ hs)) (is_used type h) _ _
        (λ e.
          ((λ t u. lookup-same_key t u (record h { removing = true }) h hs refl refl refl refl), v))
        (λ e. (
          subst (λ t. lookup t uri hs ≡ none) p.0
              (subst (λ u. lookup h.handler_type u hs ≡ none) p.1 v.0),
          (λ t u. elim (Bool-cases (is_key t u h)) [
            | inl f ↦ inl (one_key type uri h t u k f)
            | inr f ↦ inr (sym (lookup-tail t u h hs f))
          ]),
          v.1,
        ))
  replace-Sets type uri false c cbdata h hs k v =
      let g = record h { callbacks = assign type c h.callbacks; cbdata = cbdata } in
      let kg : is_key type uri g ≡ true = (is_key_iff type uri g).1 ((is_key_iff type uri h).0 k) in
      if_split (Sets type uri (some (relevant type c, cbdata)) (h ∷ hs)) (is_used type h) _ _
        (λ e. ((λ t u. refl), v))
        (λ e. (
          lookup-head type uri g hs kg
              ∙ ap (λ l. some (l, cbdata)) (relevant-assign type c h.callbacks),
          head_replaced type uri g h hs kg k,
          v,
        ))

  new-Sets :
      (type : HandlerType) (uri : Bytes) (is_delete : Bool) (c : Callbacks F) (cbdata : D)
      → Sets type uri
          (entry type is_delete c cbdata)
          []
          (done (if is_delete then [] else new_handler type uri c cbdata ∷ []))
  unfolding new_handler lookup
  new-Sets type uri true c cbdata = (refl, (λ t u. inr refl), tt)
  new-Sets type uri false c cbdata =
      let g = new_handler type uri c cbdata in
      let k : is_key type uri g ≡ true = is_key_self g in
      (
        lookup-head type uri g [] k ∙ ap (λ l. some (l, cbdata)) (relevant-assign type c nulls),
        (λ t u. elim (Bool-cases (is_key t u g)) [
          | inl f ↦ inl (one_key type uri g t u k f)
          | inr f ↦ inr (lookup-tail t u g [] f)
        ]),
        (refl, tt),
      )

  -- From a table with no type and URI twice, an attempt either waits and leaves the table as it is,
  -- but for the mark on a handler that is to be removed, or the table then holds for the type and
  -- URI what the call asks for, or nothing when they are removed, and for all others what it held;
  -- there is still no type and URI twice.
  pub set_attempt-Sets :
      (type : HandlerType) (uri : Bytes) (is_delete : Bool) (c : Callbacks F) (cbdata : D)
      → (hs : List (HandlerInfo F D)) → IsUnique hs
      → Sets type uri
          (entry type is_delete c cbdata)
          hs
          (set_attempt type uri is_delete c cbdata hs)
  unfolding set_attempt
  set_attempt-Sets type uri is_delete c cbdata [] v = new-Sets type uri is_delete c cbdata
  set_attempt-Sets type uri is_delete c cbdata (h ∷ hs) v =
      if_split (Sets type uri (entry type is_delete c cbdata) (h ∷ hs)) (is_key type uri h) _ _
        (λ k. replace-Sets type uri is_delete c cbdata h hs k v)
        (λ k.
          Sets-behind type uri (entry type is_delete c cbdata) h hs
            (set_attempt type uri is_delete c cbdata hs) k v.0
            (set_attempt-Sets type uri is_delete c cbdata hs v.1))
