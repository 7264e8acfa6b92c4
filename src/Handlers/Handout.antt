-- ===== src/Handlers/Handout.antt =====
-- get_request_handler and release_handler_ref of src/civetweb.c and the counters.
use civetweb.Base.{Bool, Bool-cases, Bytes, List, [], ap, false, if_split, inl, inr, none, refl}
use civetweb.Base.{some, subst, sym, true, ◌&&◌, ◌+◌, ◌-◌, ◌∙◌, ◌∷◌, ◌≡◌, ◌≢◌, ◌⊎◌}
use civetweb.Handlers.{
  HandlerType, request_handler, same_type, HandlerInfo, is_key, Search, passes, refuses, hits,
  onward, take_handler, search_pass, or_else, get_request_handler, release_handler_ref,
  matches_exactly, matches_partly, matches_pattern,
}
use civetweb.Handlers.Lookup.{
  same_type_iff, relevant, lookup, lookup-cons, IsUnique, lookup-head, lookup-tail, one_key,
  lookup-same_key, is_key_iff, and_true,
}
use civetweb.Handlers.Refs.{refs-nil, refs, refs-head, refs-tail, refs-cons, none≢some}

module _ {F D : Type 0} where
  -- What is handed out for a request: the pointers of a node of the table that is not being removed,
  -- whose counter goes up by one; the other counters and the entries stay.
  pub record HandsOut (hs : List (HandlerInfo F D)) (x : HandlerInfo F D)
      (r : List (HandlerInfo F D)) : Type 0 where
    pub stays : (t : HandlerType) (u : Bytes) → lookup t u r ≡ lookup t u hs
    pub unique : IsUnique r
    pub is_request : x.handler_type ≡ request_handler
    pub found :
        lookup request_handler x.uri hs ≡ some (relevant request_handler x.callbacks, x.cbdata)
    pub counted : refs x.uri r ≡ refs x.uri hs + 1
    pub others : (u : Bytes) → (u ≡ x.uri) ⊎ (refs u r ≡ refs u hs)
    pub present : x.removing ≡ false

  abbrev pub Answer : List (HandlerInfo F D) → Search F D → Type 0
  Answer hs passes = Unit
  Answer hs refuses = Unit
  Answer hs (hits x r) = HandsOut hs x r

  other_key :
      (u : Bytes) (h g : HandlerInfo F D)
      → g.handler_type ≡ h.handler_type
      → g.uri ≡ h.uri
      → is_key request_handler u h ≡ false
      → is_key request_handler u g ≡ false
  unfolding is_key
  other_key u h g a b e = rw (a, b) e

  same_key :
      (u : Bytes) (h g : HandlerInfo F D)
      → g.handler_type ≡ h.handler_type
      → g.uri ≡ h.uri
      → is_key request_handler u h ≡ true
      → is_key request_handler u g ≡ true
  unfolding is_key
  same_key u h g a b e = rw (a, b) e

  take_handler-Answer :
      (h : HandlerInfo F D) (hs : List (HandlerInfo F D))
      → h.handler_type ≡ request_handler
      → IsUnique (h ∷ hs)
      → Answer (h ∷ hs) (take_handler request_handler h hs)
  unfolding take_handler same_type
  take_handler-Answer h hs t v =
      let g = record h { refcount = h.refcount + 1 } in
      let key : is_key request_handler h.uri h ≡ true =
        (is_key_iff request_handler h.uri h).1 (t, refl) in
      let key_g : is_key request_handler h.uri g ≡ true =
        (is_key_iff request_handler h.uri g).1 (t, refl) in
      if_split (Answer (h ∷ hs)) h.removing _ _ (λ e. tt)
        (λ e. record {
          stays = λ s u. lookup-same_key s u g h hs refl refl refl refl;
          unique = v;
          is_request = t;
          found = lookup-head request_handler h.uri h hs key;
          counted = refs-head h.uri g hs key_g ∙ ap (λ n. n + 1) (sym (refs-head h.uri h hs key));
          others = λ u. elim (Bool-cases (is_key request_handler u h)) [
            | inl f ↦ inl (one_key request_handler h.uri h request_handler u key f).1
            | inr f ↦
                inr (refs-tail u g hs (other_key u h g refl refl f) ∙ sym (refs-tail u h hs f))
          ];
          present = e;
        })

  onward-Answer :
      (g : HandlerInfo F D) (hs : List (HandlerInfo F D)) (a : Search F D)
      → lookup g.handler_type g.uri hs ≡ none
      → Answer hs a
      → Answer (g ∷ hs) (onward g a)
  onward-Answer g hs passes n w = tt
  onward-Answer g hs refuses n w = tt
  onward-Answer g hs (hits x r) n w =
      let k : is_key request_handler x.uri g ≡ false =
        elim (Bool-cases (is_key request_handler x.uri g)) [
          | inl f ↦
              let (a, b) = (is_key_iff request_handler x.uri g).0 f in
              absurd (
                none≢some _ (
                  sym (
                    subst (λ s. lookup s x.uri hs ≡ none) a
                      (subst (λ v. lookup g.handler_type v hs ≡ none) b n))
                  ∙ w.found))
          | inr f ↦ f
        ] in
      record {
        stays = λ t u. lookup-cons t u g r hs (w.stays t u);
        unique = (w.stays g.handler_type g.uri ∙ n, w.unique);
        is_request = w.is_request;
        found = lookup-tail request_handler x.uri g hs k ∙ w.found;
        counted =
            refs-tail x.uri g r k ∙ w.counted ∙ ap (λ n. n + 1) (sym (refs-tail x.uri g hs k));
        others = λ u. elim (w.others u) [ inl e ↦ inl e | inr e ↦ inr (refs-cons u g r hs e) ];
        present = w.present;
      }

  search_pass-Answer :
      (matched : HandlerInfo F D → Bool) (hs : List (HandlerInfo F D))
      → IsUnique hs
      → Answer hs (search_pass request_handler matched hs)
  unfolding search_pass
  search_pass-Answer matched [] v = tt
  search_pass-Answer matched (h ∷ hs) v =
      if_split (Answer (h ∷ hs)) (same_type h.handler_type request_handler && matched h) _ _
        (λ e.
          take_handler-Answer h hs
            ((same_type_iff h.handler_type request_handler).0 (and_true _ _ e).0) v)
        (λ e.
          onward-Answer h hs (search_pass request_handler matched hs) v.0
            (search_pass-Answer matched hs v.1))

  or_else-Answer :
      (hs : List (HandlerInfo F D)) (a b : Search F D)
      → Answer hs a
      → Answer hs b
      → Answer hs (or_else a b)
  or_else-Answer hs passes b v w = w
  or_else-Answer hs refuses b v w = tt
  or_else-Answer hs (hits x r) b v w = v

  -- What the search for a request handler hands out, from a table with no type and URI twice.
  pub get_request_handler-Answer :
      (uri : Bytes) (hs : List (HandlerInfo F D))
      → IsUnique hs
      → Answer hs (get_request_handler request_handler uri hs)
  unfolding get_request_handler
  get_request_handler-Answer uri hs v =
      or_else-Answer hs _ _ (search_pass-Answer (matches_exactly uri) hs v) (
        or_else-Answer hs _ _ (search_pass-Answer (matches_partly uri) hs v)
          (search_pass-Answer (matches_pattern uri) hs v))

  pub release_handler_ref-same :
      (uri : Bytes) (hs : List (HandlerInfo F D)) (t : HandlerType) (u : Bytes)
      → lookup t u (release_handler_ref uri hs) ≡ lookup t u hs
  unfolding release_handler_ref
  release_handler_ref-same uri [] t u = refl
  release_handler_ref-same uri (h ∷ hs) t u =
      if_split (λ r. lookup t u r ≡ lookup t u (h ∷ hs)) (is_key request_handler uri h) _ _
        (λ e. lookup-same_key t u (record h { refcount = h.refcount - 1 }) h hs refl refl refl refl)
        (λ e.
          lookup-cons t u h (release_handler_ref uri hs) hs (release_handler_ref-same uri hs t u))

  pub release_handler_ref-IsUnique :
      (uri : Bytes) (hs : List (HandlerInfo F D))
      → IsUnique hs
      → IsUnique (release_handler_ref uri hs)
  unfolding release_handler_ref
  release_handler_ref-IsUnique uri [] v = tt
  release_handler_ref-IsUnique uri (h ∷ hs) v =
      if_split IsUnique (is_key request_handler uri h) _ _ (λ e. v)
        (λ e. (
          release_handler_ref-same uri hs h.handler_type h.uri ∙ v.0,
          release_handler_ref-IsUnique uri hs v.1,
        ))

  pub release_handler_ref-refs :
      (uri : Bytes) (hs : List (HandlerInfo F D))
      → (refs uri (release_handler_ref uri hs) ≡ refs uri hs - 1)
        × ((u : Bytes) → u ≢ uri → refs u (release_handler_ref uri hs) ≡ refs u hs)
  unfolding release_handler_ref
  release_handler_ref-refs uri [] =
      let z = refs-nil F D uri in (z ∙ ap (λ n. n - 1) (sym z), λ u n. refl)
  release_handler_ref-refs uri (h ∷ hs) =
      let g = record h { refcount = h.refcount - 1 } in
      let r = release_handler_ref uri hs in
      let ih = release_handler_ref-refs uri hs in
      if_split
        (λ (l : List (HandlerInfo F D)).
          (refs uri l ≡ refs uri (h ∷ hs) - 1)
          × ((u : Bytes) → u ≢ uri → refs u l ≡ refs u (h ∷ hs)))
        (is_key request_handler uri h) _ _
        (λ e. (
          refs-head uri g hs (same_key uri h g refl refl e)
              ∙ ap (λ n. n - 1) (sym (refs-head uri h hs e)),
          λ u n. elim (Bool-cases (is_key request_handler u h)) [
            | inl f ↦ absurd (n (one_key request_handler uri h request_handler u e f).1)
            | inr f ↦ refs-tail u g hs (other_key u h g refl refl f) ∙ sym (refs-tail u h hs f)
          ],
        ))
        (λ e. (
          refs-tail uri h r e ∙ ih.0 ∙ ap (λ n. n - 1) (sym (refs-tail uri h hs e)),
          λ u n. refs-cons u h r hs (ih.1 u n),
        ))
