-- ===== src/Sort/Keeps.antt =====
-- mg_sort of src/sort.inl keeps the elements.
use civetweb.Base.{All, All-of, Bool, List, Option, [], arith, get_elem?, get_elem?-set_ne}
use civetweb.Base.{get_or, if_split, if◌then◌else◌, leb, length, length-set, ltb, ltb→lt, none}
use civetweb.Base.{refl, set, some, suc, sym, zero, ℕ, ◌&&◌, ◌+◌, ◌-◌, ◌/◌, ◌<◌, ◌∙◌, ◌∷◌, ◌≡◌}
use civetweb.Base.{◌≢◌, ◌≤◌}
use civetweb.Sort.{sift_loop, sift_at, stride_loop, offset_loop, gap_loop, mg_sort, gaps}

-- How many elements pass a test.
unfoldable pub count_of : {A : Type 0} → (A → Bool) → List A → ℕ
count_of p [] = 0
count_of p (x ∷ xs) = (if p x then 1 else 0) + count_of p xs

-- Two lists with the same elements, each as often.
abbrev pub Same : {A : Type 0} → List A → List A → Type 0
Same {A} xs ys = (length xs ≡ length ys) × ((p : A → Bool) → count_of p xs ≡ count_of p ys)

apart : (k j : ℕ) → j < k → k ≢ j
apart k j l = λ e. omega arith

module _ {A : Type 0} where
  Same-trans : (xs ys zs : List A) → Same xs ys → Same ys zs → Same xs zs
  Same-trans xs ys zs (a, b) (c, d) = (a ∙ c, λ p. b p ∙ d p)

  count_of-set :
      (p : A → Bool) (xs : List A) (i : ℕ) (v w : A)
      → get_elem? xs i ≡ some w
      → count_of p (set xs i v) + (if p w then 1 else 0) ≡ count_of p xs + (if p v then 1 else 0)
  unfolding count_of
  count_of-set p [] i v w e = cc
  count_of-set p (x ∷ xs) zero v w e = let same : x ≡ w = cc in rw same (omega arith)
  count_of-set p (x ∷ xs) (suc i) v w e = omega (arith, count_of-set p xs i v w e)

  get_or-some :
      (xs : List A) (i : ℕ) (d : A) → i < length xs → get_elem? xs i ≡ some (get_or xs i d)
  get_or-some [] i d h = absurd (omega arith)
  get_or-some (x ∷ xs) zero d h = refl
  get_or-some (x ∷ xs) (suc i) d h = get_or-some xs i d (omega arith)

module _ {A : Type 0} where
  -- One element moved up.
  move-Same :
      (data_ : List A) (tmp : A) (k j : ℕ)
      → k < length data_
      → j < k
      → Same (set (set data_ k (get_or data_ j tmp)) j tmp) (set data_ k tmp)
  move-Same data_ tmp k j h l =
      let cmp = get_or data_ j tmp in
      let next = set data_ k cmp in
      let at_j : get_elem? next j ≡ some cmp =
        get_elem?-set_ne data_ cmp (apart k j l) ∙ get_or-some data_ j tmp (omega arith) in
      let at_k = get_or-some data_ k tmp h in
      (
        length-set next j tmp ∙ length-set data_ k cmp ∙ sym (length-set data_ k tmp),
        λ p. omega (
          arith,
          count_of-set p data_ k cmp (get_or data_ k tmp) at_k,
          count_of-set p next j tmp cmp at_j,
          count_of-set p data_ k tmp (get_or data_ k tmp) at_k,
        ),
      )

module _ {A : Type 0} (greater : A → A → Bool) where
  -- With the element at `k` taken out to `tmp`.
  sift_loop-Same :
      (fuel gap : ℕ) (data_ : List A) (tmp : A) (k : ℕ)
      → 0 < gap
      → k < length data_
      → Same (sift_loop greater fuel gap data_ tmp k) (set data_ k tmp)
  unfolding sift_loop
  sift_loop-Same zero gap data_ tmp k g h = (refl, λ p. refl)
  sift_loop-Same (suc fuel) gap data_ tmp k g h =
      let cmp = get_or data_ (k - gap) tmp in
      if_split (λ r. Same r (set data_ k tmp)) (leb gap k && greater cmp tmp) _ _
        (λ e.
          let low : gap ≤ k = ground arith in
          let next = set data_ k cmp in
          Same-trans _ (set next (k - gap) tmp) _
            (sift_loop-Same fuel gap next tmp (k - gap) g (omega (arith, length-set data_ k cmp)))
            (move-Same data_ tmp k (k - gap) h (omega arith)))
        (λ e. (refl, λ p. refl))

  sift_at-Same :
      (gap : ℕ) (data_ : List A) (j : ℕ) (o : Option A)
      → 0 < gap
      → j < length data_
      → get_elem? data_ j ≡ o
      → Same (sift_at greater gap data_ j o) data_
  sift_at-Same gap data_ j none g h e = (refl, λ p. refl)
  sift_at-Same gap data_ j (some tmp) g h e =
      Same-trans _ (set data_ j tmp) _ (sift_loop-Same j gap data_ tmp j g h)
        (length-set data_ j tmp, λ p. omega (arith, count_of-set p data_ j tmp tmp e))

  stride_loop-Same :
      (fuel gap : ℕ) (data_ : List A) (j : ℕ)
      → 0 < gap
      → Same (stride_loop greater fuel gap data_ j) data_
  unfolding stride_loop
  stride_loop-Same zero gap data_ j g = (refl, λ p. refl)
  stride_loop-Same (suc fuel) gap data_ j g =
      if_split (λ r. Same r data_) (ltb j (length data_)) _ _
        (λ e.
          let next = sift_at greater gap data_ j (get_elem? data_ j) in
          Same-trans _ next _ (stride_loop-Same fuel gap next (j + gap) g)
            (sift_at-Same gap data_ j (get_elem? data_ j) g (ltb→lt j (length data_) e) refl))
        (λ e. (refl, λ p. refl))

  offset_loop-Same :
      (n gap : ℕ) (data_ : List A) (i : ℕ)
      → 0 < gap
      → Same (offset_loop greater n gap data_ i) data_
  unfolding offset_loop
  offset_loop-Same zero gap data_ i g = (refl, λ p. refl)
  offset_loop-Same (suc n) gap data_ i g =
      let next = stride_loop greater (length data_) gap data_ i in
      Same-trans _ next _ (offset_loop-Same n gap next (i + 1) g)
        (stride_loop-Same (length data_) gap data_ i g)

  gap_loop-Same :
      (gs : List ℕ) (data_ : List A)
      → All (λ gap. 0 < gap) gs
      → Same (gap_loop greater gs data_) data_
  unfolding gap_loop
  gap_loop-Same [] data_ g = (refl, λ p. refl)
  gap_loop-Same (gap ∷ gs) data_ g =
      if_split (λ r. Same r data_) (ltb (length data_ / 2) gap) _ _
        (λ e. gap_loop-Same gs data_ g.1)
        (λ e.
          let next = offset_loop greater gap gap data_ 0 in
          Same-trans _ next _ (gap_loop-Same gs next g.1) (offset_loop-Same gap gap data_ 0 g.0))

  -- Whatever the comparison answers, `mg_sort` keeps the number of elements, and of those that pass
  -- any test there are as many as before.
  pub mg_sort-Same : (data_ : List A) → Same (mg_sort greater data_) data_
  unfolding mg_sort
  mg_sort-Same data_ =
      gap_loop-Same gaps data_
        (All-of (λ gap. 0 < gap) (λ gap. ltb 0 gap) (λ gap e. ltb→lt 0 gap e) gaps refl)
