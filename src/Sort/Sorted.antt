-- ===== src/Sort/Sorted.antt =====
-- mg_sort of src/sort.inl sorts: the last gap is 1, for which the passes insert one element after the
-- other.
use civetweb.Base.{Bool, List, [], ap, append_assoc, ap₂, arith, false, get_elem?, get_or}
use civetweb.Base.{if_split, if◌then◌else◌, leb, length, ltb, refl, set, some, subst, suc, sym}
use civetweb.Base.{true, zero, ℕ, ◌++◌, ◌+◌, ◌-◌, ◌/◌, ◌<◌, ◌∙◌, ◌∷◌, ◌≡◌, ◌≤◌}
use civetweb.Sort.{sift_loop, stride_loop, offset_loop, gap_loop, mg_sort}
use civetweb.Sort.Keeps.{Same, mg_sort-Same}

-- A reversed list in front of another.
rev_onto : {A : Type 0} → List A → List A → List A
rev_onto [] ys = ys
rev_onto (x ∷ xs) ys = rev_onto xs (x ∷ ys)

module _ {A : Type 0} where
  rev_onto-append : (r ys : List A) → rev_onto r ys ≡ rev_onto r [] ++ ys
  unfolding rev_onto
  rev_onto-append [] ys = refl
  rev_onto-append (x ∷ r) ys =
      rev_onto-append r (x ∷ ys)
      ∙ sym (append_assoc (rev_onto r []) (x ∷ []) ys)
      ∙ ap (λ l. l ++ ys) (sym (rev_onto-append r (x ∷ [])))

  length-rev_onto : (r ys : List A) → length (rev_onto r ys) ≡ length r + length ys
  unfolding rev_onto
  length-rev_onto [] ys = omega arith
  length-rev_onto (x ∷ r) ys = omega (arith, length-rev_onto r (x ∷ ys))

  set-append :
      (xs : List A) (c v : A) (ys : List A) → set (xs ++ (c ∷ ys)) (length xs) v ≡ xs ++ (v ∷ ys)
  set-append [] c v ys = refl
  set-append (x ∷ xs) c v ys = ap (λ l. x ∷ l) (set-append xs c v ys)

  get-append : (xs : List A) (c : A) (ys : List A) → get_elem? (xs ++ (c ∷ ys)) (length xs) ≡ some c
  get-append [] c ys = refl
  get-append (x ∷ xs) c ys = get-append xs c ys

  or-append :
      (xs : List A) (c : A) (ys : List A) (d : A) → get_or (xs ++ (c ∷ ys)) (length xs) d ≡ c
  or-append [] c ys d = refl
  or-append (x ∷ xs) c ys d = or-append xs c ys d

  same_place : (r : List A) → length r ≡ length (rev_onto r [])
  same_place r = omega (arith, length-rev_onto r [])

  set-rev_onto :
      (r : List A) (c v : A) (ys : List A)
      → set (rev_onto r (c ∷ ys)) (length r) v ≡ rev_onto r (v ∷ ys)
  set-rev_onto r c v ys =
      ap₂ (λ l i. set l i v) (rev_onto-append r (c ∷ ys)) (same_place r)
      ∙ set-append (rev_onto r []) c v ys
      ∙ sym (rev_onto-append r (v ∷ ys))

  get-rev_onto :
      (r : List A) (c : A) (ys : List A) → get_elem? (rev_onto r (c ∷ ys)) (length r) ≡ some c
  get-rev_onto r c ys =
      ap₂ (λ l i. get_elem? l i) (rev_onto-append r (c ∷ ys)) (same_place r)
      ∙ get-append (rev_onto r []) c ys

  or-rev_onto :
      (r : List A) (c : A) (ys : List A) (d : A) → get_or (rev_onto r (c ∷ ys)) (length r) d ≡ c
  or-rev_onto r c ys d =
      ap₂ (λ l i. get_or l i d) (rev_onto-append r (c ∷ ys)) (same_place r)
      ∙ or-append (rev_onto r []) c ys d

plus_one : (k : ℕ) → suc k ≡ k + 1
plus_one k = omega arith

at_end : (j n : ℕ) → n ≡ j → ltb j n ≡ false
at_end j n e = ground arith

before_end : (j n : ℕ) → j < n → ltb j n ≡ true
before_end j n e = ground arith

longer : (a b : ℕ) → a ≡ b + 1 → suc a ≡ suc b + 1
longer a b e = omega arith

one_less : (k : ℕ) → suc k - 1 ≡ k
one_less k = omega arith

one_fits : (k : ℕ) → leb 1 (suc k) ≡ true
one_fits k = ground arith

module _ {A : Type 0} (greater : A → A → Bool) where
  -- Insertion from the end of the reversed list.
  insert_into : A → List A → List A
  insert_into tmp [] = tmp ∷ []
  insert_into tmp (c ∷ r) =
      let deeper = c ∷ insert_into tmp r in if greater c tmp then deeper else tmp ∷ c ∷ r

  length-insert_into : (tmp : A) (r : List A) → length (insert_into tmp r) ≡ length r + 1
  unfolding insert_into
  length-insert_into tmp [] = omega arith
  length-insert_into tmp (c ∷ r) =
      if_split (λ (l : List A). length l ≡ length (c ∷ r) + 1) (greater c tmp) _ _
        (λ e. longer (length (insert_into tmp r)) (length r) (length-insert_into tmp r))
        (λ e. plus_one (suc (length r)))

  sift_loop-inserts :
      (r : List A) (y : A) (post : List A) (tmp : A)
      → sift_loop greater (length r) 1 (rev_onto r (y ∷ post)) tmp (length r)
        ≡ rev_onto (insert_into tmp r) post
  unfolding sift_loop insert_into rev_onto
  sift_loop-inserts [] y post tmp = refl
  sift_loop-inserts (c ∷ r) y post tmp =
      rw (one_less (length r), or-rev_onto r c (y ∷ post) tmp, one_fits (length r))
        (if_split (λ l. l ≡ rev_onto (insert_into tmp (c ∷ r)) post) (greater c tmp) _ _
          (λ e. rw e (
            ap (λ l. sift_loop greater (length r) 1 l tmp (length r))
              (set-rev_onto (c ∷ r) y c post)
            ∙ sift_loop-inserts r c (c ∷ post) tmp))
          (λ e. rw e (set-rev_onto (c ∷ r) y tmp post)))

  insert_all : List A → List A → List A
  insert_all [] r = r
  insert_all (y ∷ ys) r = insert_all ys (insert_into y r)

  stride_loop-inserts :
      (fuel : ℕ) (r ys : List A)
      → length ys ≤ fuel
      → stride_loop greater fuel 1 (rev_onto r ys) (length r) ≡ rev_onto (insert_all ys r) []
  unfolding stride_loop insert_all
  stride_loop-inserts zero r [] h = refl
  stride_loop-inserts zero r (y ∷ ys) h = absurd (omega arith)
  stride_loop-inserts (suc fuel) r [] h =
      rw (at_end (length r) (length (rev_onto r [])) (omega (arith, length-rev_onto r []))) refl
  stride_loop-inserts (suc fuel) r (y ∷ ys) h =
      rw
        (
          before_end (length r) (length (rev_onto r (y ∷ ys)))
              (omega (arith, length-rev_onto r (y ∷ ys))),
          get-rev_onto r y ys,
        )
        (ap₂ (λ l i. stride_loop greater fuel 1 l i) (sift_loop-inserts r y ys y)
            (sym (length-insert_into y r))
          ∙ stride_loop-inserts fuel (insert_into y r) ys (omega arith))

  -- No element is greater than the next one.
  abbrev Above : A → List A → Type 0
  Above c [] = Unit
  Above c (x ∷ l) = greater c x ≡ false

  abbrev pub IsSorted : List A → Type 0
  IsSorted [] = Unit
  IsSorted (c ∷ l) = Above c l × IsSorted l

  abbrev Below : A → List A → Type 0
  Below c [] = Unit
  Below c (x ∷ l) = greater x c ≡ false

  abbrev IsDesc : List A → Type 0
  IsDesc [] = Unit
  IsDesc (c ∷ l) = Below c l × IsDesc l

  abbrev Joins : List A → List A → Type 0
  Joins [] l = Unit
  Joins (c ∷ r) l = Above c l

  Joins-cons : (c : A) (r l : List A) → Below c r → Joins r (c ∷ l)
  Joins-cons c [] l b = tt
  Joins-cons c (d ∷ r) l b = b

  rev_onto-IsSorted : (r l : List A) → IsDesc r → IsSorted l → Joins r l → IsSorted (rev_onto r l)
  unfolding rev_onto
  rev_onto-IsSorted [] l d s j = s
  rev_onto-IsSorted (c ∷ r) l d s j = rev_onto-IsSorted r (c ∷ l) d.1 (j, s) (Joins-cons c r l d.0)

  Joins-nil : (r : List A) → Joins r []
  Joins-nil [] = tt
  Joins-nil (c ∷ r) = tt

  -- A comparison that does not find each of two elements greater than the other.
  module _ (asymmetric : (x y : A) → greater x y ≡ true → greater y x ≡ false) where
    Below-insert_into :
        (c tmp : A) (r : List A) → Below c r → greater tmp c ≡ false → Below c (insert_into tmp r)
    unfolding insert_into
    Below-insert_into c tmp [] b e = e
    Below-insert_into c tmp (d ∷ r) b e = if_split (Below c) (greater d tmp) _ _ (λ f. b) (λ f. e)

    insert_into-IsDesc : (tmp : A) (r : List A) → IsDesc r → IsDesc (insert_into tmp r)
    unfolding insert_into
    insert_into-IsDesc tmp [] d = (tt, tt)
    insert_into-IsDesc tmp (c ∷ r) d =
        if_split IsDesc (greater c tmp) _ _
          (λ e. (Below-insert_into c tmp r d.0 (asymmetric c tmp e), insert_into-IsDesc tmp r d.1))
          (λ e. (e, d))

    insert_all-IsDesc : (ys r : List A) → IsDesc r → IsDesc (insert_all ys r)
    unfolding insert_all
    insert_all-IsDesc [] r d = d
    insert_all-IsDesc (y ∷ ys) r d =
        insert_all-IsDesc ys (insert_into y r) (insert_into-IsDesc y r d)

    last_pass-IsSorted : (data_ : List A) → IsSorted (offset_loop greater 1 1 data_ 0)
    unfolding offset_loop rev_onto
    last_pass-IsSorted data_ =
        subst IsSorted (sym (stride_loop-inserts (length data_) [] data_ (omega arith))) (
          rev_onto-IsSorted (insert_all data_ []) [] (insert_all-IsDesc data_ [] tt) tt
            (Joins-nil (insert_all data_ [])))

    short-IsSorted : (data_ : List A) → ltb (length data_ / 2) 1 ≡ true → IsSorted data_
    short-IsSorted [] e = tt
    short-IsSorted (x ∷ []) e = (tt, tt)
    short-IsSorted (x ∷ y ∷ l) e = absurd (ground arith)

    gap_loop-IsSorted :
        (gs : List ℕ) (data_ : List A) → IsSorted (gap_loop greater (gs ++ (1 ∷ [])) data_)
    unfolding gap_loop
    gap_loop-IsSorted [] data_ =
        if_split IsSorted (ltb (length data_ / 2) 1) _ _ (λ e. short-IsSorted data_ e)
          (λ e. last_pass-IsSorted data_)
    gap_loop-IsSorted (g ∷ gs) data_ =
        if_split IsSorted (ltb (length data_ / 2) g) _ _ (λ e. gap_loop-IsSorted gs data_)
          (λ e. gap_loop-IsSorted gs (offset_loop greater g g data_ 0))

    -- When the comparison does not find each of two elements greater than the other, no element of the
    -- result of `mg_sort` is greater than the next one; the result has as many elements as the array,
    -- and as many of them pass any test.
    pub mg_sort-IsSorted :
        (data_ : List A) → IsSorted (mg_sort greater data_) × Same (mg_sort greater data_) data_
    unfolding mg_sort
    mg_sort-IsSorted data_ = (
      gap_loop-IsSorted (1750 ∷ 701 ∷ 301 ∷ 132 ∷ 57 ∷ 23 ∷ 10 ∷ 4 ∷ []) data_,
      mg_sort-Same greater data_,
    )
