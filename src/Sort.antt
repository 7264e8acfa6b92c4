-- ===== src/Sort.antt =====
-- mg_sort of src/sort.inl. The array is the list of its elements, and the copies of elements are
-- writes to it. An index is in range wherever the code reads it.
pub mod Keeps
pub mod Sorted
use civetweb.Base.{Bool, List, Option, [], get_elem?, get_or, if◌then◌else◌, leb, length, ltb}
use civetweb.Base.{none, set, some, suc, zero, ℕ, ◌&&◌, ◌+◌, ◌-◌, ◌/◌, ◌∷◌}

-- The sequence A102549, from its largest element on, as the loop takes it.
abbrev pub gaps : List ℕ
gaps = 1750 ∷ 701 ∷ 301 ∷ 132 ∷ 57 ∷ 23 ∷ 10 ∷ 4 ∷ 1 ∷ []

-- `greater` tells whether `compfunc` gives a positive number.
module _ {A : Type 0} (greater : A → A → Bool) where
  -- The loop over `k`, which falls by `gap` in each round, so that `k` rounds are enough.
  unfoldable pub sift_loop : ℕ → ℕ → List A → A → ℕ → List A
  sift_loop zero gap data_ tmp k = set data_ k tmp
  sift_loop (suc fuel) gap data_ tmp k =
      let cmp = get_or data_ (k - gap) tmp in
      let moved = sift_loop fuel gap (set data_ k cmp) tmp (k - gap) in
      if leb gap k && greater cmp tmp then moved else set data_ k tmp

  abbrev pub sift_at : ℕ → List A → ℕ → Option A → List A
  sift_at gap data_ j none = data_
  sift_at gap data_ j (some tmp) = sift_loop j gap data_ tmp j

  -- The loop over `j`, which grows by `gap` in each round, so that as many rounds as there are elements
  -- are enough. An element is found at `j` as long as `j < elemcount`.
  unfoldable pub stride_loop : ℕ → ℕ → List A → ℕ → List A
  stride_loop zero gap data_ j = data_
  stride_loop (suc fuel) gap data_ j =
      let more = stride_loop fuel gap (sift_at gap data_ j (get_elem? data_ j)) (j + gap) in
      if ltb j (length data_) then more else data_

  -- The loop over `i`, with `n` rounds left.
  unfoldable pub offset_loop : ℕ → ℕ → List A → ℕ → List A
  offset_loop zero gap data_ i = data_
  offset_loop (suc n) gap data_ i =
      offset_loop n gap (stride_loop (length data_) gap data_ i) (i + 1)

  unfoldable pub gap_loop : List ℕ → List A → List A
  gap_loop [] data_ = data_
  gap_loop (gap ∷ rest) data_ =
      let skipped = gap_loop rest data_ in
      let sorted = gap_loop rest (offset_loop gap gap data_ 0) in
      if ltb (length data_ / 2) gap then skipped else sorted

  unfoldable pub mg_sort : List A → List A
  mg_sort data_ = gap_loop gaps data_
