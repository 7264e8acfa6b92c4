-- ===== src/Websocket/Mask.antt =====
-- Masking in src/civetweb.c: the loop over words does what the loop over bytes does, and masking
-- twice gives the data back.
use civetweb.Base.{==_iff, All, Bool, Bytes, [], holds_up_to, holds_up_to-true, ap₂, arith, bit_xor}
use civetweb.Base.{if_split, inl, inr, length, ltb, refl, true, ℕ, ◌%◌, ◌&&◌, ◌+◌, ◌<◌, ◌==◌}
use civetweb.Base.{◌∷◌, ◌≡◌, ◌⊎◌}
use civetweb.Websocket.{Key, key_bytes, key_byte, mask_bytes, mask_words, mask_data}

xor_table : holds_up_to 256 (λ x. holds_up_to 256 (λ k. bit_xor (bit_xor x k) k == x)) ≡ true
unfolding holds_up_to
xor_table = refl

bit_xor_twice : (x k : ℕ) → x < 256 → k < 256 → bit_xor (bit_xor x k) k ≡ x
bit_xor_twice x k h l = (==_iff _ x).0 (
    holds_up_to-true 256 (λ j. bit_xor (bit_xor x j) j == x) k
      (holds_up_to-true 256 (λ y. holds_up_to 256 (λ j. bit_xor (bit_xor y j) j == y)) x xor_table
        h)
      l)

abbrev pub IsKey : Key → Type 0
IsKey k = All (λ c. c < 256) (key_bytes k)

mod4-cases : (i : ℕ) → (i % 4 ≡ 0) ⊎ ((i % 4 ≡ 1) ⊎ ((i % 4 ≡ 2) ⊎ (i % 4 ≡ 3)))
mod4-cases i = omega arith

key_byte-lt : (k : Key) (i : ℕ) → IsKey k → key_byte k i < 256
key_byte-lt k i h = elim (mod4-cases i) [
  | inl e ↦ rw e h.0
  | inr (inl e) ↦ rw e h.1.0
  | inr (inr (inl e)) ↦ rw e h.1.1.0
  | inr (inr (inr e)) ↦ rw e h.1.1.1.0
]

pub mask_bytes_twice :
    (k : Key) (i : ℕ) (data_ : Bytes)
    → IsKey k
    → All (λ c. c < 256) data_
    → mask_bytes k i (mask_bytes k i data_) ≡ data_
unfolding mask_bytes
mask_bytes_twice k i [] h d = refl
mask_bytes_twice k i (x ∷ data_) h d =
    ap₂ ◌∷◌ (bit_xor_twice x (key_byte k i) d.0 (key_byte-lt k i h))
      (mask_bytes_twice k (i + 1) data_ h d.1)

-- The four steps of the loop over bytes from an index that is a multiple of 4.
mask_bytes-word :
    (k : Key) (i a b c d : ℕ) (data_ : Bytes)
    → i % 4 ≡ 0
    → mask_bytes k i (a ∷ b ∷ c ∷ d ∷ data_)
      ≡ bit_xor a k.k0
        ∷ bit_xor b k.k1
        ∷ bit_xor c k.k2
        ∷ bit_xor d k.k3
        ∷ mask_bytes k (i + 4) data_
unfolding mask_bytes
mask_bytes-word k i a b c d data_ e =
    let e1 : (i + 1) % 4 ≡ 1 = omega arith in
    let e2 : (i + 1 + 1) % 4 ≡ 2 = omega arith in
    let e3 : (i + 1 + 1 + 1) % 4 ≡ 3 = omega arith in
    let e4 : i + 1 + 1 + 1 + 1 ≡ i + 4 = omega arith in rw (e, e1, e2, e3, e4) refl

mask_words-eq :
    (k : Key) (i : ℕ) (data_ : Bytes) → i % 4 ≡ 0 → mask_words k i data_ ≡ mask_bytes k i data_
unfolding mask_words
mask_words-eq k i [] e = refl
mask_words-eq k i (a ∷ []) e = refl
mask_words-eq k i (a ∷ b ∷ []) e = refl
mask_words-eq k i (a ∷ b ∷ c ∷ []) e = refl
mask_words-eq k i (a ∷ b ∷ c ∷ d ∷ data_) e =
    rw (mask_bytes-word k i a b c d data_ e, mask_words-eq k (i + 4) data_ (omega arith)) refl

-- Whatever the alignment of the data, the loop over words gives what the loop over bytes gives.
pub mask_data-eq-mask_bytes :
    (aligned : Bool) (data_ : Bytes) (k : Key) → mask_data aligned data_ k ≡ mask_bytes k 0 data_
unfolding mask_data
mask_data-eq-mask_bytes aligned data_ k =
    if_split (λ r. r ≡ mask_bytes k 0 data_) (ltb 3 (length data_) && aligned) _ _
      (λ e. mask_words-eq k 0 data_ refl) (λ e. refl)

-- With a key and data of bytes, masking twice gives the data back, whatever the two alignments.
pub mask_data-mask_data :
    (first second : Bool) (data_ : Bytes) (k : Key)
    → IsKey k
    → All (λ c. c < 256) data_
    → mask_data second (mask_data first data_ k) k ≡ data_
mask_data-mask_data first second data_ k h d =
    rw (mask_data-eq-mask_bytes first data_ k, mask_data-eq-mask_bytes second _ k)
      (mask_bytes_twice k 0 data_ h d)
