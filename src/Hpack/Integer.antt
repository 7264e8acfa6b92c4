-- ===== src/Hpack/Integer.antt =====
-- Integers of HPACK: hpack_getnum of src/http2.inl against the encoding of RFC 7541, section 5.1.
use civetweb.Base.{==_iff, Bool, Bytes, [], ap, ap₂, arith, bit_and, false, get_or, holds_up_to}
use civetweb.Base.{holds_up_to-true, if_split, if◌then◌else◌, leb, length, ltb, not, refl, some}
use civetweb.Base.{subst, suc, true, zero, ℕ, ◌%◌, ◌*◌, ◌++◌, ◌+◌, ◌-◌, ◌/◌, ◌<◌, ◌==◌, ◌^◌, ◌∙◌}
use civetweb.Base.{◌∷◌, ◌≡◌, ◌≤◌}
use native.Mathlib.Nat.{pow-succ', mod-eq_of_lt, add-mul-mod_self_left, one-le-pow}
use civetweb.Hpack.{getnum_loop, hpack_getnum}

-- Groups of seven bits, the lowest first; all but the last have the highest bit of their byte set.
unfoldable pub groups : ℕ → ℕ → Bytes
groups zero v = v ∷ []
groups (suc more) v =
    let longer = (v % 128 + 128) ∷ groups more (v / 128) in if ltb v 128 then v ∷ [] else longer

-- The integer `v` behind a prefix of `bits` bits, in a byte whose other bits are `flags`.
unfoldable pub encoded_integer : ℕ → ℕ → ℕ → Bytes
encoded_integer bits flags v =
    let mask = 2 ^ bits - 1 in
    if ltb v mask
    then (flags * 2 ^ bits + v) ∷ []
    else (flags * 2 ^ bits + mask) ∷ groups 4 (v - mask)

low_bits : (bits b : ℕ) → bits < 9 → b < 256 → bit_and b (2 ^ bits - 1) ≡ b % 2 ^ bits
unfolding holds_up_to
low_bits bits b p q =
    let row =
      holds_up_to-true 9 (λ n. holds_up_to 256 (λ c. bit_and c (2 ^ n - 1) == c % 2 ^ n)) bits refl
        p in
    (==_iff _ _).0 (holds_up_to-true 256 (λ c. bit_and c (2 ^ bits - 1) == c % 2 ^ bits) b row q)

abbrev same_bit : ℕ → Bool
same_bit b = if bit_and b 0x80 == 0x80 then leb 128 b else not (leb 128 b)

high_bit : (b : ℕ) → b < 256 → (bit_and b 0x80 == 0x80) ≡ leb 128 b
unfolding holds_up_to
high_bit b q = test_same _ _ (holds_up_to-true 256 (λ c. same_bit c) b refl q)
  where
    test_same : (p q : Bool) → (if p then q else not q) ≡ true → p ≡ q
    test_same p q e = ground arith

-- The last group.
last_group :
    (r : ℕ) (buf : Bytes) (i num m v : ℕ)
    → get_or buf (i + 1) 0 ≡ v
    → v < 128
    → v * 2 ^ m < 2 ^ 31
    → getnum_loop (suc r) buf i num m ≡ some (num + v * 2 ^ m, i + 2)
unfolding getnum_loop
last_group r buf i num m v e small fits =
    let low : bit_and v 0x7f ≡ v = omega (arith, low_bits 7 v (omega arith) (omega arith)) in
    let high : (bit_and v 0x80 == 0x80) ≡ false = high_bit v (omega arith) ∙ ground arith in
    let room : leb (2 ^ 31) (v * 2 ^ m) ≡ false = ground arith in rw (e, low, high, room) refl

-- A group behind which there is another one.
inner_group :
    (r : ℕ) (buf : Bytes) (i num m a : ℕ)
    → get_or buf (i + 1) 0 ≡ a + 128
    → a < 128
    → a * 2 ^ m < 2 ^ 31
    → getnum_loop (suc r) buf i num m ≡ getnum_loop r buf (i + 1) (num + a * 2 ^ m) (m + 7)
unfolding getnum_loop
inner_group r buf i num m a e small fits =
    let low : bit_and (a + 128) 0x7f ≡ a =
      omega (arith, low_bits 7 (a + 128) (omega arith) (omega arith)) in
    let high : (bit_and (a + 128) 0x80 == 0x80) ≡ true =
      high_bit (a + 128) (omega arith) ∙ ground arith in
    let room : leb (2 ^ 31) (a * 2 ^ m) ≡ false = ground arith in rw (e, low, high, room) refl

parts_of : (a d p : ℕ) → a * p + d * (128 * p) ≡ (d * 128 + a) * p
parts_of a d p = omega arith

pow_seven : (m : ℕ) → 2 ^ (m + 7) ≡ 128 * 2 ^ m
pow_seven m =
    ap (λ k. 2 ^ k) (seven_more m)
    ∙ omega (
      arith,
      pow-succ' 2 m,
      pow-succ' 2 (suc m),
      pow-succ' 2 (suc (suc m)),
      pow-succ' 2 (suc (suc (suc m))),
      pow-succ' 2 (suc (suc (suc (suc m)))),
      pow-succ' 2 (suc (suc (suc (suc (suc m))))),
      pow-succ' 2 (suc (suc (suc (suc (suc (suc m)))))),
    )
  where
    seven_more : (m : ℕ) → m + 7 ≡ suc (suc (suc (suc (suc (suc (suc m))))))
    seven_more m = omega arith

abbrev Reads : Bytes → ℕ → Bytes → Type 0
Reads buf i s = (k n : ℕ) → n ≡ i + k → get_or buf n 0 ≡ get_or s k 0

getnum_loop-groups :
    (r : ℕ) (buf : Bytes) (i num m v : ℕ) (after : Bytes)
    → m + 7 * r ≡ 28
    → v * 2 ^ m < 2 ^ 31
    → Reads buf (i + 1) (groups r v ++ after)
    → getnum_loop (suc r) buf i num m ≡ some (num + v * 2 ^ m, i + 1 + length (groups r v))
unfolding groups
getnum_loop-groups zero buf i num m v after e fits reads =
    let last : m ≡ 28 = omega arith in
    let few : v * 2 ^ 28 < 2 ^ 31 = subst (λ k. v * 2 ^ k < 2 ^ 31) last fits in
    last_group 0 buf i num m v (reads 0 (i + 1) (omega arith)) (omega arith) fits
    ∙ ap (λ n. some (num + v * 2 ^ m, n)) (omega arith)
getnum_loop-groups (suc r) buf i num m v after e fits given =
    if_split
      (λ s.
        Reads buf (i + 1) (s ++ after)
        → getnum_loop (suc (suc r)) buf i num m ≡ some (num + v * 2 ^ m, i + 1 + length s))
      (ltb v 128) _ _
      (λ q reads.
        last_group (suc r) buf i num m v (reads 0 (i + 1) (omega arith)) (ground arith) fits
        ∙ ap (λ n. some (num + v * 2 ^ m, n)) (omega arith))
      (λ q reads.
        let a = v % 128 in
        let d = v / 128 in
        let whole : a * 2 ^ m + d * 2 ^ (m + 7) ≡ v * 2 ^ m =
          ap (λ p. a * 2 ^ m + d * p) (pow_seven m)
          ∙ parts_of a d (2 ^ m)
          ∙ ap (λ n. n * 2 ^ m) (omega arith) in
        inner_group (suc r) buf i num m a (reads 0 (i + 1) (omega arith)) (omega arith)
          (omega (arith, whole, fits))
        ∙ getnum_loop-groups r buf (i + 1) (num + a * 2 ^ m) (m + 7) d after (omega arith)
            (omega (arith, whole, fits)) (λ k n f. reads (suc k) n (omega arith))
        ∙ ap₂ (λ x y. some (x, y)) (omega (arith, whole)) (omega arith))
      given

get_or-append :
    (xs ys : Bytes) (k n : ℕ) → n ≡ length xs + k → get_or (xs ++ ys) n 0 ≡ get_or ys k 0
get_or-append [] ys k n e = ap (λ i. get_or ys i 0) (omega arith)
get_or-append (x ∷ xs) ys k zero e = absurd (omega arith)
get_or-append (x ∷ xs) ys k (suc n) e = get_or-append xs ys k n (omega arith)

prefix_bits :
    (bits flags v b : ℕ)
    → bits < 9
    → flags * 2 ^ bits + 2 ^ bits ≤ 256
    → v < 2 ^ bits
    → b ≡ flags * 2 ^ bits + v
    → bit_and b (2 ^ bits - 1) ≡ v
prefix_bits bits flags v b small fits l e =
    low_bits bits b small (omega (arith, e))
    ∙ ap (λ n. n % 2 ^ bits) (omega (arith, e))
    ∙ add-mul-mod_self_left v (2 ^ bits) flags
    ∙ mod-eq_of_lt l

-- An integer below 2^31 in the encoding of RFC 7541, behind any bytes and in front of any bytes, with
-- any flags in front of its prefix: hpack_getnum, with the mask of the prefix, reads the integer and
-- ends behind its last byte.
pub hpack_getnum-encoded_integer :
    (bits flags v : ℕ) (before after : Bytes)
    → bits < 9
    → flags * 2 ^ bits + 2 ^ bits ≤ 256
    → v < 2 ^ 31
    → hpack_getnum
        (before ++ (encoded_integer bits flags v ++ after))
        (length before)
        (2 ^ bits - 1)
      ≡ some (v, length before + length (encoded_integer bits flags v))
unfolding hpack_getnum encoded_integer
hpack_getnum-encoded_integer bits flags v before after small fits l =
    let positive = one-le-pow bits 2 (omega arith) in
    let mask = 2 ^ bits - 1 in
    if_split
      (λ s.
        hpack_getnum (before ++ (s ++ after)) (length before) mask
        ≡ some (v, length before + length s))
      (ltb v mask) _ _
      (λ e.
        let first =
          get_or-append before ((flags * 2 ^ bits + v) ∷ after) 0 (length before) (omega arith) in
        let num = prefix_bits bits flags v _ small fits (ground arith) first in
        let apart : (v == mask) ≡ false = ground arith in rw (num, apart) refl)
      (λ e.
        let first =
          get_or-append before ((flags * 2 ^ bits + mask) ∷ groups 4 (v - mask) ++ after) 0
            (length before) (omega arith) in
        let num = prefix_bits bits flags mask _ small fits (omega arith) first in
        let same : (mask == mask) ≡ true = ground arith in
        rw (num, same)
          (getnum_loop-groups 4 _ (length before) mask 0 (v - mask) after (omega arith)
              (omega arith)
              (λ k n f.
                get_or-append before ((flags * 2 ^ bits + mask) ∷ groups 4 (v - mask) ++ after)
                  (suc k) n (omega arith))
            ∙ ap₂ (λ x y. some (x, y)) (ground arith) (omega arith)))
