-- ===== src/Hpack/Append.antt =====
-- append_bits of src/http2.inl, bit by bit.
use civetweb.Base.{==_iff, Bool-cases, Bytes, [], ap, ap₂, arith, bit, bit-bit_or, bit-mod}
use civetweb.Base.{bit-mod_high, bit-shift_left, bit-shift_low, bit-shift_right, bit_or, false}
use civetweb.Base.{get_or, if_split, inl, inr, leb, leb→le, length, length-set, max, refl, set}
use civetweb.Base.{suc, sym, zero, ℕ, ◌%◌, ◌*◌, ◌+◌, ◌-◌, ◌/◌, ◌<◌, ◌==◌, ◌^◌, ◌∙◌, ◌∷◌, ◌≡◌}
use civetweb.Base.{◌≢◌, ◌≤◌, ◌⊎◌}
use civetweb.Hpack.{bit_at, or_byte, append_loop, append_bits}

get_or-set_self : (xs : Bytes) (i v d : ℕ) → i < length xs → get_or (set xs i v) i d ≡ v
get_or-set_self [] i v d h = absurd (omega arith)
get_or-set_self (x ∷ xs) zero v d h = refl
get_or-set_self (x ∷ xs) (suc i) v d h = get_or-set_self xs i v d (omega arith)

get_or-set_ne : (xs : Bytes) (i j v d : ℕ) → i ≢ j → get_or (set xs i v) j d ≡ get_or xs j d
get_or-set_ne [] i j v d n = refl
get_or-set_ne (x ∷ xs) zero zero v d n = absurd (n refl)
get_or-set_ne (x ∷ xs) zero (suc j) v d n = refl
get_or-set_ne (x ∷ xs) (suc i) zero v d n = refl
get_or-set_ne (x ∷ xs) (suc i) (suc j) v d n = get_or-set_ne xs i j v d (λ e. n (ap suc e))

-- The one byte that is changed.
or_byte-here :
    (t : Bytes) (o ac i : ℕ)
    → i / 8 ≡ o
    → o < length t
    → bit_at (or_byte t o ac) i ≡ max (bit_at t i) (bit ac (7 - i % 8))
unfolding bit_at or_byte
or_byte-here t o ac i e h =
    rw
      (
        e,
        get_or-set_self t o (bit_or (get_or t o 0) ac % 2 ^ 8) 0 h,
        bit-mod (bit_or (get_or t o 0) ac) 8 (7 - i % 8) (omega arith),
      )
      (bit-bit_or (get_or t o 0) ac (7 - i % 8))

or_byte-else : (t : Bytes) (o ac i : ℕ) → i / 8 ≢ o → bit_at (or_byte t o ac) i ≡ bit_at t i
unfolding bit_at or_byte
or_byte-else t o ac i n =
    ap (λ b. bit b (7 - i % 8))
      (get_or-set_ne t o (i / 8) (bit_or (get_or t o 0) ac % 2 ^ 8) 0 (λ e. n (sym e)))

length-or_byte : (t : Bytes) (o ac : ℕ) → length (or_byte t o ac) ≡ length t
unfolding or_byte
length-or_byte t o ac = length-set t o (bit_or (get_or t o 0) ac % 2 ^ 8)

-- The bits from `off` on have been joined with the lowest `n` bits of `v`, the highest of them first;
-- the others are as before.
pub record Appended (t : Bytes) (off v n : ℕ) (r : Bytes) : Type 0 where
  pub same_length : length r ≡ length t
  pub before : (i : ℕ) → i < off → bit_at r i ≡ bit_at t i
  pub behind : (i : ℕ) → off + n ≤ i → bit_at r i ≡ bit_at t i
  pub within :
      (i : ℕ) → off ≤ i → i < off + n → bit_at r i ≡ max (bit_at t i) (bit v (off + n - 1 - i))

max_zero : (a : ℕ) → max a 0 ≡ a
max_zero a = omega arith

-- The bits of what is put into a byte when the value fits it: `w` is counted from the lowest bit, and
-- the value stands `s` bits from it.
short_within : (v n s w j : ℕ) → w ≡ s + j → j < n → bit (v % 2 ^ n * 2 ^ s) w ≡ bit v j
short_within v n s w j e h =
    ap (bit (v % 2 ^ n * 2 ^ s)) e ∙ bit-shift_left (v % 2 ^ n) s j ∙ bit-mod v n j h

short_above : (v n s w j : ℕ) → w ≡ s + j → n ≤ j → bit (v % 2 ^ n * 2 ^ s) w ≡ 0
short_above v n s w j e h =
    ap (bit (v % 2 ^ n * 2 ^ s)) e ∙ bit-shift_left (v % 2 ^ n) s j ∙ bit-mod_high v n j h

-- And when it does not: its `s` lowest bits are left for later.
long_within : (v n s w j : ℕ) → j ≡ s + w → j < n → bit (v % 2 ^ n / 2 ^ s) w ≡ bit v j
long_within v n s w j e h =
    bit-shift_right (v % 2 ^ n) s w ∙ ap (bit (v % 2 ^ n)) (sym e) ∙ bit-mod v n j h

long_above : (v n s w : ℕ) → n ≤ s + w → bit (v % 2 ^ n / 2 ^ s) w ≡ 0
long_above v n s w h = bit-shift_right (v % 2 ^ n) s w ∙ bit-mod_high v n (s + w) h

same_or : (a b : ℕ) → (a ≡ b) ⊎ (a ≢ b)
same_or a b = elim (Bool-cases (a == b)) [
  | inl e ↦ inl ((==_iff a b).0 e)
  | inr e ↦ inr (λ p. apart a b e p)
]
  where
    apart : (a b : ℕ) → (a == b) ≡ false → a ≢ b
    apart a b e = λ p. ground arith

or_nothing :
    (t : Bytes) (o ac i : ℕ)
    → o < length t
    → (i / 8 ≡ o → bit ac (7 - i % 8) ≡ 0)
    → bit_at (or_byte t o ac) i ≡ bit_at t i
or_nothing t o ac i h z = elim (same_or (i / 8) o) [
  | inl e ↦ or_byte-here t o ac i e h ∙ ap (max (bit_at t i)) (z e) ∙ max_zero (bit_at t i)
  | inr n ↦ or_byte-else t o ac i n
]

lt-or-le : (a b : ℕ) → (a < b) ⊎ (b ≤ a)
lt-or-le a b = ground arith

rest_index : (off m n i : ℕ) → m ≤ n → off + m ≤ i → off + m + (n - m) - 1 - i ≡ off + n - 1 - i
rest_index off m n i h l = omega arith

short-Appended :
    (t : Bytes) (off v n : ℕ)
    → n ≤ 8 - off % 8
    → off + n ≤ 8 * length t
    → 0 < n
    → Appended t off v n (or_byte t (off / 8) (v % 2 ^ n * 2 ^ (8 - off % 8 - n)))
short-Appended t off v n short fits some_bits =
    let s = 8 - off % 8 - n in
    let o = off / 8 in
    let ac = v % 2 ^ n * 2 ^ s in
    let here : o < length t = omega arith in
    record {
      same_length = length-or_byte t o ac;
      before = λ i l.
          or_nothing t o ac i here
            (λ e. short_above v n s (7 - i % 8) (7 - i % 8 - s) (omega arith) (omega arith));
      behind = λ i l.
          or_nothing t o ac i here (λ e. bit-shift_low (v % 2 ^ n) s (7 - i % 8) (omega arith));
      within = λ i l u.
          or_byte-here t o ac i (omega arith) here
          ∙ ap (max (bit_at t i))
              (short_within v n s (7 - i % 8) (off + n - 1 - i) (omega arith) (omega arith));
    }

-- The first byte of a longer value, and the rest.
long-Appended :
    (t r : Bytes) (off v n : ℕ)
    → 8 - off % 8 < n
    → off + n ≤ 8 * length t
    → let m = 8 - off % 8 in
      Appended (or_byte t (off / 8) (v % 2 ^ n / 2 ^ (n - m))) (off + m) (v % 2 ^ n) (n - m) r
      → Appended t off v n r
long-Appended t r off v n long fits a =
    let m = 8 - off % 8 in
    let o = off / 8 in
    let ac = v % 2 ^ n / 2 ^ (n - m) in
    let here : o < length t = omega arith in
    let first = or_byte t o ac in
    record {
      same_length = a.same_length ∙ length-or_byte t o ac;
      before = λ i l.
          a.before i (omega arith)
          ∙ or_nothing t o ac i here (λ e. long_above v n (n - m) (7 - i % 8) (omega arith));
      behind =
          λ i l. a.behind i (omega arith) ∙ or_nothing t o ac i here (λ e. absurd (omega arith));
      within = λ i l u. elim (lt-or-le i (off + m)) [
        | inl now ↦
            a.before i now
            ∙ or_byte-here t o ac i (omega arith) here
            ∙ ap (max (bit_at t i))
                (long_within v n (n - m) (7 - i % 8) (off + n - 1 - i) (omega arith) (omega arith))
        | inr later ↦
            a.within i later (omega arith)
            ∙ ap₂ max (or_nothing t o ac i here (λ e. absurd (omega arith))) (
                ap (bit (v % 2 ^ n)) (rest_index off m n i (omega arith) (omega arith))
                ∙ bit-mod v n (off + n - 1 - i) (omega arith))
      ];
    }

append_loop-Appended :
    (calls : ℕ) (t : Bytes) (off v n : ℕ)
    → n ≤ calls
    → 0 < n
    → off + n ≤ 8 * length t
    → Appended t off v n (append_loop calls t off v n)
unfolding append_loop
append_loop-Appended zero t off v n h some_bits fits = absurd (omega arith)
append_loop-Appended (suc calls) t off v n h some_bits fits =
    if_split (Appended t off v n) (leb n (8 - off % 8)) _ _
      (λ e. short-Appended t off v n (leb→le n (8 - off % 8) e) fits some_bits)
      (λ e.
        let long : 8 - off % 8 < n = ground arith in
        let first = or_byte t (off / 8) (v % 2 ^ n / 2 ^ (n - (8 - off % 8))) in
        long-Appended t _ off v n long fits (
          append_loop-Appended calls first (off + (8 - off % 8)) (v % 2 ^ n) (n - (8 - off % 8))
            (omega arith) (omega arith)
            (omega (arith, length-or_byte t (off / 8) (v % 2 ^ n / 2 ^ (n - (8 - off % 8)))))))

-- In a buffer that has room, append_bits joins a value of at least one bit with the bits from `offset`
-- on.
pub append_bits-Appended :
    (t : Bytes) (off v n : ℕ)
    → 0 < n
    → off + n ≤ 8 * length t
    → Appended t off v n (append_bits t off v n)
unfolding append_bits
append_bits-Appended t off v n h fits = append_loop-Appended n t off v n (omega arith) h fits
