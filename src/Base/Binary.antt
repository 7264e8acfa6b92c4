-- ===== src/Base/Binary.antt =====
-- The binary digits of a number.
use Prim.Native.Nat.{ℕ, zero, suc, ◌+◌, ◌*◌, ◌/◌, ◌%◌, ◌^◌, ◌≤◌, ◌<◌, max, bit_or, digits}
use Prim.Native.Nat.{bit_or-bitwise}
use mathlib.Core.Path.{◌≡◌, refl, sym, ap, ap₂, ◌∙◌}
use native.Mathlib.Omega.{arith}
use native.Mathlib.Nat.{div-div-eq-div-mul, pow-succ', div-add-mod, mod-lt, one-le-pow}

-- (v >> k) & 1
abbrev pub bit : ℕ → ℕ → ℕ
bit v k = v / 2 ^ k % 2

half_first : (v k : ℕ) → v / 2 ^ suc k ≡ v / 2 / 2 ^ k
half_first v k = ap (λ m. v / m) (pow-succ' 2 k) ∙ sym (div-div-eq-div-mul v 2 (2 ^ k))

bit-suc : (v k : ℕ) → bit v (suc k) ≡ bit (v / 2) k
bit-suc v k = ap (λ n. n % 2) (half_first v k)

bit-zero : (v : ℕ) → bit v 0 ≡ v % 2
bit-zero v = omega arith

abbrev or_digits : ℕ → ℕ → ℕ → ℕ
or_digits n a b = digits (λ b. b) max n a b

or_digits_fuel : (n m a b : ℕ) → a ≤ n → a ≤ m → or_digits n a b ≡ or_digits m a b
or_digits_fuel zero zero a b p q = refl
or_digits_fuel zero (suc m) zero b p q = refl
or_digits_fuel zero (suc m) (suc a) b p q = absurd (omega arith)
or_digits_fuel (suc n) zero zero b p q = refl
or_digits_fuel (suc n) zero (suc a) b p q = absurd (omega arith)
or_digits_fuel (suc n) (suc m) zero b p q = refl
or_digits_fuel (suc n) (suc m) (suc a) b p q =
    omega (arith, or_digits_fuel n m (suc a / 2) (b / 2) (omega arith) (omega arith))

zero-bit_or : (b : ℕ) → bit_or 0 b ≡ b
zero-bit_or b = bit_or-bitwise 0 b

bit_or_step : (a b : ℕ) → bit_or a b ≡ bit_or (a / 2) (b / 2) * 2 + max (a % 2) (b % 2)
bit_or_step zero b = omega (arith, zero-bit_or b, zero-bit_or (b / 2))
bit_or_step (suc a) b = omega (
  arith,
  bit_or-bitwise (suc a) b,
  bit_or-bitwise (suc a / 2) (b / 2),
  or_digits_fuel a (suc a / 2) (suc a / 2) (b / 2) (omega arith) (omega arith),
)

pub bit-bit_or : (a b k : ℕ) → bit (bit_or a b) k ≡ max (bit a k) (bit b k)
bit-bit_or a b zero = omega (arith, bit_or_step a b)
bit-bit_or a b (suc k) =
    let halved : bit_or a b / 2 ≡ bit_or (a / 2) (b / 2) = omega (arith, bit_or_step a b) in
    bit-suc (bit_or a b) k
    ∙ ap (λ n. bit n k) halved
    ∙ bit-bit_or (a / 2) (b / 2) k
    ∙ ap₂ max (sym (bit-suc a k)) (sym (bit-suc b k))

double_half : (v : ℕ) → v * 2 / 2 ≡ v
double_half v = omega arith

times_pow : (v m : ℕ) → v * 2 ^ suc m ≡ v * 2 ^ m * 2
times_pow v m = ap (λ n. v * n) (pow-succ' 2 m) ∙ regroup v (2 ^ m)
  where
    regroup : (v p : ℕ) → v * (2 * p) ≡ v * p * 2
    regroup v p = omega arith

times_one : (v : ℕ) → v * 2 ^ 0 ≡ v
times_one v = omega arith

plus_zero : (k : ℕ) → 0 + k ≡ k
plus_zero k = omega arith

plus_suc : (m k : ℕ) → suc m + k ≡ suc (m + k)
plus_suc m k = omega arith

over_one : (v : ℕ) → v / 2 ^ 0 ≡ v
over_one v = omega arith

-- (v << m) >> (m + k)
pub bit-shift_left : (v m k : ℕ) → bit (v * 2 ^ m) (m + k) ≡ bit v k
bit-shift_left v zero k = ap₂ bit (times_one v) (plus_zero k)
bit-shift_left v (suc m) k =
    ap (bit (v * 2 ^ suc m)) (plus_suc m k)
    ∙ bit-suc (v * 2 ^ suc m) (m + k)
    ∙ ap (λ n. bit (n / 2) (m + k)) (times_pow v m)
    ∙ ap (λ n. bit n (m + k)) (double_half (v * 2 ^ m))
    ∙ bit-shift_left v m k

pub bit-shift_low : (v m k : ℕ) → k < m → bit (v * 2 ^ m) k ≡ 0
bit-shift_low v zero k h = absurd (omega arith)
bit-shift_low v (suc m) zero h = omega (arith, times_pow v m)
bit-shift_low v (suc m) (suc k) h =
    bit-suc (v * 2 ^ suc m) k
    ∙ ap (λ n. bit (n / 2) k) (times_pow v m)
    ∙ ap (λ n. bit n k) (double_half (v * 2 ^ m))
    ∙ bit-shift_low v m k (omega arith)

pub bit-shift_right : (v m k : ℕ) → bit (v / 2 ^ m) k ≡ bit v (m + k)
bit-shift_right v zero k = ap₂ bit (over_one v) (sym (plus_zero k))
bit-shift_right v (suc m) k =
    ap (λ n. bit n k) (half_first v m)
    ∙ bit-shift_right (v / 2) m k
    ∙ sym (bit-suc v (m + k))
    ∙ ap (bit v) (sym (plus_suc m k))

bit_of_zero : (k : ℕ) → bit 0 k ≡ 0
bit_of_zero zero = refl
bit_of_zero (suc k) = bit-suc 0 k ∙ bit_of_zero k

pub bit_small : (v m k : ℕ) → v < 2 ^ m → m ≤ k → bit v k ≡ 0
bit_small v zero k h l = ap (λ n. bit n k) (below_one v h) ∙ bit_of_zero k
  where
    below_one : (v : ℕ) → v < 2 ^ 0 → v ≡ 0
    below_one v h = omega arith
bit_small v (suc m) zero h l = absurd (omega arith)
bit_small v (suc m) (suc k) h l =
    bit-suc v k ∙ bit_small (v / 2) m k (omega (arith, pow-succ' 2 m)) (omega arith)

mod_step : (v m : ℕ) → v % 2 ^ suc m ≡ v / 2 % 2 ^ m * 2 + v % 2
mod_step v m =
    let whole : 2 * 2 ^ m * (v / 2 / 2 ^ m) + v % 2 ^ suc m ≡ v =
      ap (λ n. n * (v / 2 / 2 ^ m) + v % 2 ^ suc m) (sym (pow-succ' 2 m))
      ∙ ap (λ n. 2 ^ suc m * n + v % 2 ^ suc m) (sym (half_first v m))
      ∙ div-add-mod v (2 ^ suc m) in
    two_parts v (2 ^ m) (v / 2 / 2 ^ m) (v % 2 ^ suc m) (v / 2 % 2 ^ m) whole
      (div-add-mod (v / 2) (2 ^ m))
  where
    two_parts : (v p q r s : ℕ) → 2 * p * q + r ≡ v → p * q + s ≡ v / 2 → r ≡ s * 2 + v % 2
    two_parts v p q r s a b = grind arith

pub bit-mod : (v m k : ℕ) → k < m → bit (v % 2 ^ m) k ≡ bit v k
bit-mod v zero k h = absurd (omega arith)
bit-mod v (suc m) zero h = omega (arith, mod_step v m)
bit-mod v (suc m) (suc k) h =
    let halved : v % 2 ^ suc m / 2 ≡ v / 2 % 2 ^ m = omega (arith, mod_step v m) in
    bit-suc (v % 2 ^ suc m) k
    ∙ ap (λ n. bit n k) halved
    ∙ bit-mod (v / 2) m k (omega arith)
    ∙ sym (bit-suc v k)

pub bit-mod_high : (v m k : ℕ) → m ≤ k → bit (v % 2 ^ m) k ≡ 0
bit-mod_high v m k h = bit_small (v % 2 ^ m) m k (mod-lt v (one-le-pow m 2 (omega arith))) h
