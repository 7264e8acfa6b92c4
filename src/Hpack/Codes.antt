-- ===== src/Hpack/Codes.antt =====
-- Each byte has a code in the table of src/http2.inl, which the loop of hpack_decode collects.
use civetweb.Base.{==_iff, Bool, Bool-cases, Bytes, Option, [], ap, ap₂, arith, bit, false}
use civetweb.Base.{holds_up_to, holds_up_to-true, if◌then◌else◌, inl, inr, leb, leb→le, length}
use civetweb.Base.{none, refl, some, suc, sym, take, true, zero, ℕ, ◌%◌, ◌&&◌, ◌*◌, ◌++◌, ◌+◌}
use civetweb.Base.{◌<◌, ◌==◌, ◌^◌, ◌∙◌, ◌∷◌, ◌≡◌, ◌≤◌}
use civetweb.Hpack.Table.{HuffCode, hpack_huff_dec, hpack_huff_end_code, hpack_huff_start_index}
use civetweb.Hpack.{
  bit_at, Collected, used_up, code, goes_on, collect, find_encoded, find_symbol, find_decoded,
}

-- The lowest `n` bits of a value, the highest of them first.
unfoldable pub bits_of : ℕ → ℕ → Bytes
bits_of zero v = []
bits_of (suc n) v = bit v n ∷ bits_of n v

-- Bits of a buffer, from an index on.
unfoldable pub read : ℕ → Bytes → ℕ → Bytes
read zero p i = []
read (suc k) p i = bit_at p i ∷ read k p (i + 1)

-- The loop on a list of bits.
unfoldable pub collect_bits : Bytes → ℕ → ℕ → Collected
collect_bits [] accu bc = used_up
collect_bits (b ∷ bs) accu bc =
    let next = accu * 2 % 2 ^ 32 + b in
    let more = collect_bits bs next (bc + 1) in
    if goes_on (bc + 1) next then more else code next (bc + 1) (length bs)

pub length-read : (k : ℕ) (p : Bytes) (i : ℕ) → length (read k p i) ≡ k
unfolding read
length-read zero p i = refl
length-read (suc k) p i = ap suc (length-read k p (i + 1))

pub collect-read :
    (k : ℕ) (p : Bytes) (i accu bc : ℕ) → collect k p i accu bc ≡ collect_bits (read k p i) accu bc
unfolding collect collect_bits read
collect-read zero p i accu bc = refl
collect-read (suc k) p i accu bc =
    let next = accu * 2 % 2 ^ 32 + bit_at p i in
    ap₂ (λ r l. if goes_on (bc + 1) next then r else code next (bc + 1) l)
      (collect-read k p (i + 1) next (bc + 1)) (sym (length-read k p (i + 1)))

is_whole : (a n x m k : ℕ) → Path Collected (code x m k) (code a n 0) → (k ≡ 0) × (x ≡ a) × (m ≡ n)
is_whole a n x m k e = (cc, cc, cc)

no_bits : (bs : Bytes) → length bs ≡ 0 → bs ≡ []
no_bits [] e = refl
no_bits (b ∷ bs) e = absurd (omega arith)

-- What stands behind a code does not matter.
pub collect_bits-append :
    (bs rest : Bytes) (accu bc a n : ℕ)
    → collect_bits bs accu bc ≡ code a n 0
    → collect_bits (bs ++ rest) accu bc ≡ code a n (length rest)
unfolding collect_bits
collect_bits-append [] rest accu bc a n e = cc
collect_bits-append (b ∷ bs) rest accu bc a n e =
    let next = accu * 2 % 2 ^ 32 + b in
    elim (Bool-cases (goes_on (bc + 1) next)) [
      | inl f ↦ rw f (collect_bits-append bs rest next (bc + 1) a n (rw f at e))
      | inr f ↦
          let (none_left, same, bits) = is_whole a n next (bc + 1) (length bs) (rw f at e) in
          rw (f, no_bits bs none_left) (ap₂ (λ x m. code x m (length rest)) same bits)
    ]

abbrev is_symbol : Option ℕ → ℕ → Bool
is_symbol none c = false
is_symbol (some b) c = b == c

abbrev is_code : Collected → ℕ → ℕ → Bool
is_code used_up n c = false
is_code (code accu bc left) n c = left == 0 && (bc == n && is_symbol (find_symbol accu bc) c)

-- The code of a byte has at least 5 bits, and reading them gives the byte.
abbrev is_right : Option HuffCode → ℕ → Bool
is_right none c = false
is_right (some h) c =
    leb 5 h.bitcount && is_code (collect_bits (bits_of h.bitcount h.encoded) 0 0) h.bitcount c

right_test : ℕ → Bool
right_test c = is_right (find_decoded c (take 256 hpack_huff_dec)) c

right_table : holds_up_to 256 right_test ≡ true
unfolding holds_up_to right_test hpack_huff_dec hpack_huff_end_code hpack_huff_start_index goes_on
    find_encoded find_symbol find_decoded collect_bits bits_of
right_table = refl

pub record IsCode (c : ℕ) (h : HuffCode) : Type 0 where
  pub found : find_decoded c (take 256 hpack_huff_dec) ≡ some h
  pub wide : 5 ≤ h.bitcount
  pub accu : ℕ
  pub collected : collect_bits (bits_of h.bitcount h.encoded) 0 0 ≡ code accu h.bitcount 0
  pub symbol : find_symbol accu h.bitcount ≡ some c

and_parts_of : (a b : Bool) → (a && b) ≡ true → (a ≡ true) × (b ≡ true)
and_parts_of a b e = ground arith

symbol_of : (o : Option ℕ) (c : ℕ) → is_symbol o c ≡ true → o ≡ some c
symbol_of none c e = cc
symbol_of (some b) c e = ap some ((==_iff b c).0 e)

code_of :
    (r : Collected) (n c : ℕ)
    → is_code r n c ≡ true
    → (accu : ℕ) × (r ≡ code accu n 0) × (find_symbol accu n ≡ some c)
code_of used_up n c e = cc
code_of (code accu bc left) n c e =
    let (p, q) = and_parts_of (left == 0) _ e in
    let (r, s) = and_parts_of (bc == n) _ q in
    let same = (==_iff bc n).0 r in
    (
      accu,
      ap₂ (λ m k. code accu m k) same ((==_iff left 0).0 p),
      ap (find_symbol accu) (sym same) ∙ symbol_of (find_symbol accu bc) c s,
    )

right_IsCode :
    (o : Option HuffCode) (c : ℕ)
    → find_decoded c (take 256 hpack_huff_dec) ≡ o
    → is_right o c ≡ true
    → (h : HuffCode) × IsCode c h
right_IsCode none c f e = cc
right_IsCode (some h) c f e =
    let (p, q) = and_parts_of (leb 5 h.bitcount) _ e in
    let (accu, r, s) = code_of (collect_bits (bits_of h.bitcount h.encoded) 0 0) h.bitcount c q in
    (h, record { found = f; wide = leb→le 5 h.bitcount p; accu = accu; collected = r; symbol = s })

-- Each byte has a code.
pub byte-IsCode : (c : ℕ) → c < 256 → (h : HuffCode) × IsCode c h
unfolding right_test
byte-IsCode c h =
    right_IsCode (find_decoded c (take 256 hpack_huff_dec)) c refl
      (holds_up_to-true 256 right_test c right_table h)
