-- ===== src/Hpack/Encode.antt =====
-- The bits that hpack_encode of src/http2.inl writes.
use civetweb.Base.{All, Bool, Bytes, Option, [], ap, ap₂, arith, bit, length, max, none, refl}
use civetweb.Base.{some, subst, suc, sym, take, zero, ℕ, ◌*◌, ◌++◌, ◌+◌, ◌-◌, ◌<◌, ◌∙◌, ◌∷◌, ◌≡◌}
use civetweb.Base.{◌≤◌}
use civetweb.Hpack.Table.{HuffCode, hpack_huff_dec}
use civetweb.Hpack.{
  bit_at, append_bits, find_decoded, BitString, append_code, load_byte, huff_encode_loop,
}
use civetweb.Hpack.Append.{append_bits-Appended}
use civetweb.Hpack.Codes.{bits_of, read, byte-IsCode}

-- The bits of a code, and how many there are.
abbrev pub code_bits : Option HuffCode → Bytes
code_bits none = []
code_bits (some h) = bits_of h.bitcount h.encoded

abbrev pub code_length : Option HuffCode → ℕ
code_length none = 0
code_length (some h) = h.bitcount

abbrev pub find_code : ℕ → Option HuffCode
find_code c = find_decoded c (take 256 hpack_huff_dec)

-- The bits of the codes of a text.
unfoldable pub text_bits : Bool → Bytes → Bytes
text_bits lower [] = []
text_bits lower (c ∷ load) = code_bits (find_code (load_byte lower c)) ++ text_bits lower load

unfoldable pub text_length : Bool → Bytes → ℕ
text_length lower [] = 0
text_length lower (c ∷ load) = code_length (find_code (load_byte lower c)) + text_length lower load

read-same :
    (k : ℕ) (p q : Bytes) (i : ℕ)
    → ((j : ℕ) → i ≤ j → j < i + k → bit_at p j ≡ bit_at q j)
    → read k p i ≡ read k q i
unfolding read
read-same zero p q i h = refl
read-same (suc k) p q i h =
    ap₂ (λ b bs. b ∷ bs) (h i (omega arith) (omega arith))
      (read-same k p q (i + 1) (λ j l u. h j (omega arith) (omega arith)))

zero_plus : (n : ℕ) → 0 + n ≡ n
zero_plus n = omega arith

plus_zero_right : (i : ℕ) → i ≡ i + 0
plus_zero_right i = omega arith

suc_plus : (m n : ℕ) → suc m + n ≡ suc (m + n)
suc_plus m n = omega arith

first_index : (off n : ℕ) → off + suc n - 1 - off ≡ n
first_index off n = omega arith

next_index : (off n j : ℕ) → off + suc n - 1 - j ≡ off + 1 + n - 1 - j
next_index off n j = omega arith

zero_max : (a : ℕ) → max 0 a ≡ a
zero_max a = omega arith

later_index : (i m : ℕ) → i + 1 + m ≡ i + suc m
later_index i m = omega arith

read_next : (k : ℕ) (p : Bytes) (i j : ℕ) → i ≡ j → read k p i ≡ read k p j
read_next k p i j e = ap (read k p) e

pub read-append : (m n : ℕ) (p : Bytes) (i : ℕ) → read (m + n) p i ≡ read m p i ++ read n p (i + m)
unfolding read
read-append zero n p i = read_zero n p i
  where
    read_zero : (n : ℕ) (p : Bytes) (i : ℕ) → read (0 + n) p i ≡ read n p (i + 0)
    read_zero n p i = ap₂ (λ k j. read k p j) (zero_plus n) (plus_zero_right i)
read-append (suc m) n p i =
    ap (λ k. read k p i) (suc_plus m n)
    ∙ ap (λ l. bit_at p i ∷ l)
        (read-append m n p (i + 1)
          ∙ ap (λ l. read m p (i + 1) ++ l)
              (read_next n p (i + 1 + m) (i + suc m) (later_index i m)))

-- What has been put into clear bits.
pub read-bits_of :
    (n v : ℕ) (r : Bytes) (off : ℕ)
    → ((j : ℕ) → off ≤ j → j < off + n → bit_at r j ≡ bit v (off + n - 1 - j))
    → read n r off ≡ bits_of n v
unfolding read bits_of
read-bits_of zero v r off h = refl
read-bits_of (suc n) v r off h =
    ap₂ (λ b bs. b ∷ bs) (h off (omega arith) (omega arith) ∙ ap (bit v) (first_index off n))
      (read-bits_of n v r (off + 1)
        (λ j l u. h j (omega arith) (omega arith) ∙ ap (bit v) (next_index off n j)))

some_inj : (g h : HuffCode) → Path (Option HuffCode) (some g) (some h) → g ≡ h
some_inj g h e = cc

find_code-wide : (c : ℕ) (h : HuffCode) → c < 256 → find_code c ≡ some h → 5 ≤ h.bitcount
find_code-wide c h l e =
    let (g, w) = byte-IsCode c l in
    let same : g ≡ h = some_inj g h (sym w.found ∙ e) in
    subst (λ (k : HuffCode). 5 ≤ k.bitcount) same w.wide

module _ (hi : ℕ) where
  -- No bit is set from an index on, up to a bound.
  abbrev pub IsClear : Bytes → ℕ → Type 0
  IsClear t off = (i : ℕ) → off ≤ i → i < hi → bit_at t i ≡ 0

  -- What an appended value leaves: the bits before it, the value, and clear bits behind it.
  pub record Written (t : Bytes) (off n : ℕ) (bits : Bytes) (r : Bytes) : Type 0 where
    pub same_length : length r ≡ length t
    pub before : (i : ℕ) → i < off → bit_at r i ≡ bit_at t i
    pub reads : read n r off ≡ bits
    pub clear : IsClear r (off + n)

  pub append_bits-Written :
      (t : Bytes) (off v n : ℕ)
      → 0 < n
      → off + n ≤ 8 * length t
      → off + n ≤ hi
      → IsClear t off
      → Written t off n (bits_of n v) (append_bits t off v n)
  append_bits-Written t off v n h fits low clear =
      let a = append_bits-Appended t off v n h fits in
      record {
        same_length = a.same_length;
        before = a.before;
        reads = read-bits_of n v (append_bits t off v n) off (λ j l u.
            a.within j l u
            ∙ ap (λ b. max b (bit v (off + n - 1 - j))) (clear j l (omega arith))
            ∙ zero_max (bit v (off + n - 1 - j)));
        clear = λ i l u. a.behind i l ∙ clear i (omega arith) u;
      }

  pub Written-nothing : (t : Bytes) (off : ℕ) → IsClear t off → Written t off 0 [] t
  unfolding read
  Written-nothing t off clear = record {
    same_length = refl;
    before = λ i l. refl;
    reads = refl;
    clear = λ i l u. clear i (omega arith) u;
  }

  pub Written-both :
      (t u r : Bytes) (off m n : ℕ) (bs cs : Bytes)
      → Written t off m bs u
      → Written u (off + m) n cs r
      → Written t off (m + n) (bs ++ cs) r
  Written-both t u r off m n bs cs a b = record {
    same_length = b.same_length ∙ a.same_length;
    before = λ i l. b.before i (omega arith) ∙ a.before i l;
    reads =
        read-append m n r off
        ∙ ap₂ (λ x y. x ++ y) (read-same m r u off (λ j l v. b.before j v) ∙ a.reads) b.reads;
    clear = λ i l v. b.clear i (omega arith) v;
  }

  abbrev pub IsBits : Bool → Bytes → BitString → BitString → Type 0
  IsBits lower load s r =
      (r.len_bits ≡ s.len_bits + text_length lower load)
      × Written s.target s.len_bits (text_length lower load) (text_bits lower load) r.target

  append_code-Written :
      (o : Option HuffCode) (s : BitString)
      → ((h : HuffCode) → o ≡ some h → 5 ≤ h.bitcount)
      → s.len_bits + code_length o ≤ 8 * length s.target
      → s.len_bits + code_length o ≤ hi
      → IsClear s.target s.len_bits
      → ((append_code o s).len_bits ≡ s.len_bits + code_length o)
        × Written s.target s.len_bits (code_length o) (code_bits o) (append_code o s).target
  append_code-Written none s w fits low clear =
      (omega arith, Written-nothing s.target s.len_bits clear)
  append_code-Written (some h) s w fits low clear = (
    refl,
    append_bits-Written s.target s.len_bits h.encoded h.bitcount (omega (arith, w h refl)) fits low
        clear,
  )

  pub huff_encode_loop-IsBits :
      (lower : Bool) (load : Bytes) (s : BitString)
      → All (λ c. load_byte lower c < 256) load
      → s.len_bits + text_length lower load ≤ 8 * length s.target
      → s.len_bits + text_length lower load ≤ hi
      → IsClear s.target s.len_bits
      → IsBits lower load s (huff_encode_loop lower load s)
  unfolding huff_encode_loop text_bits text_length
  huff_encode_loop-IsBits lower [] s h fits low clear =
      (omega arith, Written-nothing s.target s.len_bits clear)
  huff_encode_loop-IsBits lower (c ∷ load) s h fits low clear =
      let o = find_code (load_byte lower c) in
      let u = append_code o s in
      let (n, w) =
        append_code-Written o s (λ g e. find_code-wide (load_byte lower c) g h.0 e) (omega arith)
          (omega arith) clear in
      let at_end : IsClear u.target u.len_bits = λ i l u. w.clear i (omega arith) u in
      let (m, v) =
        huff_encode_loop-IsBits lower load u h.1 (omega (arith, n, w.same_length, fits))
          (omega (arith, n, low)) at_end in
      (
        omega (arith, m, n),
        Written-both s.target u.target _ s.len_bits (code_length o) (text_length lower load) _ _ w (
            subst
              (λ k.
                Written u.target k (text_length lower load) (text_bits lower load)
                  (huff_encode_loop lower load u).target)
              n v),
      )
