-- ===== src/Base64/RoundTrip.antt =====
-- Decoding after encoding, for mg_base64_encode and mg_base64_decode of src/civetweb.c.
use civetweb.Base.{==_iff, All, Bool, Bytes, [], holds_up_to, holds_up_to-true, ap, arith, bit_and}
use civetweb.Base.{bit_or, false, leb, length, negsuc, none, refl, some, true, ℕ, ◌%◌, ◌*◌, ◌++◌}
use civetweb.Base.{◌+◌, ◌/◌, ◌<◌, ◌==◌, ◌^◌, ◌∙◌, ◌∷◌, ◌≡◌, ◌≢◌}
use civetweb.Base64.{b64_char, b64reverse, first_char, second_char, third_char, fourth_char}
use civetweb.Base64.{encode_groups, mg_base64_encode, group_bytes, decode_group, decode_groups}
use civetweb.Base64.{decoded, mg_base64_decode, finish_decode}

-- Every character of the alphabet is read back as its index.
reverse_table : holds_up_to 64 (λ n. b64reverse (b64_char n) == n) ≡ true
unfolding holds_up_to b64reverse b64_char
reverse_table = refl

b64reverse-b64_char : (n : ℕ) → n < 64 → b64reverse (b64_char n) ≡ n
b64reverse-b64_char n h =
    (==_iff _ n).0 (holds_up_to-true 64 (λ k. b64reverse (b64_char k) == k) n reverse_table h)

pad : b64reverse b'=' ≡ 255
unfolding b64reverse
pad = refl

-- The bit operations of the encoder, as arithmetic.
and_3 : (a : ℕ) → a < 256 → bit_and a 3 ≡ a % 4
and_3 a h =
    (==_iff _ _).0
      (holds_up_to-true 256 (λ n. bit_and n 3 == n % 4) a (unfold holds_up_to in refl) h)

and_15 : (a : ℕ) → a < 256 → bit_and a 15 ≡ a % 16
and_15 a h =
    (==_iff _ _).0
      (holds_up_to-true 256 (λ n. bit_and n 15 == n % 16) a (unfold holds_up_to in refl) h)

and_63 : (a : ℕ) → a < 256 → bit_and a 63 ≡ a % 64
and_63 a h =
    (==_iff _ _).0
      (holds_up_to-true 256 (λ n. bit_and n 63 == n % 64) a (unfold holds_up_to in refl) h)

or_test : ℕ → ℕ → ℕ → Bool
or_test k q r = bit_or (q * 2 ^ k) r == q * 2 ^ k + r

or_4_table : holds_up_to 4 (λ q. holds_up_to 16 (or_test 4 q)) ≡ true
unfolding holds_up_to or_test
or_4_table = refl

or_2_table : holds_up_to 16 (λ q. holds_up_to 4 (or_test 2 q)) ≡ true
unfolding holds_up_to or_test
or_2_table = refl

or_at :
    (k m n q r : ℕ)
    → holds_up_to m (λ j. holds_up_to n (or_test k j)) ≡ true
    → q < m
    → r < n
    → bit_or (q * 2 ^ k) r ≡ q * 2 ^ k + r
unfolding or_test
or_at k m n q r t h l = (==_iff _ _).0 (
    holds_up_to-true n (or_test k q) r (holds_up_to-true m (λ j. holds_up_to n (or_test k j)) q t h)
      l)

-- The values of the characters.
value_1 : (a : ℕ) → a < 256 → b64reverse (first_char a) ≡ a / 4
value_1 a h = b64reverse-b64_char (a / 4) (omega arith)

value_2 : (a b : ℕ) → a < 256 → b < 256 → b64reverse (second_char a b) ≡ a % 4 * 16 + b / 16
value_2 a b h k =
    let e : bit_or (bit_and a 3 * 2 ^ 4) (b / 2 ^ 4) ≡ a % 4 * 16 + b / 16 =
      rw (and_3 a h) (or_at 4 4 16 (a % 4) (b / 16) or_4_table (omega arith) (omega arith)) in
    ap (λ n. b64reverse (b64_char n)) e ∙ b64reverse-b64_char _ (omega arith)

value_3 : (b c : ℕ) → b < 256 → c < 256 → b64reverse (third_char b c) ≡ b % 16 * 4 + c / 64
value_3 b c h k =
    let e : bit_or (bit_and b 15 * 2 ^ 2) (c / 2 ^ 6) ≡ b % 16 * 4 + c / 64 =
      rw (and_15 b h) (or_at 2 16 4 (b % 16) (c / 64) or_2_table (omega arith) (omega arith)) in
    ap (λ n. b64reverse (b64_char n)) e ∙ b64reverse-b64_char _ (omega arith)

value_4 : (c : ℕ) → c < 256 → b64reverse (fourth_char c) ≡ c % 64
value_4 c h =
    ap (λ n. b64reverse (b64_char n)) (and_63 c h) ∙ b64reverse-b64_char (c % 64) (omega arith)

-- A group whose four characters have these values, none of them refused.
group_of_values :
    (i w x y z a b c d : ℕ) (out rest : Bytes)
    → b64reverse w ≡ a
    → b64reverse x ≡ b
    → b64reverse y ≡ c
    → b64reverse z ≡ d
    → a < 64
    → b < 64
    → c ≢ 254
    → d ≢ 254
    → group_bytes a b c d ≡ out
    → decode_group i w x y z (decoded rest) ≡ decoded (out ++ rest)
unfolding decode_group
group_of_values i w x y z a b c d out rest p q r s ha hb hc hd e =
    let fa : leb 254 a ≡ false = ground arith in
    let fb : leb 254 b ≡ false = ground arith in
    let fc : (c == 254) ≡ false = ground arith in
    let fd : (d == 254) ≡ false = ground arith in rw (p, q, r, s, fa, fb, fc, fd, e) refl

bytes_3 :
    (a b c : ℕ)
    → a < 256
    → b < 256
    → c < 256
    → group_bytes (a / 4) (a % 4 * 16 + b / 16) (b % 16 * 4 + c / 64) (c % 64) ≡ a ∷ b ∷ c ∷ []
unfolding group_bytes
bytes_3 a b c ha hb hc = ground arith

bytes_2 :
    (a b : ℕ)
    → a < 256
    → b < 256
    → group_bytes (a / 4) (a % 4 * 16 + b / 16) (b % 16 * 4 + 0 / 64) 255 ≡ a ∷ b ∷ []
unfolding group_bytes
bytes_2 a b ha hb = ground arith

bytes_1 : (a : ℕ) → a < 256 → group_bytes (a / 4) (a % 4 * 16 + 0 / 16) 255 255 ≡ a ∷ []
unfolding group_bytes
bytes_1 a ha = ground arith

decode_groups-encode_groups :
    (src : Bytes) (i : ℕ)
    → All (λ c. c < 256) src
    → decode_groups i (encode_groups src) ≡ decoded src
unfolding decode_groups encode_groups
decode_groups-encode_groups [] i h = refl
decode_groups-encode_groups (a ∷ []) i h =
    group_of_values i (first_char a) (second_char a 0) b'=' b'=' _ _ 255 255 (a ∷ []) []
      (value_1 a h.0) (value_2 a 0 h.0 (omega arith)) pad pad (omega arith) (omega arith)
      (omega arith) (omega arith) (bytes_1 a h.0)
decode_groups-encode_groups (a ∷ b ∷ []) i h =
    group_of_values i (first_char a) (second_char a b) (third_char b 0) b'=' _ _ _ 255 (a ∷ b ∷ [])
      [] (value_1 a h.0) (value_2 a b h.0 h.1.0) (value_3 b 0 h.1.0 (omega arith)) pad (omega arith)
      (omega arith) (omega arith) (omega arith) (bytes_2 a b h.0 h.1.0)
decode_groups-encode_groups (a ∷ b ∷ c ∷ src) i h =
    ap (decode_group i (first_char a) (second_char a b) (third_char b c) (fourth_char c))
      (decode_groups-encode_groups src (i + 4) h.1.1.1)
    ∙ group_of_values i (first_char a) (second_char a b) (third_char b c) (fourth_char c) _ _ _ _
        (a ∷ b ∷ c ∷ []) src (value_1 a h.0) (value_2 a b h.0 h.1.0) (value_3 b c h.1.0 h.1.1.0)
        (value_4 c h.1.1.0) (omega arith) (omega arith) (omega arith) (omega arith)
        (bytes_3 a b c h.0 h.1.0 h.1.1.0)

-- Any bytes are had back by decoding their encoding, with -1 for success, where no limit is given.
pub mg_base64_decode-mg_base64_encode :
    (src : Bytes)
    → All (λ c. c < 256) src
    → mg_base64_decode (mg_base64_encode src none).dst none
      ≡ record { ret = negsuc 0; dst = src; dst_len = none }
unfolding mg_base64_decode mg_base64_encode
mg_base64_decode-mg_base64_encode src h =
    ap (finish_decode none) (decode_groups-encode_groups src 0 h)

length-encode_groups : (src : Bytes) → length (encode_groups src) ≡ (length src + 2) / 3 * 4
unfolding encode_groups
length-encode_groups [] = refl
length-encode_groups (a ∷ []) = refl
length-encode_groups (a ∷ b ∷ []) = refl
length-encode_groups (a ∷ b ∷ c ∷ src) = omega (arith, length-encode_groups src)

-- The length that the encoder asks of its buffer, with the terminator, is the one it writes.
pub mg_base64_encode-length :
    (src : Bytes) (limit : ℕ)
    → (mg_base64_encode src (some limit)).dst_len ≡ some (length (encode_groups src) + 1)
unfolding mg_base64_encode
mg_base64_encode-length src limit = ground (arith, length-encode_groups src)
