-- ===== src/Form/Encoded.antt =====
-- Text that mg_url_encode of src/civetweb.c writes, as names and values in form data.
use civetweb.Base.{All, Bool, Bytes, IsText, [], arith, bit_and, holds_up_to, holds_up_to-true}
use civetweb.Base.{if_split, length, ltb, not, refl, suc, true, zero, ℕ, ◌&&◌, ◌*◌, ◌+◌, ◌-◌}
use civetweb.Base.{◌/◌, ◌<◌, ◌^◌, ◌||◌, ◌∷◌, ◌≡◌, ◌≤◌}
use civetweb.Http.{is_blank}
use civetweb.Url.{
  mg_url_encode, encode_loop, Encoded, is_kept, hex_digit, complete, mg_url_decode,
  url_decode_in_place,
}
use civetweb.Url.RoundTrip.{mg_url_decode-mg_url_encode, mg_url_encode-whole}
use civetweb.Form.{is_key_char}

-- A text, encoded into a buffer that has room for it.
pub encoded : Bytes → Bytes
encoded s = (mg_url_encode s (3 * length s + 1)).out

abbrev pub is_plain : ℕ → Bool
is_plain c = is_key_char c && not (is_blank c)

plain_test : ℕ → Bool
unfolding is_kept hex_digit is_key_char is_blank
plain_test c =
    (not (is_kept c) || is_plain c)
    && (is_plain (hex_digit (c / 2 ^ 4)) && is_plain (hex_digit (bit_and c 0xf)))

plain_table : holds_up_to 256 plain_test ≡ true
unfolding holds_up_to plain_test is_kept hex_digit is_key_char is_blank
plain_table = refl

plain_facts :
    (c : ℕ)
    → c < 256
    → (is_kept c ≡ true → is_plain c ≡ true)
      × (is_plain (hex_digit (c / 2 ^ 4)) ≡ true)
      × (is_plain (hex_digit (bit_and c 0xf)) ≡ true)
unfolding plain_test
plain_facts c h = ground (arith, holds_up_to-true 256 plain_test c plain_table h)

percent_plain : is_plain b'%' ≡ true
unfolding is_key_char is_blank
percent_plain = refl

encode_loop-plain :
    (s : Bytes) (room : ℕ) → IsText s → All (λ c. is_plain c ≡ true) (encode_loop s room).out
unfolding encode_loop
encode_loop-plain [] room h = tt
encode_loop-plain (c ∷ s) zero h = tt
encode_loop-plain (c ∷ s) (suc room) h =
    let Plain = λ (r : Encoded). All (λ c. is_plain c ≡ true) r.out in
    let facts = plain_facts c h.0.1 in
    if_split Plain (is_kept c) _ _ (λ e. (facts.0 e, encode_loop-plain s room h.1))
      (λ e.
        if_split Plain (ltb 1 room) _ _
          (λ l. (percent_plain, (facts.1, (facts.2, encode_loop-plain s (room - 2) h.1))))
          (λ l. tt))

text_test : ℕ → Bool
unfolding hex_digit
text_test c =
    (ltb 0 (hex_digit (c / 2 ^ 4)) && ltb (hex_digit (c / 2 ^ 4)) 256)
    && (ltb 0 (hex_digit (bit_and c 0xf)) && ltb (hex_digit (bit_and c 0xf)) 256)

text_table : holds_up_to 256 text_test ≡ true
unfolding holds_up_to text_test hex_digit
text_table = refl

text_facts :
    (c : ℕ)
    → c < 256
    → ((0 < hex_digit (c / 2 ^ 4)) × (hex_digit (c / 2 ^ 4) < 256))
      × ((0 < hex_digit (bit_and c 0xf)) × (hex_digit (bit_and c 0xf) < 256))
unfolding text_test
text_facts c h = ground (arith, holds_up_to-true 256 text_test c text_table h)

encode_loop-IsText : (s : Bytes) (room : ℕ) → IsText s → IsText (encode_loop s room).out
unfolding encode_loop
encode_loop-IsText [] room h = tt
encode_loop-IsText (c ∷ s) zero h = tt
encode_loop-IsText (c ∷ s) (suc room) h =
    let Text = λ (r : Encoded). IsText r.out in
    let facts = text_facts c h.0.1 in
    if_split Text (is_kept c) _ _ (λ e. (h.0, encode_loop-IsText s room h.1))
      (λ e.
        if_split Text (ltb 1 room) _ _
          (λ l.
            ((omega arith, omega arith), (facts.0, (facts.1, encode_loop-IsText s (room - 2) h.1))))
          (λ l. tt))

pub encoded-IsText : (s : Bytes) → IsText s → IsText (encoded s)
unfolding encoded mg_url_encode
encoded-IsText s h = encode_loop-IsText s (3 * length s + 1 - 1) h

encode_loop-longer :
    (s : Bytes) (room : ℕ)
    → (encode_loop s room).whole ≡ true
    → length s ≤ length (encode_loop s room).out
unfolding encode_loop
encode_loop-longer [] room w = omega arith
encode_loop-longer (c ∷ s) zero w = cc
encode_loop-longer (c ∷ s) (suc room) w =
    if_split (λ (r : Encoded). r.whole ≡ true → length (c ∷ s) ≤ length r.out) (is_kept c) _ _
      (λ e v. omega (arith, encode_loop-longer s room v))
      (λ e.
        if_split (λ (r : Encoded). r.whole ≡ true → length (c ∷ s) ≤ length r.out) (ltb 1 room) _ _
          (λ l v. omega (arith, encode_loop-longer s (room - 2) v)) (λ l v. cc))
      w

pub encoded-whole : (s : Bytes) → (mg_url_encode s (3 * length s + 1)).whole ≡ true
encoded-whole s = mg_url_encode-whole s (3 * length s + 1) (omega arith)

pub encoded-longer : (s : Bytes) → length s ≤ length (encoded s)
unfolding encoded mg_url_encode
encoded-longer s = encode_loop-longer s (3 * length s + 1 - 1) (encoded-whole s)

-- Encoded text, read back into a buffer that has room for it.
pub encoded-into :
    (s : Bytes) (dst_len : ℕ)
    → IsText s
    → length s < dst_len
    → mg_url_decode (encoded s) dst_len true ≡ complete s
unfolding encoded
encoded-into s dst_len h l =
    mg_url_decode-mg_url_encode true s (3 * length s + 1) dst_len h l (encoded-whole s)

pub encoded-read :
    (s : Bytes) → IsText s → mg_url_decode (encoded s) (length (encoded s) + 1) true ≡ complete s
unfolding encoded
encoded-read s h =
    mg_url_decode-mg_url_encode true s (3 * length s + 1) (length (encoded s) + 1) h
      (omega (arith, encoded-longer s)) (encoded-whole s)

pub encoded-decoded : (s : Bytes) → IsText s → url_decode_in_place (encoded s) ≡ s
unfolding url_decode_in_place
encoded-decoded s h = rw (url_decode_in_place, encoded-read s h) refl

pub encoded-plain : (s : Bytes) → IsText s → All (λ c. is_plain c ≡ true) (encoded s)
unfolding encoded mg_url_encode
encoded-plain s h = encode_loop-plain s (3 * length s + 1 - 1) h
