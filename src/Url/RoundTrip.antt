-- ===== src/Url/RoundTrip.antt =====
-- Decoding after encoding, for mg_url_encode and mg_url_decode of src/civetweb.c.
use civetweb.Base.{==_iff, Bool, Bool-cases, Bytes, IsText, [], holds_up_to, holds_up_to-true, ap}
use civetweb.Base.{ap₂, arith, bit_and, inl, inr, length, ltb, lt→ltb, not, refl, suc, true}
use civetweb.Base.{zero, ℕ, ◌&&◌, ◌*◌, ◌-◌, ◌/◌, ◌<◌, ◌==◌, ◌^◌, ◌||◌, ◌∙◌, ◌∷◌, ◌≡◌, ◌≢◌, ◌≤◌}
use civetweb.Ctype.{isxdigit}
use civetweb.Url.{Decoded, complete, write, decode_plain, decode_loop, hex_byte, hex_digit}
use civetweb.Url.{mg_url_decode, encode_loop, mg_url_encode, is_kept, Encoded, emit}

-- What the two branches of the encoder write, read back, for every byte.
kept_test : ℕ → Bool
unfolding is_kept
kept_test c = not (is_kept c) || (ltb 32 c && (not (c == b'%') && not (c == b'+')))

kept_table : holds_up_to 256 kept_test ≡ true
unfolding holds_up_to kept_test
kept_table = refl

kept_facts : (c : ℕ) → c < 256 → is_kept c ≡ true → (32 < c) × (c ≢ b'%') × (c ≢ b'+')
unfolding kept_test
kept_facts c h k = ground (arith, holds_up_to-true 256 kept_test c kept_table h)

escape_test : ℕ → Bool
unfolding isxdigit hex_digit hex_byte
escape_test c =
    let x = hex_digit (c / 2 ^ 4) in
    let y = hex_digit (bit_and c 0xf) in isxdigit x && (isxdigit y && hex_byte x y == c)

escape_table : holds_up_to 256 escape_test ≡ true
unfolding holds_up_to escape_test
escape_table = refl

and_true : (a b : Bool) → (a && b) ≡ true → (a ≡ true) × (b ≡ true)
and_true a b h = ground arith

escape_facts :
    (c : ℕ)
    → c < 256
    → ((isxdigit (hex_digit (c / 2 ^ 4)) && isxdigit (hex_digit (bit_and c 0xf))) ≡ true)
      × (hex_byte (hex_digit (c / 2 ^ 4)) (hex_digit (bit_and c 0xf)) ≡ c)
unfolding escape_test
escape_facts c h =
    let x = hex_digit (c / 2 ^ 4) in
    let y = hex_digit (bit_and c 0xf) in
    let (p, q) = and_true (isxdigit x) _ (holds_up_to-true 256 escape_test c escape_table h) in
    let (r, s) = and_true (isxdigit y) _ q in (rw (p, r) refl, (==_iff _ c).0 s)

decode_plain-kept :
    (form : Bool) (c : ℕ) (d : Decoded) → 32 < c → c ≢ b'+' → decode_plain form c d ≡ write c d
unfolding decode_plain
decode_plain-kept form c d h k = ground arith

decode_loop-kept :
    (form : Bool) (c : ℕ) (t : Bytes) (room : ℕ)
    → 32 < c
    → c ≢ b'%'
    → c ≢ b'+'
    → decode_loop form (c ∷ t) (suc room) ≡ write c (decode_loop form t room)
unfolding decode_loop
decode_loop-kept form c [] room h k l = decode_plain-kept form c (decode_loop form [] room) h l
decode_loop-kept form c (x ∷ []) room h k l =
    decode_plain-kept form c (decode_loop form (x ∷ []) room) h l
decode_loop-kept form c (x ∷ y ∷ t) room h k l =
    ground (arith, decode_plain-kept form c (decode_loop form (x ∷ y ∷ t) room) h l)

decode_loop-escape :
    (form : Bool) (x y : ℕ) (t : Bytes) (room : ℕ)
    → (isxdigit x && isxdigit y) ≡ true
    → decode_loop form (b'%' ∷ x ∷ y ∷ t) (suc room)
      ≡ write (hex_byte x y) (decode_loop form t room)
unfolding decode_loop
decode_loop-escape form x y t room h = rw h

-- Reading back what the loop wrote, when it came to the end of its source.
abbrev ReadsBack : Bool → Bytes → Encoded → ℕ → Type 0
ReadsBack form src r room = r.whole ≡ true → decode_loop form r.out room ≡ complete src

ReadsBack-kept :
    (form : Bool) (c : ℕ) (src : Bytes) (r : Encoded) (room : ℕ)
    → 32 < c
    → c ≢ b'%'
    → c ≢ b'+'
    → ReadsBack form src r room
    → ReadsBack form (c ∷ src) (emit (c ∷ []) r) (suc room)
ReadsBack-kept form c src r room h k l ih w =
    decode_loop-kept form c r.out room h k l ∙ ap (write c) (ih w)

ReadsBack-escape :
    (form : Bool) (c : ℕ) (src : Bytes) (r : Encoded) (room : ℕ)
    → c < 256
    → ReadsBack form src r room
    → ReadsBack form
        (c ∷ src)
        (emit (b'%' ∷ hex_digit (c / 2 ^ 4) ∷ hex_digit (bit_and c 0xf) ∷ []) r)
        (suc room)
ReadsBack-escape form c src r room h ih w =
    let facts = escape_facts c h in
    decode_loop-escape form (hex_digit (c / 2 ^ 4)) (hex_digit (bit_and c 0xf)) r.out room facts.0
    ∙ ap₂ write facts.1 (ih w)

encode_loop-ReadsBack :
    (form : Bool) (src : Bytes) (space room : ℕ)
    → IsText src
    → length src ≤ room
    → ReadsBack form src (encode_loop src space) room
unfolding encode_loop
encode_loop-ReadsBack form [] space room h k = λ w. unfold decode_loop in refl
encode_loop-ReadsBack form (c ∷ src) zero room h k = λ w. cc
encode_loop-ReadsBack form (c ∷ src) (suc space) zero h k = absurd (omega arith)
encode_loop-ReadsBack form (c ∷ src) (suc space) (suc room) h k =
    let kept = encode_loop-ReadsBack form src space room h.1 (omega arith) in
    let escaped = encode_loop-ReadsBack form src (space - 2) room h.1 (omega arith) in
    elim (Bool-cases (is_kept c)) [
      | inl e ↦
          let facts = kept_facts c h.0.1 e in
          rw e (ReadsBack-kept form c src (encode_loop src space) room facts.0 facts.1 facts.2 kept)
      | inr e ↦ rw e (elim (Bool-cases (ltb 1 space)) [
        | inl l ↦
            rw l (ReadsBack-escape form c src (encode_loop src (space - 2)) room h.0.1 escaped)
        | inr l ↦ rw l (λ w. cc)
      ])
    ]

-- A text without a zero byte that fits the buffer when encoded is had back by decoding,
-- form-encoded or not, into any buffer that holds it with its terminator.
pub mg_url_decode-mg_url_encode :
    (form : Bool) (src : Bytes) (space room : ℕ)
    → IsText src
    → length src < room
    → (mg_url_encode src space).whole ≡ true
    → mg_url_decode (mg_url_encode src space).out room form ≡ complete src
unfolding mg_url_encode mg_url_decode
mg_url_decode-mg_url_encode form src space room h k w =
    encode_loop-ReadsBack form src (space - 1) (room - 1) h (omega arith) w

encode_loop-whole :
    (src : Bytes) (room : ℕ) → 3 * length src ≤ room → (encode_loop src room).whole ≡ true
unfolding encode_loop
encode_loop-whole [] room h = refl
encode_loop-whole (c ∷ src) zero h = absurd (omega arith)
encode_loop-whole (c ∷ src) (suc room) h =
    let kept = encode_loop-whole src room (omega arith) in
    let escaped = encode_loop-whole src (room - 2) (omega arith) in
    let space = lt→ltb 1 room (omega arith) in
    elim (Bool-cases (is_kept c)) [ inl e ↦ rw e kept | inr e ↦ rw (e, space) escaped ]

-- A buffer of three bytes for each byte of the text, and one for the terminator, is enough for
-- `mg_url_encode` to encode the whole text.
pub mg_url_encode-whole :
    (src : Bytes) (dst_len : ℕ)
    → 3 * length src < dst_len
    → (mg_url_encode src dst_len).whole ≡ true
unfolding mg_url_encode
mg_url_encode-whole src dst_len h = encode_loop-whole src (dst_len - 1) (omega arith)
