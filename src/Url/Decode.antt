-- ===== src/Url/Decode.antt =====
-- Bounds of the decoding and encoding loops of src/civetweb.c.
use civetweb.Base.{Bool, Bool-cases, Bytes, [], arith, drop, inl, inr, length, length-append}
use civetweb.Base.{length-drop, ltb, suc, tests, true, zero, ℕ, ◌&&◌, ◌++◌, ◌+◌, ◌-◌, ◌<◌, ◌==◌}
use civetweb.Base.{◌∷◌, ◌≡◌, ◌≤◌}
use civetweb.Ctype.{isxdigit}
use civetweb.Url.{Decoded, complete, truncated, invalid, write, decode_plain, decode_loop, hex_byte}
use civetweb.Url.{mg_url_decode, url_decode_in_place, encode_loop, mg_url_encode, is_kept}

abbrev pub written : Decoded → Bytes
written (complete out) = out
written (truncated out) = out
written (invalid out) = out

length-write : (c : ℕ) (d : Decoded) → length (written (write c d)) ≡ length (written d) + 1
length-write c (complete out) = omega arith
length-write c (truncated out) = omega arith
length-write c (invalid out) = omega arith

decode_plain-length :
    (form : Bool) (c : ℕ) (d : Decoded)
    → length (written (decode_plain form c d)) ≤ length (written d) + 1
unfolding decode_plain
decode_plain-length form c d = ground (arith, length-write 32 d, length-write c d)

decode_loop-length :
    (form : Bool) (src : Bytes) (room : ℕ)
    → (length (written (decode_loop form src room)) ≤ length src)
      × (length (written (decode_loop form src room)) ≤ room)
unfolding decode_loop
decode_loop-length form [] room = omega arith
decode_loop-length form (c ∷ src) zero = omega arith
decode_loop-length form (c ∷ x ∷ y ∷ src) (suc room) =
    let short = decode_loop-length form src room in
    let long = decode_loop-length form (x ∷ y ∷ src) room in
    let plain = decode_plain-length form c (decode_loop form (x ∷ y ∷ src) room) in
    elim (Bool-cases (c == b'%' && (isxdigit x && isxdigit y))) [
      | inl e ↦ rw e (omega (arith, length-write (hex_byte x y) (decode_loop form src room)))
      | inr e ↦ rw e (omega arith)
    ]
decode_loop-length form (c ∷ src) (suc room) = omega (
  arith,
  decode_loop-length form src room,
  decode_plain-length form c (decode_loop form src room),
)

-- With a buffer that is not empty, decoding writes no more bytes than the source has, and leaves
-- room in the buffer for the terminator.
pub mg_url_decode_bounds :
    (form : Bool) (src : Bytes) (dst_len : ℕ)
    → 0 < dst_len
    → (length (written (mg_url_decode src dst_len form)) ≤ length src)
      × (length (written (mg_url_decode src dst_len form)) < dst_len)
unfolding mg_url_decode
mg_url_decode_bounds form src dst_len h = omega (arith, decode_loop-length form src (dst_len - 1))

length-drop_append :
    (out buf : Bytes) → length out ≤ length buf → length (out ++ drop (length out) buf) ≡ length buf
length-drop_append out buf h =
    omega (arith, length-append out (drop (length out) buf), length-drop (length out) buf)

-- Decoding in place stays inside the buffer that holds the text.
pub length-url_decode_in_place : (buf : Bytes) → length (url_decode_in_place buf) ≤ length buf
unfolding url_decode_in_place
length-url_decode_in_place buf =
    go (mg_url_decode buf (length buf + 1) true)
      (mg_url_decode_bounds true buf (length buf + 1) (omega arith)).0
  where
    go :
        (d : Decoded)
        → length (written d) ≤ length buf
        → length (elim d as (λ _. Bytes) [
          | complete out ↦ out
          | truncated out ↦ out
          | invalid out ↦ out ++ drop (length out) buf
        ])
          ≤ length buf
    go (complete out) h = h
    go (truncated out) h = h
    go (invalid out) h = omega (arith, length-drop_append out buf h)

encode_loop-length : (src : Bytes) (room : ℕ) → length (encode_loop src room).out ≤ room
unfolding encode_loop
encode_loop-length [] room = omega arith
encode_loop-length (c ∷ src) zero = omega arith
encode_loop-length (c ∷ src) (suc room) = elim (Bool-cases (is_kept c)) [
  | inl e ↦ rw e (omega (arith, encode_loop-length src room))
  | inr e ↦ rw e (elim (Bool-cases (ltb 1 room)) [
    | inl l ↦ rw l (omega (tests, encode_loop-length src (room - 2)))
    | inr l ↦ rw l (omega arith)
  ])
]

-- With a buffer that is not empty, encoding leaves room in it for the terminator, whole or cut
-- short.
pub mg_url_encode_bounds :
    (src : Bytes) (dst_len : ℕ) → 0 < dst_len → length (mg_url_encode src dst_len).out < dst_len
unfolding mg_url_encode
mg_url_encode_bounds src dst_len h = omega (arith, encode_loop-length src (dst_len - 1))
