-- ===== src/Url.antt =====
-- URL encoding in src/civetweb.c: mg_url_decode, url_decode_in_place and mg_url_encode.
pub mod Decode
pub mod RoundTrip
use civetweb.Base.{Bool, Bytes, [], bit_and, bit_or, codes, drop, false, if◌then◌else◌, leb}
use civetweb.Base.{length, ltb, negsuc, pos, suc, true, zero, ℕ, ℤ, ◌%◌, ◌&&◌, ◌*◌, ◌++◌, ◌+◌}
use civetweb.Base.{◌-◌, ◌/◌, ◌==◌, ◌^◌, ◌||◌, ◌∷◌}
use civetweb.Ctype.{tolower, isdigit, isxdigit, isalnum, contains}

-- What a decoding loop leaves in `dst`, and how it ends: the whole source is used (the result is
-- the number of bytes written), the buffer is full, or a byte is met that is not allowed. The
-- last two answer -1, and the last one leaves `dst` without a terminator.
pub data Decoded : Type 0 where
  complete truncated invalid : Bytes → Decoded

-- One more byte in front of what the rest of the loop writes.
abbrev pub write : ℕ → Decoded → Decoded
write c (complete out) = complete (c ∷ out)
write c (truncated out) = truncated (c ∷ out)
write c (invalid out) = invalid (c ∷ out)

-- HEXTOI, on a digit or a letter in lower case
unfoldable pub hextoi : ℕ → ℕ
unfolding isdigit
hextoi x = if isdigit x then x - 48 else x - 87

-- (HEXTOI(a) << 4) | HEXTOI(b), as a char; `a` and `b` are the lower-case digits
unfoldable pub hex_byte : ℕ → ℕ → ℕ
unfolding hextoi tolower
hex_byte x y = bit_or (hextoi (tolower x) * 2 ^ 4) (hextoi (tolower y)) % 2 ^ 8

-- The branches for a byte that begins no escape: `+` in a form, a byte that is not allowed, or a
-- byte that is copied. The last argument is the loop on what follows.
unfoldable pub decode_plain : Bool → ℕ → Decoded → Decoded
decode_plain form c more =
    if form && c == b'+' then write 32 more else if leb c 32 then invalid [] else write c more

-- The loop, with `room` = dst_len - 1 - j bytes left in the buffer in front of the terminator.
unfoldable pub decode_loop : Bool → Bytes → ℕ → Decoded
unfolding hex_byte decode_plain isxdigit
decode_loop form [] room = complete []
decode_loop form (c ∷ src) zero = truncated []
decode_loop form (c ∷ x ∷ y ∷ src) (suc room) =
    let escaped = write (hex_byte x y) (decode_loop form src room) in
    let plain = decode_plain form c (decode_loop form (x ∷ y ∷ src) room) in
    if c == b'%' && (isxdigit x && isxdigit y) then escaped else plain
decode_loop form (c ∷ src) (suc room) = decode_plain form c (decode_loop form src room)

-- `src` is the `src_len` bytes of the source; `dst_len` is positive.
unfoldable pub mg_url_decode : Bytes → ℕ → Bool → Decoded
unfolding decode_loop
mg_url_decode src dst_len form = decode_loop form src (dst_len - 1)

-- The value that `mg_url_decode` returns.
abbrev pub decode_result : Decoded → ℤ
decode_result (complete out) = pos (length out)
decode_result (truncated out) = negsuc 0
decode_result (invalid out) = negsuc 0

-- The buffer holds source and result; the result is not longer (Decode.decode_loop-length). Where
-- an invalid byte stops the loop, the bytes behind those written are still the source's.
unfoldable pub url_decode_in_place : Bytes → Bytes
unfolding mg_url_decode
url_decode_in_place buf = elim (mg_url_decode buf (length buf + 1) true) [
  | complete out ↦ out
  | truncated out ↦ out
  | invalid out ↦ out ++ drop (length out) buf
]

abbrev pub dont_escape : Bytes
dont_escape = codes "._-$,;~()"

-- hex[d] for d < 16
unfoldable pub hex_digit : ℕ → ℕ
hex_digit d = if ltb d 10 then d + 48 else d + 87

unfoldable pub is_kept : ℕ → Bool
unfolding isalnum contains
is_kept c = isalnum c || contains dont_escape c

-- What is in `dst` at the end, and whether the whole source was used.
pub record Encoded : Type 0 where
  pub out : Bytes
  pub whole : Bool

abbrev pub emit : Bytes → Encoded → Encoded
emit front r = record { out = front ++ r.out; whole = r.whole }

-- The loop, with `room` = end - pos.
unfoldable pub encode_loop : Bytes → ℕ → Encoded
unfolding is_kept hex_digit
encode_loop [] room = record { out = []; whole = true }
encode_loop (c ∷ src) zero = record { out = []; whole = false }
encode_loop (c ∷ src) (suc room) =
    let kept = emit (c ∷ []) (encode_loop src room) in
    let escape = b'%' ∷ hex_digit (c / 2 ^ 4) ∷ hex_digit (bit_and c 0xf) ∷ [] in
    let escaped = emit escape (encode_loop src (room - 2)) in
    if is_kept c then kept else if ltb 1 room then escaped else record { out = []; whole = false }

-- `dst_len` is positive.
unfoldable pub mg_url_encode : Bytes → ℕ → Encoded
unfolding encode_loop
mg_url_encode src dst_len = encode_loop src (dst_len - 1)

abbrev pub encode_result : Encoded → ℤ
encode_result r = if r.whole then pos (length r.out) else negsuc 0
