-- ===== src/Base64.antt =====
-- mg_base64_encode, b64reverse and mg_base64_decode of src/civetweb.c.
pub mod RoundTrip
use civetweb.Base.{Bytes, Option, [], bit_and, bit_or, codes, get_or, if◌then◌else◌, leb, length}
use civetweb.Base.{ltb, negsuc, none, pos, some, take, ℕ, ℤ, ◌%◌, ◌&&◌, ◌*◌, ◌++◌, ◌+◌, ◌-◌, ◌/◌}
use civetweb.Base.{◌==◌, ◌^◌, ◌∷◌}

abbrev b64 : Bytes
b64 = codes "ABCDEFGHIJKLMNOPQRSTUVWXYZabcdefghijklmnopqrstuvwxyz0123456789+/"

unfoldable pub b64_char : ℕ → ℕ
b64_char n = get_or b64 n 0

-- The characters for one, two and three bytes, with the padding of the last group.
abbrev pub first_char : ℕ → ℕ
first_char a = b64_char (a / 2 ^ 2)

abbrev pub second_char : ℕ → ℕ → ℕ
second_char a b = b64_char (bit_or (bit_and a 3 * 2 ^ 4) (b / 2 ^ 4))

abbrev pub third_char : ℕ → ℕ → ℕ
third_char b c = b64_char (bit_or (bit_and b 15 * 2 ^ 2) (c / 2 ^ 6))

abbrev pub fourth_char : ℕ → ℕ
fourth_char c = b64_char (bit_and c 63)

-- The loop, three bytes a round, and the padding behind it; the terminator is left out.
unfoldable pub encode_groups : Bytes → Bytes
unfolding b64_char
encode_groups [] = []
encode_groups (a ∷ []) = first_char a ∷ second_char a 0 ∷ b'=' ∷ b'=' ∷ []
encode_groups (a ∷ b ∷ []) = first_char a ∷ second_char a b ∷ third_char b 0 ∷ b'=' ∷ []
encode_groups (a ∷ b ∷ c ∷ src) =
    first_char a ∷ second_char a b ∷ third_char b c ∷ fourth_char c ∷ encode_groups src

-- The answer, -1 for success or 0 for a buffer that is too small, the text in `dst`, and the new
-- value of `*dst_len`; `none` is a NULL `dst_len`.
pub record Encoded : Type 0 where
  pub ret : ℤ
  pub dst : Bytes
  pub dst_len : Option ℕ

unfoldable pub mg_base64_encode : Bytes → Option ℕ → Encoded
unfolding encode_groups
mg_base64_encode src none = record { ret = negsuc 0; dst = encode_groups src; dst_len = none }
mg_base64_encode src (some limit) =
    let expected_len = (length src + 2) / 3 * 4 + 1 in
    if ltb limit expected_len
    then record { ret = pos 0; dst = []; dst_len = some expected_len }
    else record {
      ret = negsuc 0;
      dst = encode_groups src;
      dst_len = some (length (encode_groups src) + 1);
    }

unfoldable pub b64reverse : ℕ → ℕ
b64reverse letter =
    if leb b'A' letter && leb letter b'Z'
    then letter - b'A'
    else if leb b'a' letter && leb letter b'z'
    then letter - b'a' + 26
    else if leb b'0' letter && leb letter b'9'
    then letter - b'0' + 52
    else if letter == b'+'
    then 62
    else if letter == b'/'
    then 63
    else if letter == b'='
    then 255
    else 254

-- What the loop ends with: the index of a character that is refused, or the decoded bytes.
pub data Groups : Type 0 where
  bad_at : ℕ → Groups
  decoded : Bytes → Groups

abbrev pub in_front : Bytes → Groups → Groups
in_front out (bad_at i) = bad_at i
in_front out (decoded rest) = decoded (out ++ rest)

-- The bytes that one group of four values adds.
unfoldable pub group_bytes : ℕ → ℕ → ℕ → ℕ → Bytes
group_bytes a b c d =
    let one = (a * 2 ^ 2 % 2 ^ 8 + b / 2 ^ 4) % 2 ^ 8 in
    let two = (b * 2 ^ 4 % 2 ^ 8 + c / 2 ^ 2) % 2 ^ 8 in
    let three = (c * 2 ^ 6 % 2 ^ 8 + d) % 2 ^ 8 in
    if c == 255 then one ∷ [] else if d == 255 then one ∷ two ∷ [] else one ∷ two ∷ three ∷ []

-- One group at index `i`; `more` is the rest of the loop.
unfoldable pub decode_group : ℕ → ℕ → ℕ → ℕ → ℕ → Groups → Groups
unfolding b64reverse group_bytes
decode_group i w x y z more =
    let a = b64reverse w in
    let b = b64reverse x in
    let c = b64reverse y in
    let d = b64reverse z in
    if leb 254 a
    then bad_at i
    else if leb 254 b
    then bad_at (i + 1)
    else if c == 254
    then bad_at (i + 2)
    else if d == 254
    then bad_at (i + 3)
    else in_front (group_bytes a b c d) more

-- The loop; characters behind the end of the source are read as 0.
unfoldable pub decode_groups : ℕ → Bytes → Groups
unfolding decode_group
decode_groups i [] = decoded []
decode_groups i (w ∷ []) = decode_group i w 0 0 0 (decoded [])
decode_groups i (w ∷ x ∷ []) = decode_group i w x 0 0 (decoded [])
decode_groups i (w ∷ x ∷ y ∷ []) = decode_group i w x y 0 (decoded [])
decode_groups i (w ∷ x ∷ y ∷ z ∷ src) = decode_group i w x y z (decode_groups (i + 4) src)

-- The answer, the decoded bytes that fit `dst` where the answer is no index of a bad character, and
-- the new `*dst_len`. Without a `dst_len` there is no limit.
pub record Result : Type 0 where
  pub ret : ℤ
  pub dst : Bytes
  pub dst_len : Option ℕ

unfoldable pub finish_decode : Option ℕ → Groups → Result
finish_decode none (bad_at i) = record { ret = pos i; dst = []; dst_len = none }
finish_decode (some limit) (bad_at i) = record { ret = pos i; dst = []; dst_len = some 0 }
finish_decode none (decoded out) = record { ret = negsuc 0; dst = out; dst_len = none }
finish_decode (some limit) (decoded out) =
    let used = length out + 1 in
    record {
      ret = if ltb limit used then pos 0 else negsuc 0;
      dst = take limit out;
      dst_len = some used;
    }

unfoldable pub mg_base64_decode : Bytes → Option ℕ → Result
unfolding decode_groups finish_decode
mg_base64_decode src dst_len = finish_decode dst_len (decode_groups 0 src)
