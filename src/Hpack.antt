-- ===== src/Hpack.antt =====
-- HPACK in src/http2.inl: hpack_getnum, hpack_decode, append_bits and hpack_encode. Allocations succeed.
-- Reading behind the end of a buffer gives 0 and writing there changes nothing; no result below rests
-- on either.
pub mod Table
pub mod Append
pub mod Codes
pub mod Encode
pub mod RoundTrip
pub mod Whole
pub mod Ends
pub mod Integer
use civetweb.Base.{Bool, Bytes, List, Option, [], bit, bit_and, bit_or, drop, get_or}
use civetweb.Base.{if◌then◌else◌, leb, length, ltb, none, not, replicate, set, some, suc, take}
use civetweb.Base.{zero, ℕ, ◌%◌, ◌*◌, ◌++◌, ◌+◌, ◌-◌, ◌/◌, ◌==◌, ◌^◌, ◌||◌, ◌∷◌}
use civetweb.Ctype.{tolower}
use civetweb.Hpack.Table.{HuffCode, hpack_huff_dec, hpack_huff_end_code, hpack_huff_start_index}

-- A number, and the index behind it; `none` where an `int` is shifted out of its range, which is
-- undefined.
abbrev pub Number : Type 0
Number = Option (ℕ × ℕ)

-- The loop over groups of seven bits, with `rounds` rounds left before the shift by `m` is as wide as
-- the `int`.
unfoldable pub getnum_loop : ℕ → Bytes → ℕ → ℕ → ℕ → Number
getnum_loop zero buf i num m = none
getnum_loop (suc rounds) buf i num m =
    let b = get_or buf (i + 1) 0 in
    let group = bit_and b 0x7f * 2 ^ m in
    let more = getnum_loop rounds buf (i + 1) (num + group) (m + 7) in
    if leb (2 ^ 31) group
    then none
    else if bit_and b 0x80 == 0x80
    then more
    else some (num + group, i + 2)

unfoldable pub hpack_getnum : Bytes → ℕ → ℕ → Number
hpack_getnum buf i idx_mask =
    let num = bit_and (get_or buf i 0) idx_mask in
    if num == idx_mask then getnum_loop 5 buf i num 0 else some (num, i + 1)

-- (pData[bitRead / 8] >> (7 - (bitRead & 7))) & 1
unfoldable pub bit_at : Bytes → ℕ → ℕ
bit_at p n = bit (get_or p (n / 8) 0) (7 - n % 8)

-- How the collecting of bits ends: all are used, or there is a code, with its number of bits and the
-- number of bits left.
pub data Collected : Type 0 where
  used_up : Collected
  code : (accu bc left : ℕ) → Collected

-- The test behind `while`, when `bc` bits are in `accu`.
unfoldable pub goes_on : ℕ → ℕ → Bool
goes_on bc accu = ltb bc 5 || ltb (get_or hpack_huff_end_code (bc - 5) 0) accu

-- The loop, with `left` bits of the string to read; the lowest bit of the shifted `accu` is 0.
unfoldable pub collect : ℕ → Bytes → ℕ → ℕ → ℕ → Collected
collect zero p bit_read accu bc = used_up
collect (suc left) p bit_read accu bc =
    let next = accu * 2 % 2 ^ 32 + bit_at p bit_read in
    let more = collect left p (bit_read + 1) next (bc + 1) in
    if goes_on (bc + 1) next then more else code next (bc + 1) left

unfoldable pub find_encoded : ℕ → List HuffCode → Option ℕ
find_encoded accu [] = none
find_encoded accu (c ∷ rest) =
    let later = find_encoded accu rest in if accu == c.encoded then some c.decoded else later

-- The search from the first code with `bc` bits on, which ends in front of index 256.
unfoldable pub find_symbol : ℕ → ℕ → Option ℕ
find_symbol accu bc =
    let n = get_or hpack_huff_start_index (bc - 5) 0 in
    find_encoded accu (take (256 - n) (drop n hpack_huff_dec))

abbrev pub store_symbol : Option ℕ → Option Bytes → Option Bytes
store_symbol s none = none
store_symbol none (some out) = some out
store_symbol (some b) (some out) = some (b ∷ out)

abbrev pub stored_count : Option ℕ → ℕ → ℕ
stored_count none n = n
stored_count (some b) n = n + 1

-- What a round does with what it collected; `stored` bytes have been stored.
abbrev pub decode_round : Collected → ℕ → ℕ → (ℕ → ℕ → ℕ → Option Bytes) → Option Bytes
decode_round used_up bit_read stored more = some []
decode_round (code accu bc left) bit_read stored more =
    let s = find_symbol accu bc in
    let rest = more left (bit_read + bc) (stored_count s stored) in
    if stored_count s stored == 2048 then none else store_symbol s rest

-- The loop over the codes of a string; each takes a bit at least.
unfoldable pub huff_decode_loop : ℕ → Bytes → ℕ → ℕ → ℕ → Option Bytes
huff_decode_loop zero p left bit_read stored = none
huff_decode_loop (suc fuel) p left bit_read stored =
    decode_round (collect left p bit_read 0 0) bit_read stored
      (λ l r s. huff_decode_loop fuel p l r s)

-- The bytes up to a terminator.
unfoldable pub c_string : Bytes → Bytes
c_string [] = []
c_string (c ∷ s) = let more = c ∷ c_string s in if c == 0 then [] else more

-- The string that is returned, where `none` is NULL, and the index.
pub record DecodedString : Type 0 where
  pub result : Option Bytes
  pub index : ℕ

abbrev pub huffman_result : Option Bytes → ℕ → ℕ → DecodedString
huffman_result none i byte_len = record { result = none; index = i }
huffman_result (some str) i byte_len = record { result = some (c_string str); index = i + byte_len }

-- What is done behind the length.
unfoldable pub decode_string : Bool → Bytes → ℕ → ℕ → ℕ → DecodedString
decode_string is_huff buf byte_len i max_i =
    let p = drop i buf in
    if ltb 1024 byte_len
    then record { result = none; index = i }
    else if ltb max_i (i + byte_len)
    then record { result = none; index = i }
    else if not is_huff
    then record { result = some (c_string (take byte_len p)); index = i + byte_len }
    else huffman_result (huff_decode_loop (byte_len * 8 + 1) p (byte_len * 8) 0 0) i byte_len

abbrev pub with_length : Bool → Bytes → ℕ → Number → Option DecodedString
with_length is_huff buf max_i none = none
with_length is_huff buf max_i (some (byte_len, i)) =
    some (decode_string is_huff buf byte_len i max_i)

-- `none` where hpack_getnum is undefined.
unfoldable pub hpack_decode : Bytes → ℕ → ℕ → Option DecodedString
hpack_decode buf i max_i =
    with_length (bit_and (get_or buf i 0) 0x80 == 0x80) buf max_i (hpack_getnum buf i 0x7f)

-- target[o] |= ac
unfoldable pub or_byte : Bytes → ℕ → ℕ → Bytes
or_byte target o ac = set target o (bit_or (get_or target o 0) ac % 2 ^ 8)

-- Each call leaves fewer bits than the one before, so that `value_bits` calls are enough.
unfoldable pub append_loop : ℕ → Bytes → ℕ → ℕ → ℕ → Bytes
append_loop zero target offset value value_bits = target
append_loop (suc calls) target offset value value_bits =
    let o = offset / 8 in
    let remaining = 8 - offset % 8 in
    let v = value % 2 ^ value_bits in
    let more =
      append_loop calls (or_byte target o (v / 2 ^ (value_bits - remaining))) (offset + remaining) v
        (value_bits - remaining) in
    if leb value_bits remaining then or_byte target o (v * 2 ^ (remaining - value_bits)) else more

unfoldable pub append_bits : Bytes → ℕ → ℕ → ℕ → Bytes
append_bits target offset value value_bits = append_loop value_bits target offset value value_bits

unfoldable pub find_decoded : ℕ → List HuffCode → Option HuffCode
find_decoded b [] = none
find_decoded b (c ∷ rest) =
    let later = find_decoded b rest in if c.decoded == b then some c else later

-- The bytes behind the first one, and the number of bits in them.
pub record BitString : Type 0 where
  pub target : Bytes
  pub len_bits : ℕ

abbrev pub append_code : Option HuffCode → BitString → BitString
append_code none s = s
append_code (some c) s = record {
  target = append_bits s.target s.len_bits c.encoded c.bitcount;
  len_bits = s.len_bits + c.bitcount;
}

abbrev pub load_byte : Bool → ℕ → ℕ
load_byte lower c = if lower then tolower c else c

unfoldable pub huff_encode_loop : Bool → Bytes → BitString → BitString
huff_encode_loop lower [] s = s
huff_encode_loop lower (c ∷ load) s =
    huff_encode_loop lower load
      (append_code (find_decoded (load_byte lower c) (take 256 hpack_huff_dec)) s)

-- What is returned, and what is in `store`.
pub record EncodedString : Type 0 where
  pub ret : ℕ
  pub store : Bytes

abbrev pub pad : BitString → ℕ → Bytes
pad s spare_bits =
    if spare_bits == 0 then s.target else append_bits s.target s.len_bits 0xffffffff spare_bits

unfoldable pub hpack_encode : Bytes → Bytes → Bool → EncodedString
hpack_encode store load lower =
    let n = length load in
    let s =
      huff_encode_loop lower load
        (record { target = replicate n 0 ++ drop (n + 1) store; len_bits = 0 }) in
    let len_bytes = (s.len_bits + 7) / 8 in
    let target = pad s (len_bytes * 8 - s.len_bits) in
    if leb 127 len_bytes
    then record { ret = 0; store = 0 ∷ target }
    else record { ret = len_bytes + 1; store = (0x80 + len_bytes) ∷ target }
