-- ===== src/Hpack/Whole.antt =====
-- Whole strings through hpack_encode and hpack_decode of src/http2.inl.
use civetweb.Base.{All, Bool, Bytes, bit_and}
use civetweb.Base.{drop, if◌then◌else◌}
use civetweb.Base.{leb, length}
use civetweb.Base.{not, replicate, some, take, ℕ, ◌&&◌}
use civetweb.Base.{◌*◌, ◌++◌, ◌+◌, ◌-◌, ◌/◌, ◌<◌, ◌==◌, ◌∷◌, ◌≡◌, ◌≤◌, ◌⊎◌}
use civetweb.Hpack.{hpack_decode, BitString, huff_encode_loop, EncodedString}
use civetweb.Hpack.Encode.{text_length}

-- The bytes that the codes of a text take.
abbrev pub text_bytes : Bool → Bytes → ℕ
text_bytes lower load = (text_length lower load + 7) / 8

-- The buffer has room for the text with a terminator and for its codes, and is zero where hpack_encode
-- writes codes without having cleared it.
abbrev pub Fits : Bool → Bytes → Bytes → Type 0
Fits lower load store =
    (length load < length store)
    × (text_bytes lower load < length store)
    × All (λ b. b ≡ 0) (take (text_bytes lower load - length load) (drop (length load + 1) store))

-- The bytes behind the first one, when the loop begins.
abbrev begun : Bytes → Bytes → Bytes
begun store load = replicate (length load) 0 ++ drop (length load + 1) store

-- What the loop and the padding leave.
abbrev encoded_bits : Bool → Bytes → Bytes → BitString
encoded_bits lower load store =
    huff_encode_loop lower load (record { target = begun store load; len_bits = 0 })

abbrev spare : Bool → Bytes → ℕ
spare lower load = text_bytes lower load * 8 - text_length lower load

-- The first byte.
length_test : ℕ → Bool
length_test k = bit_and (0x80 + k) 0x80 == 0x80 && (bit_and (0x80 + k) 0x7f == k && not (k == 0x7f))

-- The end of hpack_encode.
abbrev finish : ℕ → Bytes → EncodedString
finish len_bytes target =
    if leb 127 len_bytes
    then record { ret = 0; store = 0 ∷ target }
    else record { ret = len_bytes + 1; store = (0x80 + len_bytes) ∷ target }

-- Either the codes take too many bytes and 0 is returned, or hpack_decode reads the text back and
-- ends where the codes do.
abbrev pub ReadsBack : Bytes → ℕ → EncodedString → Type 0
ReadsBack text k r =
    (127 ≤ k) × (r.ret ≡ 0)
    ⊎ (r.ret ≡ k + 1)
      × (hpack_decode r.store 0 r.ret ≡ some (record { result = some text; index = k + 1 }))
