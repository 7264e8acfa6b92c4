-- ===== src/Examples/Packed.antt =====
-- The theorems on strings in HPACK at inputs.
use civetweb.Base.{Bytes, [], arith, codes, length, ltb→lt, refl, replicate, some}
use civetweb.Base.{true, ◌++◌, ◌+◌, ◌∷◌, ◌≡◌}
use civetweb.Hpack.{hpack_getnum, decode_string}
use civetweb.Hpack.Integer.{groups, encoded_integer, hpack_getnum-encoded_integer}
use civetweb.Hpack.Ends.{Answers, decode_string-Answers}

abbrev name : Bytes
name = codes "www.Site-7"

abbrev zeros : Bytes
zeros = replicate 12 0

abbrev broken : Bytes
broken = 0xff ∷ 0x1f ∷ 0xff ∷ 0xff ∷ 0xff ∷ 0x00 ∷ []

decode_string-Answers_example : Answers 6 (decode_string true broken 5 1 6)
decode_string-Answers_example = decode_string-Answers true broken 5 1 6 (omega arith) (omega arith)

-- The second example of RFC 7541, section C.1.
encoded_1337 : encoded_integer 5 0 1337 ≡ 31 ∷ 154 ∷ 10 ∷ []
unfolding encoded_integer groups
encoded_1337 = refl

hpack_getnum-encoded_integer_example :
    hpack_getnum ((7 ∷ []) ++ (encoded_integer 5 0 1337 ++ (9 ∷ []))) 1 31
    ≡ some (1337, 1 + length (encoded_integer 5 0 1337))
hpack_getnum-encoded_integer_example =
    hpack_getnum-encoded_integer 5 0 1337 (7 ∷ []) (9 ∷ []) (ltb→lt 5 9 refl) (omega arith)
      (ltb→lt 1337 2147483648 refl)
