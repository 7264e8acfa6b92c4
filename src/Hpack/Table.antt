-- ===== src/Hpack/Table.antt =====
-- The tables of the Huffman code in src/http2.inl.
use civetweb.Base.{List, [], ℕ, ◌%◌, ◌^◌, ◌∷◌}

pub record HuffCode : Type 0 where
  pub decoded : ℕ
  pub bitcount : ℕ
  pub encoded : ℕ

abbrev huff_code : ℕ → ℕ → ℕ → HuffCode
huff_code decoded bitcount encoded = record {
  decoded = decoded;
  bitcount = bitcount;
  encoded = encoded;
}

-- The codes in the order of their lengths.
unfoldable pub hpack_huff_dec : List HuffCode
hpack_huff_dec =
    huff_code 48 5 0x0
    ∷ huff_code 49 5 0x1
    ∷ huff_code 50 5 0x2
    ∷ huff_code 97 5 0x3
    ∷ huff_code 99 5 0x4
    ∷ huff_code 101 5 0x5
    ∷ huff_code 105 5 0x6
    ∷ huff_code 111 5 0x7
    ∷ huff_code 115 5 0x8
    ∷ huff_code 116 5 0x9
    ∷ huff_code 32 6 0x14
    ∷ huff_code 37 6 0x15
    ∷ huff_code 45 6 0x16
    ∷ huff_code 46 6 0x17
    ∷ huff_code 47 6 0x18
    ∷ huff_code 51 6 0x19
    ∷ huff_code 52 6 0x1a
    ∷ huff_code 53 6 0x1b
    ∷ huff_code 54 6 0x1c
    ∷ huff_code 55 6 0x1d
    ∷ huff_code 56 6 0x1e
    ∷ huff_code 57 6 0x1f
    ∷ huff_code 61 6 0x20
    ∷ huff_code 65 6 0x21
    ∷ huff_code 95 6 0x22
    ∷ huff_code 98 6 0x23
    ∷ huff_code 100 6 0x24
    ∷ huff_code 102 6 0x25
    ∷ huff_code 103 6 0x26
    ∷ huff_code 104 6 0x27
    ∷ huff_code 108 6 0x28
    ∷ huff_code 109 6 0x29
    ∷ huff_code 110 6 0x2a
    ∷ huff_code 112 6 0x2b
    ∷ huff_code 114 6 0x2c
    ∷ huff_code 117 6 0x2d
    ∷ huff_code 58 7 0x5c
    ∷ huff_code 66 7 0x5d
    ∷ huff_code 67 7 0x5e
    ∷ huff_code 68 7 0x5f
    ∷ huff_code 69 7 0x60
    ∷ huff_code 70 7 0x61
    ∷ huff_code 71 7 0x62
    ∷ huff_code 72 7 0x63
    ∷ huff_code 73 7 0x64
    ∷ huff_code 74 7 0x65
    ∷ huff_code 75 7 0x66
    ∷ huff_code 76 7 0x67
    ∷ huff_code 77 7 0x68
    ∷ huff_code 78 7 0x69
    ∷ huff_code 79 7 0x6a
    ∷ huff_code 80 7 0x6b
    ∷ huff_code 81 7 0x6c
    ∷ huff_code 82 7 0x6d
    ∷ huff_code 83 7 0x6e
    ∷ huff_code 84 7 0x6f
    ∷ huff_code 85 7 0x70
    ∷ huff_code 86 7 0x71
    ∷ huff_code 87 7 0x72
    ∷ huff_code 89 7 0x73
    ∷ huff_code 106 7 0x74
    ∷ huff_code 107 7 0x75
    ∷ huff_code 113 7 0x76
    ∷ huff_code 118 7 0x77
    ∷ huff_code 119 7 0x78
    ∷ huff_code 120 7 0x79
    ∷ huff_code 121 7 0x7a
    ∷ huff_code 122 7 0x7b
    ∷ huff_code 38 8 0xf8
    ∷ huff_code 42 8 0xf9
    ∷ huff_code 44 8 0xfa
    ∷ huff_code 59 8 0xfb
    ∷ huff_code 88 8 0xfc
    ∷ huff_code 90 8 0xfd
    ∷ huff_code 33 10 0x3f8
    ∷ huff_code 34 10 0x3f9
    ∷ huff_code 40 10 0x3fa
    ∷ huff_code 41 10 0x3fb
    ∷ huff_code 63 10 0x3fc
    ∷ huff_code 39 11 0x7fa
    ∷ huff_code 43 11 0x7fb
    ∷ huff_code 124 11 0x7fc
    ∷ huff_code 35 12 0xffa
    ∷ huff_code 62 12 0xffb
    ∷ huff_code 0 13 0x1ff8
    ∷ huff_code 36 13 0x1ff9
    ∷ huff_code 64 13 0x1ffa
    ∷ huff_code 91 13 0x1ffb
    ∷ huff_code 93 13 0x1ffc
    ∷ huff_code 126 13 0x1ffd
    ∷ huff_code 94 14 0x3ffc
    ∷ huff_code 125 14 0x3ffd
    ∷ huff_code 60 15 0x7ffc
    ∷ huff_code 96 15 0x7ffd
    ∷ huff_code 123 15 0x7ffe
    ∷ huff_code 92 19 0x7fff0
    ∷ huff_code 195 19 0x7fff1
    ∷ huff_code 208 19 0x7fff2
    ∷ huff_code 128 20 0xfffe6
    ∷ huff_code 130 20 0xfffe7
    ∷ huff_code 131 20 0xfffe8
    ∷ huff_code 162 20 0xfffe9
    ∷ huff_code 184 20 0xfffea
    ∷ huff_code 194 20 0xfffeb
    ∷ huff_code 224 20 0xfffec
    ∷ huff_code 226 20 0xfffed
    ∷ huff_code 153 21 0x1fffdc
    ∷ huff_code 161 21 0x1fffdd
    ∷ huff_code 167 21 0x1fffde
    ∷ huff_code 172 21 0x1fffdf
    ∷ huff_code 176 21 0x1fffe0
    ∷ huff_code 177 21 0x1fffe1
    ∷ huff_code 179 21 0x1fffe2
    ∷ huff_code 209 21 0x1fffe3
    ∷ huff_code 216 21 0x1fffe4
    ∷ huff_code 217 21 0x1fffe5
    ∷ huff_code 227 21 0x1fffe6
    ∷ huff_code 229 21 0x1fffe7
    ∷ huff_code 230 21 0x1fffe8
    ∷ huff_code 129 22 0x3fffd2
    ∷ huff_code 132 22 0x3fffd3
    ∷ huff_code 133 22 0x3fffd4
    ∷ huff_code 134 22 0x3fffd5
    ∷ huff_code 136 22 0x3fffd6
    ∷ huff_code 146 22 0x3fffd7
    ∷ huff_code 154 22 0x3fffd8
    ∷ huff_code 156 22 0x3fffd9
    ∷ huff_code 160 22 0x3fffda
    ∷ huff_code 163 22 0x3fffdb
    ∷ huff_code 164 22 0x3fffdc
    ∷ huff_code 169 22 0x3fffdd
    ∷ huff_code 170 22 0x3fffde
    ∷ huff_code 173 22 0x3fffdf
    ∷ huff_code 178 22 0x3fffe0
    ∷ huff_code 181 22 0x3fffe1
    ∷ huff_code 185 22 0x3fffe2
    ∷ huff_code 186 22 0x3fffe3
    ∷ huff_code 187 22 0x3fffe4
    ∷ huff_code 189 22 0x3fffe5
    ∷ huff_code 190 22 0x3fffe6
    ∷ huff_code 196 22 0x3fffe7
    ∷ huff_code 198 22 0x3fffe8
    ∷ huff_code 228 22 0x3fffe9
    ∷ huff_code 232 22 0x3fffea
    ∷ huff_code 233 22 0x3fffeb
    ∷ huff_code 1 23 0x7fffd8
    ∷ huff_code 135 23 0x7fffd9
    ∷ huff_code 137 23 0x7fffda
    ∷ huff_code 138 23 0x7fffdb
    ∷ huff_code 139 23 0x7fffdc
    ∷ huff_code 140 23 0x7fffdd
    ∷ huff_code 141 23 0x7fffde
    ∷ huff_code 143 23 0x7fffdf
    ∷ huff_code 147 23 0x7fffe0
    ∷ huff_code 149 23 0x7fffe1
    ∷ huff_code 150 23 0x7fffe2
    ∷ huff_code 151 23 0x7fffe3
    ∷ huff_code 152 23 0x7fffe4
    ∷ huff_code 155 23 0x7fffe5
    ∷ huff_code 157 23 0x7fffe6
    ∷ huff_code 158 23 0x7fffe7
    ∷ huff_code 165 23 0x7fffe8
    ∷ huff_code 166 23 0x7fffe9
    ∷ huff_code 168 23 0x7fffea
    ∷ huff_code 174 23 0x7fffeb
    ∷ huff_code 175 23 0x7fffec
    ∷ huff_code 180 23 0x7fffed
    ∷ huff_code 182 23 0x7fffee
    ∷ huff_code 183 23 0x7fffef
    ∷ huff_code 188 23 0x7ffff0
    ∷ huff_code 191 23 0x7ffff1
    ∷ huff_code 197 23 0x7ffff2
    ∷ huff_code 231 23 0x7ffff3
    ∷ huff_code 239 23 0x7ffff4
    ∷ huff_code 9 24 0xffffea
    ∷ huff_code 142 24 0xffffeb
    ∷ huff_code 144 24 0xffffec
    ∷ huff_code 145 24 0xffffed
    ∷ huff_code 148 24 0xffffee
    ∷ huff_code 159 24 0xffffef
    ∷ huff_code 171 24 0xfffff0
    ∷ huff_code 206 24 0xfffff1
    ∷ huff_code 215 24 0xfffff2
    ∷ huff_code 225 24 0xfffff3
    ∷ huff_code 236 24 0xfffff4
    ∷ huff_code 237 24 0xfffff5
    ∷ huff_code 199 25 0x1ffffec
    ∷ huff_code 207 25 0x1ffffed
    ∷ huff_code 234 25 0x1ffffee
    ∷ huff_code 235 25 0x1ffffef
    ∷ huff_code 192 26 0x3ffffe0
    ∷ huff_code 193 26 0x3ffffe1
    ∷ huff_code 200 26 0x3ffffe2
    ∷ huff_code 201 26 0x3ffffe3
    ∷ huff_code 202 26 0x3ffffe4
    ∷ huff_code 205 26 0x3ffffe5
    ∷ huff_code 210 26 0x3ffffe6
    ∷ huff_code 213 26 0x3ffffe7
    ∷ huff_code 218 26 0x3ffffe8
    ∷ huff_code 219 26 0x3ffffe9
    ∷ huff_code 238 26 0x3ffffea
    ∷ huff_code 240 26 0x3ffffeb
    ∷ huff_code 242 26 0x3ffffec
    ∷ huff_code 243 26 0x3ffffed
    ∷ huff_code 255 26 0x3ffffee
    ∷ huff_code 203 27 0x7ffffde
    ∷ huff_code 204 27 0x7ffffdf
    ∷ huff_code 211 27 0x7ffffe0
    ∷ huff_code 212 27 0x7ffffe1
    ∷ huff_code 214 27 0x7ffffe2
    ∷ huff_code 221 27 0x7ffffe3
    ∷ huff_code 222 27 0x7ffffe4
    ∷ huff_code 223 27 0x7ffffe5
    ∷ huff_code 241 27 0x7ffffe6
    ∷ huff_code 244 27 0x7ffffe7
    ∷ huff_code 245 27 0x7ffffe8
    ∷ huff_code 246 27 0x7ffffe9
    ∷ huff_code 247 27 0x7ffffea
    ∷ huff_code 248 27 0x7ffffeb
    ∷ huff_code 250 27 0x7ffffec
    ∷ huff_code 251 27 0x7ffffed
    ∷ huff_code 252 27 0x7ffffee
    ∷ huff_code 253 27 0x7ffffef
    ∷ huff_code 254 27 0x7fffff0
    ∷ huff_code 2 28 0xfffffe2
    ∷ huff_code 3 28 0xfffffe3
    ∷ huff_code 4 28 0xfffffe4
    ∷ huff_code 5 28 0xfffffe5
    ∷ huff_code 6 28 0xfffffe6
    ∷ huff_code 7 28 0xfffffe7
    ∷ huff_code 8 28 0xfffffe8
    ∷ huff_code 11 28 0xfffffe9
    ∷ huff_code 12 28 0xfffffea
    ∷ huff_code 14 28 0xfffffeb
    ∷ huff_code 15 28 0xfffffec
    ∷ huff_code 16 28 0xfffffed
    ∷ huff_code 17 28 0xfffffee
    ∷ huff_code 18 28 0xfffffef
    ∷ huff_code 19 28 0xffffff0
    ∷ huff_code 20 28 0xffffff1
    ∷ huff_code 21 28 0xffffff2
    ∷ huff_code 23 28 0xffffff3
    ∷ huff_code 24 28 0xffffff4
    ∷ huff_code 25 28 0xffffff5
    ∷ huff_code 26 28 0xffffff6
    ∷ huff_code 27 28 0xffffff7
    ∷ huff_code 28 28 0xffffff8
    ∷ huff_code 29 28 0xffffff9
    ∷ huff_code 30 28 0xffffffa
    ∷ huff_code 31 28 0xffffffb
    ∷ huff_code 127 28 0xffffffc
    ∷ huff_code 220 28 0xffffffd
    ∷ huff_code 249 28 0xffffffe
    ∷ huff_code 10 30 0x3ffffffc
    ∷ huff_code 13 30 0x3ffffffd
    ∷ huff_code 22 30 0x3ffffffe
    ∷ huff_code (256 % 2 ^ 8) 30 0x3fffffff
    ∷ []

-- The highest value with 5, 6 and up to 30 bits, and with more.
unfoldable pub hpack_huff_end_code : List ℕ
hpack_huff_end_code =
    0x9 ∷ 0x2d ∷ 0x7b ∷ 0xfd ∷ 0 ∷ 0x3fc ∷ 0x7fc ∷ 0xffb ∷ 0x1ffd ∷ 0x3ffd ∷ 0x7ffe ∷ 0 ∷ 0 ∷ 0
    ∷ 0x7fff2 ∷ 0xfffed ∷ 0x1fffe8 ∷ 0x3fffeb ∷ 0x7ffff4 ∷ 0xfffff5 ∷ 0x1ffffef ∷ 0x3ffffee
    ∷ 0x7fffff0 ∷ 0xffffffe ∷ 0 ∷ 0x3ffffffe ∷ 0xffffffff ∷ []

-- The lowest index with 5, 6 and up to 30 bits, and with more.
unfoldable pub hpack_huff_start_index : List ℕ
hpack_huff_start_index =
    0 ∷ 10 ∷ 36 ∷ 68 ∷ 0 ∷ 74 ∷ 79 ∷ 82 ∷ 84 ∷ 90 ∷ 92 ∷ 0 ∷ 0 ∷ 0 ∷ 95 ∷ 98 ∷ 106 ∷ 119 ∷ 145 ∷ 174
    ∷ 186 ∷ 190 ∷ 205 ∷ 224 ∷ 0 ∷ 253 ∷ 0 ∷ []
