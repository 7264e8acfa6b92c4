-- ===== src/Hpack/Ends.antt =====
-- The decoding loop of hpack_decode in src/http2.inl ends with a string, whatever is in the buffer.
use civetweb.Base.{Bool, Bytes, Option, arith, drop, false, if_split, ltb, none, not, refl, some}
use civetweb.Base.{suc, zero, ℕ, ◌%◌, ◌*◌, ◌+◌, ◌<◌, ◌==◌, ◌^◌, ◌≡◌, ◌≢◌, ◌≤◌}
use civetweb.Hpack.{
  Collected, used_up, code, goes_on, collect, find_symbol, store_symbol, stored_count, decode_round,
  huff_decode_loop, bit_at, DecodedString, huffman_result, decode_string,
}

-- A code that was collected has at least five bits, and they are no longer left.
abbrev IsTaken : ℕ → ℕ → Collected → Type 0
IsTaken left bc used_up = Unit
IsTaken left bc (code accu n rest) = (5 ≤ n) × (rest + n ≡ left + bc)

stops_wide : (bc accu : ℕ) → goes_on bc accu ≡ false → 5 ≤ bc
unfolding goes_on
stops_wide bc accu e = ground arith

IsTaken-later : (left bc : ℕ) (r : Collected) → IsTaken left (bc + 1) r → IsTaken (suc left) bc r
IsTaken-later left bc used_up h = tt
IsTaken-later left bc (code accu n rest) (a, b) = (a, omega arith)

collect-IsTaken :
    (left : ℕ) (p : Bytes) (r accu bc : ℕ) → IsTaken left bc (collect left p r accu bc)
unfolding collect
collect-IsTaken zero p r accu bc = tt
collect-IsTaken (suc left) p r accu bc =
    let next = accu * 2 % 2 ^ 32 + bit_at p r in
    if_split (IsTaken (suc left) bc) (goes_on (bc + 1) next) _ _
      (λ e. IsTaken-later left bc _ (collect-IsTaken left p (r + 1) next (bc + 1)))
      (λ e. (stops_wide (bc + 1) next e, omega arith))

store_symbol-some : (s : Option ℕ) (o : Option Bytes) → o ≢ none → store_symbol s o ≢ none
store_symbol-some s none n = n
store_symbol-some none (some out) n = λ e. cc
store_symbol-some (some b) (some out) n = λ e. cc

stored_bound : (s : Option ℕ) (n : ℕ) → stored_count s n ≤ n + 1
stored_bound none n = omega arith
stored_bound (some b) n = omega arith

not_full : (n : ℕ) → n < 2048 → (n == 2048) ≡ false
not_full n h = ground arith

decode_round-ends :
    (c : Collected) (left r stored : ℕ) (more : ℕ → ℕ → ℕ → Option Bytes)
    → IsTaken left 0 c
    → 5 * stored + left ≤ 8192
    → ((l r s : ℕ) → l < left → 5 * s + l ≤ 8192 → more l r s ≢ none)
    → decode_round c r stored more ≢ none
decode_round-ends used_up left r stored more t h go = λ e. cc
decode_round-ends (code accu n rest) left r stored more (wide, taken) h go =
    let s = find_symbol accu n in
    let bound = stored_bound s stored in
    rw (not_full (stored_count s stored) (omega (arith, bound))) (
      store_symbol-some s _
        (go rest (r + n) (stored_count s stored) (omega arith) (omega (arith, bound))))

huff_decode_loop-ends :
    (fuel : ℕ) (p : Bytes) (left r stored : ℕ)
    → left < fuel
    → 5 * stored + left ≤ 8192
    → huff_decode_loop fuel p left r stored ≢ none
unfolding huff_decode_loop
huff_decode_loop-ends zero p left r stored h l = absurd (omega arith)
huff_decode_loop-ends (suc fuel) p left r stored h l =
    decode_round-ends (collect left p r 0 0) left r stored _ (collect-IsTaken left p r 0 0) l
      (λ rest r' s shorter small. huff_decode_loop-ends fuel p rest r' s (omega arith) small)

abbrev pub Answers : ℕ → DecodedString → Type 0
Answers index r = (r.result ≢ none) × (r.index ≡ index)

huffman_result-Answers :
    (o : Option Bytes) (i byte_len : ℕ)
    → o ≢ none
    → Answers (i + byte_len) (huffman_result o i byte_len)
huffman_result-Answers none i byte_len n = absurd (n refl)
huffman_result-Answers (some str) i byte_len n = ((λ e. cc), refl)

-- Behind a length of at most 1024 that stays in front of `max_i`, the decoding of a string, Huffman
-- encoded or not and whatever its bytes are, ends with a string and with the index behind it: the
-- loop runs out of bits, and its buffer for 2048 bytes does not get full.
pub decode_string-Answers :
    (is_huff : Bool) (buf : Bytes) (byte_len i max_i : ℕ)
    → byte_len ≤ 1024
    → i + byte_len ≤ max_i
    → Answers (i + byte_len) (decode_string is_huff buf byte_len i max_i)
unfolding decode_string
decode_string-Answers is_huff buf byte_len i max_i h l =
    rw (not_above 1024 byte_len h, not_above max_i (i + byte_len) l)
      (if_split (Answers (i + byte_len)) (not is_huff) _ _ (λ e. ((λ f. cc), refl))
        (λ e. huffman_result-Answers _ i byte_len (
          huff_decode_loop-ends (byte_len * 8 + 1) (drop i buf) (byte_len * 8) 0 0 (omega arith)
            (omega arith))))
  where
    not_above : (a b : ℕ) → b ≤ a → ltb a b ≡ false
    not_above a b h = ground arith
