-- ===== src/Hpack/RoundTrip.antt =====
-- hpack_decode after hpack_encode of src/http2.inl.
use civetweb.Base.{All, Bool, Bytes, [], ap, append_assoc, arith, false, holds_up_to}
use civetweb.Base.{holds_up_to-true, length, length-append, map, refl, some, suc, sym, true}
use civetweb.Base.{zero, ℕ, ◌++◌, ◌+◌, ◌<◌, ◌==◌, ◌∙◌, ◌∷◌, ◌≡◌}
use civetweb.Hpack.Table.{HuffCode}
use civetweb.Hpack.{Collected, used_up, code, collect, huff_decode_loop, load_byte, goes_on}
use civetweb.Hpack.Table.{hpack_huff_end_code}
use civetweb.Hpack.Codes.{
  bits_of, read, collect_bits, length-read, collect-read, collect_bits-append, IsCode, byte-IsCode,
}
use civetweb.Hpack.Encode.{read-append, find_code, code_bits, text_bits}

is_used_up : Collected → Bool
is_used_up used_up = true
is_used_up (code accu bc left) = false

-- Fewer than eight ones hold no code.
ones_test : ℕ → Bool
ones_test k = is_used_up (collect_bits (bits_of k 0xffffffff) 0 0)

ones_table : holds_up_to 8 ones_test ≡ true
unfolding holds_up_to ones_test is_used_up collect_bits bits_of goes_on hpack_huff_end_code
ones_table = refl

used_up_of : (r : Collected) → is_used_up r ≡ true → r ≡ used_up
unfolding is_used_up
used_up_of used_up e = refl
used_up_of (code accu bc left) e = cc

ones_used_up : (k : ℕ) → k < 8 → collect_bits (bits_of k 0xffffffff) 0 0 ≡ used_up
unfolding ones_test
ones_used_up k h =
    used_up_of (collect_bits (bits_of k 0xffffffff) 0 0)
      (holds_up_to-true 8 ones_test k ones_table h)

append_cancel : (xs us ys vs : Bytes) → length xs ≡ length us → xs ++ ys ≡ us ++ vs → ys ≡ vs
append_cancel [] [] ys vs l e = e
append_cancel [] (u ∷ us) ys vs l e = absurd (omega arith)
append_cancel (x ∷ xs) [] ys vs l e = absurd (omega arith)
append_cancel (x ∷ xs) (u ∷ us) ys vs l e = append_cancel xs us ys vs (omega arith) (tail_of e)
  where
    tail_of : {a b : ℕ} {ms ns : Bytes} → Path Bytes (a ∷ ms) (b ∷ ns) → ms ≡ ns
    tail_of e = cc

length-bits_of : (n v : ℕ) → length (bits_of n v) ≡ n
unfolding bits_of
length-bits_of zero v = refl
length-bits_of (suc n) v = ap suc (length-bits_of n v)

-- Behind what has been read stands the rest.
read_rest :
    (n v left : ℕ) (p : Bytes) (r : ℕ) (rest : Bytes)
    → read left p r ≡ bits_of n v ++ rest
    → read (length rest) p (r + n) ≡ rest
read_rest n v left p r rest e =
    let total : left ≡ n + length rest =
      sym (length-read left p r)
      ∙ ap length e
      ∙ length-append (bits_of n v) rest
      ∙ ap (λ k. k + length rest) (length-bits_of n v) in
    append_cancel (read n p r) (bits_of n v) (read (length rest) p (r + n)) rest
      (length-read n p r ∙ sym (length-bits_of n v))
      (sym (read-append n (length rest) p r) ∙ ap (λ k. read k p r) (sym total) ∙ e)

code_step :
    (c : ℕ) (h : HuffCode) (left : ℕ) (p : Bytes) (r : ℕ) (rest : Bytes)
    → (w : IsCode c h) → read left p r ≡ bits_of h.bitcount h.encoded ++ rest
    → collect left p r 0 0 ≡ code w.accu h.bitcount (length rest)
code_step c h left p r rest w e =
    collect-read left p r 0 0
    ∙ ap (λ bs. collect_bits bs 0 0) e
    ∙ collect_bits-append (bits_of h.bitcount h.encoded) rest 0 0 w.accu h.bitcount w.collected

below_limit : (n : ℕ) → n < 2048 → (n == 2048) ≡ false
below_limit n h = ground arith

pub huff_decode_loop-text_bits :
    (lower : Bool) (load : Bytes) (k fuel : ℕ) (p : Bytes) (left r stored : ℕ)
    → All (λ c. load_byte lower c < 256) load
    → k < 8
    → length load < fuel
    → stored + length load < 2048
    → read left p r ≡ text_bits lower load ++ bits_of k 0xffffffff
    → huff_decode_loop fuel p left r stored ≡ some (map (load_byte lower) load)
unfolding huff_decode_loop text_bits
huff_decode_loop-text_bits lower load k zero p left r stored h l f s e = absurd (omega arith)
huff_decode_loop-text_bits lower [] k (suc fuel) p left r stored h l f s e =
    rw (collect-read left p r 0 0 ∙ ap (λ bs. collect_bits bs 0 0) e ∙ ones_used_up k l) refl
huff_decode_loop-text_bits lower (c ∷ load) k (suc fuel) p left r stored h l f s e =
    let (g, w) = byte-IsCode (load_byte lower c) h.0 in
    let rest = text_bits lower load ++ bits_of k 0xffffffff in
    let here : read left p r ≡ bits_of g.bitcount g.encoded ++ rest =
      e
      ∙ append_assoc (code_bits (find_code (load_byte lower c))) (text_bits lower load)
          (bits_of k 0xffffffff)
      ∙ ap (λ o. code_bits o ++ rest) w.found in
    let later =
      huff_decode_loop-text_bits lower load k fuel p (length rest) (r + g.bitcount) (stored + 1) h.1
        l (omega arith) (omega arith) (read_rest g.bitcount g.encoded left p r rest here) in
    rw
      (
        code_step (load_byte lower c) g left p r rest w here,
        w.symbol,
        below_limit (stored + 1) (omega arith),
        later,
      )
      refl
