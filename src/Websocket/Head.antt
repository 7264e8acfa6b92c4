-- ===== src/Websocket/Head.antt =====
-- The head of a WebSocket frame, as read_websocket of src/civetweb.c reads it.
use civetweb.Base.{==_iff, Bool, Bytes, [], ap, ap₂, arith, bit_and, bit_or, false, holds_up_to}
use civetweb.Base.{holds_up_to-true, if_split, if◌then◌else◌, inl, inr, leb, length, le→leb, ltb}
use civetweb.Base.{refl, subst, sym, tests, true, ℕ, ◌%◌, ◌&&◌, ◌*◌, ◌++◌, ◌+◌, ◌/◌, ◌<◌, ◌==◌}
use civetweb.Base.{◌^◌, ◌∙◌, ◌∷◌, ◌≡◌, ◌≤◌, ◌⊎◌}
use civetweb.Websocket.{known, frame_head, be_number, frame_length, be32}

and_true : (a b : Bool) → (a && b) ≡ true → (a ≡ true) × (b ≡ true)
and_true a b h = ground arith

pub le→ltb-false : (a b : ℕ) → b ≤ a → ltb a b ≡ false
le→ltb-false a b h = ground arith

abbrev mask_len_of : ℕ → ℕ
mask_len_of b = if bit_and b 128 == 0 then 0 else 4

frame_head-7 :
    (first b : ℕ) (tail : Bytes)
    → bit_and b 127 < 126
    → mask_len_of b ≤ length tail
    → frame_head (first ∷ b ∷ tail) ≡ known (bit_and b 127) (2 + mask_len_of b) (mask_len_of b)
unfolding frame_head
frame_head-7 first b tail h l =
    let t0 : ltb (length (first ∷ b ∷ tail)) 2 ≡ false = ground arith in
    let t1 : ltb (bit_and b 127) 126 ≡ true = ground arith in
    let t2 : leb (mask_len_of b) (length (first ∷ b ∷ tail)) ≡ true =
      le→leb _ _ (omega (arith, l)) in
    rw (t0, t1, t2) refl

frame_head-16 :
    (first b x y : ℕ) (tail : Bytes)
    → bit_and b 127 ≡ 126
    → mask_len_of b ≤ length tail
    → frame_head (first ∷ b ∷ x ∷ y ∷ tail)
      ≡ known (be_number 0 (x ∷ y ∷ [])) (4 + mask_len_of b) (mask_len_of b)
unfolding frame_head
frame_head-16 first b x y tail h l =
    let t0 : ltb (length (first ∷ b ∷ x ∷ y ∷ tail)) 2 ≡ false = ground arith in
    let t2 : leb (4 + mask_len_of b) (length (first ∷ b ∷ x ∷ y ∷ tail)) ≡ true =
      le→leb _ _ (omega (arith, l)) in
    rw (t0, h, t2) refl

frame_head-64 :
    (first b h0 h1 h2 h3 l0 l1 l2 l3 : ℕ) (tail : Bytes)
    → bit_and b 127 ≡ 127
    → mask_len_of b ≤ length tail
    → be_number 0 (h0 ∷ h1 ∷ h2 ∷ h3 ∷ []) * 2 ^ 32 + be_number 0 (l0 ∷ l1 ∷ l2 ∷ l3 ∷ [])
      ≤ 0x7fff0000
    → frame_head (first ∷ b ∷ h0 ∷ h1 ∷ h2 ∷ h3 ∷ l0 ∷ l1 ∷ l2 ∷ l3 ∷ tail)
      ≡ known
          (be_number 0 (h0 ∷ h1 ∷ h2 ∷ h3 ∷ []) * 2 ^ 32 + be_number 0 (l0 ∷ l1 ∷ l2 ∷ l3 ∷ []))
          (10 + mask_len_of b)
          (mask_len_of b)
unfolding frame_head
frame_head-64 first b h0 h1 h2 h3 l0 l1 l2 l3 tail h l m =
    let buf = first ∷ b ∷ h0 ∷ h1 ∷ h2 ∷ h3 ∷ l0 ∷ l1 ∷ l2 ∷ l3 ∷ tail in
    let t0 : ltb (length buf) 2 ≡ false = ground arith in
    let t1 : leb (10 + mask_len_of b) (length buf) ≡ true = le→leb _ _ (omega (arith, l)) in
    let t2 : ltb 0x7fff0000
          (be_number 0 (h0 ∷ h1 ∷ h2 ∷ h3 ∷ []) * 2 ^ 32 + be_number 0 (l0 ∷ l1 ∷ l2 ∷ l3 ∷ []))
        ≡ false =
      le→ltb-false _ _ m in
    rw (t0, h, t1, t2) refl

-- What `frame_header` or-s into the second byte, and the length of the key that follows.
abbrev pub IsFlag : ℕ → ℕ → Type 0
IsFlag flag m = ((flag ≡ 0) × (m ≡ 0)) ⊎ ((flag ≡ 128) × (m ≡ 4))

second_test : ℕ → Bool
second_test n =
    (bit_and (bit_or n 0) 127 == n && bit_and (bit_or n 0) 128 == 0)
    && (bit_and (bit_or n 128) 127 == n && bit_and (bit_or n 128) 128 == 128)

second_table : holds_up_to 128 second_test ≡ true
unfolding holds_up_to second_test
second_table = refl

second_byte :
    (n flag m : ℕ)
    → IsFlag flag m
    → n < 128
    → (bit_and (bit_or n flag) 127 ≡ n) × (mask_len_of (bit_or n flag) ≡ m)
unfolding second_test
second_byte n flag m f h =
    let t = holds_up_to-true 128 second_test n second_table h in
    let (p, q) = and_true _ _ t in
    let (p0, p1) = and_true _ _ p in
    let (q0, q1) = and_true _ _ q in
    elim f [
      | inl (e, g) ↦ rw (e, g) ((==_iff _ _).0 p0, rw p1 refl)
      | inr (e, g) ↦ rw (e, g) ((==_iff _ _).0 q0, rw ((==_iff _ _).0 q1) refl)
    ]

be_number-be32 : (n : ℕ) → n < 2 ^ 32 → be_number 0 (be32 n) ≡ n
be_number-be32 n h = omega arith

be_number-be64 :
    (n : ℕ)
    → n < 2 ^ 32
    → be_number 0 (be32 (n / 2 ^ 32 % 2 ^ 32)) * 2 ^ 32 + be_number 0 (be32 (n % 2 ^ 32)) ≡ n
be_number-be64 n h =
    let hi : n / 2 ^ 32 % 2 ^ 32 ≡ 0 = omega arith in
    let lo : n % 2 ^ 32 ≡ n = omega arith in rw (hi, lo) (omega (arith, be_number-be32 n h))

-- The head of a written frame is read as it was written, whatever follows it, as soon as the key
-- is there.
pub frame_head-frame_length :
    (first flag m n : ℕ) (tail : Bytes)
    → IsFlag flag m
    → n ≤ 0x7fff0000
    → m ≤ length tail
    → frame_head (first ∷ (frame_length flag n ++ tail))
      ≡ known n (length (frame_length flag n) + 1 + m) m
unfolding frame_length
frame_head-frame_length first flag m n tail f h l =
    let P : Bytes → Type 0 = λ b. frame_head (first ∷ (b ++ tail)) ≡ known n (length b + 1 + m) m in
    if_split P (ltb n 126) _ _
      (λ e.
        let s = second_byte n flag m f (omega tests) in
        frame_head-7 first (bit_or n flag) tail (omega (tests, s.0)) (omega (arith, s.1))
        ∙ rw (s.0, s.1) (ap (λ z. known n z m) (omega arith)))
      (λ e.
        if_split P (leb n 0xffff) _ _
          (λ g.
            let s = second_byte 126 flag m f (omega arith) in
            frame_head-16 first (bit_or 126 flag) (n / 2 ^ 8) (n % 256) tail s.0
              (omega (arith, s.1))
            ∙ rw s.1 (ap₂ (λ y z. known y z m) (omega arith) (omega arith)))
          (λ g.
            let s = second_byte 127 flag m f (omega arith) in
            let v = be_number-be64 n (omega arith) in
            frame_head-64 first (bit_or 127 flag) _ _ _ _ _ _ _ _ tail s.0 (omega (arith, s.1))
              (subst (λ x. x ≤ 0x7fff0000) (sym v) h)
            ∙ rw (s.1, v) (ap (λ z. known n z m) (omega arith))))
