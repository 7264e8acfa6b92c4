-- ===== src/Websocket/RoundTrip.antt =====
-- A frame that src/civetweb.c writes is taken off the queue as it was written.
use civetweb.Base.{==_iff, All, Bool, Bytes, [], ap, append-nil, append_assoc, arith, bit_and}
use civetweb.Base.{bit_or, drop, false, if◌then◌else◌, inl, inr, length, length-append, ltb, pos}
use civetweb.Base.{refl, suc, sym, take, true, ℕ, ℤ, ◌++◌, ◌+◌, ◌-◌, ◌<◌, ◌==◌, ◌∙◌, ◌∷◌, ◌≡◌}
use civetweb.Base.{◌≤◌}
use civetweb.Websocket.{Key, key_bytes, is_zero_key, mask_bytes, frame_length, frame_header}
use civetweb.Websocket.{mg_websocket_write_exec, mg_websocket_write, mg_websocket_client_write}
use civetweb.Websocket.{known, takes, take_frame, read_frame, unmask}
use civetweb.Websocket.Mask.{IsKey, mask_data-eq-mask_bytes, mask_bytes_twice}
use civetweb.Websocket.Head.{le→ltb-false, IsFlag, frame_head-frame_length}

drop-length : (xs ys : Bytes) → drop (length xs) (xs ++ ys) ≡ ys
drop-length [] ys = refl
drop-length (x ∷ xs) ys = drop-length xs ys

take-length : (xs ys : Bytes) → take (length xs) (xs ++ ys) ≡ xs
take-length [] ys = refl
take-length (x ∷ xs) ys = ap (λ l. x ∷ l) (take-length xs ys)

mask_bytes-length : (k : Key) (i : ℕ) (d : Bytes) → length (mask_bytes k i d) ≡ length d
unfolding mask_bytes
mask_bytes-length k i [] = refl
mask_bytes-length k i (x ∷ d) = ap suc (mask_bytes-length k (i + 1) d)

drop-eq : (n : ℕ) (buf xs ys : Bytes) → buf ≡ xs ++ ys → n ≡ length xs → drop n buf ≡ ys
drop-eq n buf xs ys e f = rw (e, f) (drop-length xs ys)

-- A frame whose lengths are known, with all of its bytes there: the head `hd`, the key `mask`, and
-- the payload.
take_frame-known :
    (first : ℕ) (hd mask payload rest : Bytes)
    → take_frame
        (first ∷ (hd ++ (mask ++ (payload ++ rest))))
        (known (length payload) (length hd + 1 + length mask) (length mask))
      ≡ takes first (unmask (length mask) (mask ++ (payload ++ rest)) payload) rest
unfolding take_frame
take_frame-known first hd mask payload rest =
    let buf = first ∷ (hd ++ (mask ++ (payload ++ rest))) in
    let h = length hd + 1 + length mask in
    let size : length buf ≡ length hd + 1 + length mask + length payload + length rest = omega (
      arith,
      length-append hd (mask ++ (payload ++ rest)),
      length-append mask (payload ++ rest),
      length-append payload rest,
    ) in
    let t0 : ltb (length buf) h ≡ false = le→ltb-false _ _ (omega (arith, size)) in
    let t1 : ltb (length buf) (length payload + h) ≡ false =
      le→ltb-false _ _ (omega (arith, size)) in
    let at_mask : drop (h - length mask) buf ≡ mask ++ (payload ++ rest) =
      drop-eq (h - length mask) buf (first ∷ hd) (mask ++ (payload ++ rest)) refl (omega arith) in
    let one : buf ≡ (first ∷ (hd ++ mask)) ++ (payload ++ rest) =
      ap (λ l. first ∷ l) (sym (append_assoc hd mask (payload ++ rest))) in
    let at_payload : drop h buf ≡ payload ++ rest =
      drop-eq h buf (first ∷ (hd ++ mask)) (payload ++ rest) one
        (omega (arith, length-append hd mask)) in
    let two : buf ≡ ((first ∷ (hd ++ mask)) ++ payload) ++ rest =
      one ∙ sym (append_assoc (first ∷ (hd ++ mask)) payload rest) in
    let at_rest : drop (length payload + h) buf ≡ rest =
      drop-eq (length payload + h) buf ((first ∷ (hd ++ mask)) ++ payload) rest two
        (omega (arith, length-append hd mask, length-append (first ∷ (hd ++ mask)) payload)) in
    rw (t0, t1, at_mask, at_payload, at_rest, take-length payload rest) refl

-- The bytes of a frame as the code sends them.
abbrev pub frame : ℕ → Key → Bytes → Bytes
frame opcode k payload = frame_header opcode (length payload) k ++ payload

read_frame-frame :
    (first flag : ℕ) (mask payload rest : Bytes)
    → IsFlag flag (length mask)
    → length payload ≤ 0x7fff0000
    → read_frame (first ∷ (frame_length flag (length payload) ++ (mask ++ (payload ++ rest))))
      ≡ takes first (unmask (length mask) (mask ++ (payload ++ rest)) payload) rest
unfolding read_frame
read_frame-frame first flag mask payload rest f h =
    let tail = mask ++ (payload ++ rest) in
    let hd = frame_length flag (length payload) in
    let enough : length mask ≤ length tail = omega (arith, length-append mask (payload ++ rest)) in
    ap (take_frame (first ∷ (hd ++ tail)))
      (frame_head-frame_length first flag (length mask) (length payload) tail f h enough)
    ∙ take_frame-known first hd mask payload rest

-- An unmasked frame.
read_frame-plain :
    (opcode : ℕ) (k : Key) (payload rest : Bytes)
    → is_zero_key k ≡ true
    → length payload ≤ 0x7fff0000
    → read_frame (frame opcode k payload ++ rest)
      ≡ takes (bit_or 0x80 (bit_and opcode 0xf)) payload rest
unfolding frame_header
read_frame-plain opcode k payload rest z h =
    let first = bit_or 0x80 (bit_and opcode 0xf) in
    rw (z, append_assoc (frame_length 0 (length payload)) payload rest)
      (read_frame-frame first 0 [] payload rest (inl (refl, refl)) h)

-- A masked frame.
read_frame-masked :
    (opcode : ℕ) (k : Key) (payload rest : Bytes)
    → is_zero_key k ≡ false
    → length payload ≤ 0x7fff0000
    → read_frame (frame opcode k payload ++ rest)
      ≡ takes (bit_or 0x80 (bit_and opcode 0xf)) (mask_bytes k 0 payload) rest
unfolding frame_header
read_frame-masked opcode k payload rest z h =
    let first = bit_or 0x80 (bit_and opcode 0xf) in
    let hd = frame_length 128 (length payload) in
    rw
      (
        z,
        append_assoc (hd ++ key_bytes k) payload rest,
        append_assoc hd (key_bytes k) (payload ++ rest),
      )
      (read_frame-frame first 128 (key_bytes k) payload rest (inr (refl, refl)) h)

suc_no_zero : (n : ℕ) → (suc n == 0) ≡ false
suc_no_zero n = ground arith

-- A connection that takes all bytes, which are kept in order.
module _ (mg_write : Bytes → Bytes → ℤ × Bytes)
    (sends_all : (b s : Bytes) → mg_write b s ≡ (pos (length b), s ++ b)) where
  payload_sent :
      (header p : Bytes)
      → (if length p == 0 then (pos (length header), header) else mg_write p header).1 ≡ header ++ p
  payload_sent header [] = sym (append-nil header)
  payload_sent header (x ∷ p) =
      rw (suc_no_zero (length p)) (ap (λ (r : ℤ × Bytes). r.1) (sends_all (x ∷ p) header))

  write_exec-frame :
      (opcode : ℕ) (payload : Bytes) (k : Key)
      → (mg_websocket_write_exec mg_write opcode payload k []).1 ≡ frame opcode k payload
  unfolding mg_websocket_write_exec
  write_exec-frame opcode payload k =
      let header = frame_header opcode (length payload) k in
      rw (sends_all header [], (==_iff (length header) (length header)).1 refl)
        (payload_sent header payload)

  -- Over a connection that takes all bytes, the frame that the server writes is taken off at the
  -- other end with its payload and opcode, and what follows it stays, up to the largest length that
  -- is accepted.
  pub read_frame-mg_websocket_write :
      (opcode : ℕ) (data_ rest : Bytes)
      → length data_ ≤ 0x7fff0000
      → read_frame ((mg_websocket_write mg_write opcode data_ []).1 ++ rest)
        ≡ takes (bit_or 0x80 (bit_and opcode 0xf)) data_ rest
  unfolding mg_websocket_write
  read_frame-mg_websocket_write opcode data_ rest h =
      let k : Key = record { k0 = 0; k1 = 0; k2 = 0; k3 = 0 } in
      rw (write_exec-frame opcode data_ k) (read_frame-plain opcode k data_ rest refl h)

  -- Over a connection that takes all bytes, the frame that a client writes, masked by a key of
  -- bytes that is not zero, is taken off at the other end with its opcode and its payload of bytes
  -- unmasked, and what follows it stays, whatever the alignment of the data, up to the largest
  -- length that is accepted.
  pub read_frame-mg_websocket_client_write :
      (aligned : Bool) (k : Key) (opcode : ℕ) (data_ rest : Bytes)
      → IsKey k
      → is_zero_key k ≡ false
      → All (λ c. c < 256) data_
      → length data_ ≤ 0x7fff0000
      → read_frame ((mg_websocket_client_write mg_write aligned k opcode data_ []).1 ++ rest)
        ≡ takes (bit_or 0x80 (bit_and opcode 0xf)) data_ rest
  unfolding mg_websocket_client_write
  read_frame-mg_websocket_client_write aligned k opcode data_ rest v z d h =
      rw (mask_data-eq-mask_bytes aligned data_ k, write_exec-frame opcode (mask_bytes k 0 data_) k)
        (read_frame-masked opcode k (mask_bytes k 0 data_) rest z
            (omega (arith, h, mask_bytes-length k 0 data_))
          ∙ ap (λ l. takes (bit_or 0x80 (bit_and opcode 0xf)) l rest)
              (mask_bytes_twice k 0 data_ v d))
