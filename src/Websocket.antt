-- ===== src/Websocket.antt =====
-- Websocket frames in src/civetweb.c: mg_websocket_write_exec, mg_websocket_write, mask_data and
-- mg_websocket_client_write, and the part of read_websocket that takes a frame off the queue.
-- Without zlib. The four bytes of a masking key are those of the uint32_t in memory.
pub mod Mask
pub mod Head
pub mod RoundTrip
use civetweb.Base.{Bool, Bytes, [], bit_and, bit_or, bit_xor, drop, get_or, if◌then◌else◌, leb}
use civetweb.Base.{length, ltb, negsuc, peek, pos, suc, take, zero, ℕ, ℤ, ◌%◌, ◌&&◌, ◌*◌, ◌++◌}
use civetweb.Base.{◌+◌, ◌-◌, ◌/◌, ◌==◌, ◌^◌, ◌∷◌}

pub record Key : Type 0 where
  pub k0 : ℕ
  pub k1 : ℕ
  pub k2 : ℕ
  pub k3 : ℕ

abbrev pub key_bytes : Key → Bytes
key_bytes k = k.k0 ∷ k.k1 ∷ k.k2 ∷ k.k3 ∷ []

abbrev pub key_byte : Key → ℕ → ℕ
key_byte k i = get_or (key_bytes k) (i % 4) 0

abbrev pub is_zero_key : Key → Bool
is_zero_key k = k.k0 == 0 && (k.k1 == 0 && (k.k2 == 0 && k.k3 == 0))

-- The loop over single bytes, from index `i` on. It is also the loop that unmasks in
-- `read_websocket`, where `i & 3` is written for `i % 4`.
unfoldable pub mask_bytes : Key → ℕ → Bytes → Bytes
mask_bytes k i [] = []
mask_bytes k i (x ∷ data_) = bit_xor x (key_byte k i) ∷ mask_bytes k (i + 1) data_

-- The loop over words from a multiple of 4 on: `^` of two uint32_t works on each of the four bytes
-- that they have in memory.
unfoldable pub mask_words : Key → ℕ → Bytes → Bytes
unfolding mask_bytes
mask_words k i (a ∷ b ∷ c ∷ d ∷ data_) =
    bit_xor a k.k0 ∷ bit_xor b k.k1 ∷ bit_xor c k.k2 ∷ bit_xor d k.k3 ∷ mask_words k (i + 4) data_
mask_words k i data_ = mask_bytes k i data_

-- `aligned` tells whether the address of the data is a multiple of 4.
unfoldable pub mask_data : Bool → Bytes → Key → Bytes
unfolding mask_words
mask_data aligned data_ k =
    if ltb 3 (length data_) && aligned then mask_words k 0 data_ else mask_bytes k 0 data_

-- A 32-bit number in network byte order.
abbrev pub be32 : ℕ → Bytes
be32 n = n / 2 ^ 24 % 256 ∷ n / 2 ^ 16 % 256 ∷ n / 2 ^ 8 % 256 ∷ n % 256 ∷ []

-- header[0] and the length fields, with `flag` or-ed into header[1].
unfoldable pub frame_length : ℕ → ℕ → Bytes
frame_length flag n =
    if ltb n 126
    then bit_or n flag ∷ []
    else if leb n 0xffff
    then bit_or 126 flag ∷ n / 2 ^ 8 ∷ n % 256 ∷ []
    else bit_or 127 flag ∷ (be32 (n / 2 ^ 32 % 2 ^ 32) ++ be32 (n % 2 ^ 32))

unfoldable pub frame_header : ℕ → ℕ → Key → Bytes
unfolding frame_length
frame_header opcode n k =
    let first = bit_or 0x80 (bit_and opcode 0xf) in
    if is_zero_key k then first ∷ frame_length 0 n else first ∷ (frame_length 0x80 n ++ key_bytes k)

-- `mg_write` sends bytes over the connection; its answer is the number of bytes sent.
module _ {S : Type 0} (mg_write : Bytes → S → ℤ × S) where
  abbrev send_data : Bytes → ℤ × S → ℕ → ℤ × S
  send_data data_ (negsuc n, s) header_len = (negsuc 0, s)
  send_data data_ (pos n, s) header_len =
      if n == header_len
      then if length data_ == 0 then (pos n, s) else mg_write data_ s
      else (negsuc 0, s)

  unfoldable pub mg_websocket_write_exec : ℕ → Bytes → Key → S → ℤ × S
  unfolding frame_header
  mg_websocket_write_exec opcode data_ k s =
      let header = frame_header opcode (length data_) k in
      send_data data_ (mg_write header s) (length header)

  unfoldable pub mg_websocket_write : ℕ → Bytes → S → ℤ × S
  unfolding mg_websocket_write_exec
  mg_websocket_write opcode data_ s =
      mg_websocket_write_exec opcode data_ (record { k0 = 0; k1 = 0; k2 = 0; k3 = 0 }) s

  -- `k` is the key drawn at random, which is not zero; the buffer could be allocated.
  unfoldable pub mg_websocket_client_write : Bool → Key → ℕ → Bytes → S → ℤ × S
  unfolding mg_websocket_write_exec mask_data
  mg_websocket_client_write aligned k opcode data_ s =
      mg_websocket_write_exec opcode (mask_data aligned data_ k) k s

-- The lengths of the frame at the front of the queue: not known yet, too large, or known.
pub data FrameHead : Type 0 where
  unknown too_large : FrameHead
  known : (data_len header_len mask_len : ℕ) → FrameHead

abbrev pub be_number : ℕ → Bytes → ℕ
be_number acc [] = acc
be_number acc (x ∷ xs) = be_number (acc * 256 + x) xs

unfoldable pub frame_head : Bytes → FrameHead
frame_head buf =
    let body_len = length buf in
    let len = bit_and (get_or buf 1 0) 127 in
    let mask_len = if bit_and (get_or buf 1 0) 128 == 0 then 0 else 4 in
    let short = be_number 0 (take 2 (drop 2 buf)) in
    let long = be_number 0 (take 4 (drop 2 buf)) * 2 ^ 32 + be_number 0 (take 4 (drop 6 buf)) in
    if ltb body_len 2
    then unknown
    else if ltb len 126 && leb mask_len body_len
    then known len (2 + mask_len) mask_len
    else if len == 126 && leb (4 + mask_len) body_len
    then known short (4 + mask_len) mask_len
    else if leb (10 + mask_len) body_len
    then if ltb 0x7fff0000 long then too_large else known long (10 + mask_len) mask_len
    else unknown

-- What the loop does with the queue: it waits for more bytes, closes the connection, waits for the
-- rest of a payload of which it has the head, or takes the frame off.
pub data FrameStep : Type 0 where
  waits closes : FrameStep
  pulls : (mop data_len : ℕ) → Bytes → FrameStep
  takes : (mop : ℕ) → Bytes → Bytes → FrameStep

abbrev pub key_at : Bytes → Key
key_at buf = record {
  k0 = get_or buf 0 0;
  k1 = get_or buf 1 0;
  k2 = get_or buf 2 0;
  k3 = get_or buf 3 0;
}

abbrev pub unmask : ℕ → Bytes → Bytes → Bytes
unmask zero mask payload = payload
unmask (suc n) mask payload = mask_bytes (key_at mask) 0 payload

unfoldable pub take_frame : Bytes → FrameHead → FrameStep
take_frame buf unknown = waits
take_frame buf too_large = closes
take_frame buf (known data_len header_len mask_len) =
    let mop = peek buf in
    let mask = drop (header_len - mask_len) buf in
    let payload = take data_len (drop header_len buf) in
    if ltb (length buf) header_len
    then waits
    else if ltb (length buf) (data_len + header_len)
    then pulls mop data_len (drop header_len buf)
    else takes mop (unmask mask_len mask payload) (drop (data_len + header_len) buf)

unfoldable pub read_frame : Bytes → FrameStep
unfolding frame_head take_frame mask_bytes
read_frame buf = take_frame buf (frame_head buf)
