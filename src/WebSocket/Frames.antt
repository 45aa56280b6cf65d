-- ===== src/WebSocket/Frames.antt =====
-- Where `_parser_web_socket_packet` ends the frames that the senders make.
use libsvr.Common.{
  ℕ, suc, ◌+◌, ◌/◌, ◌%◌, ◌^◌, ◌≤◌, ◌<◌, ◌≡◌, ◌⊎◌, inl, inr, ◌∙◌, arith, Bool-cases, List, ◌∷◌, ◌++◌,
  length, ltb, ltb→lt, lt→ltb, le→ltb, take, if◌then◌else◌, add32,
}
use libsvr.WebSocket.{length_bytes, net16, net64}
use libsvr.WebSocket.Receive.{parser_web_socket_packet, whole_packet, masked_header, net_value}

-- the top bit of the second byte says whether the four bytes of a mask follow
abbrev pub IsMaskBit : ℕ → Type 0
IsMaskBit bit = (bit ≡ 0) ⊎ (bit ≡ 128)

abbrev pub mask_size : ℕ → ℕ
mask_size bit = bit / 32

pub net16_value : (n : ℕ) → n < 2 ^ 16 → net_value 0 (net16 n) ≡ n
net16_value n h = omega arith

pub net64_value : (n : ℕ) → n < 2 ^ 64 → net_value 0 (net64 n) ≡ n
net64_value n h = omega arith

-- the length of a frame with a payload of `n` bytes
unfoldable pub frame_size : ℕ → ℕ → ℕ
frame_size bit n = 1 + (length (length_bytes bit n) + (mask_size bit + n))

-- what the parser says of `len` bytes that begin with such a frame
abbrev pub whole_frame : ℕ → ℕ → ℕ
whole_frame len size = if ltb len size then 0 else size

module _ (a b : ℕ) (rest : List ℕ) where
  pub parse_short :
      b % 128 < 126
      → parser_web_socket_packet (a ∷ b ∷ rest)
        ≡ whole_packet (length rest + 2) (masked_header b) (b % 128)
  unfolding parser_web_socket_packet
  parse_short h = rw (lt→ltb (b % 128) 126 h)

  pub parse_16 :
      b % 128 ≡ 126
      → 2 ≤ length rest
      → parser_web_socket_packet (a ∷ b ∷ rest)
        ≡ whole_packet (length rest + 2) (masked_header b + 2) (net_value 0 (take 2 rest))
  unfolding parser_web_socket_packet
  parse_16 h l = rw (h, le→ltb (length rest + 2) 4 (omega arith))

  pub parse_64 :
      b % 128 ≡ 127
      → 8 ≤ length rest
      → parser_web_socket_packet (a ∷ b ∷ rest)
        ≡ whole_packet (length rest + 2) (masked_header b + 8) (net_value 0 (take 8 rest) % 2 ^ 32)
  unfolding parser_web_socket_packet
  parse_64 h l = rw (h, le→ltb (length rest + 2) 10 (omega arith))

-- no wrap, and the lengths that the caller knows
whole_packet-frame :
    (len header payload len' size : ℕ)
    → len ≡ len'
    → header + payload ≡ size
    → size < 2 ^ 32
    → whole_packet len header payload ≡ whole_frame len' size
whole_packet-frame len header payload len' size e f h =
    let fits : add32 header payload ≡ size = omega arith in rw (e, fits)

masked_header_lem :
    (bit k : ℕ) → IsMaskBit bit → k < 128 → masked_header (bit + k) ≡ 2 + mask_size bit
masked_header_lem bit k m h = ground arith

pub low_bits_lem : (bit k : ℕ) → IsMaskBit bit → k < 128 → (bit + k) % 128 ≡ k
low_bits_lem bit k m h = ground arith

module _ (a bit n : ℕ) (tail : List ℕ) (mask : IsMaskBit bit) (small : n + 14 < 2 ^ 32) where
  pub parser-frame :
      parser_web_socket_packet (a ∷ (length_bytes bit n ++ tail))
      ≡ whole_frame (length (a ∷ (length_bytes bit n ++ tail))) (frame_size bit n)
  unfolding length_bytes frame_size
  parser-frame = elim (Bool-cases (ltb n 126)) [
    | inl short ↦
        let h = ltb→lt n 126 short in
        let low = low_bits_lem bit n mask (omega arith) in
        rw short (
          parse_short a (bit + n) tail (omega arith)
          ∙ whole_packet-frame _ _ _ (suc (suc (length tail))) (1 + (1 + (mask_size bit + n)))
              (omega arith) (omega (arith, masked_header_lem bit n mask)) (ground arith))
    | inr long ↦ elim (Bool-cases (ltb n 0xffff)) [
      | inl middle ↦
          let h = ltb→lt n 0xffff middle in
          let low = low_bits_lem bit 126 mask (omega arith) in
          rw (long, middle)
            (parse_16 a (bit + 126) (net16 (n % 2 ^ 16) ++ tail) low (omega arith)
              ∙ whole_packet-frame _ _ _ (suc (suc (suc (suc (length tail)))))
                  (1 + (3 + (mask_size bit + n))) (omega arith)
                  (omega (arith, masked_header_lem bit 126 mask, net16_value (n % 2 ^ 16)))
                  (ground arith))
      | inr huge ↦
          let low = low_bits_lem bit 127 mask (omega arith) in
          rw (long, huge)
            (parse_64 a (bit + 127) (net64 n ++ tail) low (omega arith)
              ∙ whole_packet-frame _ _ _
                  (suc (suc (suc (suc (suc (suc (suc (suc (suc (suc (length tail)))))))))))
                  (1 + (9 + (mask_size bit + n))) (omega arith)
                  (omega (arith, masked_header_lem bit 127 mask, net64_value n)) (ground arith))
    ]
  ]
