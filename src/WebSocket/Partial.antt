-- ===== src/WebSocket/Partial.antt =====
-- The parser waits for the rest of a frame.
use libsvr.Common.{
  ℕ, zero, dec_lt, length-take, suc, ◌+◌, ◌%◌, ◌^◌, ◌-◌, ◌<◌, ◌≡◌, inl, inr, refl, sym, ap, ◌∙◌,
  arith, Bool-cases, List, [], ◌∷◌, ◌++◌, length, length-append, ltb, lt→ltb, take, subst,
}
use libsvr.WebSocket.{length_bytes, net16, net64}
use libsvr.WebSocket.Receive.{parser_web_socket_packet}
use libsvr.WebSocket.Frames.{IsMaskBit, frame_size, parser-frame, low_bits_lem}

take_of : (xs ys : List ℕ) (i : ℕ) → take (length xs + i) (xs ++ ys) ≡ xs ++ take i ys
take_of [] ys i = ap (λ n. take n ys) (omega arith)
take_of (x ∷ xs) ys i =
    ap (λ n. take n (x ∷ (xs ++ ys))) {y = suc (length xs + i)} (omega arith)
    ∙ ap (λ zs. x ∷ zs) (take_of xs ys i)

module _ (a b : ℕ) (rest : List ℕ) where
  early_16 : b % 128 ≡ 126 → length rest < 2 → parser_web_socket_packet (a ∷ b ∷ rest) ≡ 0
  unfolding parser_web_socket_packet
  early_16 h l = rw (h, lt→ltb (length rest + 2) 4 (omega arith)) refl

  early_64 : b % 128 ≡ 127 → length rest < 8 → parser_web_socket_packet (a ∷ b ∷ rest) ≡ 0
  unfolding parser_web_socket_packet
  early_64 h l = rw (h, lt→ltb (length rest + 2) 10 (omega arith)) refl

module _ (a bit n : ℕ) (tail : List ℕ) (mask : IsMaskBit bit) where
  -- not even the bytes of the length have arrived
  in_length :
      (k : ℕ)
      → k < suc (length (length_bytes bit n))
      → parser_web_socket_packet (take k (a ∷ (length_bytes bit n ++ tail))) ≡ 0
  unfolding length_bytes parser_web_socket_packet
  in_length zero h = refl
  in_length (suc zero) h = refl
  in_length (suc (suc j)) h = elim (Bool-cases (ltb n 126)) [
    | inl short ↦
        let inside : suc (suc j) < suc (length (length_bytes bit n)) → ⊥ =
          rw short (λ h. omega arith) in
        absurd (inside h)
    | inr long ↦ elim (Bool-cases (ltb n 0xffff)) [
      | inl middle ↦
          let inside : suc (suc j) < suc (length (length_bytes bit n))
              → parser_web_socket_packet (take (suc (suc j)) (a ∷ (length_bytes bit n ++ tail)))
                ≡ 0 =
            rw (long, middle)
              (λ h.
                early_16 a (bit + 126) (take j (net16 (n % 2 ^ 16) ++ tail))
                  (low_bits_lem bit 126 mask (omega arith))
                  (omega (arith, length-take j (net16 (n % 2 ^ 16) ++ tail)))) in
          inside h
      | inr huge ↦
          let inside : suc (suc j) < suc (length (length_bytes bit n))
              → parser_web_socket_packet (take (suc (suc j)) (a ∷ (length_bytes bit n ++ tail)))
                ≡ 0 =
            rw (long, huge)
              (λ h.
                early_64 a (bit + 127) (take j (net64 n ++ tail))
                  (low_bits_lem bit 127 mask (omega arith))
                  (omega (arith, length-take j (net64 n ++ tail)))) in
          inside h
    ]
  ]

  -- all of the length's bytes, and `i` bytes more
  behind_length :
      (i : ℕ)
      → n + 14 < 2 ^ 32
      → suc (length (length_bytes bit n)) + i < frame_size bit n
      → parser_web_socket_packet (a ∷ (length_bytes bit n ++ take i tail)) ≡ 0
  unfolding frame_size
  behind_length i small h =
      let l = length-append (length_bytes bit n) (take i tail) in
      let k = length-take i tail in
      parser-frame a bit n (take i tail) mask small
      ∙ rw
          (lt→ltb (length (a ∷ (length_bytes bit n ++ take i tail))) (frame_size bit n)
            (omega arith))
          refl

  -- Of a frame with a payload of fewer than 2^32 - 14 bytes, with or without a mask, the parser
  -- takes no proper prefix for a packet: it waits for more.
  pub parser-take :
      (k : ℕ)
      → n + 14 < 2 ^ 32
      → k < frame_size bit n
      → parser_web_socket_packet (take k (a ∷ (length_bytes bit n ++ tail))) ≡ 0
  parser-take k small h = elim (dec_lt k (suc (length (length_bytes bit n)))) [
    | yes inside ↦ in_length k inside
    | no outside ↦
        let i = k - suc (length (length_bytes bit n)) in
        let e : k ≡ suc (length (length_bytes bit n)) + i = omega arith in
        subst (λ k. parser_web_socket_packet (take k (a ∷ (length_bytes bit n ++ tail))) ≡ 0)
          (sym e)
          (ap parser_web_socket_packet (take_of (a ∷ length_bytes bit n) tail i)
            ∙ behind_length i small (omega arith))
  ]
