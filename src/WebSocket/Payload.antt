-- ===== src/WebSocket/Payload.antt =====
-- The handlers find the payload in a frame of the other side.
use libsvr.Common.{
  ℕ, ◌+◌, ◌/◌, ◌%◌, ◌^◌, ◌-◌, ◌≤◌, ◌≡◌, ◌≢◌, inl, inr, refl, ap, ◌∙◌, arith, Bool-cases, List, ◌∷◌,
  ◌++◌, length, ltb, ltb→lt, le→ltb, drop, some, All, eq→==, ne→==,
}
use libsvr.WebSocket.{Mask, mask_bytes, masked, length_bytes, net16, net64, WsSocket, Libraries}
use libsvr.WebSocket.Masking.{IsByte, IsMask, masked-masked}
use libsvr.WebSocket.Receive.{
  server_use, client_use, header_length, mask_at, reserved, on_server_web_socket_data,
  on_client_web_socket_data,
}

-- the frames of both sides, with the first byte `a`
unfoldable pub client_frame : ℕ → Mask → List ℕ → List ℕ
client_frame a m payload =
    a ∷ (length_bytes 128 (length payload) ++ (mask_bytes m ++ masked m payload))

unfoldable pub server_frame : ℕ → List ℕ → List ℕ
server_frame a payload = a ∷ (length_bytes 0 (length payload) ++ payload)

module _ {W : Type 0} (lib : Libraries W) (ws : WsSocket W) where
  server_payload :
      (a b : ℕ) (rest : List ℕ) (header : ℕ) (at : List ℕ)
      → b / 128 ≢ 0
      → header_length 4 (b % 128) ≡ header
      → header ≤ length rest + 2
      → drop (header - 4) (a ∷ b ∷ rest) ≡ at
      → on_server_web_socket_data lib ws (a ∷ b ∷ rest)
        ≡ reserved lib ws a (some (masked (mask_at at) (drop 4 at))) (server_use lib ws a)
  unfolding on_server_web_socket_data
  server_payload a b rest header at q h l e =
      rw (ne→== (b / 128) 0 q, h, le→ltb (length rest + 2) header l, e)

  client_payload :
      (a b : ℕ) (rest : List ℕ) (header : ℕ) (at : List ℕ)
      → b / 128 ≡ 0
      → header_length 0 (b % 128) ≡ header
      → header ≤ length rest + 2
      → drop header (a ∷ b ∷ rest) ≡ at
      → on_client_web_socket_data lib ws (a ∷ b ∷ rest)
        ≡ reserved lib ws a (some at) (client_use lib ws a)
  unfolding on_client_web_socket_data
  client_payload a b rest header at q h l e =
      rw (eq→== (b / 128) 0 q, h, le→ltb (length rest + 2) header l, e)

  pub on_server-client_frame :
      (a : ℕ) (m : Mask) (payload : List ℕ)
      → IsMask m
      → All IsByte payload
      → on_server_web_socket_data lib ws (client_frame a m payload)
        ≡ reserved lib ws a (some payload) (server_use lib ws a)
  unfolding client_frame length_bytes
  on_server-client_frame a m payload h b =
      let n = length payload in
      let back =
        ap (λ p. reserved lib ws a (some p) (server_use lib ws a)) (masked-masked m payload h b) in
      let at = mask_bytes m ++ masked m payload in
      elim (Bool-cases (ltb n 126)) [
        | inl short ↦
            let l = ltb→lt n 126 short in
            rw short (
              server_payload a (128 + n) at 6 at (omega arith) (ground arith) (omega arith) refl
              ∙ back)
        | inr long ↦ elim (Bool-cases (ltb n 0xffff)) [
          | inl middle ↦
              rw (long, middle)
                (server_payload a 254 (net16 (n % 2 ^ 16) ++ at) 8 at (omega arith) refl
                    (omega arith) refl
                  ∙ back)
          | inr huge ↦
              rw (long, huge)
                (server_payload a 255 (net64 n ++ at) 14 at (omega arith) refl (omega arith) refl
                  ∙ back)
        ]
      ]

  pub on_client-server_frame :
      (a : ℕ) (payload : List ℕ)
      → on_client_web_socket_data lib ws (server_frame a payload)
        ≡ reserved lib ws a (some payload) (client_use lib ws a)
  unfolding server_frame length_bytes
  on_client-server_frame a payload =
      let n = length payload in
      elim (Bool-cases (ltb n 126)) [
        | inl short ↦
            let l = ltb→lt n 126 short in
            rw short (
              client_payload a (0 + n) payload 2 payload (omega arith) (ground arith) (omega arith)
                refl)
        | inr long ↦ elim (Bool-cases (ltb n 0xffff)) [
          | inl middle ↦
              rw (long, middle)
                (client_payload a 126 (net16 (n % 2 ^ 16) ++ payload) 4 payload (omega arith) refl
                  (omega arith) refl)
          | inr huge ↦
              rw (long, huge)
                (client_payload a 127 (net64 n ++ payload) 10 payload (omega arith) refl
                  (omega arith) refl)
        ]
      ]
