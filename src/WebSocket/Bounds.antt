-- ===== src/WebSocket/Bounds.antt =====
-- The handlers and the end that the parser finds for a packet.
use libsvr.Common.{
  ℕ, zero, suc, ◌+◌, ◌-◌, ◌/◌, ◌%◌, ◌^◌, ◌≤◌, ◌<◌, ◌≡◌, ◌≢◌, inl, inr, refl, ◌∙◌, arith, Bool-cases,
  Option-cases, Option, List, [], ◌∷◌, ◌++◌, length, length-take, ltb, lt→ltb, le→ltb, take, ◌==◌,
  if◌then◌else◌, none, some, Bool, false, eq→==, ne→==, add32, All,
}
use libsvr.WebSocket.{
  Mask, server_control, read_behind, WsSocket, Libraries, Event, length_bytes, net64,
}
use libsvr.WebSocket.Receive.{
  by_fin, server_use, parser_web_socket_packet, net_value, whole_packet, masked_header,
  header_length, reserved, on_server_web_socket_data, on_client_web_socket_data,
}
use libsvr.WebSocket.Masking.{IsByte, IsMask}
use libsvr.WebSocket.Payload.{client_frame, on_server-client_frame}
use libsvr.WebSocket.Errors.{IsOpen, IsSlight}
use libsvr.WebSocket.Silence.{server-Keeps, client-Keeps}
use libsvr.WebSocket.Frames.{net64_value, parse_64}

-- the length of the payload that a packet declares
unfoldable pub declared : List ℕ → ℕ
declared (a ∷ b ∷ rest) =
    if ltb (b % 128) 126
    then b % 128
    else if b % 128 == 126
    then net_value 0 (take 2 rest)
    else net_value 0 (take 8 rest)
declared short = 0

-- a packet that the parser finds has its whole header, if it declares no more than 2^32 - 14 bytes
parser-header :
    (a b : ℕ) (rest : List ℕ)
    → declared (a ∷ b ∷ rest) + 14 < 2 ^ 32
    → parser_web_socket_packet (a ∷ b ∷ rest) ≢ 0
    → (header_length (masked_header b - 2) (b % 128) ≤ parser_web_socket_packet (a ∷ b ∷ rest))
      × (parser_web_socket_packet (a ∷ b ∷ rest) ≤ length rest + 2)
unfolding declared parser_web_socket_packet
parser-header a b rest d h = ground arith

wrapped :
    (len v n : ℕ)
    → v ≡ n
    → 2 ^ 32 ≤ n % 2 ^ 32 + 14
    → 14 ≤ len
    → whole_packet len 14 (v % 2 ^ 32) ≡ n % 2 ^ 32 + 14 - 2 ^ 32
wrapped len v n e w l =
    let s : add32 14 (v % 2 ^ 32) ≡ n % 2 ^ 32 + 14 - 2 ^ 32 = omega arith in
    rw (s, le→ltb len (n % 2 ^ 32 + 14 - 2 ^ 32) (omega arith)) refl

module _ {W : Type 0} (lib : Libraries W) (ws : WsSocket W) where
  reserved_safe :
      (a : ℕ) (p : List ℕ) (use_it : Bool → List ℕ → WsSocket W × List Event)
      → reserved lib ws a (some p) use_it ≢ none
  unfolding reserved
  reserved_safe a p use_it h = ground arith

  reserved_plain :
      (a : ℕ) (p : List ℕ) (use_it : Bool → List ℕ → WsSocket W × List Event)
      → a / 16 % 8 ≡ 0
      → reserved lib ws a (some p) use_it ≡ some (use_it false p)
  unfolding reserved
  reserved_plain a p use_it e = rw (eq→== (a / 16 % 8) 0 e) refl

  server_safe :
      (a b : ℕ) (rest : List ℕ)
      → header_length (masked_header b - 2) (b % 128) ≤ length rest + 2
      → on_server_web_socket_data lib ws (a ∷ b ∷ rest) ≢ none
  unfolding on_server_web_socket_data
  server_safe a b rest l = elim (Bool-cases (b / 128 == 0)) [
    | inl plain ↦ rw plain (λ h. ground arith)
    | inr hidden ↦
        let fits : header_length 4 (b % 128) ≤ length rest + 2 = ground arith in
        rw (hidden, le→ltb (length rest + 2) (header_length 4 (b % 128)) fits) (reserved_safe a _ _)
  ]

  client_safe :
      (a b : ℕ) (rest : List ℕ)
      → header_length (masked_header b - 2) (b % 128) ≤ length rest + 2
      → on_client_web_socket_data lib ws (a ∷ b ∷ rest) ≢ none
  unfolding on_client_web_socket_data
  client_safe a b rest l = elim (Bool-cases (b / 128 == 0)) [
    | inl plain ↦
        let fits : header_length 0 (b % 128) ≤ length rest + 2 = ground arith in
        rw (plain, le→ltb (length rest + 2) (header_length 0 (b % 128)) fits) (reserved_safe a _ _)
    | inr hidden ↦ rw hidden (λ h. ground arith)
  ]

  -- A handler has a result, so that it reads no more than the packet by itself, and whatever it masks or
  -- unmasks it reads at most four bytes too far.
  abbrev pub Safe : Option (WsSocket W × List Event) → Type 0
  Safe handled = (r : WsSocket W × List Event) × (handled ≡ some r) × All IsSlight r.1

  -- both handlers
  abbrev pub BothSafe : List ℕ → Type 0
  BothSafe packet =
      Safe (on_server_web_socket_data lib ws packet)
      × Safe (on_client_web_socket_data lib ws packet)

  server-Safe :
      (packet : List ℕ)
      → IsOpen ws
      → on_server_web_socket_data lib ws packet ≢ none
      → Safe (on_server_web_socket_data lib ws packet)
  server-Safe packet o n = elim (Option-cases (on_server_web_socket_data lib ws packet)) [
    | inl e ↦ absurd (n e)
    | inr (r, e) ↦ let (a, b, l) = server-Keeps lib ws packet r o e in (r, e, l)
  ]

  client-Safe :
      (packet : List ℕ)
      → IsOpen ws
      → on_client_web_socket_data lib ws packet ≢ none
      → Safe (on_client_web_socket_data lib ws packet)
  client-Safe packet o n = elim (Option-cases (on_client_web_socket_data lib ws packet)) [
    | inl e ↦ absurd (n e)
    | inr (r, e) ↦ let (a, b, l) = client-Keeps lib ws packet r o e in (r, e, l)
  ]

  Safe-packet :
      (a b : ℕ) (rest : List ℕ) (k : ℕ)
      → IsOpen ws
      → header_length (masked_header b - 2) (b % 128) ≤ k
      → k ≤ length rest + 2
      → BothSafe (take k (a ∷ b ∷ rest))
  Safe-packet a b rest zero o h l = absurd (ground arith)
  Safe-packet a b rest (suc zero) o h l = absurd (ground arith)
  Safe-packet a b rest (suc (suc j)) o h l =
      let n : length (take j rest) ≡ j = omega (arith, length-take j rest) in
      let fits : header_length (masked_header b - 2) (b % 128) ≤ length (take j rest) + 2 =
        omega arith in
      (
        server-Safe (a ∷ b ∷ take j rest) o (server_safe a b (take j rest) fits),
        client-Safe (a ∷ b ∷ take j rest) o (client_safe a b (take j rest) fits),
      )

  -- If the bytes that arrive at an open socket declare a payload of fewer than 2^32 - 14 bytes and
  -- the parser finds a packet, each handler has a result for that packet, so that its header is
  -- never read behind the end, and in all that the handler does nothing is read more than four
  -- bytes behind a text that is masked or unmasked.
  pub parser-Safe :
      (data' : List ℕ)
      → IsOpen ws
      → declared data' + 14 < 2 ^ 32
      → parser_web_socket_packet data' ≢ 0
      → BothSafe (take (parser_web_socket_packet data') data')
  unfolding parser_web_socket_packet
  parser-Safe [] o d h = absurd (h refl)
  parser-Safe (a ∷ []) o d h = absurd (h refl)
  parser-Safe (a ∷ b ∷ rest) o d h =
      let (header, fits) = parser-header a b rest d h in
      Safe-packet a b rest (parser_web_socket_packet (a ∷ b ∷ rest)) o header fits

  -- A server that handles a frame with a mask and no reserved bit first reads between one and four
  -- bytes behind the end of the packet: as many as make the payload a multiple of four bytes, and
  -- four where it is one already.
  pub server-reads_behind :
      (a : ℕ) (m : Mask) (payload : List ℕ)
      → a / 16 % 8 ≡ 0
      → IsMask m
      → All IsByte payload
      → (ws' : WsSocket W) × (events : List Event) × (n : ℕ) × (on_server_web_socket_data lib ws
            (client_frame a m payload)
          ≡ some (ws', read_behind n ∷ events))
        × (0 < n)
        × (n ≤ 4)
        × ((length payload + n) % 4 ≡ 0)
  server-reads_behind a m payload e h b =
      let rest = by_fin lib (server_control lib 10) ws a false payload in
      (
        rest.0,
        rest.1,
        4 - length payload % 4,
        on_server-client_frame lib ws a m payload h b
            ∙ reserved_plain a payload (server_use lib ws a) e,
        omega arith,
        omega arith,
        omega arith,
      )

  server_overrun :
      (a b : ℕ) (rest : List ℕ)
      → b / 128 ≢ 0
      → a / 16 % 8 ≡ 0
      → length rest + 2 < header_length 4 (b % 128)
      → on_server_web_socket_data lib ws (a ∷ b ∷ rest) ≡ none
  unfolding on_server_web_socket_data reserved
  server_overrun a b rest q r l =
      rw
        (
          ne→== (b / 128) 0 q,
          eq→== (a / 16 % 8) 0 r,
          lt→ltb (length rest + 2) (header_length 4 (b % 128)) l,
        )
        refl

  server_cut :
      (a : ℕ) (rest : List ℕ) (k : ℕ)
      → a / 16 % 8 ≡ 0
      → k < 14
      → on_server_web_socket_data lib ws (take k (a ∷ 255 ∷ rest)) ≡ none
  unfolding on_server_web_socket_data
  server_cut a rest zero r l = refl
  server_cut a rest (suc zero) r l = refl
  server_cut a rest (suc (suc j)) r l =
      server_overrun a 255 (take j rest) (omega arith) r (omega (arith, length-take j rest))

  -- If a masked frame with a 64-bit length arrives whose low 32 bits are 2^32 - 14 or more, and no
  -- reserved bit is set, the length of the packet wraps: the parser takes fewer than the 14 bytes
  -- of its header for the packet, and the handler of the server reads behind the end of these.
  pub parser-wraps :
      (a n : ℕ) (rest : List ℕ)
      → a / 16 % 8 ≡ 0
      → n < 2 ^ 64
      → 2 ^ 32 ≤ n % 2 ^ 32 + 14
      → 4 ≤ length rest
      → (parser_web_socket_packet (a ∷ (length_bytes 128 n ++ rest)) ≡ n % 2 ^ 32 + 14 - 2 ^ 32)
        × (on_server_web_socket_data lib ws (
              take
                (parser_web_socket_packet (a ∷ (length_bytes 128 n ++ rest)))
                (a ∷ (length_bytes 128 n ++ rest)))
            ≡ none)
  unfolding length_bytes
  parser-wraps a n rest r b w l =
      let long : ltb n 126 ≡ false = le→ltb n 126 (omega arith) in
      let huge : ltb n 0xffff ≡ false = le→ltb n 0xffff (omega arith) in
      let e : parser_web_socket_packet (a ∷ (length_bytes 128 n ++ rest))
          ≡ n % 2 ^ 32 + 14 - 2 ^ 32 =
        rw (long, huge)
          (parse_64 a 255 (net64 n ++ rest) refl (omega arith)
            ∙ wrapped _ _ n (net64_value n b) w (omega arith)) in
      (
        e,
        rw (e, long, huge)
            (server_cut a (net64 n ++ rest) (n % 2 ^ 32 + 14 - 2 ^ 32) r (omega arith)),
      )
