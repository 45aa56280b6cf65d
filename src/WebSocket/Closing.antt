-- ===== src/WebSocket/Closing.antt =====
-- What the other side learns of a close frame.
use libsvr.Common.{
  ℕ, ◌+◌, ◌/◌, ◌%◌, ◌^◌, ◌≤◌, ◌<◌, ◌≡◌, refl, sym, ap, ◌∙◌, arith, List, [], ◌∷◌, ◌++◌, length,
  length-append, lt→ltb, le→ltb, if◌then◌else◌, subst, Option, some, Bool, false, All,
}
use mathlib.Core.List.{append-nil}
use libsvr.Utility.Utf8.{is_valid_utf8}
use libsvr.WebSocket.{
  over_read, after_reason, server_control, client_control, Mask, turned, mask_bytes, masked,
  WsSocket, Libraries, Event, length_bytes, net16, server_close, client_close, draw,
  ws_close_socket, websocket,
}
use libsvr.WebSocket.Masking.{
  IsByte, IsMask, masked-masked, masked-IsByte, length-masked, turned-IsMask,
}
use libsvr.WebSocket.Receive.{
  begun, parser_web_socket_packet, whole_packet, masked_header, close_frame, final_frame, by_fin,
  reserved, on_server_web_socket_data, on_client_web_socket_data,
}
use libsvr.WebSocket.Frames.{parse_16, net16_value}
use libsvr.WebSocket.Payload.{
  client_frame, server_frame, on_server-client_frame, on_client-server_frame,
}
use libsvr.WebSocket.Exchange.{sent, IsRandom, parse_server_frame, parse_client_frame}

short_server_frame :
    (a n : ℕ) (payload : List ℕ)
    → length payload ≡ n
    → n < 126
    → a ∷ n ∷ payload ≡ server_frame a payload
unfolding server_frame length_bytes
short_server_frame a n payload e h =
    rw (e, lt→ltb n 126 h) (ap (λ n. a ∷ n ∷ payload) (omega arith))

short_client_frame :
    (a n : ℕ) (m : Mask) (payload : List ℕ)
    → length payload ≡ n
    → n < 126
    → a ∷ (128 + n) ∷ (mask_bytes m ++ masked m payload) ≡ client_frame a m payload
unfolding client_frame length_bytes
short_client_frame a n m payload e h = rw (e, lt→ltb n 126 h) refl

too_short :
    (len b value rest status : ℕ)
    → len ≡ 128 + rest
    → (masked_header b + 2 + value ≡ 4 + status) × (status < 2 ^ 16)
    → rest + 124 < status
    → whole_packet len (masked_header b + 2) value ≡ 0
too_short len b value rest status e (f, s) h = ground arith

-- the reason that the other side is given back: nothing if it is no text
abbrev pub reason_of : List ℕ → List ℕ
reason_of reason = if is_valid_utf8 reason then reason else []

-- `bytes` is a frame, whatever follows it, and the handler, after what comes `before`, closes its side with
-- a status and a reason.
abbrev pub Closes :
    {W : Type 0}
    → Libraries W
    → (WsSocket W → List ℕ → Option (WsSocket W × List Event))
    → WsSocket W
    → List ℕ
    → List Event
    → ℕ
    → List ℕ
    → Type 0
Closes lib on_data ws bytes before status reason =
    ((rest : List ℕ) → parser_web_socket_packet (bytes ++ rest) ≡ length bytes)
    × (on_data ws bytes
        ≡ some (begun before (ws_close_socket lib ws websocket status (reason_of reason))))

reason-sent :
    {W : Type 0} (lib : Libraries W) (message : List ℕ) (r : WsSocket W × List Event × Bool)
    → sent (after_reason lib message r).1 ≡ sent r.1
unfolding sent
reason-sent lib [] r = refl
reason-sent lib (x ∷ xs) r = refl

module _ {W : Type 0} (lib : Libraries W)
    (pong : WsSocket W → List ℕ → WsSocket W × List Event × Bool) (ws : WsSocket W) where
  status_frame :
      (status : ℕ) (reason : List ℕ)
      → status < 2 ^ 16
      → by_fin lib pong ws 136 false (net16 status ++ reason)
        ≡ ws_close_socket lib ws websocket status (reason_of reason)
  unfolding by_fin final_frame close_frame
  status_frame status reason h =
      ap (λ s. ws_close_socket lib ws websocket s (reason_of reason)) (net16_value status h)

  plain_close :
      (p : List ℕ) (use_it : Bool → List ℕ → WsSocket W × List Event)
      → reserved lib ws 136 (some p) use_it ≡ some (use_it false p)
  unfolding reserved
  plain_close p use_it = refl

module _ {W : Type 0} (lib : Libraries W) (ws : WsSocket W) {V : Type 0} (other : Libraries V)
    (peer : WsSocket V) (status : ℕ) (message : List ℕ) (bound : status < 2 ^ 16) where
  server_close_frame :
      length message ≤ 123
      → sent (server_close lib ws status message).1 ≡ server_frame 136 (net16 status ++ message)
  unfolding server_close sent server_frame length_bytes
  server_close_frame h = rw (le→ltb 125 (length message) (omega arith)) (
      ap (λ xs. 136 ∷ (length message + 2) ∷ status / 256 % 256 ∷ status % 256 ∷ xs)
        (append-nil message)
      ∙ short_server_frame 136 (length message + 2) (net16 status ++ message) (omega arith)
          (omega arith))

  -- If a server closes with a reason of at most 123 bytes, the client finds the end of the close
  -- frame whatever follows, and closes with the same status, and with the same reason if that is
  -- valid UTF-8.
  pub on_client-server_close :
      length message ≤ 123
      → Closes other
          (on_client_web_socket_data other)
          peer
          (sent (server_close lib ws status message).1)
          []
          status
          message
  on_client-server_close h =
      subst (λ b. Closes other (on_client_web_socket_data other) peer b [] status message)
        (sym (server_close_frame h))
        (
          (λ rest. parse_server_frame 136 (net16 status ++ message) rest (omega arith)),
          on_client-server_frame other peer 136 (net16 status ++ message)
              ∙ plain_close other (client_control other 10) peer (net16 status ++ message) _
              ∙ ap some (status_frame other _ peer status message bound),
        )

  -- what the server makes of the reason of a client
  abbrev pub garbled : Mask → List ℕ
  garbled m = masked (turned (turned m)) (masked m message)

  client_close_frame :
      length message ≤ 123
      → IsMask (draw lib ws).1
      → All IsByte message
      → sent (client_close lib ws status message).1
        ≡ client_frame 136 (draw lib ws).1 (net16 status ++ garbled (draw lib ws).1)
  unfolding client_close sent client_frame length_bytes masked
  client_close_frame h m bytes =
      let r = draw lib ws in
      let back =
        masked-masked (turned (turned r.1)) (masked r.1 message)
          (turned-IsMask _ (turned-IsMask _ m)) (masked-IsByte r.1 message m bytes) in
      let l = length-masked r.1 message in
      let k = length-masked (turned (turned r.1)) (masked r.1 message) in
      rw (le→ltb 125 (length message) (omega arith)) (
        reason-sent lib message _
        ∙ rw (append-nil (masked r.1 message)) (
            subst
              (λ xs.
                136
                  ∷ (128 + (length message + 2))
                  ∷ (mask_bytes r.1 ++ (masked r.1 (net16 status) ++ xs))
                ≡ client_frame 136 r.1 (net16 status ++ garbled r.1))
              back
              (short_client_frame 136 (length message + 2) r.1 (net16 status ++ garbled r.1)
                (omega arith) (omega arith))))

  -- If a client closes with a reason of at most 123 bytes, the server finds the end of the close
  -- frame whatever follows, and, after the read behind the packet of each unmasking, closes with
  -- the same status, but the reason that it sees is masked twice: with the mask from its first
  -- byte on and with the mask from its third byte on.
  pub on_server-client_close :
      length message ≤ 123
      → IsRandom lib
      → All IsByte message
      → Closes other
          (on_server_web_socket_data other)
          peer
          (sent (client_close lib ws status message).1)
          (over_read (net16 status ++ garbled (draw lib ws).1))
          status
          (garbled (draw lib ws).1)
  unfolding draw
  on_server-client_close h random bytes =
      let m = (draw lib ws).1 in
      subst
        (λ b.
          Closes other (on_server_web_socket_data other) peer b
            (over_read (net16 status ++ garbled m)) status (garbled m))
        (sym (client_close_frame h (random ws.world) bytes))
        (
          (λ rest. parse_client_frame 136 m (net16 status ++ garbled m) rest (
              omega (
                arith,
                length-masked m message,
                length-masked (turned (turned m)) (masked m message),
              ))),
          on_server-client_frame other peer 136 m (net16 status ++ garbled m) (random ws.world) (
            omega arith,
            (
              omega arith,
              masked-IsByte (turned (turned m)) (masked m message)
                  (turned-IsMask _ (turned-IsMask _ (random ws.world)))
                  (masked-IsByte m message (random ws.world) bytes),
            ),
          )
              ∙ plain_close other (server_control other 10) peer (net16 status ++ garbled m) _
              ∙ ap (λ r. some (begun (over_read (net16 status ++ garbled m)) r))
                  (status_frame other _ peer status (garbled m) bound),
        )

  -- If a server closes with a reason of 124 bytes, which it accepts, the parser of the client
  -- takes the status for the length of the payload and finds no packet until status - 124 more
  -- bytes have arrived.
  pub parser-server_close :
      (rest : List ℕ)
      → length message ≡ 124
      → length rest + 124 < status
      → parser_web_socket_packet (sent (server_close lib ws status message).1 ++ rest) ≡ 0
  unfolding server_close sent
  parser-server_close rest l h =
      let n = length-append message rest in
      rw (le→ltb 125 (length message) (omega arith), append-nil message)
        (parse_16 136 (length message + 2) (net16 status ++ (message ++ rest)) (omega arith)
            (omega arith)
          ∙ too_short _ _ _ (length rest) status (omega arith)
              (grind (arith, net16_value status bound), bound) h)
