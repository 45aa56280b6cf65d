-- ===== src/WebSocket/Exchange.antt =====
-- A message from one side to the other: the calls that send it, the parser, and the handler of the other
-- side.
use libsvr.Common.{
  eq→==, ℕ, suc, ◌/◌, ◌+◌, ◌%◌, ◌^◌, ◌≤◌, ◌<◌, ◌≡◌, ◌⊎◌, inl, inr, refl, sym, ap, ◌∙◌, subst, arith,
  Bool, true, false, Bool-cases, List, [], ◌∷◌, ◌++◌, length, length-append, ◌==◌, if◌then◌else◌,
  Option, none, some, All, le→ltb,
}
use mathlib.Core.List.{append_assoc, append-nil}
use libsvr.Utility.Utf8.{is_valid_utf8}
use libsvr.WebSocket.{
  over_read, Mask, mask_bytes, masked, length_bytes, client_websocket, server_websocket, WsSocket,
  Libraries, Event, send, on_message, server_data, client_data, deflated, draw, send_both, by_state,
  net_ws_send_text, net_ws_send_binary,
}
use libsvr.WebSocket.Masking.{IsByte, IsMask, length-masked}
use libsvr.WebSocket.Receive.{
  begun, parser_web_socket_packet, on_server_web_socket_data, on_client_web_socket_data, reserved,
  by_fin, final_frame, data_frame, inflated,
}
use libsvr.WebSocket.Frames.{parser-frame, frame_size, whole_frame}
use libsvr.WebSocket.Payload.{
  client_frame, server_frame, on_server-client_frame, on_client-server_frame,
}

-- the bytes that a call gave to the engine
unfoldable pub sent : List Event → List ℕ
sent [] = []
sent (send bytes ∷ events) = bytes ++ sent events
sent (e ∷ events) = sent events

-- The parser finds the end of `bytes` whatever follows, and the handler, after what comes `before`, gives
-- `message` to the user and leaves the socket as it is.
abbrev pub Delivers :
    {W : Type 0}
    → (WsSocket W → List ℕ → Option (WsSocket W × List Event))
    → WsSocket W
    → List ℕ
    → List Event
    → ℕ
    → List ℕ
    → Type 0
Delivers on_data ws bytes before op message =
    ((rest : List ℕ) → parser_web_socket_packet (bytes ++ rest) ≡ length bytes)
    × (on_data ws bytes ≡ some (ws, before ++ (on_message op message ∷ [])))

-- a text is a message of code 1 that is valid, a binary message is one of code 2
abbrev pub IsMessage : ℕ → List ℕ → Type 0
IsMessage op message = ((op ≡ 1) × (is_valid_utf8 message ≡ true)) ⊎ (op ≡ 2)

whole_lem : (len size size' : ℕ) → size ≡ size' → size ≤ len → whole_frame len size ≡ size'
whole_lem len size size' e h = rw (le→ltb len size h) e

pub parse_client_frame :
    (a : ℕ) (m : Mask) (payload rest : List ℕ)
    → length payload + 14 < 2 ^ 32
    → parser_web_socket_packet (client_frame a m payload ++ rest)
      ≡ length (client_frame a m payload)
unfolding client_frame frame_size
parse_client_frame a m payload rest h =
    let n = length payload in
    let l = length-append (length_bytes 128 n) (mask_bytes m ++ masked m payload) in
    let r = length-append (length_bytes 128 n) (mask_bytes m ++ (masked m payload ++ rest)) in
    let s = length-append (masked m payload) rest in
    let k = length-masked m payload in
    let size : frame_size 128 n
        ≡ suc (length (length_bytes 128 n ++ (mask_bytes m ++ masked m payload))) =
      omega arith in
    rw (append_assoc (length_bytes 128 n) (mask_bytes m ++ masked m payload) rest) (
      parser-frame a 128 n (mask_bytes m ++ (masked m payload ++ rest)) (inr refl) h
      ∙ whole_lem _ _ _ size (omega arith))

pub parse_server_frame :
    (a : ℕ) (payload rest : List ℕ)
    → length payload + 14 < 2 ^ 32
    → parser_web_socket_packet (server_frame a payload ++ rest) ≡ length (server_frame a payload)
unfolding server_frame frame_size
parse_server_frame a payload rest h =
    let n = length payload in
    let l = length-append (length_bytes 0 n) payload in
    let r = length-append (length_bytes 0 n) (payload ++ rest) in
    let s = length-append payload rest in
    let size : frame_size 0 n ≡ suc (length (length_bytes 0 n ++ payload)) = omega arith in
    rw (append_assoc (length_bytes 0 n) payload rest)
      (parser-frame a 0 n (payload ++ rest) (inl refl) h ∙ whole_lem _ _ _ size (omega arith))

module _ {W : Type 0} (lib : Libraries W) where
  text_lem :
      (ws : WsSocket W) (message : List ℕ)
      → is_valid_utf8 message ≡ true
      → data_frame lib ws 1 false message ≡ (ws, on_message 1 message ∷ [])
  unfolding data_frame inflated
  text_lem ws message valid = rw valid refl

  -- a whole message that is not compressed, for a socket with no fragment
  message_frame :
      (pong : WsSocket W → List ℕ → WsSocket W × List Event × Bool) (ws : WsSocket W) (op : ℕ)
      (message : List ℕ)
      → ws.fragment_data ≡ none
      → IsMessage op message
      → by_fin lib pong ws (128 + op % 16 + 0) false message ≡ (ws, on_message op message ∷ [])
  unfolding by_fin final_frame data_frame inflated
  message_frame pong ws op message e (inl (one, valid)) =
      subst
        (λ op.
          by_fin lib pong ws (128 + op % 16 + 0) false message ≡ (ws, on_message op message ∷ []))
        (sym one) (simp e (text_lem ws message valid))
  message_frame pong ws op message e (inr two) =
      subst
        (λ op.
          by_fin lib pong ws (128 + op % 16 + 0) false message ≡ (ws, on_message op message ∷ []))
        (sym two) (simp e refl)

  -- no reserved bit is set
  plain_frame :
      (ws : WsSocket W) (op : ℕ) (message : List ℕ)
      (use_it : Bool → List ℕ → WsSocket W × List Event)
      → (op ≡ 1) ⊎ (op ≡ 2)
      → reserved lib ws (128 + op % 16 + 0) (some message) use_it ≡ some (use_it false message)
  unfolding reserved
  plain_frame ws op message use_it o =
      rw (eq→== ((128 + op % 16 + 0) / 16 % 8) 0 (ground arith)) refl

-- a mask from the random numbers is four bytes of memory
abbrev pub IsRandom : {W : Type 0} → Libraries W → Type 0
IsRandom {W} lib = (w : W) → IsMask (lib.rand_mask w).1

-- a call that gives `true` has sent the head and the body
send_both-sent :
    {W : Type 0} (lib : Libraries W) (ws : WsSocket W) (head body : List ℕ)
    → (send_both lib ws head body).2 ≡ true
    → sent (send_both lib ws head body).1 ≡ head ++ body
unfolding send_both sent
send_both-sent lib ws head body h = elim (Bool-cases (lib.accepts head)) [
  | inl taken ↦ rw taken (ap (λ b. head ++ b) (append-nil body))
  | inr left ↦ absurd (let e : false ≡ true = rw left at h in ground arith)
]

module _ {W : Type 0} (lib : Libraries W) (ws after : WsSocket W) (op : ℕ) (message : List ℕ)
    (events : List Event) where
  client_data-sent :
      client_data lib ws op message false ≡ (after, events, true)
      → sent events ≡ client_frame (128 + op % 16 + 0) (draw lib ws).1 message
  unfolding client_data deflated client_frame sent
  client_data-sent h =
      let m = (draw lib ws).1 in
      ap (λ r. sent r.1) (sym h)
      ∙ send_both-sent lib (draw lib ws).0 _ (masked m message) (ap (λ r. r.2) h)
      ∙ append_assoc ((128 + op % 16 + 0) ∷ length_bytes 128 (length message)) (mask_bytes m)
          (masked m message)

  server_data-sent :
      server_data lib ws op message false ≡ (after, events, true)
      → sent events ≡ server_frame (128 + op % 16 + 0) message
  unfolding server_data deflated server_frame sent
  server_data-sent h =
      ap (λ r. sent r.1) (sym h) ∙ send_both-sent lib ws _ message (ap (λ r. r.2) h)

  text_by_state :
      net_ws_send_text lib ws message false ≡ (after, events, true)
      → (is_valid_utf8 message ≡ true)
        × (by_state lib ws.state ws
              (server_data lib ws 1 message false)
              (client_data lib ws 1 message false)
            ≡ (after, events, true))
  unfolding net_ws_send_text
  text_by_state h = ground arith

  binary_by_state :
      net_ws_send_binary lib ws message false ≡ (after, events, true)
      → by_state lib ws.state ws
          (server_data lib ws 2 message false)
          (client_data lib ws 2 message false)
        ≡ (after, events, true)
  unfolding net_ws_send_binary
  binary_by_state h = ground arith

-- the call that sends a message of a code
abbrev pub net_ws_send :
    {W : Type 0} → Libraries W → ℕ → WsSocket W → List ℕ → WsSocket W × List Event × Bool
net_ws_send lib op ws message =
    if op == 1
    then net_ws_send_text lib ws message false
    else net_ws_send_binary lib ws message false

module _ {W : Type 0} (lib : Libraries W) (ws after : WsSocket W) (op : ℕ) (message : List ℕ)
    (events : List Event) where
  data_of_send :
      (op ≡ 1) ⊎ (op ≡ 2)
      → net_ws_send lib op ws message ≡ (after, events, true)
      → IsMessage op message
        × (by_state lib ws.state ws
              (server_data lib ws op message false)
              (client_data lib ws op message false)
            ≡ (after, events, true))
  data_of_send (inl one) h =
      subst
        (λ op.
          net_ws_send lib op ws message ≡ (after, events, true)
          → IsMessage op message
            × (by_state lib ws.state ws (server_data lib ws op message false)
                  (client_data lib ws op message false)
                ≡ (after, events, true)))
        (sym one)
        (λ h. let (v, d) = text_by_state lib ws after op message events h in (inl (refl, v), d)) h
  data_of_send (inr two) h =
      subst
        (λ op.
          net_ws_send lib op ws message ≡ (after, events, true)
          → IsMessage op message
            × (by_state lib ws.state ws (server_data lib ws op message false)
                  (client_data lib ws op message false)
                ≡ (after, events, true)))
        (sym two) (λ h. (inr refl, binary_by_state lib ws after op message events h)) h

  module _ {V : Type 0} (other : Libraries V) (peer : WsSocket V)
      (short : length message + 14 < 2 ^ 32) (op_is : (op ≡ 1) ⊎ (op ≡ 2))
      (whole : peer.fragment_data ≡ none)
      (taken : net_ws_send lib op ws message ≡ (after, events, true)) where
    -- If a client's call of net_ws_send_text or net_ws_send_binary with a message of fewer than
    -- 2^32 - 14 bytes, not compressed, returns true, then what it gave to net_tcp_send is a frame
    -- whose end the parser finds whatever bytes follow, and a server with no fragment, once it has
    -- unmasked the frame with a read of up to four bytes behind it, hands that very message to its
    -- user, and is left as it was, if the random mask is four bytes.
    pub on_server-net_ws_send :
        IsRandom lib
        → All IsByte message
        → ws.state ≡ client_websocket
        → Delivers
            (on_server_web_socket_data other)
            peer
            (sent events)
            (over_read message)
            op
            message
    unfolding by_state draw
    on_server-net_ws_send random bytes at =
        let (is, h) = data_of_send op_is taken in
        let e = client_data-sent lib ws after op message events (
          subst
            (λ s.
              by_state lib s ws (server_data lib ws op message false)
                (client_data lib ws op message false)
              ≡ (after, events, true))
            at h) in
        let m = (draw lib ws).1 in
        subst
          (λ b. Delivers (on_server_web_socket_data other) peer b (over_read message) op message)
          (sym e)
          (
            (λ rest. parse_client_frame (128 + op % 16 + 0) m message rest short),
            on_server-client_frame other peer (128 + op % 16 + 0) m message (random ws.world) bytes
                ∙ plain_frame other peer op message _ op_is
                ∙ ap (λ r. some (begun (over_read message) r))
                    (message_frame other _ peer op message whole is),
          )

    -- If a server's call of net_ws_send_text or net_ws_send_binary with a message of fewer than
    -- 2^32 - 14 bytes, not compressed, returns true, then what it gave to net_tcp_send is a frame
    -- whose end the parser finds whatever bytes follow, and a client with no fragment hands that
    -- very message to its user and is left as it was.
    pub on_client-net_ws_send :
        ws.state ≡ server_websocket
        → Delivers (on_client_web_socket_data other) peer (sent events) [] op message
    unfolding by_state
    on_client-net_ws_send at =
        let (is, h) = data_of_send op_is taken in
        let e = server_data-sent lib ws after op message events (
          subst
            (λ s.
              by_state lib s ws (server_data lib ws op message false)
                (client_data lib ws op message false)
              ≡ (after, events, true))
            at h) in
        subst (λ b. Delivers (on_client_web_socket_data other) peer b [] op message) (sym e)
          (
            (λ rest. parse_server_frame (128 + op % 16 + 0) message rest short),
            on_client-server_frame other peer (128 + op % 16 + 0) message
                ∙ plain_frame other peer op message _ op_is
                ∙ ap some (message_frame other _ peer op message whole is),
          )
