-- ===== src/WebSocket/Silence.antt =====
-- What the handlers leave, and a socket with an error, which sends no more.
use libsvr.Common.{
  ℕ, ◌/◌, ◌≡◌, ◌⊎◌, inl, inr, refl, ap, ◌∙◌, arith, List, [], ◌∷◌, ◌++◌, length, ltb, ◌==◌, subst,
  none, some, Bool, Bool-cases, true, false,
}
use libsvr.WebSocket.{
  on_message, draw, server_control, client_control, WsSocket, Libraries, Event, close_session,
  is_ok, ws_close_socket, net_ws_send_text, net_ws_send_binary, net_ws_send_ping, net_ws_send_pong,
  net_ws_close_session,
}
use libsvr.WebSocket.Receive.{
  server_use, client_use, on_server_web_socket_data, on_client_web_socket_data,
}
use libsvr.WebSocket.Errors.{IsOpen, Keeps, closes, fail-Keeps, reserved-Keeps, by_fin-Keeps}

-- Every call that sends is refused, and closing again only closes the session again.
abbrev pub IsSilent : {W : Type 0} → Libraries W → WsSocket W → Type 0
IsSilent lib ws =
    ((message : List ℕ) (compress : Bool)
      → (net_ws_send_text lib ws message compress ≡ (ws, [], false))
        × (net_ws_send_binary lib ws message compress ≡ (ws, [], false))
        × (net_ws_send_ping lib ws message ≡ (ws, [], false))
        × (net_ws_send_pong lib ws message ≡ (ws, [], false)))
    × (net_ws_close_session lib ws ≡ (ws, close_session ∷ []))

module _ {W : Type 0} (lib : Libraries W) where
  server_pong-Keeps :
      (ws : WsSocket W)
      → IsOpen ws
      → (op : ℕ) (payload : List ℕ)
      → Keeps ws (
        (server_control lib 10 ws payload).0,
        (server_control lib 10 ws payload).1 ++ (on_message op payload ∷ []),
      )
  unfolding server_control closes
  server_pong-Keeps ws (e, s) op payload = elim (Bool-cases (ltb 125 (length payload))) [
    | inl long ↦ rw long (refl, e, (tt, tt))
    | inr short ↦ rw short (refl, e, (tt, (tt, tt)))
  ]

  client_pong-Keeps :
      (ws : WsSocket W)
      → IsOpen ws
      → (op : ℕ) (payload : List ℕ)
      → Keeps ws (
        (client_control lib 10 ws payload).0,
        (client_control lib 10 ws payload).1 ++ (on_message op payload ∷ []),
      )
  unfolding client_control draw closes
  client_pong-Keeps ws (e, s) op payload = elim (Bool-cases (ltb 125 (length payload))) [
    | inl long ↦ rw long (refl, e, (tt, tt))
    | inr short ↦ rw short (refl, e, (omega arith, (tt, (tt, tt))))
  ]

  pub server-Keeps :
      (ws : WsSocket W) (packet : List ℕ) (r : WsSocket W × List Event)
      → IsOpen ws
      → on_server_web_socket_data lib ws packet ≡ some r
      → Keeps ws r
  unfolding on_server_web_socket_data closes
  server-Keeps ws [] r o h = absurd (ground arith)
  server-Keeps ws (a ∷ []) r o h = absurd (ground arith)
  server-Keeps ws (a ∷ b ∷ rest) r o h = elim (Bool-cases (b / 128 == 0)) [
    | inl plain ↦
        subst (Keeps ws)
          (ap (λ o. elim o [ none ↦ r | some x ↦ x ]) (rw (on_server_web_socket_data, plain) at h))
          (fail-Keeps lib ws 1002 _ o)
    | inr hidden ↦
        reserved-Keeps lib ws o a _ (server_use lib ws a) r
          (λ compressed p.
            let (s, e, l) =
              by_fin-Keeps lib ws o (server_control lib 10) (server_pong-Keeps ws o) a compressed
                p in
            (s, e, (omega arith, l)))
          (rw (on_server_web_socket_data, hidden) at h)
  ]

  pub client-Keeps :
      (ws : WsSocket W) (packet : List ℕ) (r : WsSocket W × List Event)
      → IsOpen ws
      → on_client_web_socket_data lib ws packet ≡ some r
      → Keeps ws r
  unfolding on_client_web_socket_data
  client-Keeps ws [] r o h = absurd (ground arith)
  client-Keeps ws (a ∷ []) r o h = absurd (ground arith)
  client-Keeps ws (a ∷ b ∷ rest) r o h = elim (Bool-cases (b / 128 == 0)) [
    | inr hidden ↦
        subst (Keeps ws)
          (ap (λ o. elim o [ none ↦ r | some x ↦ x ]) (rw (on_client_web_socket_data, hidden) at h))
          (fail-Keeps lib ws 1002 _ o)
    | inl plain ↦
        reserved-Keeps lib ws o a _ (client_use lib ws a) r
          (by_fin-Keeps lib ws o (client_control lib 10) (client_pong-Keeps ws o) a)
          (rw (on_client_web_socket_data, plain) at h)
  ]

  error-IsSilent : (ws : WsSocket W) → is_ok ws.error_type ≡ false → IsSilent lib ws
  unfolding net_ws_send_text net_ws_send_binary net_ws_send_ping net_ws_send_pong
      net_ws_close_session ws_close_socket
  error-IsSilent ws e =
      ((λ message compress. (simp e refl, simp e refl, simp e refl, simp e refl)), simp e refl)

  both-Keeps :
      (ws : WsSocket W) (packet : List ℕ) (r : WsSocket W × List Event)
      → IsOpen ws
      → (on_server_web_socket_data lib ws packet ≡ some r)
        ⊎ (on_client_web_socket_data lib ws packet ≡ some r)
      → Keeps ws r
  both-Keeps ws packet r o (inl h) = server-Keeps ws packet r o h
  both-Keeps ws packet r o (inr h) = client-Keeps ws packet r o h

  -- If an open socket, of a server or a client, handles a packet, then either the session is not
  -- closed and the socket is still open, without an error, or the session is closed, and from then
  -- on every call that sends is refused without a call of the engine, and closing the socket again
  -- only closes the session.
  pub closes-IsSilent :
      (ws : WsSocket W) (packet : List ℕ) (r : WsSocket W × List Event)
      → IsOpen ws
      → (on_server_web_socket_data lib ws packet ≡ some r)
        ⊎ (on_client_web_socket_data lib ws packet ≡ some r)
      → ((closes r.1 ≡ false) × IsOpen r.0) ⊎ ((closes r.1 ≡ true) × IsSilent lib r.0)
  closes-IsSilent ws packet r (ok, at) h =
      let (s, e, l) = both-Keeps ws packet r (ok, at) h in
      elim (Bool-cases (closes r.1)) [
        | inl c ↦ inr (c, error-IsSilent r.0 (rw c at e))
        | inr c ↦ inl (c, (rw c at e, elim at [ inl a ↦ inl (s ∙ a) | inr a ↦ inr (s ∙ a) ]))
      ]
