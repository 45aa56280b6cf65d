-- ===== src/WebSocket.antt =====
-- The web sockets of src/websocket.c, once the handshake is done: what is sent and how a socket is
-- closed. A buffer is the list of its bytes, and the calls that a function makes of the socket engine
-- and of its user are a list of events.
pub mod Receive
pub mod Masking
pub mod Frames
pub mod Payload
pub mod Exchange
pub mod Partial
pub mod Fragments
pub mod Bounds
pub mod Closing
pub mod Errors
pub mod Silence
mod Tests
use Prim.Native.Nat.{bit_xor}
use libsvr.Common.{
  ℕ, ◌+◌, ◌-◌, ◌/◌, ◌%◌, ◌^◌, Bool, true, false, Option, none, some, List, [], ◌∷◌, ◌++◌, length,
  ltb, if◌then◌else◌, ◌&&◌, ◌==◌,
}
use libsvr.Utility.Utf8.{is_valid_utf8}

-- the four bytes of a mask, as they lie in memory
pub record Mask : Type 0 where
  pub first : ℕ
  pub second : ℕ
  pub third : ℕ
  pub fourth : ℕ

abbrev pub turned : Mask → Mask
turned m = record { first = m.second; second = m.third; third = m.fourth; fourth = m.first }

abbrev pub mask_bytes : Mask → List ℕ
mask_bytes m = m.first ∷ m.second ∷ m.third ∷ m.fourth ∷ []

pub data WsState : Type 0 where
  client_tcp : WsState
  client_http : WsState
  client_websocket : WsState
  server_tcp : WsState
  server_http : WsState
  server_websocket : WsState

pub data WsError : Type 0 where
  ok : WsError
  tcp : WsError
  http : WsError
  websocket : WsError

-- Calls of `net_tcp_send`, `func_on_message` and `net_tcp_close_session`, a read of some bytes behind the
-- end of what is masked, and a copy behind the end of the block that `default_realloc` gave.
pub data Event : Type 0 where
  read_behind : ℕ → Event
  write_behind : Event
  send : List ℕ → Event
  on_message : ℕ → List ℕ → Event
  close_session : Event

-- `_unmask_data_overflow` masks and unmasks one more group of four bytes than a text has whole ones. This is
-- what it reads behind the text, and then the bytes of the text.
abbrev pub over_read : List ℕ → List Event
over_read text = read_behind (4 - length text % 4) ∷ []

pub masked : Mask → List ℕ → List ℕ
masked m [] = []
masked m (x ∷ xs) = bit_xor x m.first ∷ masked (turned m) xs

-- `W` is the state of the libraries: the streams of zlib and the random numbers.
pub record WsSocket (W : Type 0) : Type 0 where
  pub state : WsState
  pub extension_options : ℕ
  pub error_type : WsError
  pub error_code : ℕ
  pub fragment_data : Option (List ℕ)
  pub fragment_op_code : ℕ
  pub world : W

-- What is not modelled: `_ws_deflate` and `_ws_inflate`, which call zlib and give an empty result where
-- it fails, `rand_integer`, and whether `net_tcp_send` has room for some bytes. Two texts are given with
-- the length of a longer one: the bytes that lie behind them are unknown.
pub record Libraries (W : Type 0) : Type 0 where
  pub deflate : W → List ℕ → W × List ℕ
  pub inflate : W → List ℕ → W × List ℕ
  pub rand_mask : W → W × Mask
  pub accepts : List ℕ → Bool
  pub behind_no_begin : List ℕ
  pub behind_mask_set : List ℕ

-- The 16 and the 64 bits of a number in network order, as `htons` and `htonll` lay them out.
abbrev pub net16 : ℕ → List ℕ
net16 n = (n / 256 % 256) ∷ (n % 256) ∷ []

abbrev pub net64 : ℕ → List ℕ
net64 n =
    (n / 2 ^ 56 % 256)
    ∷ (n / 2 ^ 48 % 256)
    ∷ (n / 2 ^ 40 % 256)
    ∷ (n / 2 ^ 32 % 256)
    ∷ (n / 2 ^ 24 % 256)
    ∷ (n / 2 ^ 16 % 256)
    ∷ (n / 2 ^ 8 % 256)
    ∷ (n % 256)
    ∷ []

-- the second byte of a frame, with the top bit `bit`, and the long forms of the length
pub length_bytes : ℕ → ℕ → List ℕ
length_bytes bit n =
    if ltb n 126
    then (bit + n) ∷ []
    else if ltb n 0xffff
    then (bit + 126) ∷ net16 (n % 2 ^ 16)
    else (bit + 127) ∷ net64 n

-- the test of `ws_ext_defalte`
abbrev pub may_deflate : {W : Type 0} → WsSocket W → Bool
may_deflate ws = ws.extension_options % 2 == 1

abbrev pub is_ok : WsError → Bool
is_ok ok = true
is_ok e = false

module _ {W : Type 0} (lib : Libraries W) where
  -- a new mask, of which the socket's libraries know
  pub draw : WsSocket W → WsSocket W × Mask
  draw ws = let (w, m) = lib.rand_mask ws.world in (record ws { world = w }, m)

  abbrev pub tcp_send : WsSocket W → List ℕ → WsSocket W × List Event × Bool
  tcp_send ws bytes = (ws, send bytes ∷ [], lib.accepts bytes)

  abbrev pub after_read : List ℕ → WsSocket W × List Event × Bool → WsSocket W × List Event × Bool
  after_read text (ws, events, taken) = (ws, over_read text ++ events, taken)

  abbrev pub refused : WsSocket W → WsSocket W × List Event × Bool
  refused ws = (ws, [], false)

  -- `_ws_server_ping` and `_ws_server_pong`, by the code of the operation
  pub server_control : ℕ → WsSocket W → List ℕ → WsSocket W × List Event × Bool
  server_control op ws message =
      if ltb 125 (length message)
      then refused ws
      else tcp_send ws ((128 + op) ∷ length message ∷ message)

  -- `_ws_client_ping` and `_ws_client_pong`
  pub client_control : ℕ → WsSocket W → List ℕ → WsSocket W × List Event × Bool
  client_control op ws message =
      if ltb 125 (length message)
      then refused ws
      else let (ws', m) = draw ws in
        after_read message
          (tcp_send ws' ((128 + op) ∷ (128 + length message) ∷ (mask_bytes m ++ masked m message)))

  -- the head and the body, which is only sent if the engine took the head
  pub send_both : WsSocket W → List ℕ → List ℕ → WsSocket W × List Event × Bool
  send_both ws head body =
      if lib.accepts head
      then (ws, send head ∷ send body ∷ [], lib.accepts body)
      else (ws, send head ∷ [], false)

  -- what is sent for `message`, with the bit of a compressed message
  pub deflated : WsSocket W → List ℕ → Bool → WsSocket W × ℕ × List ℕ
  deflated ws message compress =
      if compress && may_deflate ws
      then (let (w, body) = lib.deflate ws.world message in (record ws { world = w }, 64, body))
      else (ws, 0, message)

  pub server_data : WsSocket W → ℕ → List ℕ → Bool → WsSocket W × List Event × Bool
  server_data ws code message compress =
      let (ws', bit, body) = deflated ws message compress in
      send_both ws' ((128 + code % 16 + bit) ∷ length_bytes 0 (length body)) body

  pub client_data : WsSocket W → ℕ → List ℕ → Bool → WsSocket W × List Event × Bool
  client_data ws code message compress =
      let (ws', bit, body) = deflated ws message compress in
      let (ws'', m) = draw ws' in
      after_read body (
        send_both ws'' ((128 + code % 16 + bit) ∷ (length_bytes 128 (length body) ++ mask_bytes m))
          (masked m body))

  pub server_close : WsSocket W → ℕ → List ℕ → WsSocket W × List Event × Bool
  server_close ws status_code message =
      if ltb 125 (length message)
      then refused ws
      else tcp_send ws (136 ∷ (length message + 2) ∷ (net16 status_code ++ message))

  -- A reason that is empty is not masked.
  abbrev pub after_reason : List ℕ → WsSocket W × List Event × Bool → WsSocket W × List Event × Bool
  after_reason [] r = r
  after_reason (x ∷ xs) r = after_read (x ∷ xs) r

  -- The status and the reason are masked one by one, each from the first byte of the mask on.
  pub client_close : WsSocket W → ℕ → List ℕ → WsSocket W × List Event × Bool
  client_close ws status_code message =
      if ltb 125 (length message)
      then refused ws
      else let (ws', m) = draw ws in
        after_read (net16 status_code) (
          after_reason message (
            tcp_send ws' (
              136
              ∷ (128 + (length message + 2))
              ∷ (mask_bytes m ++ (masked m (net16 status_code) ++ masked m message)))))

  -- the events of a call whose result is not used, and the end of the session
  abbrev pub and_close : WsSocket W × List Event × Bool → WsSocket W × List Event
  and_close (ws, events, taken) = (ws, events ++ (close_session ∷ []))

  -- the `switch` of `_ws_close_socket`
  pub close_by : WsState → WsSocket W → ℕ → List ℕ → WsSocket W × List Event
  close_by client_tcp ws code reason = (ws, [])
  close_by client_websocket ws code reason = and_close (client_close ws (code % 2 ^ 16) reason)
  close_by server_websocket ws code reason = and_close (server_close ws (code % 2 ^ 16) reason)
  close_by other ws code reason = (ws, close_session ∷ [])

  pub ws_close_socket : WsSocket W → WsError → ℕ → List ℕ → WsSocket W × List Event
  ws_close_socket ws type code reason =
      if is_ok ws.error_type
      then close_by ws.state (record ws { error_type = type; error_code = code }) code reason
      else (ws, close_session ∷ [])

  -- the `switch` of the four calls below
  pub by_state :
      WsState
      → WsSocket W
      → WsSocket W × List Event × Bool
      → WsSocket W × List Event × Bool
      → WsSocket W × List Event × Bool
  by_state server_websocket ws server client = server
  by_state client_websocket ws server client = client
  by_state other ws server client = refused ws

  pub net_ws_send_text : WsSocket W → List ℕ → Bool → WsSocket W × List Event × Bool
  net_ws_send_text ws message compress =
      if is_ok ws.error_type
      then if is_valid_utf8 message
        then by_state ws.state ws (server_data ws 1 message compress)
            (client_data ws 1 message compress)
        else refused ws
      else refused ws

  pub net_ws_send_binary : WsSocket W → List ℕ → Bool → WsSocket W × List Event × Bool
  net_ws_send_binary ws message compress =
      if is_ok ws.error_type
      then by_state ws.state ws (server_data ws 2 message compress)
          (client_data ws 2 message compress)
      else refused ws

  pub net_ws_send_ping : WsSocket W → List ℕ → WsSocket W × List Event × Bool
  net_ws_send_ping ws message =
      if is_ok ws.error_type
      then by_state ws.state ws (server_control 9 ws message) (client_control 9 ws message)
      else refused ws

  pub net_ws_send_pong : WsSocket W → List ℕ → WsSocket W × List Event × Bool
  net_ws_send_pong ws message =
      if is_ok ws.error_type
      then by_state ws.state ws (server_control 10 ws message) (client_control 10 ws message)
      else refused ws

  pub net_ws_close_session : WsSocket W → WsSocket W × List Event
  net_ws_close_session ws = ws_close_socket ws websocket 1000 []
