-- ===== src/WebSocket/Tests.antt =====
-- Messages, fragments and close frames between two sockets.
use libsvr.Common.{
  ℕ, ◌+◌, ◌^◌, ◌≡◌, refl, arith, inl, ◌⊎◌, true, false, none, some, List, [], ◌∷◌, ◌++◌, map, take,
  replicate, All, ◌<◌, ◌≢◌, Bool, length, ◌≤◌, ◌%◌,
}
use libsvr.Utility.Utf8.{is_valid_utf8, utf8_loop, four_ascii, skip_ascii, after_ascii, sequence}
use libsvr.WebSocket.{
  Mask, length_bytes, WsState, client_websocket, websocket, ws_close_socket, server_websocket, ok,
  WsSocket, Libraries, Event, on_message, by_state, deflated, draw, send_both, server_data,
  client_data, over_read, read_behind, net16, server_close, client_close, net_ws_send_text,
}
use libsvr.WebSocket.Masking.{IsMask, IsByte}
use libsvr.WebSocket.Receive.{
  parser_web_socket_packet, on_server_web_socket_data, on_client_web_socket_data,
}
use libsvr.WebSocket.Frames.{frame_size}
use libsvr.WebSocket.Payload.{client_frame}
use libsvr.WebSocket.Exchange.{
  sent, net_ws_send, Delivers, on_server-net_ws_send, on_client-net_ws_send,
}
use libsvr.WebSocket.Partial.{parser-take}
use libsvr.WebSocket.Fragments.{
  Part, middle, ping, part_frame, parts_data, parts_events, received, idle, received-parts, IsShort,
}
use libsvr.WebSocket.Bounds.{BothSafe, parser-Safe, server-reads_behind, parser-wraps, declared}
use libsvr.Common.Codes.{codes}
use libsvr.WebSocket.Errors.{closes, IsOpen}
use libsvr.WebSocket.Silence.{IsSilent, closes-IsSilent}
use libsvr.WebSocket.Closing.{
  Closes, garbled, on_client-server_close, on_server-client_close, parser-server_close,
}

abbrev mask : Mask
mask = record { first = 1; second = 20; third = 130; fourth = 255 }

abbrev mask-IsMask : IsMask mask
mask-IsMask = record {
  first = omega arith;
  second = omega arith;
  third = omega arith;
  fourth = omega arith;
}

-- the world counts the masks
abbrev lib : Libraries ℕ
lib = record {
  deflate = λ w xs. (w, xs);
  inflate = λ w xs. (w, xs);
  rand_mask = λ w. (w + 1, mask);
  accepts = λ xs. true;
  behind_no_begin = 0 ∷ 0 ∷ [];
  behind_mask_set = 0 ∷ 0 ∷ 0 ∷ [];
}

abbrev socket : WsState → WsSocket ℕ
socket at = record {
  state = at;
  extension_options = 0;
  error_type = ok;
  error_code = 0;
  fragment_data = none;
  fragment_op_code = 0;
  world = 0;
}

abbrev client : WsSocket ℕ
client = socket client_websocket

abbrev server : WsSocket ℕ
server = socket server_websocket

-- h, an o with two dots, and a line end
abbrev text : List ℕ
text = 104 ∷ 195 ∷ 182 ∷ 10 ∷ []

text_is_valid : is_valid_utf8 text ≡ true
unfolding is_valid_utf8 utf8_loop four_ascii skip_ascii after_ascii sequence
text_is_valid = refl

text-All : All IsByte text
text-All = (omega arith, (omega arith, (omega arith, (omega arith, tt))))

-- what either side calls for the text
abbrev call : WsSocket ℕ → WsSocket ℕ × List Event × Bool
call ws = net_ws_send lib 1 ws text

client_sends : call client ≡ ((call client).0, (call client).1, true)
unfolding net_ws_send_text is_valid_utf8 utf8_loop four_ascii skip_ascii after_ascii sequence
    by_state client_data deflated draw send_both
client_sends = refl

server_sends : call server ≡ ((call server).0, (call server).1, true)
unfolding net_ws_send_text is_valid_utf8 utf8_loop four_ascii skip_ascii after_ascii sequence
    by_state server_data deflated send_both
server_sends = refl

on_server-net_ws_send_example :
    Delivers (on_server_web_socket_data lib) server (sent (call client).1) (over_read text) 1 text
on_server-net_ws_send_example =
    on_server-net_ws_send lib client (call client).0 1 text (call client).1 lib server (omega arith)
      (inl refl) refl client_sends (λ w. mask-IsMask) text-All refl

on_client-net_ws_send_example :
    Delivers (on_client_web_socket_data lib) client (sent (call server).1) [] 1 text
on_client-net_ws_send_example =
    on_client-net_ws_send lib server (call server).0 1 text (call server).1 lib client (omega arith)
      (inl refl) refl server_sends refl

frame_is_longer : 3 < frame_size 0 300
unfolding frame_size length_bytes
frame_is_longer = omega arith

parser-take_example : parser_web_socket_packet (take 3 (129 ∷ (length_bytes 0 300 ++ text))) ≡ 0
parser-take_example = parser-take 129 0 300 text (inl refl) 3 (omega arith) frame_is_longer

-- a byte more, and a ping
abbrev parts : List Part
parts = middle mask (195 ∷ []) ∷ ping mask (7 ∷ []) ∷ []

whole : is_valid_utf8 ((104 ∷ []) ++ (parts_data parts ++ (182 ∷ 10 ∷ []))) ≡ true
unfolding parts_data is_valid_utf8 utf8_loop four_ascii skip_ascii after_ascii sequence
whole = refl

whole-IsShort : IsShort ((104 ∷ []) ++ (parts_data parts ++ (182 ∷ 10 ∷ [])))
unfolding parts_data
whole-IsShort = omega arith

received-parts_example :
    received (on_server_web_socket_data lib) server (
      client_frame 1 mask (104 ∷ [])
      ∷ (map part_frame parts ++ (client_frame 128 mask (182 ∷ 10 ∷ []) ∷ [])))
    ≡ some (
      idle lib server 1,
      over_read (104 ∷ [])
          ++ (parts_events parts
              ++ (over_read (182 ∷ 10 ∷ [])
                  ++ (on_message 1 ((104 ∷ []) ++ (parts_data parts ++ (182 ∷ 10 ∷ []))) ∷ []))),
    )
received-parts_example =
    received-parts lib server 1 mask mask (104 ∷ []) (182 ∷ 10 ∷ []) parts refl (inl refl)
      mask-IsMask mask-IsMask (omega arith, tt) (omega arith, (omega arith, tt))
      ((mask-IsMask, (omega arith, tt)), ((mask-IsMask, (omega arith, tt), omega arith), tt))
      (inl (refl, whole)) whole-IsShort

-- a frame with a mask and two bytes, and the first byte of the next one
abbrev arrived : List ℕ
arrived = 130 ∷ 130 ∷ 1 ∷ 20 ∷ 130 ∷ 255 ∷ 5 ∷ 6 ∷ 129 ∷ []

small : declared arrived + 14 < 2 ^ 32
unfolding declared
small = omega arith

found : parser_web_socket_packet arrived ≢ 0
unfolding parser_web_socket_packet
found = λ e. absurd (ground arith)

parser-Safe_example : BothSafe lib server (take (parser_web_socket_packet arrived) arrived)
parser-Safe_example = parser-Safe lib server arrived (refl, inl refl) small found

server-reads_behind_example :
    (ws : WsSocket ℕ) × (events : List Event) × (n : ℕ) × (on_server_web_socket_data lib server
        (client_frame 130 mask text)
      ≡ some (ws, read_behind n ∷ events))
    × (0 < n)
    × (n ≤ 4)
    × ((length text + n) % 4 ≡ 0)
server-reads_behind_example = server-reads_behind lib server 130 mask text refl mask-IsMask text-All

parser-wraps_example :
    (parser_web_socket_packet (130 ∷ (length_bytes 128 4294967285 ++ text)) ≡ 3)
    × (on_server_web_socket_data lib server (
          take
            (parser_web_socket_packet (130 ∷ (length_bytes 128 4294967285 ++ text)))
            (130 ∷ (length_bytes 128 4294967285 ++ text)))
        ≡ none)
parser-wraps_example =
    parser-wraps lib server 130 4294967285 text (omega arith) (omega arith) (omega arith)
      (omega arith)

on_client-server_close_example :
    Closes lib
      (on_client_web_socket_data lib)
      client
      (sent (server_close lib server 1001 text).1)
      []
      1001
      text
on_client-server_close_example =
    on_client-server_close lib server lib client 1001 text (omega arith) (omega arith)

on_server-client_close_example :
    Closes lib
      (on_server_web_socket_data lib)
      server
      (sent (client_close lib client 1001 text).1)
      (over_read
        (net16 1001 ++ garbled lib client lib server 1001 text (omega arith) (draw lib client).1))
      1001
      (garbled lib client lib server 1001 text (omega arith) (draw lib client).1)
on_server-client_close_example =
    on_server-client_close lib client lib server 1001 text (omega arith) (omega arith)
      (λ w. mask-IsMask) text-All

parser-server_close_example :
    parser_web_socket_packet (sent (server_close lib server 1001 (replicate 124 b'x')).1 ++ text)
    ≡ 0
parser-server_close_example =
    parser-server_close lib server lib client 1001 (replicate 124 b'x') (omega arith) text refl
      (omega arith)

-- a frame without a mask
mask_is_missing :
    on_server_web_socket_data lib server (129 ∷ 0 ∷ [])
    ≡ some (ws_close_socket lib server websocket 1002 (codes "mask no set"))
unfolding on_server_web_socket_data
mask_is_missing = refl

closes-IsSilent_example :
    ((closes (ws_close_socket lib server websocket 1002 (codes "mask no set")).1 ≡ false)
      × IsOpen (ws_close_socket lib server websocket 1002 (codes "mask no set")).0)
    ⊎ ((closes (ws_close_socket lib server websocket 1002 (codes "mask no set")).1 ≡ true)
        × IsSilent lib (ws_close_socket lib server websocket 1002 (codes "mask no set")).0)
closes-IsSilent_example =
    closes-IsSilent lib server (129 ∷ 0 ∷ [])
      (ws_close_socket lib server websocket 1002 (codes "mask no set")) (refl, inl refl)
      (inl mask_is_missing)
