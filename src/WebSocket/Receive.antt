-- ===== src/WebSocket/Receive.antt =====
-- What a web socket does with the bytes that arrive: where a frame ends, and what a frame means.
use libsvr.Common.{
  ℕ, ◌+◌, ◌-◌, ◌*◌, ◌/◌, ◌%◌, ◌^◌, Bool, true, false, not, ◌&&◌, ◌||◌, Option, none, some, List, [],
  ◌∷◌, ◌++◌, length, take, drop, ltb, ◌==◌, if◌then◌else◌, add32,
}
use libsvr.Common.Codes.{codes}
use libsvr.Utility.Utf8.{is_valid_utf8}
use libsvr.WebSocket.{
  over_read, write_behind, Mask, masked, WsSocket, Libraries, Event, on_message, websocket,
  may_deflate, server_control, client_control, ws_close_socket,
}

-- `ntohs` and `ntohll`
abbrev pub net_value : ℕ → List ℕ → ℕ
net_value n [] = n
net_value n (x ∷ xs) = net_value (n * 256 + x) xs

-- The end of `_parser_web_socket_packet`: `packet_length` is an `unsigned int`.
abbrev pub whole_packet : ℕ → ℕ → ℕ → ℕ
whole_packet len header payload = if ltb len (add32 header payload) then 0 else add32 header payload

abbrev pub masked_header : ℕ → ℕ
masked_header b = if b / 128 == 0 then 2 else 6

-- the length of the packet that `data` begins with, or 0 where more is to come
unfoldable pub parser_web_socket_packet : List ℕ → ℕ
parser_web_socket_packet (a ∷ b ∷ rest) =
    let len = length rest + 2 in
    if ltb (b % 128) 126
    then whole_packet len (masked_header b) (b % 128)
    else if b % 128 == 126
    then if ltb len 4 then 0 else whole_packet len (masked_header b + 2) (net_value 0 (take 2 rest))
    else if ltb len 10
    then 0
    else whole_packet len (masked_header b + 8) (net_value 0 (take 8 rest) % 2 ^ 32)
parser_web_socket_packet short = 0

abbrev pub mask_at : List ℕ → Mask
mask_at (a ∷ b ∷ c ∷ d ∷ rest) = record { first = a; second = b; third = c; fourth = d }
mask_at rest = record { first = 0; second = 0; third = 0; fourth = 0 }

-- where the payload begins, for the length in the second byte and a mask of `mask` bytes
abbrev pub header_length : ℕ → ℕ → ℕ
header_length mask payload =
    if ltb payload 126 then 2 + mask else if payload == 126 then 4 + mask else 10 + mask

-- The size of a fragment is an `unsigned int`: the block that is as long as the sum, and the copy into it.
unfoldable pub appended : List ℕ → List ℕ → List ℕ
appended old body = take ((length old + length body) % 2 ^ 32) (old ++ body)

unfoldable pub copied : List ℕ → List ℕ → List Event
copied old body = if ltb (length old + length body) (2 ^ 32) then [] else write_behind ∷ []

-- what happened before the rest of a handler
abbrev pub begun : {W : Type 0} → List Event → WsSocket W × List Event → WsSocket W × List Event
begun before (ws, events) = (ws, before ++ events)

module _ {W : Type 0} (lib : Libraries W) where
  abbrev pub fail : WsSocket W → ℕ → List ℕ → WsSocket W × List Event
  fail ws code reason = ws_close_socket lib ws websocket code reason

  -- the payload, inflated if it is compressed, for the rest of the handler
  unfoldable pub inflated :
      WsSocket W
      → Bool
      → List ℕ
      → (WsSocket W → List ℕ → WsSocket W × List Event)
      → WsSocket W × List Event
  inflated ws false payload use_it = use_it ws payload
  inflated ws true payload use_it =
      let (w, body) = lib.inflate ws.world payload in
      let ws' = record ws { world = w } in
      elim body [ [] ↦ fail ws' 1002 (codes "inflate fail") | x ∷ xs ↦ use_it ws' (x ∷ xs) ]

  abbrev pub without_fragment : WsSocket W × List Event → WsSocket W × List Event
  without_fragment (ws, events) = (record ws { fragment_data = none }, events)

  abbrev pub text_fails : WsSocket W → WsSocket W × List Event
  text_fails ws = fail ws 1007 (codes "text not utf8")

  -- a frame with `fin` and the code 0, after `old`
  unfoldable pub end_frame : WsSocket W → Bool → List ℕ → List ℕ → WsSocket W × List Event
  end_frame ws compressed payload old = inflated ws compressed payload (λ ws' body.
      let all = appended old body in
      begun (copied old body) (
        without_fragment (
          if ws'.fragment_op_code == 1 && not (is_valid_utf8 all)
          then text_fails (record ws' { fragment_data = some all })
          else (
            record ws' { fragment_data = some all },
            on_message ws'.fragment_op_code all ∷ [],
          ))))

  -- one with `fin` and the code 1 or 2
  unfoldable pub data_frame : WsSocket W → ℕ → Bool → List ℕ → WsSocket W × List Event
  data_frame ws op compressed payload = inflated ws compressed payload (λ ws' body.
      if op == 1 && not (is_valid_utf8 body)
      then text_fails ws'
      else (ws', on_message op body ∷ []))

  -- the status and the reason that are given back for a close frame
  unfoldable pub close_frame : WsSocket W → List ℕ → WsSocket W × List Event
  close_frame ws (a ∷ b ∷ reason) =
      fail ws (net_value 0 (a ∷ b ∷ [])) (if is_valid_utf8 reason then reason else [])
  close_frame ws payload = fail ws 1005 []

  -- a frame without `fin` and the code 0
  unfoldable pub middle_frame : WsSocket W → Bool → List ℕ → List ℕ → WsSocket W × List Event
  middle_frame ws compressed payload old =
      inflated ws compressed payload
        (λ ws' body. (record ws' { fragment_data = some (appended old body) }, copied old body))

  -- one without `fin` and with the code 1 or 2
  unfoldable pub begin_frame : WsSocket W → ℕ → Bool → List ℕ → WsSocket W × List Event
  begin_frame ws op compressed payload =
      inflated (record ws { fragment_op_code = op }) compressed payload
        (λ ws' body. (record ws' { fragment_data = some (appended [] body) }, copied [] body))

  -- The `switch` of both handlers. `pong` answers a ping; `no_begin` is the text that the handlers give
  -- for the end of a message that did not begin.
  unfoldable pub final_frame :
      (WsSocket W → List ℕ → WsSocket W × List Event × Bool)
      → WsSocket W
      → ℕ
      → Bool
      → List ℕ
      → WsSocket W × List Event
  final_frame pong ws op compressed payload =
      if op == 0
      then elim ws.fragment_data [
        | none ↦ fail ws 1002 (codes "end fragment no begin" ++ lib.behind_no_begin)
        | some old ↦ end_frame ws compressed payload old
      ]
      else if op == 1 || op == 2
      then elim ws.fragment_data [
        | none ↦ data_frame ws op compressed payload
        | some old ↦ fail ws 1002 (codes "recv data in fragment")
      ]
      else if op == 8
      then close_frame ws payload
      else if op == 9
      then (let (ws', events, taken) = pong ws payload in
          (ws', events ++ (on_message op payload ∷ [])))
      else if op == 10
      then (ws, on_message op payload ∷ [])
      else (ws, [])

  unfoldable pub fragment : WsSocket W → ℕ → Bool → List ℕ → WsSocket W × List Event
  fragment ws op compressed payload =
      if op == 0
      then elim ws.fragment_data [
        | none ↦ fail ws 1002 (codes "middle fragment no begin")
        | some old ↦ middle_frame ws compressed payload old
      ]
      else if op == 1 || op == 2
      then elim ws.fragment_data [
        | none ↦ begin_frame ws op compressed payload
        | some old ↦ fail ws 1002 (codes "fragment begin in fragment")
      ]
      else (ws, [])

  unfoldable pub by_fin :
      (WsSocket W → List ℕ → WsSocket W × List Event × Bool)
      → WsSocket W
      → ℕ
      → Bool
      → List ℕ
      → WsSocket W × List Event
  by_fin pong ws a compressed payload =
      if a / 128 == 0
      then fragment ws (a % 16) compressed payload
      else final_frame pong ws (a % 16) compressed payload

  -- The test of the reserved bits, and the rest of the handler for the payload at `header`: `none`
  -- where that is behind the end of the packet.
  unfoldable pub reserved :
      WsSocket W
      → ℕ
      → Option (List ℕ)
      → (Bool → List ℕ → WsSocket W × List Event)
      → Option (WsSocket W × List Event)
  reserved ws a payload use_it =
      if (a / 16 % 8 == 0) || (may_deflate ws && (a / 16 % 4 == 0))
      then elim payload [ none ↦ none | some p ↦ some (use_it (not (a / 16 % 8 == 0)) p) ]
      else some (fail ws 1002 (codes "rsv set"))

  -- the payload once the reserved bits are tested, which a server unmasks in its place
  abbrev pub server_use : WsSocket W → ℕ → Bool → List ℕ → WsSocket W × List Event
  server_use ws a compressed payload =
      begun (over_read payload) (by_fin (server_control lib 10) ws a compressed payload)

  abbrev pub client_use : WsSocket W → ℕ → Bool → List ℕ → WsSocket W × List Event
  client_use ws a compressed payload = by_fin (client_control lib 10) ws a compressed payload

  unfoldable pub on_server_web_socket_data : WsSocket W → List ℕ → Option (WsSocket W × List Event)
  on_server_web_socket_data ws (a ∷ b ∷ rest) =
      if b / 128 == 0
      then some (fail ws 1002 (codes "mask no set"))
      else let header = header_length 4 (b % 128) in
        let at = drop (header - 4) (a ∷ b ∷ rest) in
        reserved ws a
          (if ltb (length rest + 2) header then none else some (masked (mask_at at) (drop 4 at)))
          (server_use ws a)
  on_server_web_socket_data ws short = none

  unfoldable pub on_client_web_socket_data : WsSocket W → List ℕ → Option (WsSocket W × List Event)
  on_client_web_socket_data ws (a ∷ b ∷ rest) =
      if not (b / 128 == 0)
      then some (fail ws 1002 (codes "mask set" ++ lib.behind_mask_set))
      else let header = header_length 0 (b % 128) in
        reserved ws a
          (if ltb (length rest + 2) header then none else some (drop header (a ∷ b ∷ rest)))
          (client_use ws a)
  on_client_web_socket_data ws short = none
