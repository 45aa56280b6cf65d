-- ===== src/WebSocket/Fragments.antt =====
-- A message in several frames, as a server puts it together.
use libsvr.Common.{
  ℕ, ◌+◌, ◌^◌, ◌≡◌, ◌<◌, ◌⊎◌, inl, inr, refl, sym, ap, ap₂, ◌∙◌, arith, Bool-cases, List, [], ◌∷◌,
  ◌++◌, map, length, length-append, take, ltb, lt→ltb, if◌then◌else◌, subst, Option, none, some,
  All,
}
use mathlib.Core.List.{append_assoc, append-nil}
use libsvr.WebSocket.{over_read, Mask, WsSocket, Libraries, Event, send, on_message, server_control}
use libsvr.WebSocket.Masking.{IsByte, IsMask}
use libsvr.WebSocket.Receive.{
  server_use, appended, copied, on_server_web_socket_data, reserved, by_fin, final_frame, fragment,
  begin_frame, middle_frame, end_frame, inflated,
}
use libsvr.WebSocket.Payload.{client_frame, on_server-client_frame}
use libsvr.WebSocket.Exchange.{IsMessage}

-- the frames one after the other, with all their events
pub received :
    {W : Type 0}
    → (WsSocket W → List ℕ → Option (WsSocket W × List Event))
    → WsSocket W
    → List (List ℕ)
    → Option (WsSocket W × List Event)
received on_data ws [] = some (ws, [])
received on_data ws (frame ∷ frames) = elim (on_data ws frame) [
  | none ↦ none
  | some (ws', events) ↦ elim (received on_data ws' frames) [
    | none ↦ none
    | some (ws'', events') ↦ some (ws'', events ++ events')
  ]
]

received_step :
    {W : Type 0} (on_data : WsSocket W → List ℕ → Option (WsSocket W × List Event))
    (ws ws' ws'' : WsSocket W) (frame : List ℕ) (frames : List (List ℕ))
    (events events' : List Event)
    → on_data ws frame ≡ some (ws', events)
    → received on_data ws' frames ≡ some (ws'', events')
    → received on_data ws (frame ∷ frames) ≡ some (ws'', events ++ events')
unfolding received
received_step on_data ws ws' ws'' frame frames events events' h h' = rw (received, h, h') refl

-- what may come between the first and the last frame of a message
pub data Part : Type 0 where
  middle : Mask → List ℕ → Part
  ping : Mask → List ℕ → Part
  pong : Mask → List ℕ → Part

abbrev pub part_frame : Part → List ℕ
part_frame (middle m p) = client_frame 0 m p
part_frame (ping m p) = client_frame 137 m p
part_frame (pong m p) = client_frame 138 m p

abbrev pub IsPart : Part → Type 0
IsPart (middle m p) = IsMask m × All IsByte p
IsPart (ping m p) = IsMask m × All IsByte p × (length p + 14 < 2 ^ 32)
IsPart (pong m p) = IsMask m × All IsByte p × (length p + 14 < 2 ^ 32)

-- its bytes of the message
abbrev pub part_data : Part → List ℕ
part_data (middle m p) = p
part_data part = []

-- what the server does at once: it unmasks, answers a ping, if it may be this long, and tells its user
abbrev pub part_events : Part → List Event
part_events (middle m p) = over_read p
part_events (ping m p) =
    over_read p
    ++ ((if ltb 125 (length p) then [] else (send (138 ∷ length p ∷ p) ∷ []))
        ++ (on_message 9 p ∷ []))
part_events (pong m p) = over_read p ++ (on_message 10 p ∷ [])

take_whole : (xs : List ℕ) → take (length xs) xs ≡ xs
take_whole [] = refl
take_whole (x ∷ xs) = ap (λ ys. x ∷ ys) (take_whole xs)

unfoldable pub parts_data : List Part → List ℕ
parts_data [] = []
parts_data (part ∷ parts) = part_data part ++ parts_data parts

pub parts_events : List Part → List Event
parts_events [] = []
parts_events (part ∷ parts) = part_events part ++ parts_events parts

-- a message that a frame can hold
abbrev pub IsShort : List ℕ → Type 0
IsShort xs = length xs + 14 < 2 ^ 32

appended_lem : (old body : List ℕ) → IsShort (old ++ body) → appended old body ≡ old ++ body
unfolding appended
appended_lem old body h =
    let n = length-append old body in
    ap (λ k. take k (old ++ body)) {y = length (old ++ body)} (omega arith)
    ∙ take_whole (old ++ body)

copied_lem : (old body : List ℕ) → IsShort (old ++ body) → copied old body ≡ []
unfolding copied
copied_lem old body h =
    let n = length-append old body in
    rw (lt→ltb (length old + length body) (2 ^ 32) (omega arith)) refl

module _ {W : Type 0} (lib : Libraries W) where
  abbrev holding : WsSocket W → ℕ → List ℕ → WsSocket W
  holding ws op old = record ws { fragment_data = some old; fragment_op_code = op }

  abbrev pub idle : WsSocket W → ℕ → WsSocket W
  idle ws op = record ws { fragment_data = none; fragment_op_code = op }

  part_step :
      (ws : WsSocket W) (op : ℕ) (old : List ℕ) (part : Part)
      → IsPart part
      → IsShort (old ++ part_data part)
      → on_server_web_socket_data lib (holding ws op old) (part_frame part)
        ≡ some (holding ws op (old ++ part_data part), part_events part)
  unfolding reserved by_fin final_frame fragment middle_frame inflated server_control
  part_step ws op old (middle m p) (h, b) l =
      on_server-client_frame lib (holding ws op old) 0 m p h b
      ∙ ap₂ (λ o c. some (holding ws op o, over_read p ++ c)) (appended_lem old p l)
          (copied_lem old p l)
  part_step ws op old (ping m p) (h, b, k) l =
      on_server-client_frame lib (holding ws op old) 137 m p h b
      ∙ elim (Bool-cases (ltb 125 (length p))) [
        | inl long ↦ rw (long, append-nil old) refl
        | inr short ↦ rw (short, append-nil old) refl
      ]
  part_step ws op old (pong m p) (h, b, k) l =
      on_server-client_frame lib (holding ws op old) 138 m p h b
      ∙ ap (λ o. some (holding ws op o, over_read p ++ (on_message 10 p ∷ [])))
          (sym (append-nil old))

  -- the sides of the last two steps
  abbrev Begins : WsSocket W → List ℕ → ℕ → Type 0
  Begins ws p op =
      reserved lib ws op (some p) (server_use lib ws op) ≡ some (holding ws op p, over_read p)

  abbrev Ends : WsSocket W → List ℕ → List ℕ → ℕ → Type 0
  Ends ws old p op =
      reserved lib (holding ws op old) 128 (some p) (server_use lib (holding ws op old) 128)
      ≡ some (idle ws op, over_read p ++ (on_message op (old ++ p) ∷ []))

  first_step :
      (ws : WsSocket W) (op : ℕ) (m : Mask) (p : List ℕ)
      → ws.fragment_data ≡ none
      → (op ≡ 1) ⊎ (op ≡ 2)
      → IsMask m
      → All IsByte p
      → IsShort p
      → on_server_web_socket_data lib ws (client_frame op m p) ≡ some (holding ws op p, over_read p)
  unfolding reserved by_fin fragment begin_frame inflated
  first_step ws op m p e o h b l = on_server-client_frame lib ws op m p h b ∙ begin_lem o
    where
      begin_lem : (op ≡ 1) ⊎ (op ≡ 2) → Begins ws p op
      begin_lem (inl one) = subst (Begins ws p) (sym one) (
          simp e (
            ap₂ (λ o c. some (holding ws 1 o, over_read p ++ c)) (appended_lem [] p l)
              (copied_lem [] p l)))
      begin_lem (inr two) = subst (Begins ws p) (sym two) (
          simp e (
            ap₂ (λ o c. some (holding ws 2 o, over_read p ++ c)) (appended_lem [] p l)
              (copied_lem [] p l)))

  last_step :
      (ws : WsSocket W) (op : ℕ) (old : List ℕ) (m : Mask) (p : List ℕ)
      → IsMessage op (old ++ p)
      → IsMask m
      → All IsByte p
      → IsShort (old ++ p)
      → on_server_web_socket_data lib (holding ws op old) (client_frame 128 m p)
        ≡ some (idle ws op, over_read p ++ (on_message op (old ++ p) ∷ []))
  unfolding reserved by_fin final_frame end_frame inflated
  last_step ws op old m p is h b l =
      on_server-client_frame lib (holding ws op old) 128 m p h b ∙ end_lem is
    where
      end_lem : IsMessage op (old ++ p) → Ends ws old p op
      end_lem (inl (one, valid)) =
          subst (Ends ws old p) (sym one)
            (rw (appended_lem old p l, copied_lem old p l, valid) refl)
      end_lem (inr two) =
          subst (Ends ws old p) (sym two) (rw (appended_lem old p l, copied_lem old p l) refl)

  -- the parts and the last frame, which begin after `old`
  rest_received :
      (ws : WsSocket W) (op : ℕ) (parts : List Part) (old : List ℕ) (m : Mask) (p : List ℕ)
      → All IsPart parts
      → IsMask m
      → All IsByte p
      → IsMessage op (old ++ (parts_data parts ++ p))
      → IsShort (old ++ (parts_data parts ++ p))
      → received
          (on_server_web_socket_data lib)
          (holding ws op old)
          (map part_frame parts ++ (client_frame 128 m p ∷ []))
        ≡ some (
          idle ws op,
          parts_events parts
              ++ (over_read p ++ (on_message op (old ++ (parts_data parts ++ p)) ∷ [])),
        )
  unfolding received parts_data parts_events
  rest_received ws op [] old m p all h b is l =
      received_step (on_server_web_socket_data lib) _ _ _ _ [] _ []
        (last_step ws op old m p is h b l) refl
  rest_received ws op (part ∷ parts) old m p (one, all) h b is l =
      let e = append_assoc old (part_data part) (parts_data parts ++ p) in
      let a = append_assoc (part_data part) (parts_data parts) p in
      let f : old ++ ((part_data part ++ parts_data parts) ++ p)
          ≡ (old ++ part_data part) ++ (parts_data parts ++ p) =
        ap (λ x. old ++ x) a ∙ sym e in
      let later =
        rest_received ws op parts (old ++ part_data part) m p all h b (subst (IsMessage op) f is)
          (subst IsShort f l) in
      let n = length-append (old ++ part_data part) (parts_data parts ++ p) in
      let k = ap length f in
      received_step (on_server_web_socket_data lib) _ _ _ _ _ _ _
        (part_step ws op old part one (omega arith)) later
      ∙ rw (f, append_assoc (part_events part) (parts_events parts)) refl

  -- A server with no fragment that receives a text or binary message in a first frame, any number
  -- of middle frames with pings and pongs between them, and a last frame, each under a mask of its
  -- own and not compressed, where the message and each ping and pong have fewer than 2^32 - 14
  -- bytes, unmasks each frame with a read of up to four bytes behind it, answers each ping of at
  -- most 125 bytes, tells its user of pings and pongs at once, and at the end hands over the one
  -- message that the frames make up, if that is valid for a text. It holds no fragment afterwards.
  pub received-parts :
      (ws : WsSocket W) (op : ℕ) (m m' : Mask) (first last : List ℕ) (parts : List Part)
      → ws.fragment_data ≡ none
      → (op ≡ 1) ⊎ (op ≡ 2)
      → IsMask m
      → IsMask m'
      → All IsByte first
      → All IsByte last
      → All IsPart parts
      → IsMessage op (first ++ (parts_data parts ++ last))
      → IsShort (first ++ (parts_data parts ++ last))
      → received
          (on_server_web_socket_data lib)
          ws
          (client_frame op m first ∷ (map part_frame parts ++ (client_frame 128 m' last ∷ [])))
        ≡ some (
          idle ws op,
          over_read first
              ++ (parts_events parts
                  ++ (over_read last
                      ++ (on_message op (first ++ (parts_data parts ++ last)) ∷ []))),
        )
  unfolding received
  received-parts ws op m m' first last parts e o h h' b b' all is l =
      let n = length-append first (parts_data parts ++ last) in
      received_step (on_server_web_socket_data lib) _ _ _ _ _ _ _
        (first_step ws op m first e o h b (omega arith))
        (rest_received ws op parts first m' last all h' b' is l)
