-- ===== src/WebSocket/Errors.antt =====
-- An open socket that closes its session in a handler has an error afterwards, and only then.
use libsvr.Common.{
  ℕ, ◌+◌, ◌/◌, ◌%◌, ◌^◌, ◌≤◌, ◌≡◌, ◌⊎◌, inl, inr, refl, sym, ap, arith, Bool-cases, List, [], ◌∷◌,
  ◌++◌, length, ltb, ◌==◌, if◌then◌else◌, subst, Option, none, some, Bool, true, false, not, ◌&&◌,
  ◌||◌, All,
}
use mathlib.Core.List.{append-nil}
use libsvr.Common.Codes.{codes}
use libsvr.Utility.Utf8.{is_valid_utf8}
use libsvr.WebSocket.{
  read_behind, WsState, client_websocket, server_websocket, WsSocket, Libraries, Event, on_message,
  close_session, is_ok, websocket, draw, server_close, client_close, close_by, ws_close_socket,
}
use libsvr.WebSocket.Receive.{
  appended, copied, begun, fail, text_fails, without_fragment, inflated, end_frame, data_frame,
  close_frame, middle_frame, begin_frame, final_frame, fragment, by_fin, reserved,
}

-- the session is closed by these calls
unfoldable pub closes : List Event → Bool
closes [] = false
closes (close_session ∷ events) = true
closes (e ∷ events) = closes events

abbrev pub IsOpen : {W : Type 0} → WsSocket W → Type 0
IsOpen ws =
    (is_ok ws.error_type ≡ true) × ((ws.state ≡ server_websocket) ⊎ (ws.state ≡ client_websocket))

-- no read of more than four bytes behind what is masked
abbrev pub IsSlight : Event → Type 0
IsSlight (read_behind n) = n ≤ 4
IsSlight e = Unit

-- The state stays, there is an error exactly if the session was closed, and reads are slight.
abbrev pub Keeps : {W : Type 0} → WsSocket W → WsSocket W × List Event → Type 0
Keeps ws r = (r.0.state ≡ ws.state) × (is_ok r.0.error_type ≡ not (closes r.1)) × All IsSlight r.1

module _ {W : Type 0} (lib : Libraries W) where
  close_by-Keeps :
      (at : WsState) (ws : WsSocket W) (code : ℕ) (reason : List ℕ)
      → is_ok ws.error_type ≡ false
      → (at ≡ server_websocket) ⊎ (at ≡ client_websocket)
      → Keeps ws (close_by lib at ws code reason)
  unfolding close_by server_close client_close draw closes
  close_by-Keeps at ws code reason e (inl s) =
      subst (λ at. Keeps ws (close_by lib at ws code reason)) (sym s)
        (elim (Bool-cases (ltb 125 (length reason))) [
          | inl long ↦ rw long (refl, e, (tt, tt))
          | inr short ↦ rw short (refl, e, (tt, (tt, tt)))
        ])
  close_by-Keeps at ws code [] e (inr s) =
      subst (λ at. Keeps ws (close_by lib at ws code [])) (sym s)
        (refl, e, (omega arith, (tt, (tt, tt))))
  close_by-Keeps at ws code (x ∷ xs) e (inr s) =
      subst (λ at. Keeps ws (close_by lib at ws code (x ∷ xs))) (sym s)
        (elim (Bool-cases (ltb 125 (length (x ∷ xs)))) [
          | inl long ↦ rw long (refl, e, (tt, tt))
          | inr short ↦ rw short (refl, e, (omega arith, (omega arith, (tt, (tt, tt)))))
        ])

  pub fail-Keeps :
      (ws : WsSocket W) (code : ℕ) (reason : List ℕ)
      → IsOpen ws
      → Keeps ws (fail lib ws code reason)
  unfolding ws_close_socket
  fail-Keeps ws code reason (e, s) = simp e (
      close_by-Keeps ws.state (record ws { error_type = websocket; error_code = code }) code reason
        refl s)

  inflated-Keeps :
      (ws : WsSocket W) (compressed : Bool) (payload : List ℕ)
      (use_it : WsSocket W → List ℕ → WsSocket W × List Event)
      → IsOpen ws
      → ((w : W) (body : List ℕ) → Keeps ws (use_it (record ws { world = w }) body))
      → Keeps ws (inflated lib ws compressed payload use_it)
  unfolding inflated
  inflated-Keeps ws false payload use_it o keeps = keeps ws.world payload
  inflated-Keeps ws true payload use_it o keeps =
      elim ((lib.inflate ws.world payload).1)
        as (λ body. Keeps ws (
          let ws' = record ws { world = (lib.inflate ws.world payload).0 } in
          elim body [
            | [] ↦ fail lib ws' 1002 (codes "inflate fail")
            | x ∷ xs ↦ use_it ws' (x ∷ xs)
          ])) [
            | [] ↦
                fail-Keeps (record ws { world = (lib.inflate ws.world payload).0 }) 1002
                  (codes "inflate fail") o
            | x ∷ xs ↦ keeps (lib.inflate ws.world payload).0 (x ∷ xs)
          ]

  -- a failure or another result, by a test
  checked-Keeps :
      (ws : WsSocket W) (test : Bool) (bad good : WsSocket W × List Event)
      → Keeps ws bad
      → Keeps ws good
      → Keeps ws (if test then bad else good)
  checked-Keeps ws true bad good b g = b
  checked-Keeps ws false bad good b g = g

  -- the cases of the fragment that is held
  held-Keeps :
      (ws : WsSocket W) (held : Option (List ℕ)) (empty : WsSocket W × List Event)
      (full : List ℕ → WsSocket W × List Event)
      → Keeps ws empty
      → ((old : List ℕ) → Keeps ws (full old))
      → Keeps ws (elim held [ none ↦ empty | some old ↦ full old ])
  held-Keeps ws none empty full e f = e
  held-Keeps ws (some old) empty full e f = f old

  -- a payload that is there and passes the test of the reserved bits, or a failure
  passed-Keeps :
      (ws : WsSocket W) (test : Bool) (payload : Option (List ℕ))
      (use_it : List ℕ → WsSocket W × List Event) (bad r : WsSocket W × List Event)
      → (if test then elim payload [ none ↦ none | some p ↦ some (use_it p) ] else some bad)
        ≡ some r
      → ((p : List ℕ) → Keeps ws (use_it p))
      → Keeps ws bad
      → Keeps ws r
  passed-Keeps ws true none use_it bad r h u b = absurd (ground arith)
  passed-Keeps ws true (some p) use_it bad r h u b =
      subst (Keeps ws) (ap (λ o. elim o [ none ↦ r | some x ↦ x ]) h) (u p)
  passed-Keeps ws false payload use_it bad r h u b =
      subst (Keeps ws) (ap (λ o. elim o [ none ↦ r | some x ↦ x ]) h) b

  -- a copy into the fragment, before a result or as the only event
  copied-Keeps :
      (ws : WsSocket W) (old body : List ℕ) (r : WsSocket W × List Event)
      → Keeps ws r
      → Keeps ws (begun (copied old body) r)
  unfolding copied closes
  copied-Keeps ws old body r (s, e, l) =
      elim (Bool-cases (ltb (length old + length body) (2 ^ 32))) [
        | inl room ↦ rw room (s, e, l)
        | inr full ↦ rw full (s, e, (tt, l))
      ]

  only_copied-Keeps :
      (ws ws' : WsSocket W) (old body : List ℕ)
      → ws'.state ≡ ws.state
      → is_ok ws'.error_type ≡ true
      → Keeps ws (ws', copied old body)
  unfolding closes
  only_copied-Keeps ws ws' old body s e =
      subst (λ es. Keeps ws (ws', es)) (append-nil (copied old body))
        (copied-Keeps ws old body (ws', []) (s, e, tt))

  module _ (ws : WsSocket W) (open_ : IsOpen ws) where
    end_frame-Keeps :
        (compressed : Bool) (payload old : List ℕ)
        → Keeps ws (end_frame lib ws compressed payload old)
    unfolding end_frame closes
    end_frame-Keeps compressed payload old = inflated-Keeps ws compressed payload _ open_ (λ w body.
        copied-Keeps ws old body (ended w (appended old body) (fails body))
          (ended-Keeps w (appended old body) (fails body)))
      where
        fails : List ℕ → Bool
        fails body = ws.fragment_op_code == 1 && not (is_valid_utf8 (appended old body))

        ended : W → List ℕ → Bool → WsSocket W × List Event
        ended w whole test = without_fragment lib (
            if test then text_fails lib (record ws { fragment_data = some whole; world = w }) else (
              record ws { fragment_data = some whole; world = w },
              on_message ws.fragment_op_code whole ∷ [],
            ))

        ended-Keeps : (w : W) (whole : List ℕ) (test : Bool) → Keeps ws (ended w whole test)
        ended-Keeps w whole true =
            fail-Keeps (record ws { fragment_data = some whole; world = w }) 1007 _ open_
        ended-Keeps w whole false = (refl, open_.0, (tt, tt))

    data_frame-Keeps :
        (op : ℕ) (compressed : Bool) (payload : List ℕ)
        → Keeps ws (data_frame lib ws op compressed payload)
    unfolding data_frame closes
    data_frame-Keeps op compressed payload = inflated-Keeps ws compressed payload _ open_ (λ w body.
        checked-Keeps ws _ _ _ (fail-Keeps (record ws { world = w }) 1007 _ open_)
          (refl, open_.0, (tt, tt)))

    close_frame-Keeps : (payload : List ℕ) → Keeps ws (close_frame lib ws payload)
    unfolding close_frame
    close_frame-Keeps [] = fail-Keeps ws 1005 [] open_
    close_frame-Keeps (a ∷ []) = fail-Keeps ws 1005 [] open_
    close_frame-Keeps (a ∷ b ∷ reason) = fail-Keeps ws _ _ open_

    middle_frame-Keeps :
        (compressed : Bool) (payload old : List ℕ)
        → Keeps ws (middle_frame lib ws compressed payload old)
    unfolding middle_frame closes
    middle_frame-Keeps compressed payload old =
        inflated-Keeps ws compressed payload _ open_ (λ w body.
          only_copied-Keeps ws (record ws { fragment_data = some (appended old body); world = w })
            old body refl open_.0)

    begin_frame-Keeps :
        (op : ℕ) (compressed : Bool) (payload : List ℕ)
        → Keeps ws (begin_frame lib ws op compressed payload)
    unfolding begin_frame closes
    begin_frame-Keeps op compressed payload =
        inflated-Keeps (record ws { fragment_op_code = op }) compressed payload _ open_
          (λ w body.
            only_copied-Keeps ws
              (record ws {
                fragment_data = some (appended [] body);
                fragment_op_code = op;
                world = w;
              })
              [] body refl open_.0)

    fragment-Keeps :
        (op : ℕ) (compressed : Bool) (payload : List ℕ)
        → Keeps ws (fragment lib ws op compressed payload)
    unfolding fragment closes
    fragment-Keeps op compressed payload =
        checked-Keeps ws (op == 0) _ _
          (held-Keeps ws ws.fragment_data _ _ (fail-Keeps ws 1002 _ open_)
            (middle_frame-Keeps compressed payload))
          (checked-Keeps ws (op == 1 || op == 2) _ _
            (held-Keeps ws ws.fragment_data _ _ (begin_frame-Keeps op compressed payload)
              (λ old. fail-Keeps ws 1002 _ open_))
            (refl, open_.0, tt))

    module _ (pong : WsSocket W → List ℕ → WsSocket W × List Event × Bool)
        (answers : (op : ℕ) (payload : List ℕ)
          → Keeps ws
              ((pong ws payload).0, (pong ws payload).1 ++ (on_message op payload ∷ []))) where
      final_frame-Keeps :
          (op : ℕ) (compressed : Bool) (payload : List ℕ)
          → Keeps ws (final_frame lib pong ws op compressed payload)
      unfolding final_frame closes
      final_frame-Keeps op compressed payload =
          checked-Keeps ws (op == 0) _ _
            (held-Keeps ws ws.fragment_data _ _ (fail-Keeps ws 1002 _ open_)
              (end_frame-Keeps compressed payload))
            (checked-Keeps ws (op == 1 || op == 2) _ _
              (held-Keeps ws ws.fragment_data _ _ (data_frame-Keeps op compressed payload)
                (λ old. fail-Keeps ws 1002 _ open_))
              (checked-Keeps ws (op == 8) _ _ (close_frame-Keeps payload)
                (elim (Bool-cases (op == 9)) [
                  | inl nine ↦ rw nine (answers op payload)
                  | inr other ↦ rw other (
                      checked-Keeps ws (op == 10) _ _ (refl, open_.0, (tt, tt)) (refl, open_.0, tt))
                ])))

      pub by_fin-Keeps :
          (a : ℕ) (compressed : Bool) (payload : List ℕ)
          → Keeps ws (by_fin lib pong ws a compressed payload)
      unfolding by_fin
      by_fin-Keeps a compressed payload =
          checked-Keeps ws (a / 128 == 0) _ _ (fragment-Keeps (a % 16) compressed payload)
            (final_frame-Keeps (a % 16) compressed payload)

    pub reserved-Keeps :
        (a : ℕ) (payload : Option (List ℕ)) (use_it : Bool → List ℕ → WsSocket W × List Event)
        (r : WsSocket W × List Event)
        → ((compressed : Bool) (p : List ℕ) → Keeps ws (use_it compressed p))
        → reserved lib ws a payload use_it ≡ some r
        → Keeps ws r
    unfolding reserved
    reserved-Keeps a payload use_it r u h =
        passed-Keeps ws _ payload _ _ r h (u (not (a / 16 % 8 == 0))) (fail-Keeps ws 1002 _ open_)
