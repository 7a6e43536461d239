-- ===== src/Socket/Receive/Frames.antt =====
-- receiveMessage of core/websocket.go: which messages the handler gets.
use dex_executorgo.Prelude.{
  ◌≡◌, ap, sym, ◌∙◌, false, Option, none, some, inl, inr, refl, Option-cases, List, [], ◌∷◌, ◌++◌,
}
use mathlib.Core.List.{append_assoc}
use dex_executorgo.Socket.Config.{Handle}
use dex_executorgo.Go.Text.{Text}
use dex_executorgo.Go.Chan.{receive, make}
use dex_executorgo.Go.Outcome.{blocks}
use dex_executorgo.Socket.Conn.{WsConn}
use dex_executorgo.Socket.Reconnect.{Peer}
use dex_executorgo.Socket.Receive.{
  Kind, text_message, binary_message, other_message, handles, handled, on_read, Incoming, frame,
  read_error, Delivery, goes_on, ends, Iteration, payload, iteration, and_then, receive_message,
  error_call,
}

module _ (peer : Peer) (decompress : Text → Option Text) (ws : WsConn) where
  -- The frames as incoming, and what the handler is to get of them.
  abbrev pub frames : List (Kind × Text) → List Incoming → List Incoming
  frames [] rest = rest
  frames ((kind, msg) ∷ fs) rest = frame kind msg ∷ frames fs rest

  -- What the handler is called with for a frame: a text frame as it is, a binary frame as it is or
  -- decompressed, no other frame.
  abbrev pub calls_for : Kind → Text → List Delivery
  calls_for text_message msg = handles msg ∷ []
  calls_for binary_message msg = elim ws.config.decompress_func [
    | none ↦ handles msg ∷ []
    | some f ↦ elim (decompress msg) [ none ↦ [] | some content ↦ handles content ∷ [] ]
  ]
  calls_for other_message msg = []

  abbrev pub calls : List (Kind × Text) → List Delivery
  calls [] = []
  calls ((kind, msg) ∷ fs) = calls_for kind msg ++ calls fs

  module _ {f : Handle} (handler : ws.config.proto_handle_func ≡ some f) where
    on_read_frame :
        (kind : Kind) (msg : Text)
        → on_read peer decompress ws (frame kind msg)
          ≡ record { ws = ws; deliveries = calls_for kind msg; next = goes_on }
    unfolding on_read payload handled
    on_read_frame text_message msg = simp (handler, handled)
    on_read_frame binary_message msg = elim (Option-cases ws.config.decompress_func) [
      | inl e ↦ simp (e, payload, handler, handled, on_read, calls_for)
      | inr (g, e) ↦ elim (Option-cases (decompress msg)) [
        | inl d ↦ simp (e, d, payload, on_read, calls_for)
        | inr (content, d) ↦ simp (e, d, payload, handler, handled, on_read, calls_for)
      ]
    ]
    on_read_frame other_message msg = refl

    iteration_frame :
        ws.close ≡ make 1
        → (kind : Kind) (msg : Text)
        → iteration peer decompress ws (frame kind msg)
          ≡ record { ws = ws; deliveries = calls_for kind msg; next = goes_on }
    unfolding iteration receive make
    iteration_frame open_close kind msg =
        let idle : receive ws.close ≡ blocks = ap receive open_close in
        rw (idle, iteration) (on_read_frame kind msg)

  iteration_error :
      ws.close ≡ make 1
      → ws.config.is_auto_reconnect ≡ false
      → (message : Text)
      → iteration peer decompress ws (read_error message)
        ≡ record { ws = ws; deliveries = error_call peer decompress ws message; next = ends }
  unfolding iteration receive make
  iteration_error open_close manual message = rw (open_close, receive) (rw manual)

  -- The loop behind an iteration.
  last_iteration :
      (incoming : Incoming) (rest : List Incoming) (deliveries : List Delivery)
      → iteration peer decompress ws incoming
        ≡ record { ws = ws; deliveries = deliveries; next = ends }
      → receive_message peer decompress ws (incoming ∷ rest)
        ≡ record { ws = ws; deliveries = deliveries; next = ends }
  unfolding receive_message and_then
  last_iteration incoming rest deliveries e =
      ap (λ i. and_then peer decompress i (λ w. receive_message peer decompress w rest)) e

  next_iteration :
      (incoming : Incoming) (rest : List Incoming) (deliveries : List Delivery)
      → iteration peer decompress ws incoming
        ≡ record { ws = ws; deliveries = deliveries; next = goes_on }
      → receive_message peer decompress ws (incoming ∷ rest)
        ≡ record (receive_message peer decompress ws rest) {
          deliveries = deliveries ++ (receive_message peer decompress ws rest).deliveries;
        }
  unfolding receive_message and_then
  next_iteration incoming rest deliveries e =
      ap (λ i. and_then peer decompress i (λ w. receive_message peer decompress w rest)) e

  -- With a handler, without reconnection, and with no close signal sent, the loop ends at the first
  -- read error. Before it the handler gets, in order, every text frame and every binary frame, decompressed if that is configured and works;
  -- then the error handler is called, if there is one. What comes after is not read.
  pub receive_message-ends :
      (fs : List (Kind × Text)) (message : Text) (rest : List Incoming)
      → {f : Handle} → ws.config.proto_handle_func ≡ some f
      → ws.close ≡ make 1
      → ws.config.is_auto_reconnect ≡ false
      → receive_message peer decompress ws (frames fs (read_error message ∷ rest)) ≡ record {
        ws = ws;
        deliveries = calls fs ++ error_call peer decompress ws message;
        next = ends;
      }
  receive_message-ends [] message rest handler open_close manual =
      last_iteration (read_error message) rest _ (iteration_error open_close manual message)
  receive_message-ends ((kind, msg) ∷ fs) message rest handler open_close manual =
      next_iteration (frame kind msg) _ _ (iteration_frame handler open_close kind msg)
      ∙ ap (λ (i : Iteration). record i { deliveries = calls_for kind msg ++ i.deliveries })
          (receive_message-ends fs message rest handler open_close manual)
      ∙ ap (λ l. record { ws = ws; deliveries = l; next = ends })
          (sym
            (append_assoc (calls_for kind msg) (calls fs) (error_call peer decompress ws message)))
