-- ===== src/Socket/Receive.antt =====
-- receiveMessage: the loop that reads frames and hands them to the protocol's handler.
pub mod Frames
use dex_executorgo.Prelude.{
  ℕ, Bool, true, false, Option, none, some, List, [], ◌∷◌, ◌++◌, if◌then◌else◌,
}
use dex_executorgo.Go.Text.{Text}
use dex_executorgo.Go.Chan.{Chan, receive}
use dex_executorgo.Go.Outcome.{Outcome, returns, panics, blocks, nil_deref}
use dex_executorgo.Socket.Conn.{WsConn, send_pong_message}
use dex_executorgo.Socket.Close.{Ended}
use dex_executorgo.Socket.Reconnect.{Peer, reconnect}

-- The type of a frame; the last stands for the types with no case.
pub data Kind : Type 0 where
  text_message binary_message other_message : Kind

-- What ReadMessage returns.
pub data Incoming : Type 0 where
  frame : Kind → Text → Incoming
  read_error : Text → Incoming

pub data Delivery : Type 0 where
  handles : Text → Delivery  -- ProtoHandleFunc; its error is only logged
  reconnects : Delivery
  fails_with : Text → Delivery  -- ErrorHandleFunc

-- How an iteration ends: the loop goes on, or its goroutine ends, or it waits in Reconnect, or it
-- panics there or on a nil handler.
pub data Next : Type 0 where
  goes_on ends : Next
  stuck : Outcome (Unit {0}) → Next

pub record Iteration : Type 0 where
  pub ws : WsConn
  pub deliveries : List Delivery
  pub next : Next

-- What is done in turn and comes of Reconnect.
unfoldable pub after_reconnect : Ended → Iteration
after_reconnect e = elim e.outcome [
  | returns t ↦ record { ws = e.ws; deliveries = reconnects ∷ []; next = goes_on }
  | panics p ↦ record { ws = e.ws; deliveries = reconnects ∷ []; next = stuck (panics p) }
  | blocks ↦ record { ws = e.ws; deliveries = reconnects ∷ []; next = stuck blocks }
]

-- `decompress` is DecompressFunc, where the configuration has one: `none` is its error.
module _ (peer : Peer) (decompress : Text → Option Text) where
  unfoldable pub payload : WsConn → Kind → Text → Option Text
  payload ws text_message msg = some msg
  payload ws binary_message msg = elim ws.config.decompress_func [
    | none ↦ some msg
    | some f ↦ decompress msg
  ]
  payload ws other_message msg = none

  -- The call of ProtoHandleFunc, which panics if there is none.
  unfoldable pub handled : WsConn → Text → Iteration
  handled ws msg = elim ws.config.proto_handle_func [
    | none ↦ record { ws = ws; deliveries = []; next = stuck (panics nil_deref) }
    | some f ↦ record { ws = ws; deliveries = handles msg ∷ []; next = goes_on }
  ]

  abbrev pub error_call : WsConn → Text → List Delivery
  error_call ws message = elim ws.config.error_handle_func [
    | none ↦ []
    | some f ↦ fails_with message ∷ []
  ]

  -- The default case of the select.
  unfoldable pub on_read : WsConn → Incoming → Iteration
  unfolding after_reconnect handled payload
  on_read ws (frame kind msg) = elim (payload ws kind msg) [
    | none ↦ record { ws = ws; deliveries = []; next = goes_on }
    | some content ↦ handled ws content
  ]
  on_read ws (read_error message) =
      if ws.config.is_auto_reconnect
      then after_reconnect (reconnect peer ws)
      else record { ws = ws; deliveries = error_call ws message; next = ends }

  -- One iteration: a close signal, or a closed channel, ends the goroutine.
  unfoldable pub iteration : WsConn → Incoming → Iteration
  unfolding on_read
  iteration ws incoming = elim (receive ws.close) [
    | returns (signal, ch) ↦ record { ws = record ws { close = ch }; deliveries = []; next = ends }
    | panics p ↦ on_read ws incoming
    | blocks ↦ on_read ws incoming
  ]

  -- What follows an iteration, if the loop goes on.
  unfoldable pub and_then : Iteration → (WsConn → Iteration) → Iteration
  and_then i rest = elim i.next [
    | goes_on ↦ let more = rest i.ws in record more { deliveries = i.deliveries ++ more.deliveries }
    | ends ↦ i
    | stuck o ↦ i
  ]

  -- The loop over what the connection gives.
  unfoldable pub receive_message : WsConn → List Incoming → Iteration
  receive_message ws [] = record { ws = ws; deliveries = []; next = goes_on }
  receive_message ws (incoming ∷ rest) =
      and_then (iteration ws incoming) (λ ws'. receive_message ws' rest)

-- The ping handler: the answer goes into the queue of pongs.
unfoldable pub on_ping : Text → WsConn → Outcome WsConn
unfolding send_pong_message
on_ping ping ws = send_pong_message ping ws
