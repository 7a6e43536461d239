-- ===== src/Socket/Shut/Reads.antt =====
-- The read loop of core/websocket.go on a connection that CloseWs has closed, and both loops on it.
use dex_executorgo.Prelude.{
  ◌≡◌, refl, ap, ◌∙◌, inl, inr, Bool, true, false, Option, List, [], ◌∷◌, arith, Option-cases,
  if◌then◌else◌,
}
use dex_executorgo.Go.Text.{Text}
use dex_executorgo.Go.Chan.{Chan, receive}
use dex_executorgo.Go.Outcome.{returns, Outcome-cases}
use dex_executorgo.Socket.Conn.{WsConn}
use dex_executorgo.Socket.Close.{Ended, close_ws}
use dex_executorgo.Socket.Close.Once.{IsOpen, close_ws-IsClosed, close_ws-closed_conn}
use dex_executorgo.Socket.Reconnect.{Peer, reconnect}
use dex_executorgo.Socket.Receive.{
  Incoming, read_error, Iteration, ends, iteration, payload, handled, after_reconnect, on_read,
}
use dex_executorgo.Socket.Receive
use dex_executorgo.Socket.Write.{Writer}
use dex_executorgo.Socket.Shut.{
  IsShut, Activity, takes, reads, returns_from_read, activity, activities, turn-IsShut, put_close,
  reconnect-IsShut,
}

module _ (peer : Peer) (decompress : Text → Option Text) where
  receive-shut :
      (ch : Chan Bool)
      → ch.closed ≡ true
      → (d : Option Bool) × (ch' : Chan Bool) × (receive ch ≡ returns (d, ch'))
  receive-shut ch h = elim (Outcome-cases (receive ch)) [
    | inl ((d, ch'), e) ↦ (d, ch', e)
    | inr (inl (p, e)) ↦ absurd (unfold receive in ground arith)
    | inr (inr e) ↦ absurd (unfold receive in ground arith)
  ]

  -- An iteration of receiveMessage reads nothing and ends.
  iteration-ends :
      (ws : WsConn) (incoming : Incoming)
      → IsShut ws
      → ((iteration peer decompress ws incoming).next ≡ ends)
        × ((iteration peer decompress ws incoming).deliveries ≡ [])
        × IsShut (iteration peer decompress ws incoming).ws
  unfolding iteration
  iteration-ends ws incoming h =
      let (d, ch, e) = receive-shut ws.close h.closed_close in
      rw (e, iteration) (refl, refl, put_close peer decompress ws ch d h e)

  handled-IsShut :
      (ws : WsConn) (msg : Text) → IsShut ws → IsShut (handled peer decompress ws msg).ws
  unfolding handled
  handled-IsShut ws msg h = elim (Option-cases ws.config.proto_handle_func) [
    | inl e ↦ rw (e, handled) h
    | inr (f, e) ↦ rw (e, handled) h
  ]

  after_reconnect-IsShut : (e : Ended) → IsShut e.ws → IsShut (after_reconnect e).ws
  unfolding after_reconnect
  after_reconnect-IsShut e h = elim (Outcome-cases e.outcome) [
    | inl (t, o) ↦ rw (o, after_reconnect) h
    | inr (inl (p, o)) ↦ rw (o, after_reconnect) h
    | inr (inr o) ↦ rw (o, after_reconnect) h
  ]

  either-IsShut :
      (b : Bool) (i j : Iteration) → IsShut i.ws → IsShut j.ws → IsShut (if b then i else j).ws
  either-IsShut true i j h k = h
  either-IsShut false i j h k = k

  -- A read that ends after the connection was closed.
  on_read-IsShut :
      (ws : WsConn) (incoming : Incoming)
      → IsShut ws
      → IsShut (on_read peer decompress ws incoming).ws
  unfolding on_read
  on_read-IsShut ws (Receive.frame kind msg) h =
      elim (Option-cases (payload peer decompress ws kind msg)) [
        | inl e ↦ rw (e, on_read) h
        | inr (content, e) ↦ rw (e, on_read) (handled-IsShut ws content h)
      ]
  on_read-IsShut ws (read_error message) h =
      either-IsShut ws.config.is_auto_reconnect _ _
        (after_reconnect-IsShut (reconnect peer ws) (reconnect-IsShut peer decompress ws h)) h

  activity-IsShut :
      (w : Writer) (a : Activity) → IsShut w.ws → IsShut (activity peer decompress w a).ws
  unfolding activity
  activity-IsShut w (takes wire c) h = turn-IsShut peer decompress wire w c h
  activity-IsShut w (reads incoming) h = (iteration-ends w.ws incoming h).2
  activity-IsShut w (returns_from_read incoming) h = on_read-IsShut w.ws incoming h

  pub activities-IsShut :
      (w : Writer) (l : List Activity) → IsShut w.ws → IsShut (activities peer decompress w l).ws
  unfolding activities
  activities-IsShut w [] h = h
  activities-IsShut w (a ∷ l) h =
      activities-IsShut (activity peer decompress w a) l (activity-IsShut w a h)

  -- CloseWs leaves an open connection with an empty write queue shut.
  close_ws-IsShut :
      (ws : WsConn) → IsOpen ws → ws.write_buffer_chan.queue ≡ [] → IsShut (close_ws ws).ws
  close_ws-IsShut ws o h =
      let (_, closed) = close_ws-IsClosed ws o in
      record {
        disconnected = closed.disconnected;
        closed_close = ap (λ (ch : Chan Bool). ch.closed) closed.signalled;
        closed_write = closed.closed_write;
        drained = ap (λ (c : WsConn). c.write_buffer_chan.queue) (close_ws-closed_conn ws o) ∙ h;
      }

  -- After CloseWs of an open connection whose write queue is empty, whatever the two loops do, the
  -- end of a read that was under way included, and whatever the network does, with reconnection
  -- configured or not, the connection is never opened again, and the next iteration of
  -- receiveMessage from its select on reads nothing and ends.
  pub close_ws-never_reopens :
      (ws : WsConn) (err : Option Text) (l : List Activity) (incoming : Incoming)
      → IsOpen ws
      → ws.write_buffer_chan.queue ≡ []
      → let w = activities peer decompress (record { ws = (close_ws ws).ws; err = err }) l in
        (w.ws.connected ≡ false)
        × ((iteration peer decompress w.ws incoming).next ≡ ends)
        × ((iteration peer decompress w.ws incoming).deliveries ≡ [])
  close_ws-never_reopens ws err l incoming o h =
      let shut =
        activities-IsShut (record { ws = (close_ws ws).ws; err = err }) l
          (close_ws-IsShut ws o h) in
      let ended = iteration-ends _ incoming shut in (shut.disconnected, ended.0, ended.1)
