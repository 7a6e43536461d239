-- ===== src/Socket/Write/Queues.antt =====
-- writeRequest and SendMessage of core/websocket.go: what becomes of the messages that are sent.
use mathlib.Core.List.{append_assoc}
use dex_executorgo.Prelude.{ℕ, ◌≡◌, refl, ap, sym, ◌∙◌, none, List, [], ◌∷◌, ◌++◌, arith}
use dex_executorgo.Go.Text.{Text}
use dex_executorgo.Go.Chan.{send}
use dex_executorgo.Go.Outcome.{Outcome, returns, panics, blocks}
use dex_executorgo.Socket.Conn.{WsConn, send_message}
use dex_executorgo.Socket.Reconnect.{Peer}
use dex_executorgo.Socket.Write.{Case, Wrote, Writer, Wire, turn}
use dex_executorgo.Socket.Write.Turns.{texts, texts-append, IsQuiet, turn-Keeps}

-- What happens to the write queue: a goroutine calls SendMessage, or the loop takes a case.
pub data Move : Type 0 where
  calls_send : Text → Move
  takes : Case → Move

-- The loop's state, all frames that it has written, and the messages that were sent, in order. A
-- call that waits for room in the queue has not sent its message yet.
pub record Session : Type 0 where
  pub writer : Writer
  pub written : List Wrote
  pub sent : List Text

module _ (peer : Peer) (wire : Wire) where
  unfoldable pub sent_by : Session → Text → Outcome WsConn → Session
  sent_by s d (returns ws) = record s {
    writer = record s.writer { ws = ws };
    sent = s.sent ++ d ∷ [];
  }
  sent_by s d (panics p) = s
  sent_by s d blocks = s

  unfoldable pub move : Session → Move → Session
  unfolding sent_by
  move s (calls_send d) = sent_by s d (send_message d s.writer.ws)
  move s (takes c) =
      let t = turn peer wire s.writer c in
      record s { writer = t.writer; written = s.written ++ t.wrote }

  unfoldable pub moves : Session → List Move → Session
  unfolding move
  moves s [] = s
  moves s (m ∷ ms) = moves (move s m) ms

  -- What was written as text frames and what waits in the queue is what was sent, in order.
  pub record IsFifo (s : Session) : Type 0 where
    pub quiet : IsQuiet s.writer
    pub order : texts s.written ++ s.writer.ws.write_buffer_chan.queue ≡ s.sent

  module _ (ok : (n : ℕ) → wire.write n ≡ none) where
    send-queue :
        (d : Text) (ws ws' : WsConn)
        → send_message d ws ≡ returns ws'
        → (ws'.write_buffer_chan.queue ≡ ws.write_buffer_chan.queue ++ d ∷ [])
          × (ws'.write_buffer_chan.closed ≡ ws.write_buffer_chan.closed)
          × (ws'.config.heartbeat_interval_time ≡ ws.config.heartbeat_interval_time)
    unfolding send_message send
    send-queue d ws ws' e = ground arith

    sent_by-IsFifo :
        (s : Session) (d : Text) (o : Outcome WsConn)
        → send_message d s.writer.ws ≡ o
        → IsFifo s
        → IsFifo (sent_by s d o)
    unfolding sent_by
    sent_by-IsFifo s d (returns ws) e f =
        let (queue, closed, beat) = send-queue d s.writer.ws ws e in
        record {
          quiet = record {
            no_error = f.quiet.no_error;
            no_heartbeat = beat ∙ f.quiet.no_heartbeat;
            open_queue = closed ∙ f.quiet.open_queue;
          };
          order =
              ap (λ q. texts s.written ++ q) queue
              ∙ sym (append_assoc (texts s.written) s.writer.ws.write_buffer_chan.queue (d ∷ []))
              ∙ ap (λ l. l ++ d ∷ []) f.order;
        }
    sent_by-IsFifo s d (panics p) e f = f
    sent_by-IsFifo s d blocks e f = f

    move-IsFifo : (s : Session) (m : Move) → IsFifo s → IsFifo (move s m)
    unfolding move
    move-IsFifo s (calls_send d) f = sent_by-IsFifo s d _ refl f
    move-IsFifo s (takes c) f =
        let kept = turn-Keeps peer wire ok s.writer c f.quiet in
        record {
          quiet = kept.quiet;
          order =
              ap (λ l. l ++ (turn peer wire s.writer c).writer.ws.write_buffer_chan.queue)
                (texts-append s.written (turn peer wire s.writer c).wrote)
              ∙ append_assoc (texts s.written) (texts (turn peer wire s.writer c).wrote) _
              ∙ ap (λ q. texts s.written ++ q) kept.order
              ∙ f.order;
        }

    -- As long as no write fails, no heartbeat is configured and the queue is open, nothing that is
    -- sent is lost, repeated or overtaken, however the senders and the cases of the loop alternate:
    -- the text frames written so far, and then what waits in the queue, are the messages sent.
    pub moves-IsFifo : (s : Session) (ms : List Move) → IsFifo s → IsFifo (moves s ms)
    unfolding moves
    moves-IsFifo s [] f = f
    moves-IsFifo s (m ∷ ms) f = moves-IsFifo (move s m) ms (move-IsFifo s m f)
