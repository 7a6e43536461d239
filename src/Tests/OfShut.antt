-- ===== src/Tests/OfShut.antt =====
-- Runs of core/websocket.go's model: the write queue, and connections that are closed.
use dex_executorgo.Prelude.{◌≡◌, refl, true, false, none, some, Option, List, [], ◌∷◌}
use dex_executorgo.Go.Text.{Text, lit}
use dex_executorgo.Go.Chan.{make, send}
use dex_executorgo.Go.Outcome.{returns, panics, send_closed}
use dex_executorgo.Socket.Config.{
  handle, proxy_url, proto_handle_func, auto_reconnect, post_reconnect_success,
  new_ws_builder_with_read_timeout, new_ws_builder, ws_url,
}
use dex_executorgo.Socket.Conn.{WsConn, send_message, subscribe}
use dex_executorgo.Types.{WsRequest}
use dex_executorgo.NodeClient.{NodeClient, conn_config, block_header_request, resubscribing}
use dex_executorgo.Socket.Close.{close_ws}
use dex_executorgo.Socket.Close.Once.{IsOpen}
use dex_executorgo.Socket.Reconnect.{Peer}
use dex_executorgo.Socket.Receive.{text_message, frame, read_error, ends, iteration}
use dex_executorgo.Socket.Write.{write_case, timer_case, ping_case, Wire, stuck, turn}
use dex_executorgo.Socket.Write.Queues.{calls_send, takes, Session, moves, IsFifo, moves-IsFifo}
use dex_executorgo.Socket.Shut.{Activity, activities}
use dex_executorgo.Socket.Shut.Reads.{close_ws-never_reopens}
use dex_executorgo.Socket.Shut.Reopens.{calls_hook, close_ws-reopens}
use dex_executorgo.Socket.Shut

abbrev conn : List Text → WsConn
conn queue = record {
  config = ws_url (lit "wss://node") new_ws_builder;
  connected = true;
  write_buffer_chan = record { queue = queue; capacity = 10; closed = false };
  ping_message_buffer_chan = make 10;
  pong_message_buffer_chan = make 10;
  close_message_buffer_chan = make 10;
  close = make 1;
  lock_held = false;
}

conn-IsOpen : (queue : List Text) → IsOpen (conn queue)
unfolding make
conn-IsOpen queue = record {
  unlocked = refl;
  open_close = refl;
  open_write = refl;
  open_ping = refl;
  open_pong = refl;
  open_close_message = refl;
}

abbrev peer : Peer
peer = record {
  dial = λ n. returns none;
  pre_reconnect = λ c n. c;
  custom_sub = [];
  post_reconnect = λ w. returns w;
}

abbrev good_wire : Wire
good_wire = record { write = λ n. none; beat = []; beats = [] }

abbrev broken_wire : Wire
broken_wire = record { write = λ n. some (lit "closed"); beat = []; beats = [] }

abbrev start : Session
start = record {
  writer = record { ws = conn (lit "sub" ∷ []); err = none };
  written = [];
  sent = lit "sub" ∷ [];
}

start-IsFifo : IsFifo peer good_wire start
unfolding ws_url new_ws_builder new_ws_builder_with_read_timeout
start-IsFifo = record {
  quiet = record { no_error = refl; no_heartbeat = refl; open_queue = refl };
  order = refl;
}

moves-IsFifo_example : IsFifo peer good_wire (
    moves peer good_wire start (
      calls_send (lit "ask")
      ∷ takes write_case
      ∷ takes ping_case
      ∷ takes timer_case
      ∷ calls_send (lit "bye")
      ∷ takes write_case
      ∷ []))
moves-IsFifo_example =
    moves-IsFifo peer good_wire (λ n. refl) start
      (calls_send (lit "ask")
        ∷ takes write_case
        ∷ takes ping_case
        ∷ takes timer_case
        ∷ calls_send (lit "bye")
        ∷ takes write_case
        ∷ [])
      start-IsFifo

abbrev last_activities : List Activity
last_activities =
    Shut.takes broken_wire write_case
    ∷ Shut.returns_from_read (read_error (lit "EOF"))
    ∷ Shut.reads (read_error (lit "EOF"))
    ∷ Shut.takes broken_wire timer_case
    ∷ []

close_ws-never_reopens_example :
    ((activities peer some
        (record { ws = (close_ws (conn [])).ws; err = none })
        last_activities).ws.connected
      ≡ false)
    × ((iteration peer some
          (activities peer some
            (record { ws = (close_ws (conn [])).ws; err = none })
            last_activities).ws
          (frame text_message (lit "late"))).next
        ≡ ends)
    × ((iteration peer some
          (activities peer some
            (record { ws = (close_ws (conn [])).ws; err = none })
            last_activities).ws
          (frame text_message (lit "late"))).deliveries
        ≡ [])
close_ws-never_reopens_example =
    close_ws-never_reopens peer some (conn []) none last_activities
      (frame text_message (lit "late")) (conn-IsOpen []) refl

-- A connection as EstablishConn makes it, with two messages waiting, and its hook.
abbrev node : NodeClient
node = record { rpc_url = lit "http://node"; ws_endpoint = lit "wss://node"; header_ws_list = [] }

abbrev node_conn : WsConn
node_conn = record (conn (lit "sub" ∷ lit "ask" ∷ [])) {
  config = conn_config node [] (handle 1) (handle 2);
}

node_conn-IsOpen : IsOpen node_conn
unfolding make
node_conn-IsOpen = record {
  unlocked = refl;
  open_close = refl;
  open_write = refl;
  open_ping = refl;
  open_pong = refl;
  open_close_message = refl;
}

abbrev marshal : WsRequest → Option Text
marshal request = some request.method

abbrev hooked : Peer
hooked = resubscribing marshal block_header_request peer

hook-panics :
    (w : WsConn) → w.write_buffer_chan.closed ≡ true → hooked.post_reconnect w ≡ panics send_closed
unfolding resubscribing subscribe send_message send
hook-panics w closed = simp (closed, send)

close_ws-reopens_example :
    ((turn hooked broken_wire
        (record { ws = (close_ws node_conn).ws; err = none })
        write_case).writer.ws.connected
      ≡ true)
    × ((turn hooked broken_wire
          (record { ws = (close_ws node_conn).ws; err = none })
          write_case).fate
        ≡ stuck (panics send_closed))
unfolding conn_config resubscribing make proxy_url ws_url proto_handle_func auto_reconnect
    post_reconnect_success new_ws_builder_with_read_timeout
close_ws-reopens_example =
    close_ws-reopens hooked broken_wire node_conn none (lit "sub") (lit "ask") [] node_conn-IsOpen
      refl refl (calls_hook refl refl hook-panics) refl refl
