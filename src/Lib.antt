-- ===== src/Lib.antt =====
-- The DEX executor (main.go, core/), a program that watches the pending transactions of a chain and
-- answers a competitor's transaction with a new order.
--
-- The program's parts and how they interact. For each configured chain main.go builds tables of
-- routers, tokens, competitors and pairs, subscribes to the chain's subject, and starts a manager.
-- A signal arrives at SignalMsgHandler (core/nats_sub.go), which sends it to the manager's
-- channel. The manager (core/node_mgr.go) runs two loops: SubGethBlockHeader keeps the newest
-- headers, and GasPriceAnalyse takes pending transactions and signals. A transaction to a router is
-- decoded by RouterDecoder, one to a competitor by CallClientDecoder, which asks the node for a
-- trace. If symbols come out, RebuildTx picks the newest signal and Trade publishes an order.
-- core/websocket.go is a client of its own, with a write loop, a read loop and reconnection.
--
-- Which file models which part:
--   Go          what the program uses of Go: strings, maps, channels, panics, 64-bit integers, and
--               JSON values with the decoding of an object into a struct
--   Types       core/type.go: the records, a field for each field, and in Tags how PendingTx and
--               CallsRes are decoded by their JSON tags
--   Log         utils/logger.go (init_logger) and utils/panic.go (panic_trace)
--   Window      the lists cut to 200 entries of core/node_mgr.go and core/node_ws.go (push_window)
--   Nats        core/nats_sub.go and the subjects of core/consts.go (signal_msg_handler)
--   Config      config/config.go (load_config_file and load_pairs_config)
--   NodeClient  core/ethwebsocket.go and core/node_ws.go: the subscriptions that retry
--               (subscribe_from), the handlers, and EstablishConn (establish_on)
--   Wiring      main.go (launch and the functions that it calls, one for each loop of main)
--   Decoder     core/node_mgr.go: Calls is GetAllAddress, Router and CallClient are the two decoders
--   Manager     core/node_mgr.go: Signals is GetLastSignalBySymbol, Block is GetPendingBlockNum,
--               Trade is Trade, Rebuild is RebuildTx, Loops is the two select loops
--   Socket      core/websocket.go: Config is WsConfig and the builder, Conn is WsConn, Reconnect,
--               Close, Receive and Write are the methods of those names, Dial is connect and
--               Build, Shut runs the two loops on a connection that is closed
--   Start       NewDexNodeClient, NewNodeMgr and main with them (new_node_mgr, start_all)
--   Program     the started managers with the broker in front of them (run_all, NodeMgr.Execute)
--   Tests       runs of the model on concrete data
--
-- State and operations. NodeMgr and WsConn are records with the fields of the source that change or
-- are read; an operation takes the record and gives the new one, with the list of what it did
-- outside (Action, Effect, Delivery) and how it ended: Outcome has a value, a panic, or `blocks`
-- for a call that waits for ever. A loop's round is one step, the loops' interleaving is a list of
-- events, and `run` is the manager after them; the deferred recover means that a panic ends the
-- round and not the loops. A Go map is a list of entries, since a range loop meets them in any
-- order; an int64, and a duration as one, is reduced to 64 bits wherever the source computes or
-- converts.
--
-- Bounds and fuel. Reconnect counts its hundred attempts down, and has no other fuel. A
-- subscription, which retries for ever, gets fuel, and one call more than the failures is enough.
-- The traversal with a stack that GetAllAddress is compared with gets as many rounds as the trace
-- has calls.
--
-- What is not modelled. go-ethereum, the message broker, gorilla/websocket and float64 arithmetic
-- are parameters: AbiLib, EthClient, Platform, Peer, Network, Wire, FloatOps. Log lines, the
-- broker's publisher and subscriber, timers and deadlines are left out. Durations that a caller
-- sets are not negative. The two loops of a manager share its header list with no lock: a round
-- that sees a write of the other loop half done is not modelled. Case mapping is that of ASCII.
-- JSON text is a parameter, from and to the values of Go/Json. A value is decoded into PendingTx
-- and CallsRes by the model; an object there has no two keys that are equal up to case. The
-- decoding of signals, heads and pairs, which have numbers and maps, is a parameter. A channel
-- operation is one of a goroutine that finds nobody at the other end.
pub mod Prelude
pub mod Go
pub mod Types
pub mod Log
pub mod Window
pub mod Nats
pub mod Config
pub mod Wiring
pub mod Decoder
pub mod Manager
pub mod Socket
pub mod NodeClient
pub mod Start
pub mod Program
pub mod Tests
