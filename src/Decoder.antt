-- ===== src/Decoder.antt =====
-- The decoders of core/node_mgr.go, which turn a pending transaction into the symbols that it may
-- move. Router decodes the call of a known router; CallClient traces the transaction on a node.
pub mod Calls
pub mod Router
pub mod CallClient
