-- ===== src/Manager.antt =====
-- NodeMgr of core/node_mgr.go: the headers, pending transactions and signals that it keeps, the
-- trade that it publishes when a competitor's transaction shows up, and its two select loops.
pub mod Platform
pub mod Signals
pub mod Block
pub mod Trade
pub mod Rebuild
pub mod Loops
