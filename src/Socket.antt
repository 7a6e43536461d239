-- ===== src/Socket.antt =====
-- core/websocket.go: a websocket connection with a write queue, which connects again on errors.
-- Durations are nanoseconds that are not negative, and below 2^63 in all products.
pub mod Config
pub mod Conn
pub mod Dial
pub mod Reconnect
pub mod Close
pub mod Receive
pub mod Write
pub mod Shut
