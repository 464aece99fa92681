-- ===== src/Ws.antt =====
-- The WebSocket gateway, pkg/ws and cmd/websocket: the connection table, the message queues with
-- their routines, the filters that choose connections, and the HTTP handlers of an application.
pub mod Types
pub mod Filter
pub mod Server
pub mod Select
pub mod Table
pub mod Close
pub mod Deliver
pub mod Loop
pub mod Session
pub mod Gateway
mod Tests
