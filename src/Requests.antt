-- ===== src/Requests.antt =====
-- The operator's middleware requests, cmd/middleware/operator/middleware-request: what is called for
-- a request (handler.go), and how the worker goes on after an error (controller.go).
pub mod Password
pub mod Facts
pub mod Missing
pub mod Dispatch
pub mod Worker
mod Tests
