-- ===== src/Postgres.antt =====
-- PostgreSQL for the middleware requests: the client of a node (pkg/postgres/client.go), and what the operator
-- does for a request (cmd/middleware/operator/middleware-request/handler_pg.go).
pub mod Client
pub mod Request
