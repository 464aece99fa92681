-- ===== src/Redix.antt =====
-- Redis for the middleware requests: cmd/middleware/operator/middleware-request/handler_redis.go, and the
-- client of KVRocks (pkg/workload/kvrocks/helper.go). Closing a connection is left out.
pub mod Client
pub mod Request
