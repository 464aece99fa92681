-- ===== src/Nats.antt =====
-- The NATS workload, pkg/workload/nats: the users of the server's configuration file, their subject
-- permissions, and the names of subjects.
pub mod Types
pub mod Names
pub mod Users
pub mod Access
mod Tests
