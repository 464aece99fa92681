-- ===== src/Backup.antt =====
-- Backups and restores of PostgreSQL and KVRocks: the controllers of cmd/middleware/operator
-- (pgcluster-backup, pgcluster-restore, kvrocks-bakcup, kvrocks-restore) and the functions of
-- pkg/workload that wait for them.
pub mod Types
pub mod Trace
pub mod Retry
pub mod Tasks
pub mod Watcher
mod Tests
pub mod Services
pub mod Status
pub mod Pg
pub mod PgBackup
pub mod PgRestore
pub mod KvRocks
