-- ===== src/Corefile.antt =====
-- The configuration of CoreDNS, cmd/sys-event/watchers/corefile.go: the template plugins that answer
-- for the zones of the users, their addresses, and the file that is written from the cluster.
pub mod Types
pub mod Address
pub mod Templates
pub mod Zones
pub mod Regenerate
mod Tests
