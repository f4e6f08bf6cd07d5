-- ===== src/Sync.antt =====
-- firmware/components/revlink_sync: the read-only synchronisation of the AccessPort's files.
pub mod Coordinator
pub mod Text
pub mod Loop
pub mod Manifest
pub mod History
