-- ===== src/Stresstally.antt =====
-- tools/stresstally: the tool around the stress runs on the cluster.
pub mod Guard
pub mod Judge
pub mod Parse
pub mod Cases
