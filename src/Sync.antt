-- ===== src/Sync.antt =====
-- manager/sync/: the loops that send what is pending to the charge stations.
pub mod Triggers
pub mod Settings
pub mod Examples
