-- ===== src/Operations.antt =====
-- internal/pbr/operations.go and internal/pbr/install.go: what an operator runs beside the daemon.
pub mod Machine
pub mod Cleanup
pub mod Install
pub mod Uninstall
pub mod Doctor
pub mod Generate
pub mod Generated
pub mod Smoke
pub mod Waiting
pub mod Kept
pub mod Undone
pub mod Removing
pub mod Routed
pub mod Tested
pub mod CleanupOrder
