-- ===== src/Supervisor.antt =====
-- internal/supervisor/supervisor.go: the registry of applications over the machine's actors.
pub mod Registry
pub mod Commands
pub mod Reload
pub mod Gate
pub mod Rolling
pub mod Starting
pub mod Naming
pub mod Listing
pub mod Placing
