-- ===== src/Machine.antt =====
-- internal/machine/machine.go: the supervision state machine of one application.
pub mod State
pub mod Policy
pub mod Env
pub mod Signals
pub mod Handlers
pub mod Build
pub mod Exit
pub mod Actor
pub mod Snapshot
