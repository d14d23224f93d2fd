-- ===== src/Daemon.antt =====
-- internal/daemon: the parts of the daemon that are modelled.
pub mod DropLog
pub mod Redact
pub mod Convert
pub mod Select
pub mod Expand
pub mod Control
pub mod Scale
pub mod Resurrect
