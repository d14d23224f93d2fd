-- ===== src/Tests.antt =====
-- The theorems at concrete inputs, and runs of the code.
mod ConfigTests
mod CronTests
mod DaemonTests
mod EcosystemTests
mod LaunchTests
mod LogbusTests
mod MachineTests
mod OpsTests
mod ControlTests
mod ProcTests
mod StoreTests
mod SupervisorTests
