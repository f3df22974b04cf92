-- ===== src/Tests.antt =====
-- Concrete inputs: runs of the definitions, and the theorems applied to them.
pub mod Data
pub mod Rules
pub mod Store
pub mod Runtime
pub mod Telemetry
pub mod Control
pub mod Consumer
pub mod Wfp
pub mod Lifecycle
pub mod Packet
