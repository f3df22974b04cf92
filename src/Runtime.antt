-- ===== src/Runtime.antt =====
-- runtime/: the driver's state machine, its block reasons and the rundown counters.
pub mod State
pub mod Rundown
pub mod Objects
pub mod Injection
pub mod Lifecycle
