-- ===== src/Telemetry.antt =====
-- telemetry/: the event queue.
pub mod Queue
pub mod Ring
