-- ===== src/Control.antt =====
-- control/: the requests of the control device.
pub mod Wire
pub mod Commands
pub mod Dispatch
pub mod Device
pub mod Consumer
