-- ===== src/Packet.antt =====
-- packet/: the address helper, the classify callbacks, the flow contexts and the injection handles.
pub mod Addr
pub mod Classify
pub mod Flow
pub mod Injection
