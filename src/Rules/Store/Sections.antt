-- ===== src/Rules/Store/Sections.antt =====
-- Each section under `g_PublishLock` keeps the invariant of the heap, and touches no freed snapshot.
pub mod Readers
pub mod Drain
pub mod Swap
pub mod Publish
pub mod Back
