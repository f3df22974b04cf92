-- ===== src/Rules.antt =====
-- rules/: rule types, matching, validation, verdict order, rate limiting, evaluation and the store.
pub mod Types
pub mod Hash
pub mod Match
pub mod Order
pub mod Rate
pub mod Snapshot
pub mod Engine
pub mod Validate
pub mod Store
