-- ===== src/Cardinality.antt =====
-- src/telemetry_engine/cardinality: which values may become a rollup key, and how many.
pub mod Registry
pub mod Guard
pub mod Bound
pub mod Sync
pub mod FirstSync
mod Tests
