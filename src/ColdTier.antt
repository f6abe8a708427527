-- ===== src/ColdTier.antt =====
-- src/telemetry_engine/coldtier: the Parquet cold tier.
pub mod Window
pub mod Layout
pub mod Fingerprint
pub mod Batch
pub mod Export
pub mod Run
pub mod Plan
pub mod Query
pub mod Health
mod Tests
