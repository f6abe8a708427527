-- ===== src/Storage.antt =====
-- src/telemetry_engine/storage: the schema migrations, and the backfill of the rollup.
pub mod Migrations
pub mod Rollups
mod Tests
