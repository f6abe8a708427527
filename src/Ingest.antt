-- ===== src/Ingest.antt =====
-- src/telemetry_engine/ingest: the broker's topics, and the samples of the pipeline's health.
pub mod Specs
pub mod Topics
pub mod Lag
pub mod Latency
mod Tests
