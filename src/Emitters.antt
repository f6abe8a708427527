-- ===== src/Emitters.antt =====
-- src/telemetry_engine/emitters: the workload generator, its pacing, the emission of its spans, and
-- the load driver.
pub mod Spans
pub mod Otlp
pub mod Pacing
pub mod Tenants
pub mod Workload
pub mod Load
mod Tests
