-- ===== src/Experiments.antt =====
-- src/telemetry_engine/experiments: the wait for a quiet pipeline, the run of the backpressure
-- experiment, and what it concludes of its measurements.
pub mod Backpressure
pub mod Sampling
pub mod Quiesce
pub mod Runner
mod Tests
