-- ===== src/Common.antt =====
-- src/telemetry_engine/common and the connection of src/telemetry_engine/storage: the waits for a service.
pub mod Readiness
