-- ===== src/Telemetry.antt =====
-- JSONLWriter of metrics.go.
pub mod Rows
pub mod Writer
