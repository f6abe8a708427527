-- ===== src/Experiments/Runner/Baseline.antt =====
-- On what pipeline `run_experiment` of telemetry_engine/experiments/backpressure.py measures.
