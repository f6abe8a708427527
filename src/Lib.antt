-- ===== src/Lib.antt =====
-- A model of the telemetry engine's own logic, in src/telemetry_engine, and of its tooling, and what
-- is proved of it.
--
-- Spans come in through Redpanda and ClickHouse. `emitters` generates the spans of a load and paces
-- them, `ingest` keeps the topics and samples the health of the pipeline, `storage` applies the schema
-- and backfills the rollup, `cardinality` decides which values may be keys of the rollup, `coldtier`
-- exports raw spans to Parquet files before ClickHouse drops them, and `experiments` waits for a quiet
-- pipeline and judges a run under load. Each is Python around calls of services. The model has the
-- Python as functions, and the services as parameters: records of what they answer. An exception is a
-- value, and a call that changes something returns the state it leaves, also when it raises (Base.Exec,
-- Base.Errors).
--
-- - Base: the names that the library shares, tests, lists, dicts, texts, errors, calls with a state,
--   and logs of requests (Base.Issues).
-- - Datetime: naive datetimes as microseconds since datetime.min.
-- - ColdTier.Window, ColdTier.Layout: src/telemetry_engine/coldtier/layout.py. The formats of the
--   standard library are a parameter (Calendar), with the documented laws in
--   ColdTier.Layout.Names.IsCalendar.
-- - ColdTier.Plan: `plan_windows` of src/telemetry_engine/coldtier/export.py. Its loop runs on fuel,
--   a unit for each microsecond up to the horizon and one more; each round moves on by one at least.
-- - ColdTier.Fingerprint, ColdTier.Batch, ColdTier.Export: `_fingerprints_agree`,
--   `_normalize_timestamps`, `_stream_window` and `export_window` of the same file. The lake is a
--   function from paths to contents, and the calls that make a directory, rename, remove or measure a
--   file do not fail. The summed duration is exact where the code has doubles.
-- - ColdTier.Run: `run_export` and the watermark, whose table is the list of the inserted rows.
-- - ColdTier.Health, ColdTier.Query: `ExportHealth` and `health` of that file, and
--   src/telemetry_engine/coldtier/query.py but for its SQL.
-- - Cardinality.Registry, Cardinality.Guard: src/telemetry_engine/cardinality, from the parsed
--   document on, and the rewriting of the rollup's keys in src/telemetry_engine/storage/rollups.py.
-- - Ingest.Specs, Ingest.Topics: src/telemetry_engine/ingest/topics.py, which logs its requests. What
--   a broker documents of a request that it grants is Ingest.Topics.Granting.IsGranting.
-- - Ingest.Lag: src/telemetry_engine/ingest/lag.py. Counters are natural numbers.
-- - Ingest.Latency: src/telemetry_engine/ingest/latency.py, with the condition of its query as a text.
-- - Storage.Migrations: src/telemetry_engine/storage/migrations.py. The text of a file is not read:
--   its statements and its checksum are fields.
-- - Storage.Rollups: the plan and the loop of src/telemetry_engine/storage/rollups.py. The loop runs
--   on fuel, a unit for each microsecond of the window; each round moves on by one at least.
-- - Experiments.Backpressure: the result and the checks of
--   src/telemetry_engine/experiments/backpressure.py, without the fields and texts that no check
--   reads. Times are whole milliseconds and quotients are compared exactly.
-- - Experiments.Quiesce: `wait_until_quiesced` of that file, by the rounds whose readings there are.
-- - Experiments.Sampling: the loops of the threads of `HealthSampler` and `EndpointProbe` of that file,
--   by their rounds.
-- - Experiments.Runner: `run_experiment` of that file against a parameter rig, with the log of what
--   it does to the endpoint and to the consumer, with how each turned out.
-- - Emitters.Spans, Emitters.Tenants, Emitters.Workload, Emitters.Pacing: the span data, the tenants,
--   the generator, and the rates of src/telemetry_engine/emitters/workload.py. `random.Random` is a
--   parameter (Random), with the documented ranges in Emitters.Workload.Traces.Shape.IsRandom. Doubles
--   are whole numbers of a small unit: picoseconds, millionths, and their products. The search of
--   `bisect_right` runs on fuel, a unit for each value; each round halves what is left.
-- - Emitters.Otlp: `emit_trace` of src/telemetry_engine/emitters/otlp.py, against the log of the calls
--   that the SDK's tracer receives.
-- - Emitters.Load: src/telemetry_engine/emitters/load.py, by the clock's readings. The inner loop runs
--   on fuel, a unit for each span of the allowance; a trace has a span at least. The integration has
--   a unit for each second and one more.
-- - Common.Readiness: `wait_for_http` of src/telemetry_engine/common/health.py and `wait_until_ready`
--   of src/telemetry_engine/storage/client.py, by their rounds.
-- - Cli.Rollup, Cli.Cold: `rollup-status`, `rollup-backfill` and `cold export` of
--   src/telemetry_engine/cli.py.
-- - Tools.Tasks: tasks.py, by the processes that its targets start.
-- - Tools.Guards: the audit of scripts/find_inert_guards.py, over what `ast` finds in the files.
--
-- Not modelled: the other commands, which parse arguments, call functions of the parts above and
-- print; the dashboards, the configuration, the logging and the other scripts, which are input and
-- output; the mock endpoint, a handler around the generator; the provider of the OpenTelemetry SDK;
-- the SQL that ClickHouse and DuckDB run; and the scheduling of the experiment's threads.
pub mod Base
pub mod Datetime
pub mod ColdTier
pub mod Cardinality
pub mod Ingest
pub mod Storage
pub mod Tools
pub mod Cli
pub mod Experiments
pub mod Emitters
pub mod Common
