-- ===== src/Experiments/Tests.antt =====
-- The theorems on src/telemetry_engine/experiments at concrete inputs.
use llm_telemetry_engine.Experiments.Sampling as Sampling
use llm_telemetry_engine.Experiments.Sampling.{run_sampler}
use llm_telemetry_engine.Experiments.Sampling.Counters.{run_sampler-no_counter_reset}
use llm_telemetry_engine.Base.{
  ℕ, ◌+◌, ◌≡◌, refl, arith, true, false, none, some, List, [], ◌∷◌, ok, err, timeout_error,
}
use llm_telemetry_engine.Experiments.Quiesce as Quiesce
use llm_telemetry_engine.Experiments.Quiesce.{wait_until_quiesced, quiesce_loop}
use llm_telemetry_engine.Experiments.Quiesce.Stretch.{HasStretch, wait_until_quiesced-HasStretch}
use llm_telemetry_engine.Experiments.Quiesce.Progress.{wait_until_quiesced-returns}
use llm_telemetry_engine.Ingest.Lag.{LagSnapshot, CollectorSnapshot}
use llm_telemetry_engine.Emitters.Load.{LoadResult}
use llm_telemetry_engine.Experiments.Runner.{
  popen, Rig, World, Settings, Waits, measure, run_experiment,
}
use llm_telemetry_engine.Experiments.Runner.Cleanup.{running, IsReleased, run_experiment-cleans}
use llm_telemetry_engine.Experiments.Backpressure.{
  Sample, ProbeResult, BackpressureResult, no_counter_reset, burst_window, recovery_seconds, origin,
  first_recovered,
}
use llm_telemetry_engine.Experiments.Backpressure.Validity.{IsRecovery, recovery_seconds-IsRecovery}

abbrev sample : ℕ → ℕ → ℕ → Sample
sample t lag n = record { t = t; total_lag = lag; accepted = n; sent = n; dropped = 0 }

abbrev probe : ℕ → ProbeResult
probe t = record { t = t; latency_ms = 20; ok = true }

abbrev ten : ℕ → List ProbeResult
ten t =
    probe t
    ∷ probe t
    ∷ probe t
    ∷ probe t
    ∷ probe t
    ∷ probe t
    ∷ probe t
    ∷ probe t
    ∷ probe t
    ∷ probe t
    ∷ []

abbrev measured : BackpressureResult
measured = record {
  baseline_s = 1000;
  burst_s = 1000;
  sample_interval_s = 100;
  generator_spans = 9800;
  generator_target_spans = 10000;
  samples = sample 500 10 0 ∷ sample 1500 6000 5000 ∷ sample 2500 100 9900 ∷ [];
  probes =
      probe 1
      ∷ probe 2
      ∷ probe 3
      ∷ probe 4
      ∷ probe 5
      ∷ probe 6
      ∷ probe 7
      ∷ probe 8
      ∷ probe 9
      ∷ probe 10
      ∷ ten 1500;
  endpoint_spans = 200;
  collector_accepted = 9900;
  collector_refused = 50;
  collector_sent = 9900;
  clickhouse_rows = 9900;
  rebalances_before = 1;
  rebalances_after_baseline = 1;
  stall_released_at = none;
  baseline_started_at = 0;
  baseline_ended_at = 1000;
  burst_started_at = 1000;
  burst_ended_at = 2000;
}

abbrev stalled : BackpressureResult
stalled = record measured { stall_released_at = some 2200 }

recovery_seconds-IsRecovery_example : IsRecovery stalled 300
unfolding recovery_seconds first_recovered origin burst_window
recovery_seconds-IsRecovery_example = recovery_seconds-IsRecovery stalled 300 refl

abbrev round : ℕ → ℕ → ℕ → Quiesce.Round
round started lag rebalances = record {
  started = started;
  lag = ok lag;
  rebalances = ok rebalances;
  measured = started + 100;
}

-- A backlog, and three quiet rounds, two seconds apart.
abbrev rounds : List Quiesce.Round
rounds = round 2000 900 4 ∷ round 4000 20 4 ∷ round 6000 10 4 ∷ round 8000 0 4 ∷ []

wait_until_quiesced-HasStretch_example : HasStretch (0 + 60000) 4000 rounds
unfolding wait_until_quiesced quiesce_loop
wait_until_quiesced-HasStretch_example =
    wait_until_quiesced-HasStretch 0 4000 60000 (ok 0) rounds refl

wait_until_quiesced-returns_example : wait_until_quiesced 0 2000 60000 (ok 0) rounds ≡ ok tt
wait_until_quiesced-returns_example =
    wait_until_quiesced-returns 0 2000 60000 4 (ok 0) (round 2000 900 4 ∷ []) (round 4000 20 4)
      (round 6000 10 4) (round 8000 0 4 ∷ []) ((omega arith, omega arith, 900, 4, refl, refl), tt)
      (omega arith, refl, 20, refl, omega arith) (omega arith, refl, 10, refl, omega arith)
      (omega arith)
      ([], round 8000 0 4, [], refl, tt, (omega arith, refl, 0, refl, omega arith), omega arith)

-- A stack whose collector has counted nothing, and an endpoint that does not end in time.
abbrev idle : CollectorSnapshot
idle = record {
  accepted_spans = 0;
  refused_spans = 0;
  sent_spans = 0;
  send_failed_spans = 0;
  enqueue_failed_spans = 0;
  queue_size = 0;
  queue_capacity = 0;
}

abbrev load : LoadResult
load = record {
  spans = 10;
  traces = 4;
  elapsed = 1000000;
  wall_elapsed = 1200000;
  target_spans = 10;
  workers = 1;
  per_worker_spans = 10 ∷ [];
}

abbrev rig : Rig (Unit {0})
rig = record {
  popen_endpoint = λ s. (ok tt, s);
  docker = λ c s. (ok true, s);
  terminate_endpoint = λ s. s;
  wait_endpoint = λ s. (false, s);
  kill_endpoint = λ s. s;
  clock = λ s. (5000, s);
  sleep = λ t s. s;
  rebalance_count = λ s. (ok 4, s);
  row_count = λ s. (ok 100, s);
  read_collector = λ s. (ok (some idle), s);
  start_threads = λ t s. s;
  stop_sampler = λ s. ([], s);
  stop_probe = λ s. ([], s);
  run_load = λ duration rate seed s. (ok load, s);
}

abbrev settings : Settings
settings = record {
  baseline = 45;
  burst = 45;
  recovery = 120;
  sustained_rate = 5000;
  burst_rate = 12000;
  seed = 20260828;
  settle = 25;
  stall_consumer = true;
}

abbrev waits : Waits
waits = record {
  deadline = 60000;
  health = (1000, ok 503) ∷ (2000, ok 200) ∷ [];
  now = 0;
  last_lag = ok 0;
  rounds = round 2000 900 4 ∷ round 4000 20 4 ∷ round 24000 10 4 ∷ [];
}

abbrev world : World (Unit {0})
world = record { state = tt; events = [] }

run_experiment-cleans_example :
    ((run_experiment rig settings waits world).0
      ≡ (measure rig settings waits (record { state = tt; events = popen ∷ [] })).0)
    × (running false (run_experiment rig settings waits world).1.events ≡ false)
    × IsReleased (run_experiment rig settings waits world).1.events
run_experiment-cleans_example =
    run_experiment-cleans rig settings waits world tt refl refl (λ t. (true, t, refl))

abbrev counted : ℕ → CollectorSnapshot
counted n = record {
  accepted_spans = n;
  refused_spans = 0;
  sent_spans = n;
  send_failed_spans = 0;
  enqueue_failed_spans = 0;
  queue_size = 0;
  queue_capacity = 0;
}

abbrev calm : LagSnapshot
calm = record { total_lag = 3; per_partition = []; high_watermarks = [] }

-- A scrape fails in the second round, and the lag is not read in the third.
abbrev sampled_rounds : List Sampling.Round
sampled_rounds =
    record { started = 0; lag = ok calm; collector = ok (some (counted 10)) }
    ∷ record { started = 1000; lag = ok calm; collector = ok none }
    ∷ record { started = 2000; lag = err timeout_error; collector = ok (some (counted 15)) }
    ∷ record { started = 3000; lag = ok calm; collector = ok (some (counted 20)) }
    ∷ []

run_sampler-no_counter_reset_example : no_counter_reset (run_sampler 0 sampled_rounds []) ≡ true
run_sampler-no_counter_reset_example = run_sampler-no_counter_reset 0 sampled_rounds (
  (
    (omega arith, omega arith, omega arith, omega arith),
    ((omega arith, omega arith, omega arith, omega arith), tt),
  ),
  (((omega arith, omega arith, omega arith, omega arith), tt), (tt, tt)),
)
