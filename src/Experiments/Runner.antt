-- ===== src/Experiments/Runner.antt =====
-- `run_experiment` of telemetry_engine/experiments/backpressure.py, up to the checks. What the stack, the
-- processes and the clock answer is a parameter. The counters of before and after are kept as they
-- are; their differences, which are negative where a counter was reset, are not taken.
pub mod Cleanup
pub mod Baseline
use llm_telemetry_engine.Base.{
  ℕ, ◌+◌, ◌-◌, leb, ◌==◌, not, Bool, true, false, if◌then◌else◌, Option, none, some, List, [], ◌∷◌,
  ◌++◌, Result, ok, err, raise_if, runtime_error, out_of_fuel,
}
use llm_telemetry_engine.Base.Exec.{Exec, ◌>>=◌, ◌>>◌, pure, lift}
use llm_telemetry_engine.Ingest.Lag.{CollectorSnapshot}
use llm_telemetry_engine.Emitters.Load.{LoadResult, achieved_rate}
use llm_telemetry_engine.Experiments.Backpressure.{Sample, ProbeResult}
use llm_telemetry_engine.Experiments.Quiesce.{Round, wait_until_quiesced}

-- The docker commands on the consumer.
pub data Command : Type 0 where
  pause unpause : Command

-- What is done to the endpoint and to the consumer, and how it turned out: `exited c true` is a
-- docker command that ended with 0, `waited true` an endpoint that ended within the time of the wait.
pub data Event : Type 0 where
  popen : Event
  exited : Command → Bool → Event
  terminate : Event
  waited : Bool → Event
  kill : Event

-- What is around the experiment, on its state. `docker` says whether the command ended with 0, or
-- raises where it cannot be run; `wait` says whether the endpoint ended in time.
pub record Rig (S : Type 0) : Type 0 where
  pub popen_endpoint : S → Result (Unit {0}) × S
  pub docker : Command → S → Result Bool × S
  pub terminate_endpoint : S → S
  pub wait_endpoint : S → Bool × S
  pub kill_endpoint : S → S
  pub clock : S → ℕ × S
  pub sleep : ℕ → S → S
  pub rebalance_count : S → Result ℕ × S
  pub row_count : S → Result ℕ × S
  pub read_collector : S → Result (Option CollectorSnapshot) × S
  pub start_threads : ℕ → S → S
  pub stop_sampler : S → List Sample × S
  pub stop_probe : S → List ProbeResult × S
  pub run_load : ℕ → ℕ → ℕ → S → Result LoadResult × S

-- The state, and the events so far.
pub record World (S : Type 0) : Type 0 where
  pub state : S
  pub events : List Event

pub record Settings : Type 0 where
  pub baseline : ℕ
  pub burst : ℕ
  pub recovery : ℕ
  pub sustained_rate : ℕ
  pub burst_rate : ℕ
  pub seed : ℕ
  pub settle : ℕ
  pub stall_consumer : Bool

-- The readings of the two waits: the endpoint's, and those of `wait_until_quiesced`.
pub record Waits : Type 0 where
  pub deadline : ℕ
  pub health : List (ℕ × Result ℕ)
  pub now : ℕ
  pub last_lag : Result ℕ
  pub rounds : List Round

-- `wait_until_quiesced(settings)`, with its defaults of 20 and 300 seconds
abbrev pub quiesced : Waits → Result (Unit {0})
quiesced w = wait_until_quiesced w.now 20000 300000 w.last_lag w.rounds

pub record Measured : Type 0 where
  pub rebalances_before : ℕ
  pub rebalances_after_baseline : ℕ
  pub rebalances_after : ℕ
  pub baseline_started_at : ℕ
  pub baseline_ended_at : ℕ
  pub burst_started_at : ℕ
  pub burst_ended_at : ℕ
  pub stall_released_at : Option ℕ
  pub generator_spans : ℕ
  pub generator_target_spans : ℕ
  pub generator_achieved_rate : ℕ
  pub samples : List Sample
  pub probes : List ProbeResult
  pub before : CollectorSnapshot
  pub after : CollectorSnapshot
  pub rows_before : ℕ
  pub rows_after : ℕ

-- `httpx.get(...).status_code == 200`; an exception is caught.
abbrev is_up : Result ℕ → Bool
is_up (ok code) = code == 200
is_up (err e) = false

-- The wait for the endpoint, by its rounds: the clock, and what the endpoint answers.
unfoldable pub await_ready : ℕ → List (ℕ × Result ℕ) → Result (Unit {0})
await_ready deadline [] = err out_of_fuel
await_ready deadline ((now, answer) ∷ rounds) =
    let rest = await_ready deadline rounds in
    if leb deadline now then err runtime_error else if is_up answer then ok tt else rest

abbrev reached : Option CollectorSnapshot → Result CollectorSnapshot
reached none = err runtime_error
reached (some c) = ok c

module _ {S : Type 0} (rig : Rig S) where
  abbrev ask : {A : Type 0} → (S → Result A × S) → Exec (World S) A
  ask f w = let (a, s) = f w.state in (a, record w { state = s })

  abbrev tell : {A : Type 0} → (S → A × S) → Exec (World S) A
  tell f w = let (a, s) = f w.state in (ok a, record w { state = s })

  abbrev step : (S → S) → Exec (World S) (Unit {0})
  step f w = (ok tt, record w { state = f w.state })

  abbrev log : Event → Exec (World S) (Unit {0})
  log e w = (ok tt, record w { events = w.events ++ (e ∷ []) })

  -- `subprocess.run([...], check=True)`
  unfoldable pub run_checked : Command → Exec (World S) (Unit {0})
  run_checked c = ask (rig.docker c) >>= λ ended.
      log (exited c ended) >> lift (raise_if (not ended) runtime_error)

  -- `subprocess.run([...], check=False)`
  unfoldable pub run_unchecked : Command → Exec (World S) (Unit {0})
  run_unchecked c = ask (rig.docker c) >>= λ ended. log (exited c ended)

  abbrev when : Bool → Exec (World S) (Unit {0}) → Exec (World S) (Unit {0})
  when false m = pure tt
  when true m = m

  -- The clock once the consumer is resumed, or none
  unfoldable pub release : Bool → ℕ → Exec (World S) (Option ℕ)
  release false t0 = pure none
  release true t0 = run_checked unpause >> (tell rig.clock >>= λ t. pure (some (t - t0)))

  -- The body of the `try`. The clock does not go back, so no time is before `t0`.
  unfoldable pub measure : Settings → Waits → Exec (World S) Measured
  measure settings waits = do
    lift (await_ready waits.deadline waits.health)
    lift (quiesced waits)
    rebalances_before ← ask rig.rebalance_count
    rows_before ← ask rig.row_count
    first ← ask rig.read_collector
    before ← lift (reached first)
    t0 ← tell rig.clock
    step (rig.start_threads t0)
    baseline_started_at ← tell rig.clock
    baseline ← ask (rig.run_load settings.baseline settings.sustained_rate settings.seed)
    baseline_ended_at ← tell rig.clock
    rebalances_after_baseline ← ask rig.rebalance_count
    when settings.stall_consumer (run_checked pause)
    burst_started_at ← tell rig.clock
    burst ← ask (rig.run_load settings.burst settings.burst_rate (settings.seed + 1))
    burst_ended_at ← tell rig.clock
    stall_released_at ← release settings.stall_consumer t0
    step (rig.sleep settings.recovery)
    samples ← tell rig.stop_sampler
    probes ← tell rig.stop_probe
    step (rig.sleep settings.settle)
    second ← ask rig.read_collector
    after ← lift (reached second)
    rows_after ← ask rig.row_count
    rebalances_after ← ask rig.rebalance_count
    pure (record {
      rebalances_before = rebalances_before;
      rebalances_after_baseline = rebalances_after_baseline;
      rebalances_after = rebalances_after;
      baseline_started_at = baseline_started_at - t0;
      baseline_ended_at = baseline_ended_at - t0;
      burst_started_at = burst_started_at - t0;
      burst_ended_at = burst_ended_at - t0;
      stall_released_at = stall_released_at;
      generator_spans = baseline.spans + burst.spans;
      generator_target_spans = baseline.target_spans + burst.target_spans;
      generator_achieved_rate = achieved_rate burst;
      samples = samples;
      probes = probes;
      before = before;
      after = after;
      rows_before = rows_before;
      rows_after = rows_after;
    })

  abbrev pub kill_unless : Bool → Exec (World S) (Unit {0})
  kill_unless true = pure tt
  kill_unless false = step rig.kill_endpoint >> log kill

  -- The `finally`
  unfoldable pub cleanup : Bool → Exec (World S) (Unit {0})
  cleanup stall_consumer =
      when stall_consumer (run_unchecked unpause)
      >> (step rig.terminate_endpoint
          >> (log terminate
              >> (tell rig.wait_endpoint >>= λ ended. log (waited ended) >> kill_unless ended)))

  -- `run_experiment` without its checks: the cleanup runs whatever the body did, and where it raises,
  -- that is what is raised.
  unfoldable pub run_experiment : Settings → Waits → Exec (World S) Measured
  run_experiment settings waits =
      ask rig.popen_endpoint
      >> (log popen >> λ w.
          let (result, w') = measure settings waits w in
          (cleanup settings.stall_consumer >> lift result) w')
