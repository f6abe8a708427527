-- ===== src/Experiments/Sampling.antt =====
-- The loops of `HealthSampler` and `EndpointProbe` of telemetry_engine/experiments/backpressure.py, by
-- their rounds. Readings of the clock are whole milliseconds.
pub mod Counters
use llm_telemetry_engine.Base.{
  ℕ, ◌-◌, ◌==◌, Bool, true, false, Option, none, some, List, [], ◌∷◌, ◌++◌, Result, ok, err,
  if◌then◌else◌,
}
use llm_telemetry_engine.Ingest.Lag.{LagSnapshot, CollectorSnapshot, dropped_spans}
use llm_telemetry_engine.Experiments.Backpressure.{Sample, ProbeResult}

-- A round of the sampler: when it started, what `read_lag` came to, and then `read_collector`, `none`
-- for a scrape that failed.
pub record Round : Type 0 where
  pub started : ℕ
  pub lag : Result LagSnapshot
  pub collector : Result (Option CollectorSnapshot)

-- A request of the probe: when it started; the status and when it was there, or the exception; whether
-- the body of a good response was read; and when an exception, if there was one, was caught.
pub record Request : Type 0 where
  pub started : ℕ
  pub response : Result (ℕ × ℕ)
  pub body : Result (Unit {0})
  pub caught_at : ℕ

module _ (t0 : ℕ) where
  -- The sample of a round, if it takes one.
  unfoldable pub taken : ℕ → Result LagSnapshot → Result (Option CollectorSnapshot) → List Sample
  taken started (err e) collector = []
  taken started (ok lag) (err e) = []
  taken started (ok lag) (ok none) = []
  taken started (ok lag) (ok (some c)) =
      (record {
        t = started - t0;
        total_lag = lag.total_lag;
        accepted = c.accepted_spans;
        sent = c.sent_spans;
        dropped = dropped_spans c;
      })
      ∷ []

  -- `HealthSampler._run`, for the rounds until the stop is set
  unfoldable pub run_sampler : List Round → List Sample → List Sample
  unfolding taken
  run_sampler [] samples = samples
  run_sampler (r ∷ rounds) samples =
      run_sampler rounds (samples ++ taken r.started r.lag r.collector)

  unfoldable pub failed : ℕ → ℕ → ProbeResult
  failed started caught_at = record {
    t = started - t0;
    latency_ms = caught_at - started;
    ok = false;
  }

  unfoldable pub probed : ℕ → Result (ℕ × ℕ) → Result (Unit {0}) → ℕ → ProbeResult
  unfolding failed
  probed started (err e) body caught_at = failed started caught_at
  probed started (ok (status, at)) body caught_at =
      if status == 200
      then (elim body [
        | ok u ↦ record { t = started - t0; latency_ms = at - started; ok = true }
        | err e ↦ failed started caught_at
      ])
      else record { t = started - t0; latency_ms = at - started; ok = false }

  -- `EndpointProbe._run`, for the requests until the stop is set
  unfoldable pub run_probe : List Request → List ProbeResult → List ProbeResult
  unfolding probed
  run_probe [] results = results
  run_probe (q ∷ requests) results =
      run_probe requests (results ++ (probed q.started q.response q.body q.caught_at ∷ []))
