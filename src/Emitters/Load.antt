-- ===== src/Emitters/Load.antt =====
-- telemetry_engine/emitters/load.py. The clock's readings are a list, in microseconds, one for each
-- round of the loop; a target is a number of millionths of millionths of a span. Worker processes are a
-- parameter: what the queue gives for each.
pub mod Paced
pub mod Workers
use mathlib.Core.List.{foldl}
use llm_telemetry_engine.Base.{
  ℕ, zero, suc, ◌+◌, ◌-◌, ◌*◌, ◌/◌, min, max, ltb, leb, ◌==◌, if◌then◌else◌, Bool, true, false,
  Option, none, some, List, [], ◌∷◌, ◌++◌, map, sum, Result, ok, err, Error, out_of_fuel,
  timeout_error,
}
use llm_telemetry_engine.Base as Base
use llm_telemetry_engine.Base.Exec.{Exec, next, ◌>>=◌, pure, lift}
use llm_telemetry_engine.Emitters.Pacing.{
  LoadProfile, target_rate, RateLimiter, new_limiter, acquire, whole_span, million,
}

-- `LoadResult`
pub record LoadResult : Type 0 where
  pub spans : ℕ
  pub traces : ℕ
  pub elapsed : ℕ
  pub wall_elapsed : ℕ
  pub target_spans : ℕ
  pub workers : ℕ
  pub per_worker_spans : List ℕ

-- Spans per million seconds, or 0
unfoldable pub achieved_rate : LoadResult → ℕ
achieved_rate r = if ltb 0 r.elapsed then r.spans * (million * million) / r.elapsed else 0

unfoldable pub load_target_rate : LoadResult → ℕ
load_target_rate r = if ltb 0 r.elapsed then r.target_spans * (million * million) / r.elapsed else 0

unfoldable pub flush_time : LoadResult → ℕ
flush_time r = r.wall_elapsed - r.elapsed

-- In millionths of a percent: a shortfall is 0 where the target is met.
unfoldable pub shortfall_pct : LoadResult → ℕ
shortfall_pct r =
    if r.target_spans == 0 then 0 else (r.target_spans - r.spans) * (100 * million) / r.target_spans

-- The readings of one round: the time since the start, and what the limiter's clock says.
pub record Reading : Type 0 where
  pub elapsed : ℕ
  pub now : ℕ

pub record Totals : Type 0 where
  pub spans : ℕ
  pub traces : ℕ

-- `_integrate_target`, of a share `1 / workers`: the rounds on fuel, a unit for each second and one
-- more.
unfoldable pub integrate_loop : ℕ → LoadProfile → ℕ → ℕ → ℕ → ℕ → Result ℕ
integrate_loop zero p workers elapsed t total = if ltb t elapsed then err out_of_fuel else ok total
integrate_loop (suc fuel) p workers elapsed t total =
    if ltb t elapsed
    then Base.◌>>=◌ (target_rate p t) (λ rate.
      integrate_loop fuel p workers elapsed (t + million)
        (total + rate / workers * min million (elapsed - t)))
    else ok total

unfoldable pub integrate_target : LoadProfile → ℕ → ℕ → Result ℕ
unfolding integrate_loop
integrate_target p elapsed workers = integrate_loop (suc (elapsed / million)) p workers elapsed 0 0

-- `produce` generates a trace and emits it, and returns its number of spans.
module _ {W : Type 0} (produce : Exec W ℕ) where
  -- The inner loop: traces until the allowance is used, on fuel.
  unfoldable pub emit_batch : ℕ → ℕ → ℕ → ℕ → Exec W (ℕ × ℕ)
  emit_batch zero allowance emitted traces =
      if ltb emitted allowance then lift (err out_of_fuel) else pure (emitted, traces)
  emit_batch (suc fuel) allowance emitted traces =
      if ltb emitted allowance
      then (produce >>= λ n. emit_batch fuel allowance (emitted + n) (suc traces))
      else pure (emitted, traces)

  -- The part of a round behind the allowance. A trace has a span at least, so the allowance is fuel.
  unfoldable pub spend : Totals → ℕ → Exec W Totals
  unfolding emit_batch
  spend totals allowance =
      if leb allowance 0
      then pure totals
      else (emit_batch allowance allowance 0 totals.traces >>= λ r.
          pure (record { spans = totals.spans + r.0; traces = r.1 }))

  module _ (p : LoadProfile) (workers duration : ℕ) where
    -- The loop of `_run_worker`, by the rounds whose readings there are.
    unfoldable pub run_rounds : List Reading → RateLimiter → Totals → Exec W Totals
    unfolding spend
    run_rounds [] limiter totals = lift (err out_of_fuel)
    run_rounds (r ∷ rs) limiter totals =
        if leb duration r.elapsed
        then pure totals
        else (lift (target_rate p r.elapsed) >>= λ rate.
            let (allowance, limiter') = acquire limiter r.now (rate / workers) in
            (spend totals allowance >>= λ totals'. run_rounds rs limiter' totals'))

    -- `_run_worker`, with the clock's reading at the end: whatever happened, the provider is shut down.
    unfoldable pub run_worker : (W → W) → List Reading → ℕ → ℕ → Exec W (ℕ × ℕ × ℕ × ℕ)
    unfolding run_rounds integrate_target
    run_worker shutdown readings first finish w =
        let run : Exec W (ℕ × ℕ × ℕ × ℕ) =
          (run_rounds readings (new_limiter first) (record { spans = 0; traces = 0 }) >>= λ totals.
          (lift (integrate_target p finish workers) >>= λ target.
          pure (totals.spans, totals.traces, target / whole_span, finish))) in
        let (result, w') = run w in (result, shutdown w')
