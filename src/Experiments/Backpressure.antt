-- ===== src/Experiments/Backpressure.antt =====
-- The result of telemetry_engine/experiments/backpressure.py and its validity checks. A time is a
-- whole number of milliseconds, and a quotient is compared by products, exactly, where the code
-- compares doubles. The texts of the checks are left out, and so are the fields that neither a check
-- nor a modelled number reads.
pub mod Validity
use mathlib.Core.List.{foldl}
use llm_telemetry_engine.Base.{
  ℕ, ◌+◌, ◌-◌, ◌*◌, ◌/◌, max, min, zero, suc, ◌==◌, ltb, leb, Bool, true, false, not, ◌&&◌, ◌||◌,
  Option, none, some, List, [], ◌∷◌, ◌++◌, map, all, length, String, if◌then◌else◌, get, is_empty,
}

pub record Check : Type 0 where
  pub name : String
  pub passed : Bool

pub record Sample : Type 0 where
  pub t : ℕ
  pub total_lag : ℕ
  pub accepted : ℕ
  pub sent : ℕ
  pub dropped : ℕ

pub record ProbeResult : Type 0 where
  pub t : ℕ
  pub latency_ms : ℕ
  pub ok : Bool

pub record BackpressureResult : Type 0 where
  pub baseline_s : ℕ
  pub burst_s : ℕ
  pub sample_interval_s : ℕ
  pub generator_spans : ℕ
  pub generator_target_spans : ℕ
  pub samples : List Sample
  pub probes : List ProbeResult
  pub endpoint_spans : ℕ
  pub collector_accepted : ℕ
  pub collector_refused : ℕ
  pub collector_sent : ℕ
  pub clickhouse_rows : ℕ
  pub rebalances_before : ℕ
  pub rebalances_after_baseline : ℕ
  pub stall_released_at : Option ℕ
  pub baseline_started_at : ℕ
  pub baseline_ended_at : ℕ
  pub burst_started_at : ℕ
  pub burst_ended_at : ℕ

-- `RECOVERED_LAG`
abbrev pub recovered_lag : ℕ
recovered_lag = 500

-- `BackpressureResult.peak_lag`
unfoldable pub peak_lag : BackpressureResult → ℕ
peak_lag r = foldl max 0 (map (λ (s : Sample). s.total_lag) r.samples)

unfoldable pub emitted_total : BackpressureResult → ℕ
emitted_total r = r.generator_spans + r.endpoint_spans

-- Subtraction here stops at 0, as `max(0, ...)` does.
unfoldable pub sdk_lost : BackpressureResult → ℕ
unfolding emitted_total
sdk_lost r = emitted_total r - r.collector_accepted - r.collector_refused

unfoldable pub unaccounted : BackpressureResult → ℕ
unaccounted r = r.collector_sent - r.clickhouse_rows

unfoldable pub burst_window : BackpressureResult → ℕ × ℕ
burst_window r =
    if ltb r.burst_started_at r.burst_ended_at
    then (r.burst_started_at, r.burst_ended_at)
    else (r.baseline_s, r.baseline_s + r.burst_s)

unfoldable pub baseline_window : BackpressureResult → ℕ × ℕ
baseline_window r =
    if ltb r.baseline_started_at r.baseline_ended_at
    then (r.baseline_started_at, r.baseline_ended_at)
    else (0, r.baseline_s)

-- The loop of `recovery_seconds`.
unfoldable pub first_recovered : ℕ → List Sample → Option ℕ
first_recovered origin [] = none
first_recovered origin (s ∷ ss) =
    if leb origin s.t && leb s.total_lag recovered_lag
    then some (s.t - origin)
    else first_recovered origin ss

-- `max(burst_end, self.stall_released_at or 0.0)`
unfoldable pub origin : BackpressureResult → ℕ
unfolding burst_window
origin r = max (burst_window r).1 (get r.stall_released_at 0)

unfoldable pub recovery_seconds : BackpressureResult → Option ℕ
unfolding origin first_recovered
recovery_seconds r = first_recovered (origin r) r.samples

abbrev pub insert : ℕ → List ℕ → List ℕ
insert x [] = x ∷ []
insert x (y ∷ ys) = if leb x y then x ∷ y ∷ ys else y ∷ insert x ys

-- `sorted`
abbrev pub sort : List ℕ → List ℕ
sort [] = []
sort (x ∷ xs) = insert x (sort xs)

-- The latencies of the probes that succeeded in the window.
unfoldable pub latencies : ℕ → ℕ → List ProbeResult → List ℕ
latencies start end [] = []
latencies start end (p ∷ ps) =
    let rest = latencies start end ps in
    if leb start p.t && ltb p.t end && p.ok then p.latency_ms ∷ rest else rest

-- `values[i]`, with 0 out of range
abbrev pub at : List ℕ → ℕ → ℕ
at [] i = 0
at (x ∷ xs) zero = x
at (x ∷ xs) (suc i) = at xs i

pub record Latency : Type 0 where
  pub n : ℕ
  pub p50 : ℕ
  pub p95 : ℕ
  pub p99 : ℕ
  pub max_ms : ℕ

abbrev percentiles : List ℕ → Latency
percentiles [] = record { n = 0; p50 = 0; p95 = 0; p99 = 0; max_ms = 0 }
percentiles (x ∷ xs) =
    let n = length (x ∷ xs) in
    record {
      n = n;
      p50 = at (x ∷ xs) (n / 2);
      p95 = at (x ∷ xs) (min (n - 1) (n * 95 / 100));
      p99 = at (x ∷ xs) (min (n - 1) (n * 99 / 100));
      max_ms = at (x ∷ xs) (n - 1);
    }

unfoldable pub probe_latency : BackpressureResult → ℕ × ℕ → Latency
unfolding latencies
probe_latency r (start, end) = percentiles (sort (latencies start end r.probes))

abbrev pub decreases : Sample → Sample → Bool
decreases a b = ltb b.accepted a.accepted || ltb b.sent a.sent || ltb b.dropped a.dropped

-- Whether no pair of neighbours decreases.
unfoldable pub no_counter_reset : List Sample → Bool
no_counter_reset [] = true
no_counter_reset (a ∷ []) = true
no_counter_reset (a ∷ b ∷ ss) = not (decreases a b) && no_counter_reset (b ∷ ss)

-- `a / b >= x / y`, where a quotient by 0 is 0
abbrev pub at_least : ℕ → ℕ → ℕ → ℕ → Bool
at_least a b x y = not (b == 0) && leb (b * x) (a * y)

-- `a / b <= x / y`, where a quotient by 0 is 0
abbrev pub at_most : ℕ → ℕ → ℕ → ℕ → Bool
at_most a b x y = b == 0 || leb (a * y) (b * x)

unfoldable pub validate : BackpressureResult → List Check
unfolding emitted_total no_counter_reset peak_lag unaccounted probe_latency baseline_window
    burst_window
validate r =
    record {
      name = "generator_hit_target";
      passed = at_least r.generator_spans r.generator_target_spans 90 100;
    }
    ∷ record {
      name = "load_actually_delivered";
      passed = at_least (r.collector_accepted + r.collector_refused) (emitted_total r) 95 100;
    }
    ∷ record { name = "no_counter_reset"; passed = no_counter_reset r.samples }
    ∷ record { name = "sampling_resolution"; passed = leb (r.sample_interval_s * 4) r.burst_s }
    ∷ record { name = "burst_actually_stressed"; passed = leb 5_000 (peak_lag r) }
    ∷ record { name = "spans_accounted"; passed = at_most (unaccounted r) (emitted_total r) 2 100 }
    ∷ record {
      name = "endpoint_probed_under_load";
      passed =
          leb 10 (probe_latency r (baseline_window r)).n
          && leb 10 (probe_latency r (burst_window r)).n;
    }
    ∷ record {
      name = "lag_reader_is_noninvasive";
      passed = r.rebalances_after_baseline == r.rebalances_before;
    }
    ∷ []

-- `all(c.passed for c in self.checks)`
unfoldable pub valid : List Check → Bool
valid checks = all (λ (c : Check). c.passed) checks
