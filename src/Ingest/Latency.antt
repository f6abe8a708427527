-- ===== src/Ingest/Latency.antt =====
-- telemetry_engine/ingest/latency.py. ClickHouse is a parameter; a latency is its answer's number, which
-- the model does not read.
pub mod Drained
use llm_telemetry_engine.Base.{
  ℕ, Bool, true, false, ◌||◌, Option, none, some, List, [], ◌∷◌, ltb, is_empty, if◌then◌else◌,
  Result, ok, err, value_error, runtime_error, index_error, ◌>>=◌, ◌>>◌, raise_if,
}
use llm_telemetry_engine.Base.Text.{Text, codes, strip_prefix}

unfoldable pub drained_lag_threshold : ℕ
drained_lag_threshold = 500

-- A row of the answer: the count and the five quantities, NULL where nothing was counted.
pub record Row (V : Type 0) : Type 0 where
  pub rows : ℕ
  pub avg : Option V
  pub p50 : Option V
  pub p95 : Option V
  pub p99 : Option V
  pub max : Option V

pub record LatencyStats (V : Type 0) : Type 0 where
  pub rows : ℕ
  pub avg_s : V
  pub p50_s : V
  pub p95_s : V
  pub p99_s : V
  pub max_s : V

abbrev pub is_some : {A : Type 0} → Option A → Bool
is_some none = false
is_some (some a) = true

-- `part in text`
unfoldable pub occurs : Text → Text → Bool
occurs part [] = is_empty part
occurs part (c ∷ text) = is_some (strip_prefix part (c ∷ text)) || occurs part text

-- The query, by the condition that it has; its columns are the same in each.
unfoldable pub latency_sql : Text → Result Text
unfolding occurs
latency_sql since_expr = do
  raise_if (occurs (codes "ingested_at") since_expr) value_error
  ok since_expr

-- `BacklogNotDrainedError` is a `RuntimeError`.
unfoldable pub assert_drained : ℕ → Result (Unit {0})
unfolding drained_lag_threshold
assert_drained total_lag = raise_if (ltb drained_lag_threshold total_lag) runtime_error

module _ {V : Type 0} (zero_s : V) (query : Text → Result (List (Row V))) where
  -- `float(x or 0.0)`
  abbrev or_zero : Option V → V
  or_zero none = zero_s
  or_zero (some v) = v

  -- `conn.query(...).result_rows[0]`
  abbrev first_row : List (Row V) → Result (Row V)
  first_row [] = err index_error
  first_row (row ∷ rows) = ok row

  unfoldable pub measure : Text → ℕ → Bool → Result (LatencyStats V)
  unfolding latency_sql assert_drained
  measure since_expr total_lag require_drained = do
    if require_drained then assert_drained total_lag else ok tt
    sql ← latency_sql since_expr
    rows ← query sql
    row ← first_row rows
    ok (record {
      rows = row.rows;
      avg_s = or_zero row.avg;
      p50_s = or_zero row.p50;
      p95_s = or_zero row.p95;
      p99_s = or_zero row.p99;
      max_s = or_zero row.max;
    })
