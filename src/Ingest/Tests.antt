-- ===== src/Ingest/Tests.antt =====
-- The theorems on src/telemetry_engine/ingest at concrete inputs.
mod Granting
use llm_telemetry_engine.Base.Text.{Text, codes}
use llm_telemetry_engine.Ingest.Latency.{
  Row, LatencyStats, measure, latency_sql, occurs, assert_drained, drained_lag_threshold,
}
use llm_telemetry_engine.Ingest.Latency.Drained.{measure-drained}
use llm_telemetry_engine.Base.{
  true, ◌⊎◌, ◌≢◌, ◌++◌, ◌≤◌, ℕ, ◌≡◌, refl, false, none, some, List, [], ◌∷◌, map, ok,
}
use llm_telemetry_engine.Ingest.Specs.{TopicSpec}
use llm_telemetry_engine.Ingest.Topics.{
  TopicMetadata, Admin, World, no_result, partition_counts, reconcile,
}
use llm_telemetry_engine.Ingest.Topics.Requests.{Issues, reconcile-requests}
use llm_telemetry_engine.Ingest.Topics.DryRun.{reconcile-settled}
use llm_telemetry_engine.Ingest.Lag.{Broker, LagSnapshot, read_lag, read_partitions}
use llm_telemetry_engine.Ingest.Lag.Bounds.{IsReading, read_lag-IsReading}

abbrev spans : TopicSpec
spans = record {
  name = "spans";
  partitions = 6;
  replication_factor = 1;
  config = ("retention.ms", "21600000") ∷ [];
}

-- A broker's state is its number of partitions of that topic; each request is granted.
abbrev listing : ℕ → List TopicMetadata
listing n = record { name = "spans"; partitions = n; error = false } ∷ []

abbrev admin : Admin ℕ
admin = record {
  list_topics = λ n. ok (listing n);
  describe_configs = λ n name. ok (("retention.ms", "21600000") ∷ []);
  request = λ r n. (ok tt, 6);
}

abbrev world : ℕ → World ℕ
world n = record { broker = n; issued = [] }

reconcile-requests_example :
    Issues (partition_counts (listing 3)) (world 3) (reconcile admin false (spans ∷ []) (world 3)).1
reconcile-requests_example = reconcile-requests admin false (spans ∷ []) (world 3) (listing 3) refl

-- Two partitions, one without a committed offset.
abbrev broker : Broker
broker = record {
  topic = ok (some (0 ∷ 1 ∷ []));
  committed = λ ps. ok ((0, some 40) ∷ (1, none) ∷ []);
  high_watermark = λ p. ok 100;
}

abbrev reading : LagSnapshot
reading = record {
  total_lag = 160;
  per_partition = (0, 60) ∷ (1, 100) ∷ [];
  high_watermarks = (0, 100) ∷ (1, 100) ∷ [];
}

abbrev answer : Row ℕ
answer = record { rows = 9; avg = some 4; p50 = some 3; p95 = some 8; p99 = some 9; max = some 9 }

abbrev measured : LatencyStats ℕ
measured = record { rows = 9; avg_s = 4; p50_s = 3; p95_s = 8; p99_s = 9; max_s = 9 }

measured_now : measure 0 (λ sql. ok (answer ∷ [])) (codes "ts > 0") 120 true ≡ ok measured
unfolding measure latency_sql occurs assert_drained drained_lag_threshold
measured_now = refl

measure-drained_example :
    ((true ≡ false) ⊎ (120 ≤ 500))
    × ((before after : Text) → codes "ts > 0" ≢ before ++ (codes "ingested_at" ++ after))
measure-drained_example =
    measure-drained 0 (λ sql. ok (answer ∷ [])) (codes "ts > 0") 120 true measured measured_now
