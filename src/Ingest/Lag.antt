-- ===== src/Ingest/Lag.antt =====
-- telemetry_engine/ingest/lag.py. Kafka's answers, the collector's page and the insert into
-- `pipeline_health` are parameters; a counter's value is a natural number.
pub mod Bounds
use mathlib.Core.List.{foldl}
use llm_telemetry_engine.Base.{
  ℕ, ◌+◌, ◌-◌, max, ◌==◌, Bool, true, false, not, ◌&&◌, Option, none, some, List, [], ◌∷◌, ◌++◌,
  map, sum, length, String, if◌then◌else◌, Error, Result, ok, err, Dict, lookup, get, map_ok,
}
use llm_telemetry_engine.Base
use llm_telemetry_engine.Base.Text.{Text, codes, strip_prefix}
use llm_telemetry_engine.Base.Exec.{Exec, next, pure, lift, run, ◌>>=◌, ◌>>◌}

-- A dict by the partition.
abbrev pub Partitions : Type 0
Partitions = List (ℕ × ℕ)

-- `d[partition] = value`
abbrev pub set_partition : Partitions → ℕ → ℕ → Partitions
set_partition [] p v = (p, v) ∷ []
set_partition ((q, u) ∷ d) p v = if q == p then (p, v) ∷ d else (q, u) ∷ set_partition d p v

abbrev pub numbers : Partitions → List ℕ
numbers d = map (λ (e : ℕ × ℕ). e.1) d

pub record LagSnapshot : Type 0 where
  pub total_lag : ℕ
  pub per_partition : Partitions
  pub high_watermarks : Partitions

abbrev pub no_lag : LagSnapshot
no_lag = record { total_lag = 0; per_partition = []; high_watermarks = [] }

-- `LagSnapshot.max_partition_lag`
unfoldable pub max_partition_lag : LagSnapshot → ℕ
max_partition_lag s = foldl max 0 (numbers s.per_partition)

-- `LagSnapshot.partitions`
unfoldable pub partitions : LagSnapshot → ℕ
partitions s = length s.per_partition

pub record CollectorSnapshot : Type 0 where
  pub accepted_spans : ℕ
  pub refused_spans : ℕ
  pub sent_spans : ℕ
  pub send_failed_spans : ℕ
  pub enqueue_failed_spans : ℕ
  pub queue_size : ℕ
  pub queue_capacity : ℕ

abbrev pub no_counters : CollectorSnapshot
no_counters = record {
  accepted_spans = 0;
  refused_spans = 0;
  sent_spans = 0;
  send_failed_spans = 0;
  enqueue_failed_spans = 0;
  queue_size = 0;
  queue_capacity = 0;
}

-- `CollectorSnapshot.dropped_spans`
unfoldable pub dropped_spans : CollectorSnapshot → ℕ
dropped_spans s = s.send_failed_spans + s.enqueue_failed_spans

-- A partition with its committed offset, `none` for the negative one that says there is none.
abbrev pub Committed : Type 0
Committed = ℕ × Option ℕ

-- What Kafka answers: the partitions of the topic, `none` where it is missing or in error, the
-- committed offsets of the group for those, and the high watermark of a partition.
pub record Broker : Type 0 where
  pub topic : Result (Option (List ℕ))
  pub committed : List ℕ → Result (List Committed)
  pub high_watermark : ℕ → Result ℕ

-- `tp.offset if tp.offset >= 0 else 0`
abbrev pub position : Option ℕ → ℕ
position none = 0
position (some offset) = offset

abbrev pub add_partition : Committed → LagSnapshot → ℕ → LagSnapshot
add_partition tp s high = record s {
  per_partition = set_partition s.per_partition tp.0 (high - position tp.1);
  high_watermarks = set_partition s.high_watermarks tp.0 high;
}

-- The loop over the committed offsets.
unfoldable pub read_partitions : Broker → List Committed → LagSnapshot → Result LagSnapshot
read_partitions broker [] s = ok s
read_partitions broker (tp ∷ tps) s =
    Base.◌>>=◌ (broker.high_watermark tp.0)
      (λ high. read_partitions broker tps (add_partition tp s high))

abbrev pub with_total : LagSnapshot → LagSnapshot
with_total s = record s { total_lag = sum (numbers s.per_partition) }

-- `if topic is None or topic.error: return snapshot`
abbrev pub read_topic : Broker → Option (List ℕ) → Result LagSnapshot
read_topic broker none = ok no_lag
read_topic broker (some ps) =
    Base.◌>>=◌ (broker.committed ps) (λ tps. map_ok with_total (read_partitions broker tps no_lag))

unfoldable pub read_lag : Broker → Result LagSnapshot
unfolding read_partitions
read_lag broker = Base.◌>>=◌ broker.topic (read_topic broker)

-- `_COLLECTOR_COUNTERS`
abbrev pub collector_counters : List String
collector_counters =
    "otelcol_receiver_accepted_spans" ∷ "otelcol_receiver_refused_spans"
    ∷ "otelcol_exporter_sent_spans" ∷ "otelcol_exporter_send_failed_spans"
    ∷ "otelcol_exporter_enqueue_failed_spans" ∷ "otelcol_exporter_queue_size"
    ∷ "otelcol_exporter_queue_capacity" ∷ []

abbrev pub is_some : {A : Type 0} → Option A → Bool
is_some none = false
is_some (some _) = true

-- `text.startswith(prefix)`
abbrev pub starts_with : Text → String → Bool
starts_with text prefix = is_some (strip_prefix (codes prefix) text)

-- `values[key] = values.get(key, 0.0) + x`
abbrev pub add_to : Dict ℕ → String → ℕ → Dict ℕ
add_to values key x = (key, get (lookup values key) 0 + x) ∷ values

-- The value at the end of a line, `none` where there is none: `float(line.rsplit(" ", 1)[1])`.
abbrev pub Reader : Type 0
Reader = Text → Option ℕ

abbrev pub add_read : Option ℕ → Dict ℕ → String → Dict ℕ
add_read none values counter = values
add_read (some x) values counter = add_to values counter x

-- The inner loop, over the counters.
unfoldable pub read_line : Reader → Text → List String → Dict ℕ → Dict ℕ
read_line reader line [] values = values
read_line reader line (counter ∷ counters) values =
    read_line reader line counters
      (if starts_with line counter then add_read (reader line) values counter else values)

unfoldable pub read_lines : Reader → List Text → Dict ℕ → Dict ℕ
unfolding read_line
read_lines reader [] values = values
read_lines reader (line ∷ lines) values =
    read_lines reader lines
      (if starts_with line "#" then values else read_line reader line collector_counters values)

-- The lines of the collector's page, `none` where it cannot be reached.
unfoldable pub read_collector : Reader → Option (List Text) → Option CollectorSnapshot
unfolding read_lines
read_collector reader none = none
read_collector reader (some lines) =
    let values = read_lines reader lines [] in
    some (record {
      accepted_spans = get (lookup values "otelcol_receiver_accepted_spans") 0;
      refused_spans = get (lookup values "otelcol_receiver_refused_spans") 0;
      sent_spans = get (lookup values "otelcol_exporter_sent_spans") 0;
      send_failed_spans = get (lookup values "otelcol_exporter_send_failed_spans") 0;
      enqueue_failed_spans = get (lookup values "otelcol_exporter_enqueue_failed_spans") 0;
      queue_size = get (lookup values "otelcol_exporter_queue_size") 0;
      queue_capacity = get (lookup values "otelcol_exporter_queue_capacity") 0;
    })

-- A row of `pipeline_health`, in the order of `column_names`.
abbrev pub Row : Type 0
Row = List ℕ

unfoldable pub health_row : LagSnapshot → CollectorSnapshot → Row
unfolding max_partition_lag partitions
health_row lag c =
    lag.total_lag
    ∷ max_partition_lag lag
    ∷ partitions lag
    ∷ c.accepted_spans
    ∷ c.refused_spans
    ∷ c.sent_spans
    ∷ c.send_failed_spans
    ∷ c.enqueue_failed_spans
    ∷ c.queue_size
    ∷ c.queue_capacity
    ∷ []

-- `record` behind its readings, by what the collector gave; the table is a list of rows.
unfoldable pub record_collector :
    Option Error
    → LagSnapshot
    → Option CollectorSnapshot
    → Exec (List Row) (LagSnapshot × CollectorSnapshot)
unfolding health_row
record_collector failure lag none = pure (lag, no_counters)
record_collector failure lag (some collector) =
    run failure (λ rows. rows ++ (health_row lag collector ∷ [])) >> pure (lag, collector)

unfoldable pub record_health :
    Option Error
    → Broker
    → Reader
    → Option (List Text)
    → Exec (List Row) (LagSnapshot × CollectorSnapshot)
unfolding read_lag read_collector record_collector
record_health failure broker reader page = do
  lag ← lift (read_lag broker)
  record_collector failure lag (read_collector reader page)
