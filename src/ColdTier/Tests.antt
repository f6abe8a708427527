-- ===== src/ColdTier/Tests.antt =====
-- The theorems on src/telemetry_engine/coldtier at concrete inputs.
use llm_telemetry_engine.Base.{
  ℕ, ◌+◌, ◌-◌, ◌*◌, ◌/◌, ◌≤◌, ◌<◌, max, ◌≡◌, ◌≢◌, refl, true, false, Option, none, some, List, [],
  ◌∷◌, ◌++◌, leb, le→leb, ap, arith, ok, All, ◌>>=◌,
}
use llm_telemetry_engine.Base.Text.{Text, codes}
use llm_telemetry_engine.Datetime.{Datetime, second, hour, day, floor_second, subtract, add}
use llm_telemetry_engine.ColdTier.Window.{ExportWindow, new_window}
use llm_telemetry_engine.ColdTier.Layout.{
  Calendar, FilePath, file_path, temp_path, partition_dir, parse_window,
}
use llm_telemetry_engine.ColdTier.Layout.Shapes.{IsDigits}
use llm_telemetry_engine.ColdTier.Layout.Names.{
  IsCalendar, parse_window-file_path, temp_path-ne-file_path,
}
use llm_telemetry_engine.ColdTier.Fingerprint.{columns_agree, column_agrees, fingerprints_agree}
use llm_telemetry_engine.ColdTier.Batch.{
  Batch, timestamp, stream_window, rows, normalize_timestamps, strip_zone, strip_zones,
}
use llm_telemetry_engine.ColdTier.Export.{
  Engine, Lake, WindowResult, is_ok, export_window, final, staging, no_reason, export_counted,
  write, verify, conclude,
}
use llm_telemetry_engine.ColdTier.Export.Commit.{export_window_ne}
use llm_telemetry_engine.ColdTier.Export.Verified.{
  IsVerified, IsCommitted, export_window-IsVerified,
}
use llm_telemetry_engine.ColdTier.Export.Refused.{Keeps, export_window-Keeps}
use llm_telemetry_engine.ColdTier.Plan.{
  default_window, plan_windows, plan_loop, window_end, next_boundary, plan_round,
}
use llm_telemetry_engine.ColdTier.Plan.Tiles.{Tiles, IsEnd, plan_windows-Tiles}
use llm_telemetry_engine.Cli.Cold.{cold_export}
use llm_telemetry_engine.Cli.Cold.Complete.{cold_export_complete}
use llm_telemetry_engine.ColdTier.Run.{
  all_ok, Server, Store, highest, export_loop, run_export, no_result, read_watermark,
  write_watermark, export_from, export,
}
use llm_telemetry_engine.ColdTier.Run.Unstreamed.{IsPassed, export_loop-IsPassed}
use llm_telemetry_engine.ColdTier.Run.Progress.{IsCovered, Progress, export_loop-Progress}
use llm_telemetry_engine.ColdTier.Run.Coverage.{run_export-covers}
use llm_telemetry_engine.ColdTier.Query.{
  File, DuckDb, lake_view, query, open_lake, cross_check, one, query_complete,
}

-- A calendar that puts the whole of a time into the first character: `is_digit` accepts the code
-- points from 1000 on.
abbrev two : Text
two = 1000 ∷ 1000 ∷ []

abbrev six : Text
six = 1000 ∷ 1000 ∷ 1000 ∷ 1000 ∷ 1000 ∷ 1000 ∷ []

abbrev eight : ℕ → Text
eight n = (1000 + n) ∷ 1000 ∷ six

abbrev four : ℕ → Text
four n = (1000 + n) ∷ 1000 ∷ two

abbrev head_value : Text → Option ℕ
head_value [] = none
head_value (c ∷ cs) = some (c - 1000)

abbrev to_time : Option ℕ → Option Datetime
to_time none = none
to_time (some s) = some (s * second)

abbrev calendar : Calendar
calendar = record {
  is_digit = leb 1000;
  strftime = λ t. eight (t / second) ++ (codes "T" ++ six);
  strptime = λ text. to_time (head_value text);
  isoformat = λ n. four n ++ (codes "-" ++ (two ++ (codes "-" ++ two)));
  fromisoformat = head_value;
}

two-IsDigits : IsDigits (leb 1000) 2 two
two-IsDigits = (refl, (refl, (refl, tt)))

six-IsDigits : IsDigits (leb 1000) 6 six
six-IsDigits = (refl, (refl, (refl, (refl, (refl, (refl, (refl, tt)))))))

eight-IsDigits : (n : ℕ) → IsDigits (leb 1000) 8 (eight n)
eight-IsDigits n = (
  refl,
  (
    le→leb 1000 (1000 + n) (omega arith),
    (refl, (refl, (refl, (refl, (refl, (refl, (refl, tt))))))),
  ),
)

four-IsDigits : (n : ℕ) → IsDigits (leb 1000) 4 (four n)
four-IsDigits n = (refl, (le→leb 1000 (1000 + n) (omega arith), (refl, (refl, (refl, tt)))))

same_time : (t : Datetime) → (1000 + t / second - 1000) * second ≡ floor_second t
same_time t = omega arith

same_day : (n : ℕ) → 1000 + n - 1000 ≡ n
same_day n = omega arith

calendar-IsCalendar : IsCalendar calendar
calendar-IsCalendar = record {
  strftime_shape =
      λ t h. (eight (t / second), six, refl, eight-IsDigits (t / second), six-IsDigits);
  strptime-strftime = λ t h. ap some (same_time t);
  isoformat_shape = λ n h k. (four n, two, two, refl, four-IsDigits n, two-IsDigits, two-IsDigits);
  fromisoformat-isoformat = λ n h k. ap some (same_day n);
}

abbrev root : FilePath
root = codes "lake" ∷ []

-- An hour of the year 1000, and the one behind it.
abbrev monday : Datetime
monday = 365_000 * day

abbrev first_hour : ExportWindow
first_hour = record { start = monday; end = monday + hour }

abbrev second_hour : ExportWindow
second_hour = record { start = monday + hour; end = monday + 2 * hour }

parse_window-file_path_example : parse_window calendar (file_path calendar root first_hour) ≡ (
    new_window (floor_second first_hour.start) (floor_second first_hour.end) >>= λ v. ok (some v))
parse_window-file_path_example =
    parse_window-file_path calendar calendar-IsCalendar root first_hour (omega arith, omega arith)
      (omega arith, omega arith)

-- A batch of two rows with a column of times in a zone, and an empty one.
abbrev zoned_batch : Batch
zoned_batch = record {
  num_rows = 2;
  columns = record { name = "ts"; type = timestamp "us" (some "UTC"); values = 5 ∷ 7 ∷ [] } ∷ [];
}

abbrev empty_batch : Batch
empty_batch = record { num_rows = 0; columns = [] }

abbrev two_batches : List Batch
two_batches = zoned_batch ∷ empty_batch ∷ []

-- A ClickHouse with those rows in every window, read back as they were written.
abbrev engine : Engine
engine = record {
  count_source = λ w. ok 2;
  stream = λ w. record { batches = two_batches; failure = none };
  source_fingerprint = λ w. ok (some 2 ∷ []);
  parquet_rows = λ bs. ok (rows bs);
  parquet_fingerprint = λ bs. ok (some (rows bs) ∷ []);
  file_size = rows;
}

-- One whose rows are gone between the count and the stream.
abbrev expired : Engine
expired = record engine { stream = λ w. record { batches = []; failure = none } }

abbrev empty_lake : Lake
empty_lake q = none

plan_windows-Tiles_example :
    (ws : List ExportWindow) × (plan_windows monday (monday + 3 * hour) default_window hour ≡ ok ws)
    × Tiles monday ws (max monday (monday + 3 * hour - hour))
    × All (λ w. IsEnd default_window (monday + 3 * hour - hour) w.start w.end) ws
plan_windows-Tiles_example =
    plan_windows-Tiles monday (monday + 3 * hour) default_window hour (omega arith) (omega arith)
      (omega arith) (omega arith)

apart : staging calendar root first_hour ≢ final calendar root first_hour
apart =
    temp_path-ne-file_path calendar calendar-IsCalendar root first_hour first_hour
      (omega arith, omega arith) (omega arith, omega arith) (omega arith, omega arith)
      (omega arith, omega arith)

abbrev exported : WindowResult
exported = record {
  window = first_hour;
  path = file_path calendar root first_hour;
  source_rows = 2;
  written_rows = 2;
  verified_rows = 2;
  bytes_on_disk = 2;
  skipped = false;
  reason = no_reason;
  fingerprint_matched = true;
}

export_window-IsVerified_example :
    (engine.count_source first_hour ≡ ok exported.source_rows)
    × IsVerified engine first_hour
        (stream_window (engine.stream first_hour).batches)
        (engine.stream first_hour).failure
        exported
    × IsCommitted calendar root first_hour
        (stream_window (engine.stream first_hour).batches)
        (export_window calendar root engine first_hour empty_lake).1
unfolding export_window export_counted write verify conclude is_ok fingerprints_agree stream_window
    normalize_timestamps column_agrees
export_window-IsVerified_example =
    export_window-IsVerified calendar root first_hour apart engine empty_lake {r = exported} refl
      refl refl

export_window-Keeps_example :
    Keeps
      (final calendar root first_hour)
      empty_lake
      (export_window calendar root engine first_hour empty_lake)
export_window-Keeps_example = export_window-Keeps calendar root first_hour apart engine empty_lake

root-ne-staging : [] ≢ staging calendar root first_hour
unfolding temp_path file_path partition_dir
root-ne-staging e = cc

root-ne-final : [] ≢ final calendar root first_hour
unfolding file_path partition_dir
root-ne-final e = cc

export_window_ne_example :
    (export_window calendar root engine first_hour empty_lake).1 [] ≡ empty_lake []
export_window_ne_example =
    export_window_ne calendar root engine first_hour [] root-ne-staging root-ne-final empty_lake

-- A server whose calls all succeed.
abbrev server : Server
server = record {
  now = ok (monday + 3 * hour);
  oldest = ok [];
  read_failure = none;
  delete_failure = none;
  write_failure = λ t. none;
}

abbrev store : Store
store = record { lake = empty_lake; watermarks = monday ∷ [] }

export_loop-Progress_example :
    Progress calendar root engine
      (first_hour ∷ [])
      store
      (export_loop server calendar root engine (first_hour ∷ []) no_result store).1
export_loop-Progress_example =
    export_loop-Progress calendar root engine server (first_hour ∷ []) no_result store
      (apart, tt, tt)

export_loop-IsPassed_example :
    IsPassed calendar root expired server first_hour store
      (export_loop server calendar root expired (first_hour ∷ []) no_result store).1
unfolding stream_window
export_loop-IsPassed_example =
    export_loop-IsPassed calendar root expired server first_hour [] no_result store 1
      (apart, tt, tt) refl refl refl refl refl

store-highest : highest store.watermarks ≡ some monday
unfolding highest
store-highest = refl

run-highest :
    highest
      (run_export server calendar root engine
        (some (monday + 3 * hour))
        none
        none
        hour
        store).1.watermarks
    ≡ some (monday + 2 * hour)
unfolding run_export highest read_watermark export_from plan_windows subtract plan_loop window_end
    new_window export_loop export export_window export_counted write stream_window verify conclude
    is_ok fingerprints_agree columns_agree column_agrees next_boundary plan_round write_watermark
    add normalize_timestamps strip_zone strip_zones
run-highest = refl

run_export-covers_example :
    (w : ExportWindow) × IsCovered calendar root engine
      (run_export server calendar root engine
        (some (monday + 3 * hour))
        none
        none
        hour
        store).1.lake
      w
    × (w.start ≤ monday)
    × (monday < w.end)
run_export-covers_example =
    run_export-covers calendar calendar-IsCalendar root engine server store monday
      (monday + 3 * hour) (monday + 2 * hour) monday none hour refl store-highest (omega arith)
      (omega arith) (omega arith) run-highest (omega arith) (omega arith)

cold_export-zero : (cold_export server calendar root engine none none hour store).0 ≡ ok 0
unfolding cold_export run_export highest read_watermark export_from plan_windows subtract plan_loop
    window_end new_window export_loop export export_window export_counted write stream_window verify
    conclude is_ok fingerprints_agree columns_agree column_agrees next_boundary plan_round
    write_watermark add normalize_timestamps strip_zone strip_zones all_ok
cold_export-zero = refl

cold_export_complete_example :
    (w : ExportWindow) × IsCovered calendar root engine
      (cold_export server calendar root engine none none hour store).1.lake
      w
    × (w.start ≤ monday + hour)
    × (monday + hour < w.end)
cold_export_complete_example =
    cold_export_complete server calendar root engine calendar-IsCalendar store monday
      (monday + 3 * hour) (monday + hour) hour refl refl store-highest (omega arith) (omega arith)
      (omega arith) cold_export-zero (omega arith) (omega arith)

abbrev file : File
file = record { path = file_path calendar root first_hour; size = 10 }

-- A DuckDB that reads the one file.
abbrev duckdb : DuckDb
duckdb = record {
  create_view = ok tt;
  distinct_files = ok (some 1);
  count = λ view. ok (some 2);
  count_distinct = λ view. ok (some (2, 2));
  out_of_order = λ path. ok (some 0);
}

query_complete_example :
    (duckdb.distinct_files ≡ ok (some 1)) × (duckdb.count lake_view ≡ ok (some 2))
unfolding query open_lake cross_check one
query_complete_example = query_complete duckdb file [] duckdb.count (some 2) refl
