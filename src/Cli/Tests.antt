-- ===== src/Cli/Tests.antt =====
-- The theorems on the commands at concrete inputs.
use llm_telemetry_engine.Base.{◌*◌, ◌+◌, ◌≡◌, refl, true, some, [], ok, err, value_error, arith}
use llm_telemetry_engine.Datetime.{Datetime, hour, minute}
use llm_telemetry_engine.Storage.Rollups.{Server, World}
use llm_telemetry_engine.Cli.Rollup.{rollup_status, rollup_backfill}
use llm_telemetry_engine.Cli.Rollup.Windows.{Within, rollup_backfill-Within, rollup_backfill-stuck}

-- Nine spans from five o'clock on, of which the rollup, from the given time on, has seven.
abbrev clickhouse : Datetime → Server (Unit {0})
clickhouse covered = record {
  raw = λ s. ok (record { min_ts = some (5 * hour); max_ts = some (9 * hour); count = some 9 });
  rollup = λ s. ok (record { min_ts = some covered; max_ts = some (9 * hour); count = some 7 });
  count = λ start end s. ok 2;
  set_timeout = λ s. (ok tt, tt);
  insert = λ start end s. (ok tt, tt);
}

abbrev before : World (Unit {0})
before = record { database = tt; inserted = [] }

rollup_backfill-Within_example :
    Within
      (5 * hour)
      (8 * hour + minute)
      (2 * hour)
      before
      (rollup_backfill (clickhouse (8 * hour + minute)) (2 * hour) true (ok tt) before).1
rollup_backfill-Within_example =
    rollup_backfill-Within (clickhouse (8 * hour + minute)) (2 * hour) true (ok tt) before
      (record { min_ts = some (5 * hour); max_ts = some (9 * hour); count = some 9 })
      (record { min_ts = some (8 * hour + minute); max_ts = some (9 * hour); count = some 7 })
      (5 * hour) (8 * hour + minute) refl refl refl refl

rollup_backfill-stuck_example :
    (rollup_status (clickhouse (5 * hour)) before ≡ (ok true, before))
    × (rollup_backfill (clickhouse (5 * hour)) (2 * hour) true (ok tt) before
        ≡ (err value_error, before))
rollup_backfill-stuck_example =
    rollup_backfill-stuck (clickhouse (5 * hour)) (2 * hour) true (ok tt) before
      (record { min_ts = some (5 * hour); max_ts = some (9 * hour); count = some 9 })
      (record { min_ts = some (5 * hour); max_ts = some (9 * hour); count = some 7 }) (5 * hour)
      (5 * hour) refl refl refl refl (omega arith) (omega arith) (omega arith) refl
