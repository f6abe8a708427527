-- ===== src/Storage/Tests.antt =====
-- The theorems on src/telemetry_engine/storage at concrete inputs.
use llm_telemetry_engine.Base.{◌+◌, ◌*◌, ◌≡◌, refl, none, [], ◌∷◌, String, ok, arith, Dict}
use llm_telemetry_engine.Datetime.{hour}
use llm_telemetry_engine.Storage.Migrations as Migrations
use llm_telemetry_engine.Storage.Migrations.{
  Migration, no_result, create_bookkeeping, command, plan_from, execute_all, execute, send, apply,
  apply_rest, MigrationResult, record_bootstrap, record_applied, apply_one, read_applied,
}
use llm_telemetry_engine.Storage.Migrations.Reruns.{Issues, apply-Issues, apply-current}
use llm_telemetry_engine.Storage.Migrations.DryRun.{IsPlanned, drifted_names, apply-IsPlanned}
use llm_telemetry_engine.Storage.Rollups as Rollups
use llm_telemetry_engine.Storage.Rollups.{backfill}
use llm_telemetry_engine.Storage.Rollups.Chunks.{Answers, backfill-Answers}

abbrev first : Migration
first = record { name = "000"; checksum = "c0"; statements = "CREATE DATABASE" ∷ [] }

abbrev second : Migration
second = record { name = "010"; checksum = "c1"; statements = "CREATE TABLE" ∷ [] }

-- What the bookkeeping says, where every statement succeeds.
abbrev recorded : Dict String
recorded = ("000", "c0") ∷ ("010", "c1") ∷ []

abbrev database : Migrations.Server (Unit {0})
database = record { request = λ r s. (ok tt, tt); applied_checksums = λ s. ok recorded }

abbrev fresh : Migrations.World (Unit {0})
fresh = record { database = tt; issued = [] }

abbrev bootstrapped : Migrations.World (Unit {0})
bootstrapped = record { database = tt; issued = command "CREATE DATABASE" ∷ [] }

abbrev booked : Migrations.World (Unit {0})
booked = record { database = tt; issued = command "CREATE DATABASE" ∷ create_bookkeeping ∷ [] }

-- The same where the second file was applied as another text: only the bootstrap goes out.
abbrev stale : Dict String
stale = ("010", "old") ∷ []

abbrev stale_database : Migrations.Server (Unit {0})
stale_database = record { request = λ r s. (ok tt, tt); applied_checksums = λ s. ok stale }

apply-Issues_example :
    Issues stale_database stale first
      (second ∷ [])
      booked
      (apply stale_database (first ∷ second ∷ []) fresh).1
unfolding execute_all execute send
apply-Issues_example =
    apply-Issues stale_database stale first (second ∷ []) bootstrapped booked fresh refl refl refl

apply-current_example :
    apply database (first ∷ second ∷ []) fresh
    ≡ (ok (plan_from recorded (first ∷ second ∷ []) no_result), booked)
unfolding execute_all execute send
apply-current_example =
    apply-current database recorded first (second ∷ []) bootstrapped booked fresh refl refl refl
      (refl, (refl, tt))

abbrev outcome : MigrationResult
outcome = record { applied = "000" ∷ []; skipped = []; drifted = "010" ∷ [] }

apply-IsPlanned_example :
    IsPlanned outcome (plan_from stale (first ∷ second ∷ []) no_result)
    × (outcome.drifted ≡ drifted_names stale (second ∷ []))
unfolding execute_all execute send apply record_bootstrap record_applied apply_rest apply_one
    read_applied
apply-IsPlanned_example =
    apply-IsPlanned stale_database stale first (second ∷ []) bootstrapped booked fresh
      {out = outcome} refl refl refl refl

abbrev clickhouse : Rollups.Server (Unit {0})
clickhouse = record {
  raw = λ s. ok (record { min_ts = none; max_ts = none; count = none });
  rollup = λ s. ok (record { min_ts = none; max_ts = none; count = none });
  count = λ start end s. ok 7;
  set_timeout = λ s. (ok tt, tt);
  insert = λ start end s. (ok tt, tt);
}

abbrev empty_rollup : Rollups.World (Unit {0})
empty_rollup = record { database = tt; inserted = [] }

backfill-Answers_example :
    Answers clickhouse hour
      (3 * hour + 5)
      empty_rollup
      7
      (backfill clickhouse hour (3 * hour + 5) empty_rollup)
backfill-Answers_example =
    backfill-Answers clickhouse hour (3 * hour + 5) empty_rollup 7 (omega arith) refl refl
