-- ===== src/Storage/Migrations.antt =====
-- telemetry_engine/storage/migrations.py. ClickHouse is a parameter, and so is a file: a `Migration`
-- holds its name, its checksum and its statements.
pub mod Reruns
pub mod DryRun
use Prim.Native.Nat.{Ordering}
use Prim.Native.String.{compare}
use llm_telemetry_engine.Base.{
  Bool, true, false, Option, none, some, List, [], ◌∷◌, ◌++◌, String, str_eq, if◌then◌else◌, Result,
  ok, err, file_not_found, Dict, lookup, is_empty, not,
}
use llm_telemetry_engine.Base.Exec.{Exec, next, pure, lift, ◌>>=◌, ◌>>◌}

pub record Migration : Type 0 where
  pub name : String
  pub checksum : String
  pub statements : List String

pub record MigrationResult : Type 0 where
  pub applied : List String
  pub skipped : List String
  pub drifted : List String

abbrev pub no_result : MigrationResult
no_result = record { applied = []; skipped = []; drifted = [] }

-- `MigrationResult.changed`
unfoldable pub changed : MigrationResult → Bool
changed r = not (is_empty r.applied)

abbrev pub before : Migration → Migration → Bool
before m n = elim (compare m.name n.name) [ Ordering.gt ↦ false | _ ↦ true ]

abbrev pub insert : Migration → List Migration → List Migration
insert m [] = m ∷ []
insert m (n ∷ ns) = if before m n then m ∷ n ∷ ns else n ∷ insert m ns

-- `sorted(schemas_dir.glob("*.sql"))`
unfoldable pub sort : List Migration → List Migration
sort [] = []
sort (m ∷ ms) = insert m (sort ms)

-- The files of the directory, `none` where there is no directory.
unfoldable pub discover : Option (List Migration) → Result (List Migration)
unfolding sort
discover none = err file_not_found
discover (some files) = ok (sort files)

-- What the runner sends to ClickHouse that may change it.
pub data Request : Type 0 where
  command : String → Request
  create_bookkeeping : Request
  insert_applied : String → String → Request

pub record Server (S : Type 0) : Type 0 where
  pub request : Request → S → Result (Unit {0}) × S
  -- `SELECT filename, checksum FROM schema_migrations FINAL`
  pub applied_checksums : S → Result (Dict String)

pub record World (S : Type 0) : Type 0 where
  pub database : S
  pub issued : List Request

-- `already.get(name) == checksum`
abbrev pub is_same : Option String → String → Bool
is_same none checksum = false
is_same (some c) checksum = str_eq c checksum

-- The loop of a dry run.
unfoldable pub plan_from : Dict String → List Migration → MigrationResult → MigrationResult
plan_from already [] result = result
plan_from already (m ∷ ms) result = plan_from already ms (
    if is_same (lookup already m.name) m.checksum
    then record result { skipped = result.skipped ++ (m.name ∷ []) }
    else record result { applied = result.applied ++ (m.name ∷ []) })

-- `except Exception: already = {}`
abbrev pub or_nothing : Result (Dict String) → Dict String
or_nothing (ok already) = already
or_nothing (err e) = []

-- `migrations[:1]` and `migrations[1:]`
abbrev pub bootstrap : List Migration → List Migration
bootstrap [] = []
bootstrap (m ∷ ms) = m ∷ []

abbrev pub rest : List Migration → List Migration
rest [] = []
rest (m ∷ ms) = ms

module _ {S : Type 0} (server : Server S) where
  unfoldable pub send : Request → Exec (World S) (Unit {0})
  send r w =
      let (answer, database) = server.request r w.database in
      (answer, record { database = database; issued = w.issued ++ (r ∷ []) })

  -- `for stmt in m.statements(): conn.command(stmt)`
  unfoldable pub execute : List String → Exec (World S) (Unit {0})
  unfolding send
  execute [] = pure tt
  execute (s ∷ ss) = send (command s) >> execute ss

  unfoldable pub execute_all : List Migration → Exec (World S) (Unit {0})
  unfolding execute
  execute_all [] = pure tt
  execute_all (m ∷ ms) = execute m.statements >> execute_all ms

  unfoldable pub record_applied : Migration → MigrationResult → Exec (World S) MigrationResult
  unfolding send
  record_applied m result =
      send (insert_applied m.name m.checksum)
      >> pure (record result { applied = result.applied ++ (m.name ∷ []) })

  unfoldable pub skip : Migration → MigrationResult → Exec (World S) MigrationResult
  skip m result = pure (record result { skipped = result.skipped ++ (m.name ∷ []) })

  -- The loop over the bootstrap file behind its statements.
  unfoldable pub record_bootstrap :
      Dict String → List Migration → MigrationResult → Exec (World S) MigrationResult
  unfolding record_applied skip
  record_bootstrap already [] result = pure result
  record_bootstrap already (m ∷ ms) result =
      (if is_same (lookup already m.name) m.checksum
        then skip m result
        else record_applied m result)
      >>= record_bootstrap already ms

  -- The body of the loop over the other files, by `already.get(m.name)`.
  unfoldable pub apply_one :
      Migration → Option String → MigrationResult → Exec (World S) MigrationResult
  unfolding execute record_applied skip
  apply_one m none result = execute m.statements >> record_applied m result
  apply_one m (some prior) result =
      if str_eq prior m.checksum
      then skip m result
      else pure (record result { drifted = result.drifted ++ (m.name ∷ []) })

  unfoldable pub apply_rest :
      Dict String → List Migration → MigrationResult → Exec (World S) MigrationResult
  unfolding apply_one
  apply_rest already [] result = pure result
  apply_rest already (m ∷ ms) result =
      apply_one m (lookup already m.name) result >>= apply_rest already ms

  unfoldable pub read_applied : Exec (World S) (Dict String)
  read_applied w = (server.applied_checksums w.database, w)

  unfoldable pub apply : List Migration → Exec (World S) MigrationResult
  unfolding execute_all send read_applied record_bootstrap apply_rest
  apply migrations = do
    execute_all (bootstrap migrations)
    send create_bookkeeping
    already ← read_applied
    result ← record_bootstrap already (bootstrap migrations) no_result
    apply_rest already (rest migrations) result

  unfoldable pub apply_all : Option (List Migration) → Bool → Exec (World S) MigrationResult
  unfolding discover plan_from apply
  apply_all directory true = do
    migrations ← lift (discover directory)
    λ w. (ok (plan_from (or_nothing (server.applied_checksums w.database)) migrations no_result), w)
  apply_all directory false = do migrations ← lift (discover directory); apply migrations
