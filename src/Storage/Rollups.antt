-- ===== src/Storage/Rollups.antt =====
-- telemetry_engine/storage/rollups.py. ClickHouse is a parameter.
pub mod Chunks
use llm_telemetry_engine.Base.{
  ℕ, zero, suc, ◌+◌, ◌-◌, min, Bool, Option, none, some, List, [], ◌∷◌, ◌++◌, ltb, leb,
  if◌then◌else◌, Result, ok, err, value_error, out_of_fuel,
}
use llm_telemetry_engine.Base.Exec.{Exec, next, pure, lift, ◌>>=◌, ◌>>◌}
use llm_telemetry_engine.Datetime.{Datetime, hour, add}

pub record BackfillPlan : Type 0 where
  pub raw_min : Option Datetime
  pub raw_max : Option Datetime
  pub rollup_min : Option Datetime
  pub rollup_max : Option Datetime
  pub raw_rows : ℕ
  pub rollup_spans : ℕ

-- `max(0, self.raw_rows - self.rollup_spans)`: subtraction here stops at 0
unfoldable pub missing_spans : BackfillPlan → ℕ
missing_spans p = p.raw_rows - p.rollup_spans

unfoldable pub needs_backfill : BackfillPlan → Bool
unfolding missing_spans
needs_backfill p = ltb 0 (missing_spans p)

-- The row of a query: the least and the greatest time, and a count that may be NULL.
pub record Row : Type 0 where
  pub min_ts : Option Datetime
  pub max_ts : Option Datetime
  pub count : Option ℕ

-- `int(x or 0)`
abbrev pub or_zero : Option ℕ → ℕ
or_zero none = 0
or_zero (some n) = n

pub record Server (S : Type 0) : Type 0 where
  pub raw : S → Result Row
  pub rollup : S → Result Row
  -- `SELECT count() ... WHERE ts >= start AND ts < end`
  pub count : Datetime → Datetime → S → Result ℕ
  pub set_timeout : S → Result (Unit {0}) × S
  -- `_BACKFILL_SQL` on the spans from the first instant to the second
  pub insert : Datetime → Datetime → S → Result (Unit {0}) × S

-- The server, and the windows aggregated so far, the last one last.
pub record World (S : Type 0) : Type 0 where
  pub database : S
  pub inserted : List (Datetime × Datetime)

module _ {S : Type 0} (server : Server S) where
  abbrev ask : {A : Type 0} → (S → Result A) → Exec (World S) A
  ask query w = (query w.database, w)

  unfoldable pub plan : Exec (World S) BackfillPlan
  plan = do
    raw ← ask server.raw
    rollup ← ask server.rollup
    pure (record {
      raw_min = raw.min_ts;
      raw_max = raw.max_ts;
      rollup_min = rollup.min_ts;
      rollup_max = rollup.max_ts;
      raw_rows = or_zero raw.count;
      rollup_spans = or_zero rollup.count;
    })

  unfoldable pub insert_chunk : Datetime → Datetime → Exec (World S) (Unit {0})
  insert_chunk start end w =
      let (answer, database) = server.insert start end w.database in
      (answer, record { database = database; inserted = w.inserted ++ ((start, end) ∷ []) })

  -- The loop, on fuel: each round but the last moves the cursor by an hour,
  -- which raises where that is beyond `datetime.max`.
  unfoldable pub backfill_loop : ℕ → Datetime → Datetime → Exec (World S) (Unit {0})
  unfolding insert_chunk
  backfill_loop zero cursor end = if ltb cursor end then lift (err out_of_fuel) else pure tt
  backfill_loop (suc fuel) cursor end =
      let rest = λ (next : Datetime). backfill_loop fuel next end in
      if ltb cursor end
      then (lift (add cursor hour) >>= λ later.
          insert_chunk cursor (min later end) >> rest (min later end))
      else pure tt

  -- `conn.command("SET max_execution_time = 600")`
  unfoldable pub set_timeout : Exec (World S) (Unit {0})
  set_timeout w =
      let (answer, database) = server.set_timeout w.database in
      (answer, record w { database = database })

  unfoldable pub backfill : Datetime → Datetime → Exec (World S) ℕ
  unfolding set_timeout backfill_loop
  backfill start end = if leb end start then lift (err value_error) else do
    total ← ask (server.count start end)
    set_timeout
    backfill_loop (end - start) start end
    pure total
