-- ===== src/Cli/Rollup.antt =====
-- `rollup-status` and `rollup-backfill` of telemetry_engine/cli.py.
pub mod Windows
use llm_telemetry_engine.Base.{
  ℕ, Bool, true, false, not, Option, none, some, ltb, if◌then◌else◌, Result, ok, err,
}
use llm_telemetry_engine.Base.Exec.{Exec, pure, lift, ◌>>=◌, ◌>>◌}
use llm_telemetry_engine.Datetime.{Datetime, Timedelta, subtract}
use llm_telemetry_engine.Storage.Rollups.{
  BackfillPlan, Server, World, needs_backfill, plan, backfill,
}

-- `current.rollup_min or current.raw_max`
unfoldable pub window_end : BackfillPlan → Option Datetime
window_end current = elim current.rollup_min [ some m ↦ some m | none ↦ current.raw_max ]

-- `if current.raw_min is not None and start < current.raw_min: start = current.raw_min`
unfoldable pub clamp : Option Datetime → Datetime → Datetime
clamp none start = start
clamp (some raw_min) start = if ltb start raw_min then raw_min else start

module _ {S : Type 0} (server : Server S) where
  -- Whether it says to run `rollup-backfill`.
  unfoldable pub rollup_status : Exec (World S) Bool
  rollup_status = do result ← plan server; pure (needs_backfill result)

  -- `hours` is a time span that is not negative; `confirm` is what the prompt returns or raises.
  module _ (hours : Timedelta) (yes : Bool) (confirm : Result (Unit {0})) where
    unfoldable pub backfill_until : BackfillPlan → Option Datetime → Exec (World S) (Option ℕ)
    unfolding clamp
    backfill_until current none = pure none
    backfill_until current (some end) = do
      start ← lift (subtract end hours)
      lift (if yes then ok tt else confirm)
      aggregated ← backfill server (clamp current.raw_min start) end
      pure (some aggregated)

    unfoldable pub rollup_backfill : Exec (World S) (Option ℕ)
    unfolding backfill_until window_end
    rollup_backfill = do
      current ← plan server
      if needs_backfill current then backfill_until current (window_end current) else pure none
