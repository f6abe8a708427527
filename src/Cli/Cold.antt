-- ===== src/Cli/Cold.antt =====
-- `cold export` of telemetry_engine/cli.py.
pub mod Complete
use llm_telemetry_engine.Base.{ℕ, Option, none, some, Result, ok, map_ok, if◌then◌else◌}
use llm_telemetry_engine.Base.Exec.{Exec, pure, lift, ◌>>=◌}
use llm_telemetry_engine.Datetime.{Datetime, Timedelta}
use llm_telemetry_engine.ColdTier.Layout.{Calendar, FilePath}
use llm_telemetry_engine.ColdTier.Export.{Engine}
use llm_telemetry_engine.ColdTier.Run.{ExportResult, Server, Store, all_ok, run_export}

-- `strptime(since, ...) if since else None`, by what `strptime` came to
abbrev pub parsed : Option (Result Datetime) → Result (Option Datetime)
parsed none = ok none
parsed (some answer) = map_ok (λ t. some t) answer

-- `if not result.ok: raise typer.Exit(1)`
abbrev pub exit_code : ExportResult → ℕ
exit_code result = if all_ok result.windows then 0 else 1

module _ (server : Server) (cal : Calendar) (root : FilePath) (engine : Engine) where
  -- The exit code.
  unfoldable pub cold_export : Option ℕ → Option (Result Datetime) → Timedelta → Exec Store ℕ
  cold_export max_windows since lag_margin = do
    rewind_to ← lift (parsed since)
    result ← run_export server cal root engine none max_windows rewind_to lag_margin
    pure (exit_code result)
