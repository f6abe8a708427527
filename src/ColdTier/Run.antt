-- ===== src/ColdTier/Run.antt =====
-- `run_export` of telemetry_engine/coldtier/export.py, with the bookkeeping of the watermark.
pub mod Progress
pub mod Unstreamed
pub mod Windows
pub mod Coverage
use mathlib.Core.List.{foldl}
use llm_telemetry_engine.Base.{
  ℕ, zero, suc, max, Bool, true, false, Option, none, some, if◌then◌else◌, List, [], ◌∷◌, ◌++◌,
  take, Error, Result, ok, err,
}
use llm_telemetry_engine.Base.Exec.{Exec, next, ◌>>=◌, ◌>>◌, pure, lift, run}
use llm_telemetry_engine.Datetime.{Datetime, Timedelta, floor_second}
use llm_telemetry_engine.ColdTier.Window.{ExportWindow}
use llm_telemetry_engine.ColdTier.Layout.{Calendar, FilePath}
use llm_telemetry_engine.ColdTier.Plan.{default_window, plan_windows}
use llm_telemetry_engine.ColdTier.Export.{Engine, Lake, WindowResult, is_ok, export_window}

-- The rest of what a run asks ClickHouse, and the exceptions of the calls that return nothing.
pub record Server : Type 0 where
  pub now : Result Datetime
  -- the rows of `SELECT min(ts) FROM telemetry.spans_raw`
  pub oldest : Result (List (Option Datetime))
  pub read_failure : Option Error
  pub delete_failure : Option Error
  pub write_failure : Datetime → Option Error

-- The lake, and the rows of the watermark table for the exporter's key, in order of insertion.
pub record Store : Type 0 where
  pub lake : Lake
  pub watermarks : List Datetime

-- The table is a ReplacingMergeTree versioned by the watermark: FINAL gives the highest.
unfoldable pub highest : List Datetime → Option Datetime
highest [] = none
highest (t ∷ ts) = some (foldl max t ts)

pub record ExportResult : Type 0 where
  pub windows : List WindowResult
  pub watermark_before : Option Datetime
  pub watermark_after : Option Datetime

-- `ExportResult()`
abbrev pub no_result : ExportResult
no_result = record { windows = []; watermark_before = none; watermark_after = none }

-- `ExportResult.ok`
unfoldable pub all_ok : List WindowResult → Bool
all_ok [] = true
all_ok (r ∷ rs) = elim (is_ok r) [ true ↦ all_ok rs | false ↦ false ]

-- `if max_windows: windows = windows[:max_windows]`
abbrev pub limit : Option ℕ → List ExportWindow → List ExportWindow
limit none ws = ws
limit (some zero) ws = ws
limit (some (suc n)) ws = take (suc n) ws

module _ (server : Server) where
  unfoldable pub read_watermark : Exec Store (Option Datetime)
  read_watermark s = elim server.read_failure [
    | some e ↦ (err e, s)
    | none ↦ (ok (highest s.watermarks), s)
  ]

  -- The value is sent as text with whole seconds.
  unfoldable pub write_watermark : Datetime → Exec Store (Unit {0})
  write_watermark t =
      run (server.write_failure t)
        (λ s. record s { watermarks = s.watermarks ++ (floor_second t ∷ []) })

  unfoldable pub rewind_watermark : Datetime → Exec Store (Unit {0})
  rewind_watermark to = do
    run server.delete_failure (λ s. record s { watermarks = [] })
    write_watermark to

  abbrev pub first_row : List (Option Datetime) → Option Datetime
  first_row [] = none
  first_row (t ∷ _) = t

  unfoldable pub default_start : Exec Store (Option Datetime)
  default_start = do rows ← lift server.oldest; pure (first_row rows)

  module _ (cal : Calendar) (root : FilePath) (engine : Engine) where
    unfoldable pub export : ExportWindow → Exec Store WindowResult
    export w s =
        let (r, lake) = export_window cal root engine w s.lake in (r, record s { lake = lake })

    -- The loop over the windows: it ends at the first that is not ok.
    unfoldable pub export_loop : List ExportWindow → ExportResult → Exec Store ExportResult
    export_loop [] result = pure result
    export_loop (w ∷ ws) result = do
      r ← export w
      if is_ok r
          then (do
            write_watermark w.end
            export_loop ws (record result {
              windows = result.windows ++ (r ∷ []);
              watermark_after = some w.end;
            }))
          else pure (record result { windows = result.windows ++ (r ∷ []) })

    abbrev reference : Option Datetime → Exec Store Datetime
    reference (some now) = pure now
    reference none = lift server.now

    abbrev rewind_to : Option Datetime → Exec Store (Unit {0})
    rewind_to none = pure tt
    rewind_to (some t) = rewind_watermark t

    -- `watermark_before or default_start(conn)`
    abbrev start_of : Option Datetime → Exec Store (Option Datetime)
    start_of (some t) = pure (some t)
    start_of none = default_start

    -- The part behind the start.
    unfoldable pub export_from :
        Option Datetime
        → Option Datetime
        → Option ℕ
        → Timedelta
        → Option Datetime
        → Exec Store ExportResult
    export_from before none max_windows lag_margin now =
        pure (record no_result { watermark_before = before })
    export_from before (some start) max_windows lag_margin now = do
      at ← reference now
      windows ← lift (plan_windows start at default_window lag_margin)
      export_loop (limit max_windows windows) (record no_result { watermark_before = before })

    unfoldable pub run_export :
        Option Datetime → Option ℕ → Option Datetime → Timedelta → Exec Store ExportResult
    run_export now max_windows since lag_margin = do
      rewind_to since
      before ← read_watermark
      start ← start_of before
      export_from before start max_windows lag_margin now
