-- ===== src/ColdTier/Window.antt =====
-- `ExportWindow` of telemetry_engine/coldtier/layout.py.
use llm_telemetry_engine.Base.{
  ℕ, ◌+◌, ◌≤◌, ◌<◌, ◌≡◌, not, ◌&&◌, leb, ◌==◌, if◌then◌else◌, Result, ok, err, value_error, arith,
}
use llm_telemetry_engine.Datetime.{Datetime, date, midnight}

pub record ExportWindow : Type 0 where
  pub start : Datetime
  pub end : Datetime

-- `ExportWindow(start, end)` with its `__post_init__`
unfoldable pub new_window : Datetime → Datetime → Result ExportWindow
new_window start end =
    if leb end start
    then err value_error
    else if not (date start == date end) && not (end == midnight (date end))
    then err value_error
    else ok (record { start = start; end = end })

abbrev pub partition_date : ExportWindow → ℕ
partition_date w = date w.start

pub new_window-ok :
    (s e : Datetime)
    → s < e
    → e ≤ midnight (date s + 1)
    → new_window s e ≡ ok (record { start = s; end = e })
unfolding new_window
new_window-ok s e h k = ground arith
