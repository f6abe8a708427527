-- ===== src/ColdTier/Plan.antt =====
-- `plan_windows` of telemetry_engine/coldtier/export.py.
pub mod Tiles
use llm_telemetry_engine.Base.{
  ℕ, zero, suc, ◌+◌, ◌-◌, ◌*◌, ◌≤◌, ◌<◌, min, ◌≡◌, refl, List, [], ◌∷◌, ltb, leb, if◌then◌else◌,
  Result, ok, err, out_of_fuel, ◌>>=◌, arith,
}
use llm_telemetry_engine.Datetime.{
  Datetime, Timedelta, add, subtract, date, midnight, floor_hour, day, hour, minute, datetime_max,
}
use llm_telemetry_engine.ColdTier.Window.{ExportWindow, new_window, new_window-ok}

abbrev pub default_lag_margin : Timedelta
default_lag_margin = 5 * 60_000_000

abbrev pub default_window : Timedelta
default_window = 3_600_000_000

-- The next hour boundary, or `cursor + window` where that is not ahead.
unfoldable pub next_boundary : Timedelta → Datetime → Result Datetime
unfolding add
next_boundary window cursor = do
  ahead ← add cursor window
  if leb (floor_hour ahead) cursor then add cursor window else ok (floor_hour ahead)

-- `end` of one round of the loop
unfoldable pub window_end : Timedelta → Datetime → Datetime → Result Datetime
unfolding next_boundary
window_end window horizon cursor = do
  boundary ← next_boundary window cursor
  next_midnight ← add (midnight (date cursor)) day
  ok (min (min boundary next_midnight) horizon)

-- What a round adds for its `end`, `rest` being the rounds that follow.
unfoldable pub plan_round :
    Datetime → (Datetime → Result (List ExportWindow)) → Datetime → Result (List ExportWindow)
plan_round cursor rest end =
    if leb end cursor then ok [] else do w ← new_window cursor end; ws ← rest end; ok (w ∷ ws)

-- The `while` loop from `cursor` on, with fuel for the rounds.
unfoldable pub plan_loop : ℕ → Timedelta → Datetime → Datetime → Result (List ExportWindow)
unfolding plan_round
plan_loop zero window horizon cursor = err out_of_fuel
plan_loop (suc fuel) window horizon cursor =
    if ltb cursor horizon
    then window_end window horizon cursor >>= plan_round cursor (plan_loop fuel window horizon)
    else ok []

-- Each round moves `cursor` on by a microsecond at least, so this fuel is enough.
unfoldable pub plan_windows :
    Datetime → Datetime → Timedelta → Timedelta → Result (List ExportWindow)
plan_windows start now window lag_margin = do
  horizon ← subtract now lag_margin
  plan_loop (suc (horizon - start)) window horizon start
