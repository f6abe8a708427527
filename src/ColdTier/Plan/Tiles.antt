-- ===== src/ColdTier/Plan/Tiles.antt =====
-- The windows of a plan abut: no gap, which would lose rows, and no overlap, which would copy them.
use mathlib.Core.Path.{subst}
use llm_telemetry_engine.Base.{
  ℕ, zero, suc, ◌+◌, ◌-◌, ◌%◌, ◌≤◌, ◌<◌, max, ◌≡◌, refl, ◌⊎◌, inl, inr, List, [], ◌∷◌, ltb, leb,
  min, if◌then◌else◌, ok, Bool-cases, lt→ltb, le→geb, All, tests, arith,
}
use llm_telemetry_engine.Datetime.{
  Datetime, Timedelta, add, subtract, date, midnight, floor_hour, day, hour, datetime_max,
}
use llm_telemetry_engine.ColdTier.Window.{ExportWindow, new_window-ok}
use llm_telemetry_engine.ColdTier.Plan.{window_end, next_boundary, plan_loop, plan_windows}

-- `ws` covers [a, b) by windows that are not empty and each begin where the last one ended.
abbrev pub Tiles : Datetime → List ExportWindow → Datetime → Type 0
Tiles a [] b = a ≡ b
Tiles a (w ∷ ws) b = (w.start ≡ a) × (a < w.end) × Tiles w.end ws b

-- What one window's `end` is held to.
pub record IsEnd (window : Timedelta) (horizon cursor end : Datetime) : Type 0 where
  pub grows : cursor < end
  pub within : end ≤ horizon
  pub one_day : end ≤ midnight (date cursor + 1)
  pub short : end ≤ cursor + window
  pub aligned : hour ≤ window → (end % hour ≡ 0) ⊎ (end ≡ horizon)

-- The value of `next_boundary` where nothing overflows.
boundary : Timedelta → Datetime → Datetime
boundary window cursor =
    if leb (floor_hour (cursor + window)) cursor
    then cursor + window
    else floor_hour (cursor + window)

module _ (window : Timedelta) (cursor : Datetime) where
  next_boundary-eq :
      cursor + window ≤ datetime_max → next_boundary window cursor ≡ ok (boundary window cursor)
  unfolding next_boundary boundary
  next_boundary-eq h = ground arith

  boundary_bounds :
      0 < window → (cursor < boundary window cursor) × (boundary window cursor ≤ cursor + window)
  unfolding boundary
  boundary_bounds h = ground arith

  boundary_aligned : hour ≤ window → boundary window cursor % hour ≡ 0
  unfolding boundary
  boundary_aligned h = ground arith

min_aligned :
    (b d h : ℕ)
    → b % hour ≡ 0
    → (min (min b (midnight d + day)) h % hour ≡ 0) ⊎ (min (min b (midnight d + day)) h ≡ h)
min_aligned b d h whole = elim (Bool-cases (leb h (min b (midnight d + day)))) [
  | inl at_end ↦ inr (omega tests)
  | inr before ↦ inl (omega tests)
]

module _ (window : Timedelta) (horizon cursor : Datetime) where
  round_end : Datetime
  round_end = min (min (boundary window cursor) (midnight (date cursor) + day)) horizon

  round_end-IsEnd : 0 < window → cursor < horizon → IsEnd window horizon cursor round_end
  unfolding round_end
  round_end-IsEnd h k =
      let (above, below) = boundary_bounds window cursor h in
      record {
        grows = omega arith;
        within = omega arith;
        one_day = omega arith;
        short = omega arith;
        aligned = λ wide.
            min_aligned (boundary window cursor) (date cursor) horizon
              (boundary_aligned window cursor wide);
      }

  window_end-eq :
      cursor + window ≤ datetime_max
      → midnight (date cursor) + day ≤ datetime_max
      → window_end window horizon cursor ≡ ok round_end
  unfolding window_end round_end add
  window_end-eq l m = rw (next_boundary-eq window cursor l) (ground arith)

-- One round from a cursor that is behind the horizon, where nothing overflows.
plan_loop-round :
    (window : Timedelta) (horizon cursor : Datetime) (fuel : ℕ)
    → 0 < window
    → cursor < horizon
    → horizon + window ≤ datetime_max
    → horizon + day ≤ datetime_max
    → {ws : List ExportWindow}
    → plan_loop fuel window horizon (round_end window horizon cursor) ≡ ok ws
    → plan_loop (suc fuel) window horizon cursor
      ≡ ok (record { start = cursor; end = round_end window horizon cursor } ∷ ws)
unfolding plan_loop
plan_loop-round window horizon cursor fuel h k l m rest =
    let e = round_end-IsEnd window horizon cursor h k in
    let planned : window_end window horizon cursor ≡ ok (round_end window horizon cursor) =
      window_end-eq window horizon cursor (omega arith) (omega arith) in
    let made = new_window-ok cursor (round_end window horizon cursor) e.grows e.one_day in
    rw (lt→ltb _ _ k, planned) (ground (arith, made, rest, e.grows))

-- With enough fuel the loop returns windows that abut and end at the horizon.
plan_loop-Tiles :
    (fuel : ℕ) (window : Timedelta) (horizon cursor : Datetime)
    → 0 < window
    → horizon - cursor < fuel
    → horizon + window ≤ datetime_max
    → horizon + day ≤ datetime_max
    → (ws : List ExportWindow) × (plan_loop fuel window horizon cursor ≡ ok ws)
      × Tiles cursor ws (max cursor horizon)
      × All (λ w. IsEnd window horizon w.start w.end) ws
unfolding plan_loop
plan_loop-Tiles zero window horizon cursor h k l m = absurd (omega arith)
plan_loop-Tiles (suc fuel) window horizon cursor h k l m = elim (Bool-cases (ltb cursor horizon)) [
  | inl before ↦
      let e = round_end-IsEnd window horizon cursor h (omega tests) in
      let stop : Datetime = round_end window horizon cursor in
      let (ws, planned, tiles, ends) =
        plan_loop-Tiles fuel window horizon stop h (omega (arith, e.grows, e.within)) l m in
      (
        record { start = cursor; end = stop } ∷ ws,
        plan_loop-round window horizon cursor fuel h (omega tests) l m planned,
        (refl, e.grows, subst (Tiles stop ws) (omega (arith, e.grows, e.within)) tiles),
        (e, ends),
      )
  | inr past ↦ ([], rw (past, plan_loop), omega tests, tt)
]

-- From a start behind the horizon or past it, with a window that is not empty, a lag margin that the clock allows and no overflow at the end of time, `plan_windows` returns windows that tile [start, now - lag_margin) exactly: each is not empty, lies within one day, is not longer than `window` and ends on an hour boundary (for a window of an hour or more) or at the horizon.
pub plan_windows-Tiles :
    (start now : Datetime) (window lag_margin : Timedelta)
    → 0 < window
    → lag_margin ≤ now
    → now + window ≤ datetime_max
    → now + day ≤ datetime_max
    → (ws : List ExportWindow) × (plan_windows start now window lag_margin ≡ ok ws)
      × Tiles start ws (max start (now - lag_margin))
      × All (λ w. IsEnd window (now - lag_margin) w.start w.end) ws
unfolding plan_windows subtract
plan_windows-Tiles start now window lag_margin h k l m =
    let horizon : Datetime = now - lag_margin in
    let (ws, planned, tiles, ends) =
      plan_loop-Tiles (suc (horizon - start)) window horizon start h (omega arith) (omega arith)
        (omega arith) in
    (ws, rw (le→geb _ _ k) planned, tiles, ends)
