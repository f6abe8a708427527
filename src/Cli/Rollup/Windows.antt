-- ===== src/Cli/Rollup/Windows.antt =====
-- Which spans `rollup-backfill` of telemetry_engine/cli.py aggregates.
use llm_telemetry_engine.Base.{
  ℕ, ◌+◌, ◌-◌, ◌≤◌, ◌<◌, ◌≡◌, refl, ◌⊎◌, inl, inr, Bool, true, Option, none, some, List, ◌++◌, ltb,
  leb, le→geb, lt→ltb, Bool-cases, if-elim, arith, Result, ok, err, value_error, ok-inj,
  if◌then◌else◌,
}
use llm_telemetry_engine.Base.Exec.{Exec, next, pure, lift, ◌>>=◌}
use llm_telemetry_engine.Datetime.{Datetime, Timedelta, subtract}
use llm_telemetry_engine.Storage.Rollups.{
  BackfillPlan, Row, Server, World, or_zero, needs_backfill, missing_spans, plan, backfill,
}
use llm_telemetry_engine.Storage.Rollups.Chunks.{Window, Tiles, Logs, backfill_log}
use llm_telemetry_engine.Cli.Rollup.{
  window_end, clamp, rollup_status, backfill_until, rollup_backfill,
}

-- The log is as it was, or has windows more that tile a part of the time from `low` to `high`, and of the last `hours` of it.
abbrev pub Within : {S : Type 0} → Datetime → Datetime → Timedelta → World S → World S → Type 0
Within low high hours w w' =
    (w'.inserted ≡ w.inserted)
    ⊎ ((windows : List Window) × (start : Datetime) × (reached : Datetime) × Tiles start windows
          reached
        × (w'.inserted ≡ w.inserted ++ windows)
        × (low ≤ start)
        × (high ≤ start + hours)
        × (reached ≤ high))

subtract-within : (m hours t : ℕ) → subtract m hours ≡ ok t → m ≤ t + hours
unfolding subtract
subtract-within m hours t h = elim (Bool-cases (ltb m hours)) [
  | inl less ↦ cc (rw less at h)
  | inr more ↦ let e : m - hours ≡ t = ok-inj (rw more at h) in omega (arith, e)
]

window_end-eq :
    (current : BackfillPlan) (m : Datetime)
    → current.rollup_min ≡ some m
    → window_end current ≡ some m
unfolding window_end
window_end-eq current m h = rw h refl

abbrev planned : Row → Row → BackfillPlan
planned raw rollup = record {
  raw_min = raw.min_ts;
  raw_max = raw.max_ts;
  rollup_min = rollup.min_ts;
  rollup_max = rollup.max_ts;
  raw_rows = or_zero raw.count;
  rollup_spans = or_zero rollup.count;
}

module _ {S : Type 0} (server : Server S) where
  -- Where both queries answer, the plan has their answers.
  plan-eq :
      (w : World S) {raw rollup : Row}
      → server.raw w.database ≡ ok raw
      → server.rollup w.database ≡ ok rollup
      → plan server w ≡ (
        ok (record {
          raw_min = raw.min_ts;
          raw_max = raw.max_ts;
          rollup_min = rollup.min_ts;
          rollup_max = rollup.max_ts;
          raw_rows = or_zero raw.count;
          rollup_spans = or_zero rollup.count;
        }),
        w,
      )
  unfolding plan
  plan-eq w h k = rw (h, k) refl

  module _ (hours : Timedelta) (yes : Bool) (confirm : Result (Unit {0})) where
    Within-of_Logs :
        (r start m : Datetime) (w : World S) (b : Result ℕ × World S)
        → r ≤ start
        → m ≤ start + hours
        → Logs server start m w b.1
        → Within r m hours w (next b (λ aggregated. pure (some aggregated))).1
    Within-of_Logs r start m w (answer, v) late near h = go answer (split h)
      where
        split : Logs server start m w v → Within r m hours w v
        split (inl same) = inl same
        split (inr (windows, reached, tiles, log, up_to)) =
            inr (windows, start, reached, tiles, log, late, near, up_to)

        go :
            (answer : Result ℕ)
            → Within r m hours w v
            → Within r m hours w (next (answer, v) (λ aggregated. pure (some aggregated))).1
        go (ok n) k = k
        go (err e) k = k

    backfill_until-Within :
        (current : BackfillPlan) (r m : Datetime) (w : World S)
        → current.raw_min ≡ some r
        → Within r m hours w (backfill_until server hours yes confirm current (some m) w).1
    unfolding backfill_until subtract clamp
    backfill_until-Within current r m w h =
        rw h (go (subtract m hours) (if yes then ok tt else confirm) (subtract-within m hours))
      where
        go :
            (start : Result Datetime) (asked : Result (Unit {0}))
            → ((t : Datetime) → start ≡ ok t → m ≤ t + hours)
            → Within r m hours w
                (next
                  (start, w)
                  (λ t. lift asked >>= λ _.
                    backfill server (clamp (some r) t) m >>= λ n. pure (some n))).1
        go (err e) asked k = inl refl
        go (ok t) (err e) k = inl refl
        go (ok t) (ok u) k =
            let near = k t refl in
            Within-of_Logs r (clamp (some r) t) m w (backfill server (clamp (some r) t) m w)
              (ground arith) (ground arith) (backfill_log server (clamp (some r) t) m w)

    rollup_backfill_planned :
        (current : BackfillPlan) (r m : Datetime) (w : World S)
        → current.raw_min ≡ some r
        → current.rollup_min ≡ some m
        → Within r m hours w
            ((if needs_backfill current
                then backfill_until server hours yes confirm current (window_end current)
                else pure none)
              w).1
    rollup_backfill_planned current r m w starts covers =
        if-elim (λ (c : Exec (World S) (Option ℕ)). Within r m hours w (c w).1)
          (needs_backfill current)
          (λ needed.
            rw (window_end-eq current m covers) (backfill_until-Within current r m w starts))
          (λ fine. inl refl)

    -- Let the raw spans start at `r` and the rollup at `m`. Whatever comes of `rollup_backfill`, the windows that it aggregates tile a stretch that starts at `r` or later, within the given hours before `m`, and does not reach beyond `m`: no span that the rollup has is aggregated again.
    pub rollup_backfill-Within :
        (w : World S) (raw rollup : Row) (r m : Datetime)
        → server.raw w.database ≡ ok raw
        → server.rollup w.database ≡ ok rollup
        → raw.min_ts ≡ some r
        → rollup.min_ts ≡ some m
        → Within r m hours w (rollup_backfill server hours yes confirm w).1
    unfolding rollup_backfill
    rollup_backfill-Within w raw rollup r m h k starts covers =
        rw (plan-eq w h k) (rollup_backfill_planned _ r m w starts covers)

    backfill_until-stuck :
        (current : BackfillPlan) (r m : Datetime) (w : World S)
        → current.raw_min ≡ some r
        → m ≤ r
        → hours ≤ m
        → (if yes then ok tt else confirm) ≡ ok tt
        → backfill_until server hours yes confirm current (some m) w ≡ (err value_error, w)
    unfolding backfill_until subtract clamp backfill
    backfill_until-stuck current r m w starts early fits asked =
        let late : leb m (if ltb (m - hours) r then r else m - hours) ≡ true = ground arith in
        rw (le→geb hours m fits, asked, starts, late) refl

    -- Let the rollup have fewer spans than the raw table but start no later than it does. Then `rollup_status` says to run `rollup_backfill`, and `rollup_backfill`, confirmed and with hours that fit in the calendar, raises the error of an empty window and aggregates nothing.
    pub rollup_backfill-stuck :
        (w : World S) (raw rollup : Row) (r m : Datetime)
        → server.raw w.database ≡ ok raw
        → server.rollup w.database ≡ ok rollup
        → raw.min_ts ≡ some r
        → rollup.min_ts ≡ some m
        → m ≤ r
        → or_zero rollup.count < or_zero raw.count
        → hours ≤ m
        → (if yes then ok tt else confirm) ≡ ok tt
        → (rollup_status server w ≡ (ok true, w))
          × (rollup_backfill server hours yes confirm w ≡ (err value_error, w))
    unfolding rollup_backfill rollup_status needs_backfill missing_spans
    rollup_backfill-stuck w raw rollup r m h k starts covers early fewer fits asked =
        let needed : ltb 0 (or_zero raw.count - or_zero rollup.count) ≡ true =
          lt→ltb _ _ (omega (arith, fewer)) in
        rw (plan-eq w h k) (
          rw needed (
            refl,
            rw (window_end-eq (planned raw rollup) m covers)
                (backfill_until-stuck (planned raw rollup) r m w starts early fits asked),
          ))
