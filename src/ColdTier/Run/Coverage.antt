-- ===== src/ColdTier/Run/Coverage.antt =====
-- After a run, every instant between the watermark before and the watermark after lies in a window
-- that is covered.
use mathlib.Core.Path.{subst}
use mathlib.Core.List.{foldl, append-nil}
use llm_telemetry_engine.Base.{
  ℕ, zero, suc, ◌+◌, ◌-◌, ◌≤◌, ◌<◌, max, ◌≡◌, sym, Option, none, some, List, [], ◌∷◌, ◌++◌, map,
  All, ok, Result, arith,
}
use llm_telemetry_engine.Datetime.{Datetime, Timedelta, date, datetime_max, day, floor_second}
use llm_telemetry_engine.ColdTier.Window.{ExportWindow}
use llm_telemetry_engine.ColdTier.Layout.{Calendar, FilePath}
use llm_telemetry_engine.ColdTier.Layout.Names.{IsCalendar, year_1000}
use llm_telemetry_engine.ColdTier.Plan.{default_window, plan_windows}
use llm_telemetry_engine.ColdTier.Plan.Tiles.{Tiles, IsEnd, plan_windows-Tiles}
use llm_telemetry_engine.ColdTier.Export.{Engine}
use llm_telemetry_engine.ColdTier.Run.{
  Server, Store, ExportResult, highest, limit, no_result, export_loop, export_from, run_export,
  read_watermark,
}
use llm_telemetry_engine.ColdTier.Run.Progress.{IsCovered, Progress, Distinct, export_loop-Progress}
use llm_telemetry_engine.ColdTier.Run.Windows.{
  Tiles-le, take-prefix, Tiles-cover, Tiles-prefix, Distinct-of_plan, Distinct-prefix,
}

foldl-max-le :
    (m t : Datetime) (ts : List Datetime) → t ≤ m → All (λ u. u ≤ m) ts → foldl max t ts ≤ m
foldl-max-le m t [] h k = h
foldl-max-le m t (u ∷ ts) h k = foldl-max-le m (max t u) ts (omega (arith, k.0)) k.1

le-foldl-max :
    (t : Datetime) (ts : List Datetime) → (t ≤ foldl max t ts) × All (λ u. u ≤ foldl max t ts) ts
le-foldl-max t [] = (omega arith, tt)
le-foldl-max t (u ∷ ts) =
    let (first, rest) = le-foldl-max (max t u) ts in
    (omega (arith, first), (omega (arith, first), rest))

highest-All : (ts : List Datetime) {h : Datetime} → highest ts ≡ some h → All (λ u. u ≤ h) ts
unfolding highest
highest-All [] e = tt
highest-All (t ∷ ts) {h} e =
    let same : foldl max t ts ≡ h = cc in
    subst (λ (m : Datetime). All (λ u. u ≤ m) (t ∷ ts)) same (le-foldl-max t ts)

highest-le :
    (m : Datetime) (ts : List Datetime) {h : Datetime}
    → All (λ u. u ≤ m) ts
    → highest ts ≡ some h
    → h ≤ m
unfolding highest
highest-le m [] k e = cc
highest-le m (t ∷ ts) {h} k e =
    let same : foldl max t ts ≡ h = cc in
    subst (λ (x : Datetime). x ≤ m) same (foldl-max-le m t ts k.0 k.1)

All-le-append :
    (a m : Datetime) (ts us : List Datetime)
    → a ≤ m
    → All (λ u. u ≤ a) ts
    → All (λ u. u ≤ m) us
    → All (λ u. u ≤ m) (ts ++ us)
All-le-append a m [] us h k l = l
All-le-append a m (t ∷ ts) us h k l = (omega (arith, k.0), All-le-append a m ts us h k.1 l)

marks-le :
    (a m : Datetime) (ws : List ExportWindow)
    → Tiles a ws m
    → All (λ u. u ≤ m) (map (λ (w : ExportWindow). floor_second w.end) ws)
marks-le a m [] tiles = tt
marks-le a m (w ∷ ws) tiles =
    (omega (arith, Tiles-le w.end m ws tiles.2), marks-le w.end m ws tiles.2)

limit-prefix :
    (n : Option ℕ) (ws : List ExportWindow) → (rest : List ExportWindow) × (ws ≡ limit n ws ++ rest)
limit-prefix none ws = ([], sym (append-nil ws))
limit-prefix (some zero) ws = ([], sym (append-nil ws))
limit-prefix (some (suc n)) ws = take-prefix (suc n) ws

pub read_watermark-eq :
    (server : Server) (s : Store) (t : Datetime)
    → server.read_failure ≡ none
    → highest s.watermarks ≡ some t
    → read_watermark server s ≡ (ok (some t), s)
unfolding read_watermark
read_watermark-eq server s t reads e = rw reads (rw e)

module _ (cal : Calendar) (L : IsCalendar cal) (root : FilePath) (engine : Engine)
    (server : Server) where
  -- Where there is a watermark, the run is the loop over the planned windows.
  run_export-eq :
      (s : Store) (start now : Datetime) (max_windows : Option ℕ) (lag_margin : Timedelta)
      {ws : List ExportWindow}
      → server.read_failure ≡ none
      → highest s.watermarks ≡ some start
      → plan_windows start now default_window lag_margin ≡ ok ws
      → run_export server cal root engine (some now) max_windows none lag_margin s
        ≡ export_loop server cal root engine
            (limit max_windows ws)
            (record no_result { watermark_before = some start })
            s
  unfolding run_export export_from
  run_export-eq s start now max_windows lag_margin reads e planned =
      rw (read_watermark-eq server s start reads e) (rw planned)

  -- What a run has done by the store `s'`, in terms of the instants that its windows cover.
  abbrev Done : Datetime → Store → Store → Type 0
  Done start s s' =
      (done : List ExportWindow) × (end : Datetime) × Tiles start done end
      × (s'.watermarks ≡ s.watermarks ++ map (λ (w : ExportWindow). floor_second w.end) done)
      × All (IsCovered cal root engine s'.lake) done

  Done-of_Progress :
      (start end : Datetime) (max_windows : Option ℕ) (ws : List ExportWindow) (s s' : Store)
      → Tiles start ws end
      → Progress cal root engine (limit max_windows ws) s s'
      → Done start s s'
  Done-of_Progress start end max_windows ws s s' tiles p =
      let (cut, split) = limit-prefix max_windows ws in
      let (m, limited, _) =
        Tiles-prefix start end (limit max_windows ws) cut
          (subst (λ (vs : List ExportWindow). Tiles start vs end) split tiles) in
      let (k, finished, _) =
        Tiles-prefix start m p.done p.rest
          (subst (λ (vs : List ExportWindow). Tiles start vs m) p.split limited) in
      (p.done, k, finished, p.marks, p.covered)

  loop-Done :
      (s : Store) (start horizon : Datetime) (max_windows : Option ℕ) (ws : List ExportWindow)
      → (year_1000 ≤ date start) × (horizon ≤ datetime_max)
      → Tiles start ws (max start horizon)
      → All (λ w. IsEnd default_window horizon w.start w.end) ws
      → Done start s
          (export_loop server cal root engine
            (limit max_windows ws)
            (record no_result { watermark_before = some start })
            s).1
  loop-Done s start horizon max_windows ws range tiles ends =
      let (cut, split) = limit-prefix max_windows ws in
      let distinct =
        Distinct-of_plan cal L root engine start horizon default_window ws range (omega arith) tiles
          ends in
      let limited =
        Distinct-prefix cal L root engine (limit max_windows ws) cut
          (subst (Distinct cal root engine) split distinct) in
      Done-of_Progress start (max start horizon) max_windows ws s _ tiles
        (export_loop-Progress cal root engine server (limit max_windows ws) _ s limited)

  Done-cover :
      (s s' : Store) (start after t : Datetime)
      → highest s.watermarks ≡ some start
      → Done start s s'
      → highest s'.watermarks ≡ some after
      → start ≤ t
      → t < after
      → (w : ExportWindow) × IsCovered cal root engine s'.lake w × (w.start ≤ t) × (t < w.end)
  Done-cover s s' start after t before (done, end, tiles, marks, covered) later h k =
      let old = highest-All s.watermarks before in
      let bounded =
        All-le-append start end s.watermarks _ (Tiles-le start end done tiles) old
          (marks-le start end done tiles) in
      let reached = highest-le end s'.watermarks (rw marks bounded) later in
      Tiles-cover (IsCovered cal root engine s'.lake) start end t done tiles covered h
        (omega (arith, reached))

  -- Let the watermark before a run be `start`, in the year 1000 or later, and let `now` be a day before the end of time at least and not before the lag margin. However the run ends, also by an exception, and whatever the watermark `after` is then, each instant from `start` up to it lies in a window that is covered: its verified rows are in the lake, its count was 0, or nothing was streamed for it.
  pub run_export-covers :
      (s : Store) (start now after t : Datetime) (max_windows : Option ℕ) (lag_margin : Timedelta)
      → server.read_failure ≡ none
      → highest s.watermarks ≡ some start
      → year_1000 ≤ date start
      → lag_margin ≤ now
      → now + day ≤ datetime_max
      → highest
          (run_export server cal root engine (some now) max_windows none lag_margin s).1.watermarks
        ≡ some after
      → start ≤ t
      → t < after
      → (w : ExportWindow) × IsCovered cal root engine
          (run_export server cal root engine (some now) max_windows none lag_margin s).1.lake
          w
        × (w.start ≤ t)
        × (t < w.end)
  run_export-covers s start now after t max_windows lag_margin reads before in_range lag_fits
        no_overflow later h k =
      let (ws, planned, tiles, ends) =
        plan_windows-Tiles start now default_window lag_margin (omega arith) lag_fits (omega arith)
          no_overflow in
      let done =
        loop-Done s start (now - lag_margin) max_windows ws (in_range, omega arith) tiles ends in
      let e = run_export-eq s start now max_windows lag_margin reads before planned in
      Done-cover s (run_export server cal root engine (some now) max_windows none lag_margin s).1
        start after t before
        (subst (λ (o : Result ExportResult × Store). Done start s o.1) (sym e) done) later h k
