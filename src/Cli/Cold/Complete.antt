-- ===== src/Cli/Cold/Complete.antt =====
-- What the exit code of `cold export` of telemetry_engine/cli.py says of the lake.
use mathlib.Core.Path.{subst}
use mathlib.Core.List.{append-nil}
use llm_telemetry_engine.Base.{
  ℕ, ◌+◌, ◌-◌, ◌≤◌, ◌<◌, max, ◌≡◌, refl, sym, ap, ◌∙◌, ◌⊎◌, inl, inr, false, Option, none, some,
  List, [], ◌∷◌, ◌++◌, length, length-append, length-map, All, arith, Bool-cases, if-elim,
  if◌then◌else◌, Result, ok, err, Error,
}
use llm_telemetry_engine.Base.Exec.{Exec, next, pure, ◌>>◌, run}
use llm_telemetry_engine.Datetime.{Datetime, Timedelta, date, day, datetime_max, floor_second}
use llm_telemetry_engine.ColdTier.Window.{ExportWindow}
use llm_telemetry_engine.ColdTier.Layout.{Calendar, FilePath}
use llm_telemetry_engine.ColdTier.Layout.Names.{IsCalendar, year_1000}
use llm_telemetry_engine.ColdTier.Plan.{default_window, plan_windows}
use llm_telemetry_engine.ColdTier.Plan.Tiles.{plan_windows-Tiles}
use llm_telemetry_engine.ColdTier.Export.{Engine, Lake, WindowResult, is_ok, export_window}
use llm_telemetry_engine.ColdTier.Run.{
  Server, Store, ExportResult, highest, no_result, all_ok, write_watermark, export, export_loop,
  export_from, run_export,
}
use llm_telemetry_engine.ColdTier.Run.Progress.{IsCovered, Progress, export_loop-Progress}
use llm_telemetry_engine.ColdTier.Run.Coverage.{read_watermark-eq}
use llm_telemetry_engine.ColdTier.Run.Windows.{Tiles-cover, Distinct-of_plan}
use llm_telemetry_engine.Cli.Cold.{exit_code, cold_export}

all_ok-failed :
    (rs : List WindowResult) (r : WindowResult) → is_ok r ≡ false → all_ok (rs ++ (r ∷ [])) ≡ false
unfolding all_ok
all_ok-failed [] r h = rw (h, all_ok) refl
all_ok-failed (q ∷ rs) r h = elim (Bool-cases (is_ok q)) [
  | inl fine ↦ rw (fine, all_ok) (all_ok-failed rs r h)
  | inr failed ↦ rw (failed, all_ok) refl
]

-- A loop that returns has failed on a window, or has written a watermark for each.
abbrev Finishes : List ExportWindow → Store → Result ExportResult × Store → Type 0
Finishes ws s (err e, s') = Unit
Finishes ws s (ok r, s') =
    (all_ok r.windows ≡ false) ⊎ (length s'.watermarks ≡ length s.watermarks + length ws)

Finishes-cons :
    (w : ExportWindow) (ws : List ExportWindow) (s : Store) (lake : Lake) (t : Datetime)
    (m : Result ExportResult × Store)
    → Finishes ws (record { lake = lake; watermarks = s.watermarks ++ (t ∷ []) }) m
    → Finishes (w ∷ ws) s m
Finishes-cons w ws s lake t (err e, s') h = tt
Finishes-cons w ws s lake t (ok r, s') (inl failed) = inl failed
Finishes-cons w ws s lake t (ok r, s') (inr written) =
    inr (omega (arith, written, length-append s.watermarks (t ∷ [])))

code-length :
    (ws : List ExportWindow) (s : Store) (m : Result ExportResult × Store)
    → (next m (λ r. pure (exit_code r))).0 ≡ ok 0
    → Finishes ws s m
    → length m.1.watermarks ≡ length s.watermarks + length ws
code-length ws s (err e, s') h k = cc h
code-length ws s (ok r, s') h (inr written) = written
code-length ws s (ok r, s') h (inl failed) = let one = rw failed at h in cc one

length_zero : {A : Type 0} (xs : List A) → length xs ≡ 0 → xs ≡ []
length_zero [] h = refl
length_zero (x ∷ xs) h = absurd (omega (arith, h))

module _ (server : Server) (cal : Calendar) (root : FilePath) (engine : Engine) where
  export_loop-Finishes :
      (ws : List ExportWindow) (result : ExportResult) (s : Store)
      → Finishes ws s (export_loop server cal root engine ws result s)
  unfolding export_loop export write_watermark
  export_loop-Finishes [] result s = inr (omega arith)
  export_loop-Finishes (w ∷ ws) result s =
      go (export_window cal root engine w s.lake) (λ result' s'. export_loop-Finishes ws result' s')
    where
      written :
          (r : WindowResult) (lake : Lake) (failure : Option Error)
          → ((result' : ExportResult) (s' : Store)
              → Finishes ws s' (export_loop server cal root engine ws result' s'))
          → Finishes (w ∷ ws) s (
              (run failure
                    (λ v. record v { watermarks = v.watermarks ++ (floor_second w.end ∷ []) })
                  >> export_loop server cal root engine ws (record result {
                    windows = result.windows ++ (r ∷ []);
                    watermark_after = some w.end;
                  }))
                (record s { lake = lake }))
      written r lake (some e) rest = tt
      written r lake none rest = Finishes-cons w ws s lake (floor_second w.end) _ (rest _ _)

      go :
          (m : Result WindowResult × Lake)
          → ((result' : ExportResult) (s' : Store)
              → Finishes ws s' (export_loop server cal root engine ws result' s'))
          → Finishes (w ∷ ws) s (
              next
                (m.0, record s { lake = m.1 })
                (λ r.
                  if is_ok r
                  then (write_watermark server w.end
                      >> export_loop server cal root engine ws (record result {
                        windows = result.windows ++ (r ∷ []);
                        watermark_after = some w.end;
                      }))
                  else pure (record result { windows = result.windows ++ (r ∷ []) })))
      go (err e, lake) rest = tt
      go (ok r, lake) rest =
          if-elim
            (λ (m : Exec Store ExportResult). Finishes (w ∷ ws) s (m (record s { lake = lake })))
            (is_ok r) (λ fine. written r lake (server.write_failure w.end) rest)
            (λ failed. inl (all_ok-failed result.windows r failed))

  -- Without a limit or a rewind, and with a watermark, the command runs the loop over the planned windows.
  cold_export-eq :
      (s : Store) (start now : Datetime) (lag_margin : Timedelta) {ws : List ExportWindow}
      → server.now ≡ ok now
      → server.read_failure ≡ none
      → highest s.watermarks ≡ some start
      → plan_windows start now default_window lag_margin ≡ ok ws
      → cold_export server cal root engine none none lag_margin s
        ≡ next
            (export_loop server cal root engine ws
              (record no_result { watermark_before = some start })
              s)
            (λ result. pure (exit_code result))
  unfolding cold_export run_export export_from
  cold_export-eq s start now lag_margin clock reads before planned =
      rw (read_watermark-eq server s start reads before) (rw (clock, planned) refl)

  next-store :
      {A B : Type 0} (m : Result A × Store) (f : A → B) → (next m (λ a. pure (f a))).1 ≡ m.1
  next-store (ok a, s) f = refl
  next-store (err e, s) f = refl

  Progress-IsCovered :
      (ws : List ExportWindow) (s s' : Store)
      → Progress cal root engine ws s s'
      → length s'.watermarks ≡ length s.watermarks + length ws
      → All (IsCovered cal root engine s'.lake) ws
  Progress-IsCovered ws s s' p written =
      let marks : length s'.watermarks ≡ length s.watermarks + length p.done =
        ap length p.marks
        ∙ length-append s.watermarks _
        ∙ ap (λ (n : ℕ). length s.watermarks + n) (length-map p.done (λ w. floor_second w.end)) in
      let parts : length ws ≡ length p.done + length p.rest =
        ap length p.split ∙ length-append p.done p.rest in
      let none_left = length_zero p.rest (omega (arith, written, marks, parts)) in
      let whole : ws ≡ p.done =
        p.split ∙ ap (λ (l : List ExportWindow). p.done ++ l) none_left ∙ append-nil p.done in
      subst (All (IsCovered cal root engine s'.lake)) (sym whole) p.covered

  -- Let the watermark be `start`, in the year 1000 or later, and the clock say `now`, a day before the end of time at least and not before the lag margin. If `cold export`, without a limit and without `--since`, exits with 0, then each instant from `start` up to the lag margin before `now` lies in a window that is covered: its verified rows are in the lake, its count was 0, or nothing was streamed for it.
  pub cold_export_complete :
      (L : IsCalendar cal) (s : Store) (start now t : Datetime) (lag_margin : Timedelta)
      → server.now ≡ ok now
      → server.read_failure ≡ none
      → highest s.watermarks ≡ some start
      → year_1000 ≤ date start
      → lag_margin ≤ now
      → now + day ≤ datetime_max
      → (cold_export server cal root engine none none lag_margin s).0 ≡ ok 0
      → start ≤ t
      → t < now - lag_margin
      → (w : ExportWindow) × IsCovered cal root engine
          (cold_export server cal root engine none none lag_margin s).1.lake
          w
        × (w.start ≤ t)
        × (t < w.end)
  cold_export_complete L s start now t lag_margin clock reads before in_range lag_fits no_overflow
        zero_code h k =
      let (ws, planned, tiles, ends) =
        plan_windows-Tiles start now default_window lag_margin (omega arith) lag_fits (omega arith)
          no_overflow in
      let e = cold_export-eq s start now lag_margin clock reads before planned in
      let first : ExportResult = record no_result { watermark_before = some start } in
      let loop : Result ExportResult × Store = export_loop server cal root engine ws first s in
      let distinct =
        Distinct-of_plan cal L root engine start (now - lag_margin) default_window ws
          (in_range, omega arith) (omega arith) tiles ends in
      let progress = export_loop-Progress cal root engine server ws first s distinct in
      let code = sym (ap (λ (m : Result ℕ × Store). m.0) e) ∙ zero_code in
      let written = code-length ws s loop code (export_loop-Finishes ws first s) in
      let covered = Progress-IsCovered ws s loop.1 progress written in
      let (w, is_covered, early, late) =
        Tiles-cover (IsCovered cal root engine loop.1.lake) start (max start (now - lag_margin)) t
          ws tiles covered h (omega (arith, k)) in
      let same : loop.1 ≡ (cold_export server cal root engine none none lag_margin s).1 =
        sym (ap (λ (m : Result ℕ × Store). m.1) e ∙ next-store loop exit_code) in
      (w, subst (λ (v : Store). IsCovered cal root engine v.lake w) same is_covered, early, late)
