-- ===== src/ColdTier/Run/Unstreamed.antt =====
-- What `run_export` of telemetry_engine/coldtier/export.py does with a window whose count finds rows
-- and whose stream gives none.
use mathlib.Core.List.{append_assoc}
use llm_telemetry_engine.Base.{
  ℕ, suc, ◌≡◌, refl, ◌∙◌, none, some, true, List, [], ◌∷◌, ◌++◌, map, ok, sym,
}
use llm_telemetry_engine.Datetime.{Datetime, floor_second}
use llm_telemetry_engine.ColdTier.Window.{ExportWindow}
use llm_telemetry_engine.ColdTier.Layout.{Calendar, FilePath}
use llm_telemetry_engine.ColdTier.Export.{
  Engine, WindowResult, streamed_none, is_ok, counted, final, staging, export_window,
}
use llm_telemetry_engine.ColdTier.Export.Files.{set_file_ne}
use llm_telemetry_engine.ColdTier.Export.Refused.{streamed_none-eq}
use llm_telemetry_engine.ColdTier.Run.{Server, Store, ExportResult, export_loop}
use llm_telemetry_engine.ColdTier.Run.Progress.{
  streamed, Distinct, export_loop_ne, export_loop-Progress, loop-next, marked, added,
}

module _ (cal : Calendar) (root : FilePath) (engine : Engine) (server : Server) where
  -- Behind the loop the window has its watermark, and its file is not there.
  abbrev pub IsPassed : ExportWindow → Store → Store → Type 0
  IsPassed w s s' =
      (s'.lake (final cal root w) ≡ none)
      × ((more : List Datetime) × (s'.watermarks ≡ s.watermarks ++ (floor_second w.end ∷ more)))

  -- Let the windows have distinct files, and let the first of them have no file yet. If its count finds rows, its stream then ends normally without one, and its watermark can be written, then, however the loop over all the windows ends, the watermark of that window has been written, and it has no file still: the rows that were counted are passed over.
  pub export_loop-IsPassed :
      (w : ExportWindow) (ws : List ExportWindow) (result : ExportResult) (s : Store) (n : ℕ)
      → Distinct cal root engine (w ∷ ws)
      → engine.count_source w ≡ ok (suc n)
      → streamed cal root engine w ≡ []
      → (engine.stream w).failure ≡ none
      → server.write_failure w.end ≡ none
      → s.lake (final cal root w) ≡ none
      → IsPassed w s (export_loop server cal root engine (w ∷ ws) result s).1
  unfolding is_ok
  export_loop-IsPassed w ws result s n (apart, others, distinct) counts empty complete works
        absent =
      let e = streamed_none-eq cal root w apart engine n s.lake counts empty complete in
      let r : WindowResult = record (counted cal root w (suc n)) {
        skipped = true;
        reason = streamed_none;
      } in
      let result' : ExportResult = record (added cal root engine result r) {
        watermark_after = some w.end;
      } in
      let next = marked cal root engine w s in
      let rest = export_loop-Progress cal root engine server ws result' next distinct in
      let kept = export_loop_ne cal root engine server w ws result' next others in
      let gone : next.lake (final cal root w) ≡ none = rw e (
        set_file_ne s.lake (staging cal root w) (final cal root w) none (λ same. apart (sym same))
        ∙ absent) in
      let returned : (export_window cal root engine w s.lake).0 ≡ ok r = rw e refl in
      rw (loop-next cal root engine server w ws result s returned refl works) (
        kept ∙ gone,
        (
          map (λ (v : ExportWindow). floor_second v.end) rest.done,
          rest.marks
              ∙ append_assoc s.watermarks (floor_second w.end ∷ [])
                  (map (λ (v : ExportWindow). floor_second v.end) rest.done),
        ),
      )
