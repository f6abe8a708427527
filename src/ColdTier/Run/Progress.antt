-- ===== src/ColdTier/Run/Progress.antt =====
-- The watermark of `run_export` never passes a window that is not in the lake, but for those that
-- had nothing to write.
use mathlib.Core.List.{append_assoc, append-nil}
use llm_telemetry_engine.Base.{
  ◌≡◌, ◌≢◌, refl, sym, ap, ◌∙◌, ◌⊎◌, inl, inr, true, false, none, some, List, [], ◌∷◌, ◌++◌, map,
  Error, Result, ok, err, Bool-cases, Result-cases, Option-cases, All,
}
use llm_telemetry_engine.Datetime.{floor_second}
use llm_telemetry_engine.ColdTier.Window.{ExportWindow}
use llm_telemetry_engine.ColdTier.Layout.{Calendar, FilePath}
use llm_telemetry_engine.ColdTier.Batch.{Batch, stream_window}
use llm_telemetry_engine.ColdTier.Export.{
  Engine, Lake, WindowResult, is_ok, final, staging, export_window,
}
use llm_telemetry_engine.ColdTier.Export.Commit.{export_window_ne}
use llm_telemetry_engine.ColdTier.Export.Verified.{
  IsVerified, export_window-IsVerified, export_window-skipped,
}
use llm_telemetry_engine.ColdTier.Run.{
  Server, Store, ExportResult, export, export_loop, write_watermark,
}

module _ (cal : Calendar) (root : FilePath) (engine : Engine) where
  abbrev pub streamed : ExportWindow → List Batch
  streamed w = stream_window (engine.stream w).batches

  -- Nothing was counted, nothing was streamed, or the lake holds what was streamed and verified.
  abbrev pub IsCovered : Lake → ExportWindow → Type 0
  IsCovered lake w =
      (engine.count_source w ≡ ok 0)
      ⊎ (streamed w ≡ [])
      ⊎ ((r : WindowResult) × (engine.count_source w ≡ ok r.source_rows)
          × IsVerified engine w (streamed w) (engine.stream w).failure r
          × (lake (final cal root w) ≡ some (streamed w)))

  -- Exporting `v` leaves the file of `w` alone.
  abbrev pub Apart : ExportWindow → ExportWindow → Type 0
  Apart w v = (final cal root w ≢ staging cal root v) × (final cal root w ≢ final cal root v)

  abbrev pub Distinct : List ExportWindow → Type 0
  Distinct [] = Unit
  Distinct (w ∷ ws) = (staging cal root w ≢ final cal root w) × All (Apart w) ws × Distinct ws

  export_window-IsCovered :
      (w : ExportWindow) (lake : Lake) {r : WindowResult}
      → staging cal root w ≢ final cal root w
      → (export_window cal root engine w lake).0 ≡ ok r
      → is_ok r ≡ true
      → IsCovered (export_window cal root engine w lake).1 w
  export_window-IsCovered w lake {r} apart h good = elim (Bool-cases r.skipped) [
    | inl skip ↦ elim (export_window-skipped cal root w apart engine lake h skip) [
      | inl nothing ↦ inl nothing
      | inr nothing ↦ inr (inl nothing)
    ]
    | inr full ↦
        let (counts, verified, (held, gone)) =
          export_window-IsVerified cal root w apart engine lake h good full in
        inr (inr (r, counts, verified, held))
  ]

  -- The store after one window, before and after its watermark is written.
  abbrev pub exported : ExportWindow → Store → Store
  exported w s = record s { lake = (export_window cal root engine w s.lake).1 }

  abbrev pub marked : ExportWindow → Store → Store
  marked w s = record (exported w s) { watermarks = s.watermarks ++ (floor_second w.end ∷ []) }

  abbrev pub added : ExportResult → WindowResult → ExportResult
  added result r = record result { windows = result.windows ++ (r ∷ []) }

  export-eq :
      (server : Server) (w : ExportWindow) (s : Store) {r : Result WindowResult}
      → (export_window cal root engine w s.lake).0 ≡ r
      → export server cal root engine w s ≡ (r, exported w s)
  unfolding export
  export-eq server w s h = ap (λ (r : Result WindowResult). (r, exported w s)) h

  module _ (server : Server) (w : ExportWindow) (ws : List ExportWindow) (result : ExportResult)
      (s : Store) where
    loop-raised :
        {e : Error}
        → (export_window cal root engine w s.lake).0 ≡ err e
        → export_loop server cal root engine (w ∷ ws) result s ≡ (err e, exported w s)
    unfolding export_loop
    loop-raised h = rw (export-eq server w s h)

    loop-halted :
        {r : WindowResult}
        → (export_window cal root engine w s.lake).0 ≡ ok r
        → is_ok r ≡ false
        → export_loop server cal root engine (w ∷ ws) result s ≡ (ok (added result r), exported w s)
    unfolding export_loop
    loop-halted h bad = rw (export-eq server w s h) (rw bad)

    loop-unmarked :
        {r : WindowResult} {e : Error}
        → (export_window cal root engine w s.lake).0 ≡ ok r
        → is_ok r ≡ true
        → server.write_failure w.end ≡ some e
        → export_loop server cal root engine (w ∷ ws) result s ≡ (err e, exported w s)
    unfolding export_loop write_watermark
    loop-unmarked h good fails = rw (export-eq server w s h) (rw good (rw fails))

    pub loop-next :
        {r : WindowResult}
        → (export_window cal root engine w s.lake).0 ≡ ok r
        → is_ok r ≡ true
        → server.write_failure w.end ≡ none
        → export_loop server cal root engine (w ∷ ws) result s
          ≡ export_loop server cal root engine ws
              (record (added result r) { watermark_after = some w.end })
              (marked w s)
    unfolding export_loop write_watermark
    loop-next h good works = rw (export-eq server w s h) (rw good (rw works))

  -- What a run over `ws` from the store `s` has done at the store `s'`: the windows `done`, in
  -- order from the first, have each their watermark and are covered, and nothing else is written
  -- to the table.
  pub record Progress (ws : List ExportWindow) (s s' : Store) : Type 0 where
    pub done : List ExportWindow
    pub rest : List ExportWindow
    pub split : ws ≡ done ++ rest
    pub marks : s'.watermarks ≡ s.watermarks ++ map (λ (w : ExportWindow). floor_second w.end) done
    pub covered : All (IsCovered s'.lake) done

  none_done :
      (ws : List ExportWindow) (s s' : Store) → s'.watermarks ≡ s.watermarks → Progress ws s s'
  none_done ws s s' h = record {
    done = [];
    rest = ws;
    split = refl;
    marks = h ∙ sym (append-nil s.watermarks);
    covered = tt;
  }

  module _ (server : Server) where
    -- A file that no window of the run writes is not touched.
    pub export_loop_ne :
        (w : ExportWindow) (ws : List ExportWindow) (result : ExportResult) (s : Store)
        → All (Apart w) ws
        → (export_loop server cal root engine ws result s).1.lake (final cal root w)
          ≡ s.lake (final cal root w)
    unfolding export_loop
    export_loop_ne w [] result s h = refl
    export_loop_ne w (v ∷ vs) result s (apart, h) =
        let same = export_window_ne cal root engine v (final cal root w) apart.0 apart.1 s.lake in
        elim (Result-cases (export_window cal root engine v s.lake).0) [
          | inr (e, raised) ↦ rw (loop-raised server v vs result s raised) same
          | inl (r, returned) ↦ elim (Bool-cases (is_ok r)) [
            | inr bad ↦ rw (loop-halted server v vs result s returned bad) same
            | inl good ↦ elim (Option-cases (server.write_failure v.end)) [
              | inr (e, fails) ↦ rw (loop-unmarked server v vs result s returned good fails) same
              | inl works ↦ rw (loop-next server v vs result s returned good works) (
                  export_loop_ne w vs (record (added result r) { watermark_after = some v.end })
                    (marked v s) h
                  ∙ same)
            ]
          ]
        ]

    IsCovered-later :
        (w : ExportWindow) (lake lake' : Lake)
        → lake' (final cal root w) ≡ lake (final cal root w)
        → IsCovered lake w
        → IsCovered lake' w
    IsCovered-later w lake lake' same (inl nothing) = inl nothing
    IsCovered-later w lake lake' same (inr (inl nothing)) = inr (inl nothing)
    IsCovered-later w lake lake' same (inr (inr (r, counts, verified, held))) =
        inr (inr (r, counts, verified, same ∙ held))

    -- One more window in front of a run's progress.
    one_done :
        (w : ExportWindow) (ws : List ExportWindow) (s s' : Store)
        → IsCovered s'.lake w
        → Progress ws (marked w s) s'
        → Progress (w ∷ ws) s s'
    one_done w ws s s' covered p = record {
      done = w ∷ p.done;
      rest = p.rest;
      split = ap (λ (vs : List ExportWindow). w ∷ vs) p.split;
      marks =
          p.marks
          ∙ append_assoc s.watermarks (floor_second w.end ∷ [])
              (map (λ (v : ExportWindow). floor_second v.end) p.done);
      covered = (covered, p.covered);
    }

    -- However the loop over windows with distinct files ends, by the last window, by one that is not ok or by an exception, it has written one watermark for each window of a first part of the list, in order, and no other, and every window of that part is covered: it has its verified rows in the lake, its count was 0, or nothing was streamed for it.
    pub export_loop-Progress :
        (ws : List ExportWindow) (result : ExportResult) (s : Store)
        → Distinct ws
        → Progress ws s (export_loop server cal root engine ws result s).1
    unfolding export_loop
    export_loop-Progress [] result s h = none_done [] s s refl
    export_loop-Progress (w ∷ ws) result s (apart, others, distinct) =
        elim (Result-cases (export_window cal root engine w s.lake).0) [
          | inr (e, raised) ↦
              rw (loop-raised server w ws result s raised)
                (none_done (w ∷ ws) s (exported w s) refl)
          | inl (r, returned) ↦ elim (Bool-cases (is_ok r)) [
            | inr bad ↦
                rw (loop-halted server w ws result s returned bad)
                  (none_done (w ∷ ws) s (exported w s) refl)
            | inl good ↦ elim (Option-cases (server.write_failure w.end)) [
              | inr (e, fails) ↦
                  rw (loop-unmarked server w ws result s returned good fails)
                    (none_done (w ∷ ws) s (exported w s) refl)
              | inl works ↦
                  let result' : ExportResult = record (added result r) {
                    watermark_after = some w.end;
                  } in
                  let after_rest : Store =
                    (export_loop server cal root engine ws result' (marked w s)).1 in
                  rw (loop-next server w ws result s returned good works) (
                    one_done w ws s after_rest
                      (IsCovered-later w (exported w s).lake after_rest.lake
                        (export_loop_ne w ws result' (marked w s) others)
                        (export_window-IsCovered w s.lake apart returned good))
                      (export_loop-Progress ws result' (marked w s) distinct))
            ]
          ]
        ]
