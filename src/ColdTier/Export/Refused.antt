-- ===== src/ColdTier/Export/Refused.antt =====
-- What `export_window` of telemetry_engine/coldtier/export.py does where it commits nothing: a
-- failed check, an exception, and the two skips.
use llm_telemetry_engine.Base.{
  ℕ, suc, ◌≡◌, ◌≢◌, refl, sym, ◌∙◌, ◌⊎◌, inl, inr, true, false, Option, none, some, List, [], ◌∷◌,
  Error, Result, ok, err, Bool-cases, arith, ◌==◌,
}
use llm_telemetry_engine.ColdTier.Window.{ExportWindow}
use llm_telemetry_engine.ColdTier.Layout.{Calendar, FilePath}
use llm_telemetry_engine.ColdTier.Batch.{Batch, stream_window}
use llm_telemetry_engine.ColdTier.Export.Files.{set_file_ne}
use llm_telemetry_engine.ColdTier.Export.{
  Engine, Lake, Outcome, WindowResult, streamed_none, set_file, is_ok, after, final, staging,
  counted, conclude, verify, write, export_counted, export_window,
}

-- The file at `p` is as in `before`, or a window was reported as exported.
abbrev pub Keeps : FilePath → Lake → Outcome → Type 0
Keeps p before o =
    (o.1 p ≡ before p)
    ⊎ ((r : WindowResult) × (o.0 ≡ ok r) × (is_ok r ≡ true) × (r.skipped ≡ false))

suc_ne_zero : (n : ℕ) → (suc n == 0) ≡ false
suc_ne_zero n = ground arith

after_cases :
    {A : Type 0} (P : Outcome → Type 0) (m : Result A) (lake : Lake) (f : A → Outcome)
    → ((e : Error) → P (err e, lake))
    → ((a : A) → P (f a))
    → P (after m lake f)
after_cases P (ok a) lake f h k = k a
after_cases P (err e) lake f h k = h e

module _ (cal : Calendar) (root : FilePath) (w : ExportWindow)
    (apart : staging cal root w ≢ final cal root w) where
  apart' : final cal root w ≢ staging cal root w
  apart' e = apart (sym e)

  conclude-Keeps :
      (r : WindowResult) (before lake : Lake)
      → r.skipped ≡ false
      → lake (final cal root w) ≡ before (final cal root w)
      → Keeps (final cal root w) before (conclude cal root w r lake)
  unfolding conclude
  conclude-Keeps r before lake full same = elim (Bool-cases (is_ok r)) [
    | inl good ↦ inr (r, rw good, good, full)
    | inr bad ↦
        inl (rw bad (set_file_ne lake (staging cal root w) (final cal root w) none apart' ∙ same))
  ]

  module _ (engine : Engine) where
    write-Keeps :
        (r : WindowResult) (batches : List Batch) (failure : Option Error) (lake : Lake)
        → r.skipped ≡ false
        → Keeps (final cal root w) lake (write cal root engine w r batches failure lake)
    unfolding write verify
    write-Keeps r [] (some e) lake full = inl refl
    write-Keeps r [] none lake full =
        inl (set_file_ne lake (staging cal root w) (final cal root w) none apart')
    write-Keeps r (b ∷ bs) (some e) lake full =
        inl (set_file_ne lake (staging cal root w) (final cal root w) (some (b ∷ bs)) apart')
    write-Keeps r (b ∷ bs) none lake full =
        let staged : Lake = set_file lake (staging cal root w) (some (b ∷ bs)) in
        let same =
          set_file_ne lake (staging cal root w) (final cal root w) (some (b ∷ bs)) apart' in
        let P : Outcome → Type 0 = Keeps (final cal root w) lake in
        after_cases P (engine.parquet_rows (b ∷ bs)) staged _ (λ e. inl same)
          λ n.
            after_cases P (engine.source_fingerprint w) staged _ (λ e. inl same)
              λ source.
                after_cases P (engine.parquet_fingerprint (b ∷ bs)) staged _ (λ e. inl same)
                  λ parquet. conclude-Keeps _ lake staged full same

    -- Where the staging path is not the final one: unless `export_window` returns a result that is ok and not skipped, the window's final file is what it was before: a failed check, a skip and an exception all leave an earlier export in place.
    pub export_window-Keeps :
        (lake : Lake) → Keeps (final cal root w) lake (export_window cal root engine w lake)
    unfolding export_window export_counted
    export_window-Keeps lake =
        after_cases (Keeps (final cal root w) lake) (engine.count_source w) lake _ (λ e. inl refl)
          λ n. elim (Bool-cases (n == 0)) [
            | inl empty ↦ rw empty (inl refl)
            | inr full ↦ rw full (
                write-Keeps _ (stream_window (engine.stream w).batches) (engine.stream w).failure
                  lake refl)
          ]

    pub streamed_none-eq :
        (n : ℕ) (lake : Lake)
        → engine.count_source w ≡ ok (suc n)
        → stream_window (engine.stream w).batches ≡ []
        → (engine.stream w).failure ≡ none
        → export_window cal root engine w lake ≡ (
          ok (record (counted cal root w (suc n)) { skipped = true; reason = streamed_none }),
          set_file lake (staging cal root w) none,
        )
    unfolding export_window export_counted write
    streamed_none-eq n lake counts nothing complete =
        rw counts (rw (suc_ne_zero n) (rw (nothing, complete, write)))
