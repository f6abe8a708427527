-- ===== src/ColdTier/Export/Commit.antt =====
-- What `export_window` of telemetry_engine/coldtier/export.py leaves in the lake, on every branch.
use llm_telemetry_engine.Base.{
  ◌≡◌, ◌≢◌, refl, ◌∙◌, inl, inr, Option, none, some, List, [], ◌∷◌, Error, Result, ok, err,
  Bool-cases, ◌==◌,
}
use llm_telemetry_engine.ColdTier.Window.{ExportWindow}
use llm_telemetry_engine.ColdTier.Layout.{Calendar, FilePath}
use llm_telemetry_engine.ColdTier.Batch.{Batch, stream_window}
use llm_telemetry_engine.ColdTier.Export.Files.{set_file_ne, rename_ne}
use llm_telemetry_engine.ColdTier.Export.{
  Engine, Lake, Outcome, WindowResult, is_ok, after, final, staging, counted, conclude, verify,
  write, export_counted, export_window,
}

-- The rule for a call that may raise: what holds of the lake before it, and of each way on, holds after it.
after_keeps :
    {A : Type 0} (P : Lake → Type 0) (r : Result A) (lake : Lake) (f : A → Outcome)
    → P lake
    → ((a : A) → P (f a).1)
    → P (after r lake f).1
after_keeps P (ok a) lake f h k = k a
after_keeps P (err e) lake f h k = h

module _ (cal : Calendar) (root : FilePath) (engine : Engine) (w : ExportWindow) (q : FilePath)
    (not_staged : q ≢ staging cal root w) (not_final : q ≢ final cal root w) where
  conclude_ne : (r : WindowResult) (lake : Lake) → (conclude cal root w r lake).1 q ≡ lake q
  unfolding conclude
  conclude_ne r lake = elim (Bool-cases (is_ok r)) [
    | inl good ↦ rw good (rename_ne lake _ _ q not_staged not_final)
    | inr bad ↦ rw bad (set_file_ne lake _ q none not_staged)
  ]

  verify_ne :
      (r : WindowResult) (written : List Batch) (lake : Lake)
      → (verify cal root engine w r written lake).1 q ≡ lake q
  unfolding verify
  verify_ne r written lake = after_keeps same (engine.parquet_rows written) lake _ refl λ n.
      after_keeps same (engine.source_fingerprint w) lake _ refl λ source.
        after_keeps same (engine.parquet_fingerprint written) lake _ refl
          λ parquet. conclude_ne _ lake
    where
      same : Lake → Type 0
      same l = l q ≡ lake q

  write_ne :
      (r : WindowResult) (batches : List Batch) (failure : Option Error) (lake : Lake)
      → (write cal root engine w r batches failure lake).1 q ≡ lake q
  unfolding write
  write_ne r [] (some e) lake = refl
  write_ne r [] none lake = set_file_ne lake _ q none not_staged
  write_ne r (b ∷ bs) (some e) lake = set_file_ne lake _ q _ not_staged
  write_ne r (b ∷ bs) none lake = verify_ne _ _ _ ∙ set_file_ne lake _ q _ not_staged

  -- Whatever happens, exceptions included, `export_window` changes no file but the window's own and its staging file.
  pub export_window_ne : (lake : Lake) → (export_window cal root engine w lake).1 q ≡ lake q
  unfolding export_window export_counted
  export_window_ne lake =
      after_keeps (λ (l : Lake). l q ≡ lake q) (engine.count_source w) lake _ refl
        λ n. elim (Bool-cases (n == 0)) [
          | inl empty ↦ rw empty refl
          | inr full ↦ rw full (
              write_ne (counted cal root w n) (stream_window (engine.stream w).batches)
                (engine.stream w).failure lake)
        ]
