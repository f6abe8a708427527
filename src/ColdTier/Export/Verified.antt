-- ===== src/ColdTier/Export/Verified.antt =====
-- A window that `export_window` reports as exported has been written, read back and compared.
use llm_telemetry_engine.Base.{
  ℕ, ◌<◌, ◌≡◌, ◌≢◌, refl, sym, ap, ◌∙◌, ◌⊎◌, inl, inr, true, false, Option, none, some, List, [],
  ◌∷◌, Error, Result, ok, err, Bool-cases, ==_iff, ◌⊎◌, arith, if◌then◌else◌, ◌==◌,
}
use llm_telemetry_engine.ColdTier.Window.{ExportWindow}
use llm_telemetry_engine.ColdTier.Layout.{Calendar, FilePath}
use llm_telemetry_engine.ColdTier.Fingerprint.{Fingerprint, SameFrom, fingerprints_agree_iff}
use llm_telemetry_engine.ColdTier.Batch.{Batch, stream_window, rows}
use llm_telemetry_engine.ColdTier.Export.Files.{set_file_self, set_file_ne, rename_to, rename_from}
use llm_telemetry_engine.ColdTier.Export.{
  Engine, Lake, Outcome, WindowResult, set_file, is_ok, after, final, staging, counted, compared,
  conclude, verify, write, export_counted, export_window,
}

-- What stands behind a reported export of the window `w`, `batches` being what was streamed with
-- the exception `failure`: the stream ended normally, the rows counted in the hot tier are those
-- written and read back, there are some, and both fingerprints are the same.
pub record IsVerified (engine : Engine) (w : ExportWindow) (batches : List Batch)
    (failure : Option Error) (r : WindowResult) : Type 0 where
  pub complete : failure ≡ none
  pub written : r.written_rows ≡ rows batches
  pub read_back : engine.parquet_rows batches ≡ ok r.verified_rows
  pub equal_counts :
      (r.source_rows ≡ r.written_rows) × (r.written_rows ≡ r.verified_rows) × (0 < r.written_rows)
  pub same_values :
      (s p : Fingerprint) × (engine.source_fingerprint w ≡ ok s)
      × (engine.parquet_fingerprint batches ≡ ok p)
      × SameFrom 0 s p

-- The final file holds the batches, and the staging file is gone.
abbrev pub IsCommitted : Calendar → FilePath → ExportWindow → List Batch → Lake → Type 0
IsCommitted cal root w batches lake =
    (lake (final cal root w) ≡ some batches) × (lake (staging cal root w) ≡ none)

after-ok :
    {A : Type 0} (m : Result A) (lake : Lake) (f : A → Outcome) {r : WindowResult}
    → (after m lake f).0 ≡ ok r
    → (a : A) × (m ≡ ok a) × (after m lake f ≡ f a)
after-ok (ok a) lake f h = (a, refl, refl)
after-ok (err e) lake f h = cc

is_ok_lem :
    (r : WindowResult)
    → is_ok r ≡ true
    → r.skipped ≡ false
    → ((r.source_rows ≡ r.written_rows) × (r.written_rows ≡ r.verified_rows) × (0 < r.written_rows))
      × (r.fingerprint_matched ≡ true)
unfolding is_ok
is_ok_lem r h k = ground arith

module _ (cal : Calendar) (root : FilePath) (w : ExportWindow)
    (apart : staging cal root w ≢ final cal root w) where
  conclude-ok :
      (r : WindowResult) (lake : Lake) {r' : WindowResult}
      → (conclude cal root w r lake).0 ≡ ok r'
      → (r' ≡ r)
        × ((conclude cal root w r lake).1 (staging cal root w) ≡ none)
        × ((conclude cal root w r lake).1 (final cal root w)
            ≡ (if is_ok r then lake (staging cal root w) else lake (final cal root w)))
  unfolding conclude
  conclude-ok r lake h = elim (Bool-cases (is_ok r)) [
    | inl good ↦ rw good (
      ground (arith, good),
      rename_from lake (staging cal root w) (final cal root w),
      rename_to lake (staging cal root w) (final cal root w) (λ e. apart (sym e)),
    )
    | inr bad ↦ rw bad (
      ground (arith, bad),
      set_file_self lake _ none,
      set_file_ne lake _ _ none (λ e. apart (sym e)),
    )
  ]

  verify-ok :
      (engine : Engine) (r : WindowResult) (written : List Batch) (lake : Lake) {r' : WindowResult}
      → (verify cal root engine w r written lake).0 ≡ ok r'
      → (n : ℕ) × (s : Fingerprint) × (p : Fingerprint) × (engine.parquet_rows written ≡ ok n)
        × (engine.source_fingerprint w ≡ ok s)
        × (engine.parquet_fingerprint written ≡ ok p)
        × (verify cal root engine w r written lake
            ≡ conclude cal root w
                (compared
                  (record r { verified_rows = n; bytes_on_disk = engine.file_size written })
                  s
                  p)
                lake)
  unfolding verify
  verify-ok engine r written lake h =
      let (n, read, e1) = after-ok (engine.parquet_rows written) lake _ h in
      let (s, source, e2) = after-ok (engine.source_fingerprint w) lake _ (rw (read) at h) in
      let (p, parquet, e3) =
        after-ok (engine.parquet_fingerprint written) lake _ (rw (source) at (rw (read) at h)) in
      (n, s, p, read, source, parquet, e1 ∙ (e2 ∙ e3))

  write-IsVerified :
      (engine : Engine) (r : WindowResult) (batches : List Batch) (failure : Option Error)
      (lake : Lake) {r' : WindowResult}
      → (write cal root engine w r batches failure lake).0 ≡ ok r'
      → is_ok r' ≡ true
      → r'.skipped ≡ false
      → (r'.source_rows ≡ r.source_rows)
        × IsVerified engine w batches failure r'
        × IsCommitted cal root w batches (write cal root engine w r batches failure lake).1
  unfolding write
  write-IsVerified engine r [] none lake h good full = ground arith
  write-IsVerified engine r [] (some e) lake h good full = cc
  write-IsVerified engine r (b ∷ bs) (some e) lake h good full = cc
  write-IsVerified engine r (b ∷ bs) none lake {r'} h good full =
      let staged : Lake = set_file lake (staging cal root w) (some (b ∷ bs)) in
      let r1 : WindowResult = record r { written_rows = rows (b ∷ bs) } in
      let (n, s, p, read, source, parquet, e) = verify-ok engine r1 (b ∷ bs) staged h in
      let r2 : WindowResult =
        compared (record r1 { verified_rows = n; bytes_on_disk = engine.file_size (b ∷ bs) }) s p in
      let (same, gone, moved) = conclude-ok r2 staged (ap (λ (o : Outcome). o.0) (sym e) ∙ h) in
      let (counts, matched) = is_ok_lem r' good full in
      (
        ap (λ (x : WindowResult). x.source_rows) same,
        record {
          complete = refl;
          written = ap (λ (x : WindowResult). x.written_rows) same;
          read_back = rw same read;
          equal_counts = counts;
          same_values = (
            s,
            p,
            source,
            parquet,
            (fingerprints_agree_iff s p).0
                (ap (λ (x : WindowResult). x.fingerprint_matched) (sym same) ∙ matched),
          );
        },
        (
          ap (λ (o : Outcome). o.1 (final cal root w)) e
              ∙ (moved
                  ∙ rw (ap is_ok (sym same) ∙ good)
                      (set_file_self lake (staging cal root w) (some (b ∷ bs)))),
          rw e gone,
        ),
      )

  export_counted-full :
      (engine : Engine) (n : ℕ) (lake : Lake)
      → (n == 0) ≡ false
      → export_counted cal root engine w n lake
        ≡ write cal root engine w
            (counted cal root w n)
            (stream_window (engine.stream w).batches)
            (engine.stream w).failure
            lake
  unfolding export_counted
  export_counted-full engine n lake h = rw h

  export_counted-IsVerified :
      (engine : Engine) (n : ℕ) (lake : Lake) {r : WindowResult}
      → (export_counted cal root engine w n lake).0 ≡ ok r
      → is_ok r ≡ true
      → r.skipped ≡ false
      → (r.source_rows ≡ n)
        × IsVerified engine w (stream_window (engine.stream w).batches) (engine.stream w).failure r
        × IsCommitted cal root w
            (stream_window (engine.stream w).batches)
            (export_counted cal root engine w n lake).1
  unfolding export_counted
  export_counted-IsVerified engine n lake h good full = elim (Bool-cases (n == 0)) [
    | inl empty ↦ ground arith
    | inr some_rows ↦
        let e = export_counted-full engine n lake some_rows in
        rw e (
          write-IsVerified engine (counted cal root w n) (stream_window (engine.stream w).batches)
            (engine.stream w).failure lake (ap (λ (o : Outcome). o.0) (sym e) ∙ h) good full)
  ]

  -- Where the staging path is not the final one: if `export_window` returns a result that is ok and not skipped, then the stream ended without an exception, the rows counted, written and read back are equally many and not none, the fingerprints of the hot tier and of the file are the same, the final file holds the streamed batches, and the staging file is gone.
  pub export_window-IsVerified :
      (engine : Engine) (lake : Lake) {r : WindowResult}
      → (export_window cal root engine w lake).0 ≡ ok r
      → is_ok r ≡ true
      → r.skipped ≡ false
      → (engine.count_source w ≡ ok r.source_rows)
        × IsVerified engine w (stream_window (engine.stream w).batches) (engine.stream w).failure r
        × IsCommitted cal root w
            (stream_window (engine.stream w).batches)
            (export_window cal root engine w lake).1
  unfolding export_window
  export_window-IsVerified engine lake {r} h good full =
      let (n, counts, e) =
        after-ok (engine.count_source w) lake (λ n. export_counted cal root engine w n lake) h in
      let (same, verified, committed) =
        export_counted-IsVerified engine n lake (ap (λ (o : Outcome). o.0) (sym e) ∙ h) good full in
      (counts ∙ ap ok (sym same), verified, rw e committed)

  write-skipped :
      (engine : Engine) (r : WindowResult) (batches : List Batch) (failure : Option Error)
      (lake : Lake) {r' : WindowResult}
      → (write cal root engine w r batches failure lake).0 ≡ ok r'
      → r.skipped ≡ false
      → r'.skipped ≡ true
      → batches ≡ []
  unfolding write
  write-skipped engine r [] failure lake h full skip = refl
  write-skipped engine r (b ∷ bs) (some e) lake h full skip = cc
  write-skipped engine r (b ∷ bs) none lake {r'} h full skip =
      let staged : Lake = set_file lake (staging cal root w) (some (b ∷ bs)) in
      let r1 : WindowResult = record r { written_rows = rows (b ∷ bs) } in
      let (n, s, p, read, source, parquet, e) = verify-ok engine r1 (b ∷ bs) staged h in
      let r2 : WindowResult =
        compared (record r1 { verified_rows = n; bytes_on_disk = engine.file_size (b ∷ bs) }) s p in
      let (same, gone, moved) = conclude-ok r2 staged (ap (λ (o : Outcome). o.0) (sym e) ∙ h) in
      cc (ap (λ (x : WindowResult). x.skipped) same)

  -- A skipped result means that the count was 0 or that nothing was streamed.
  pub export_window-skipped :
      (engine : Engine) (lake : Lake) {r : WindowResult}
      → (export_window cal root engine w lake).0 ≡ ok r
      → r.skipped ≡ true
      → (engine.count_source w ≡ ok 0) ⊎ (stream_window (engine.stream w).batches ≡ [])
  unfolding export_window
  export_window-skipped engine lake {r} h skip =
      let (n, counts, e) =
        after-ok (engine.count_source w) lake (λ n. export_counted cal root engine w n lake) h in
      elim (Bool-cases (n == 0)) [
        | inl empty ↦ inl (counts ∙ ap ok ((==_iff n 0).0 empty))
        | inr full ↦ inr (
            write-skipped engine (counted cal root w n) (stream_window (engine.stream w).batches)
              (engine.stream w).failure lake
              (ap (λ (o : Outcome). o.0) (sym (e ∙ export_counted-full engine n lake full)) ∙ h)
              refl skip)
      ]
