-- ===== src/ColdTier/Export.antt =====
-- `export_window` of telemetry_engine/coldtier/export.py: write, verify, then commit by rename.
pub mod Files
pub mod Commit
pub mod Verified
pub mod Refused
use mathlib.Core.Logic.{ite}
use llm_telemetry_engine.Base.{
  ℕ, Bool, true, false, ◌&&◌, ◌||◌, Option, none, some, List, [], ◌∷◌, ltb, ◌==◌, if◌then◌else◌,
  Error, Result, ok, err,
}
use llm_telemetry_engine.ColdTier.Window.{ExportWindow}
use llm_telemetry_engine.ColdTier.Layout.{
  Calendar, FilePath, FilePath-discrete, file_path, temp_path,
}
use llm_telemetry_engine.ColdTier.Fingerprint.{Fingerprint, fingerprints_agree}
use llm_telemetry_engine.ColdTier.Batch.{Batch, stream_window, rows}

-- What arrives of a streamed query, and the exception that ended it early, if one did.
pub record Stream : Type 0 where
  pub batches : List Batch
  pub failure : Option Error

-- ClickHouse, DuckDB and pyarrow as one run meets them: what each query of a window answers, and
-- what each reader says of a file that holds these batches. A run asks each question of a window
-- once, so rows that arrive in between are in these answers.
pub record Engine : Type 0 where
  pub count_source : ExportWindow → Result ℕ
  pub stream : ExportWindow → Stream
  pub source_fingerprint : ExportWindow → Result Fingerprint
  pub parquet_rows : List Batch → Result ℕ
  pub parquet_fingerprint : List Batch → Result Fingerprint
  pub file_size : List Batch → ℕ

-- The files below the lake's root, by path. Directories are made on demand.
abbrev pub Lake : Type 0
Lake = FilePath → Option (List Batch)

unfoldable pub set_file : Lake → FilePath → Option (List Batch) → Lake
set_file lake path content q = ite (FilePath-discrete q path) content (lake q)

-- `staging.replace(final)`
unfoldable pub rename : Lake → FilePath → FilePath → Lake
rename lake from to = set_file (set_file lake to (lake from)) from none

pub data Reason : Type 0 where
  no_reason no_rows streamed_none : Reason
  fingerprint_mismatch : Fingerprint → Fingerprint → Reason

pub record WindowResult : Type 0 where
  pub window : ExportWindow
  pub path : FilePath
  pub source_rows : ℕ
  pub written_rows : ℕ
  pub verified_rows : ℕ
  pub bytes_on_disk : ℕ
  pub skipped : Bool
  pub reason : Reason
  pub fingerprint_matched : Bool

-- `WindowResult.ok`
unfoldable pub is_ok : WindowResult → Bool
is_ok r =
    r.skipped
    || (r.source_rows == r.written_rows
        && r.written_rows == r.verified_rows
        && ltb 0 r.written_rows
        && r.fingerprint_matched)

-- A call's result, and the files that it leaves. What was done before an exception stays done.
abbrev pub Outcome : Type 0
Outcome = Result WindowResult × Lake

abbrev pub after : {A : Type 0} → Result A → Lake → (A → Outcome) → Outcome
after (err e) lake f = (err e, lake)
after (ok a) lake f = f a

-- The result once both fingerprints are read.
abbrev pub compared : WindowResult → Fingerprint → Fingerprint → WindowResult
compared r source parquet = record r {
  fingerprint_matched = fingerprints_agree source parquet;
  reason =
      if fingerprints_agree source parquet then r.reason else fingerprint_mismatch source parquet;
}

module _ (cal : Calendar) (root : FilePath) (w : ExportWindow) where
  abbrev pub final : FilePath
  final = file_path cal root w

  abbrev pub staging : FilePath
  staging = temp_path (file_path cal root w)

  -- `WindowResult(window=window, path=final)` with `source_rows`
  abbrev pub counted : ℕ → WindowResult
  counted n = record {
    window = w;
    path = file_path cal root w;
    source_rows = n;
    written_rows = 0;
    verified_rows = 0;
    bytes_on_disk = 0;
    skipped = false;
    reason = no_reason;
    fingerprint_matched = false;
  }

  -- `if not result.ok: ... return` and the rename
  unfoldable pub conclude : WindowResult → Lake → Outcome
  conclude r lake =
      if is_ok r then (ok r, rename lake staging final) else (ok r, set_file lake staging none)

module _ (cal : Calendar) (root : FilePath) (engine : Engine) (w : ExportWindow) where
  -- The part behind the write: read back, compare, commit.
  unfoldable pub verify : WindowResult → List Batch → Lake → Outcome
  verify r written lake = after (engine.parquet_rows written) lake λ n.
      after (engine.source_fingerprint w) lake λ source.
        after (engine.parquet_fingerprint written) lake λ parquet.
          conclude cal root w
            (compared (record r { verified_rows = n; bytes_on_disk = engine.file_size written })
              source parquet)
            lake

  -- The loop over the stream writes the staging file with its first batch.
  unfoldable pub write : WindowResult → List Batch → Option Error → Lake → Outcome
  write r [] (some e) lake = (err e, lake)
  write r [] none lake = (
    ok (record r { skipped = true; reason = streamed_none }),
    set_file lake (staging cal root w) none,
  )
  write r (b ∷ bs) (some e) lake = (err e, set_file lake (staging cal root w) (some (b ∷ bs)))
  write r (b ∷ bs) none lake =
      verify (record r { written_rows = rows (b ∷ bs) }) (b ∷ bs)
        (set_file lake (staging cal root w) (some (b ∷ bs)))

  -- The part behind the count.
  unfoldable pub export_counted : ℕ → Lake → Outcome
  export_counted n lake =
      if n == 0
      then (ok (record (counted cal root w n) { skipped = true; reason = no_rows }), lake)
      else write (counted cal root w n) (stream_window (engine.stream w).batches)
          (engine.stream w).failure lake

  unfoldable pub export_window : Lake → Outcome
  export_window lake = after (engine.count_source w) lake λ n. export_counted n lake
