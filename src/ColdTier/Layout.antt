-- ===== src/ColdTier/Layout.antt =====
-- telemetry_engine/coldtier/layout.py: where the files of the lake stand, and what their names say.
pub mod Pattern
pub mod Shapes
pub mod Names
use mathlib.Core.List.{List-discrete}
use native.Mathlib.Decide.{ℕ_discrete}
use llm_telemetry_engine.Base.{
  ℕ, Bool, Option, none, some, List, [], ◌∷◌, ◌++◌, Result, ok, err, value_error, ◌>>=◌,
}
use llm_telemetry_engine.Base.Text.{Text, codes, with_suffix}
use llm_telemetry_engine.Datetime.{Datetime}
use llm_telemetry_engine.ColdTier.Window.{ExportWindow, new_window, partition_date}

-- The formats of the standard library that the names use, and what `\d` of `re` accepts.
pub record Calendar : Type 0 where
  pub is_digit : ℕ → Bool
  -- `t.strftime("%Y%m%dT%H%M%S")` and `datetime.strptime`, `none` for its `ValueError`
  pub strftime : Datetime → Text
  pub strptime : Text → Option Datetime
  -- `d.isoformat()` and `date.fromisoformat`
  pub isoformat : ℕ → Text
  pub fromisoformat : Text → Option ℕ

-- A path, innermost component first.
abbrev pub FilePath : Type 0
FilePath = List Text

unfoldable pub FilePath-discrete : Discrete FilePath
FilePath-discrete = List-discrete (List-discrete ℕ_discrete)

-- `path.name` and `path.parent`
abbrev pub name : FilePath → Text
name [] = []
name (n ∷ _) = n

abbrev pub parent : FilePath → FilePath
parent [] = []
parent (_ ∷ p) = p

-- `temp_path`
unfoldable pub temp_path : FilePath → FilePath
unfolding with_suffix
temp_path final = with_suffix (codes ".parquet.tmp") (name final) ∷ parent final

abbrev pub or_value_error : Option ℕ → Result ℕ
or_value_error none = err value_error
or_value_error (some t) = ok t

module _ (cal : Calendar) where
  -- `ExportWindow.filename`
  unfoldable pub filename : ExportWindow → Text
  filename w =
      codes "spans-"
      ++ (cal.strftime w.start ++ (codes "-" ++ (cal.strftime w.end ++ codes ".parquet")))

  unfoldable pub partition_dir : FilePath → ℕ → FilePath
  partition_dir root day = (codes "dt=" ++ cal.isoformat day) ∷ root

  unfoldable pub file_path : FilePath → ExportWindow → FilePath
  unfolding filename partition_dir
  file_path root w = filename w ∷ partition_dir root (partition_date w)

  -- What `parse_partition` and `parse_window` make of a match.
  abbrev pub parsed_partition : Option Text → Result (Option ℕ)
  parsed_partition none = ok none
  parsed_partition (some group) = do day ← or_value_error (cal.fromisoformat group); ok (some day)

  abbrev pub parsed_window : Option (Text × Text) → Result (Option ExportWindow)
  parsed_window none = ok none
  parsed_window (some (first, last)) = do
    start ← or_value_error (cal.strptime first)
    end ← or_value_error (cal.strptime last)
    w ← new_window start end
    ok (some w)

  -- `None` where the name does not match; a stamp that matches and names no date raises.
  unfoldable pub parse_partition : FilePath → Result (Option ℕ)
  parse_partition path = parsed_partition (Pattern.partition_re cal.is_digit (name path))

  unfoldable pub parse_window : FilePath → Result (Option ExportWindow)
  parse_window path = parsed_window (Pattern.file_re cal.is_digit (name path))
