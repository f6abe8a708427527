-- ===== src/ColdTier/Export/Files.antt =====
-- Reads after the writes and the rename of telemetry_engine/coldtier/export.py.
use mathlib.Core.Logic.{if_pos, if_neg}
use llm_telemetry_engine.Base.{◌≡◌, ◌≢◌, refl, ◌∙◌, Option, none, List}
use llm_telemetry_engine.ColdTier.Layout.{FilePath, FilePath-discrete}
use llm_telemetry_engine.ColdTier.Batch.{Batch}
use llm_telemetry_engine.ColdTier.Export.{Lake, set_file, rename}

pub set_file_self : (lake : Lake) (p : FilePath) (c : Option (List Batch)) → set_file lake p c p ≡ c
unfolding set_file
set_file_self lake p c = if_pos (FilePath-discrete p p) refl _ _

pub set_file_ne :
    (lake : Lake) (p q : FilePath) (c : Option (List Batch)) → q ≢ p → set_file lake p c q ≡ lake q
unfolding set_file
set_file_ne lake p q c h = if_neg (FilePath-discrete q p) h _ _

pub rename_ne :
    (lake : Lake) (from to q : FilePath) → q ≢ from → q ≢ to → rename lake from to q ≡ lake q
unfolding rename
rename_ne lake from to q h k =
    set_file_ne (set_file lake to (lake from)) from q none h ∙ set_file_ne lake to q (lake from) k

pub rename_to : (lake : Lake) (from to : FilePath) → to ≢ from → rename lake from to to ≡ lake from
unfolding rename
rename_to lake from to h =
    set_file_ne (set_file lake to (lake from)) from to none h ∙ set_file_self lake to (lake from)

pub rename_from : (lake : Lake) (from to : FilePath) → rename lake from to from ≡ none
unfolding rename
rename_from lake from to = set_file_self (set_file lake to (lake from)) from none
