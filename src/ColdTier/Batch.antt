-- ===== src/ColdTier/Batch.antt =====
-- `_normalize_timestamps` and `_stream_window` of telemetry_engine/coldtier/export.py, over Arrow
-- record batches as lists of columns. An Arrow cast from a timestamp with a zone to one without
-- keeps the ticks.
use mathlib.Core.Path.{subst}
use llm_telemetry_engine.Base.{
  ℕ, ◌<◌, ◌≡◌, refl, Bool, true, false, ◌||◌, Option, none, some, List, [], ◌∷◌, map, ◌==◌,
  if◌then◌else◌, All, sum, arith, String, Bool-cases, inl, inr,
}

pub data DataType : Type 0 where
  -- unit and zone
  timestamp : String → Option String → DataType
  other : String → DataType

pub record Column : Type 0 where
  pub name : String
  pub type : DataType
  pub values : List ℕ

pub record Batch : Type 0 where
  pub num_rows : ℕ
  pub columns : List Column

-- One round of the loop: the column to keep, and whether it had a zone.
unfoldable pub strip_zone : Column → DataType → Column × Bool
strip_zone c (timestamp unit (some zone)) = (record c { type = timestamp unit none }, true)
strip_zone c _ = (c, false)

-- The lists that the loop builds, and `changed`.
unfoldable pub strip_zones : List Column → List Column × Bool
unfolding strip_zone
strip_zones [] = ([], false)
strip_zones (c ∷ cs) =
    let (c', zoned) = strip_zone c c.type in
    let (cs', changed) = strip_zones cs in (c' ∷ cs', zoned || changed)

unfoldable pub normalize_timestamps : Batch → Batch
unfolding strip_zones
normalize_timestamps batch =
    let (columns, changed) = strip_zones batch.columns in
    if changed then record batch { columns = columns } else batch

-- `_stream_window`: batches with no row are dropped.
unfoldable pub stream_window : List Batch → List Batch
stream_window [] = []
stream_window (batch ∷ batches) =
    let rest = stream_window batches in
    if batch.num_rows == 0 then rest else normalize_timestamps batch ∷ rest

abbrev pub rows : List Batch → ℕ
rows batches = sum (map (λ (b : Batch). b.num_rows) batches)

abbrev pub HasNoZone : Column → Type 0
HasNoZone c = (unit : String) (zone : String) → c.type ≡ timestamp unit (some zone) → ⊥

-- What a reader of the archive is given of a column: its name and its values.
abbrev pub contents : List Column → List (String × List ℕ)
contents = map (λ (c : Column). (c.name, c.values))

strip_zone_lem :
    (c : Column) (t : DataType)
    → c.type ≡ t
    → HasNoZone (strip_zone c t).0
      × ((strip_zone c t).0.name ≡ c.name)
      × ((strip_zone c t).0.values ≡ c.values)
      × ((strip_zone c t).1 ≡ false → (strip_zone c t).0 ≡ c)
unfolding strip_zone
strip_zone_lem c (timestamp unit none) e = (λ u z h. cc, refl, refl, λ h. refl)
strip_zone_lem c (timestamp unit (some zone)) e = (λ u z h. cc, refl, refl, λ h. cc)
strip_zone_lem c (other t) e = (λ u z h. cc, refl, refl, λ h. refl)

or_left : (a b : Bool) → (a || b) ≡ false → a ≡ false
or_left a b h = ground arith

or_right : (a b : Bool) → (a || b) ≡ false → b ≡ false
or_right a b h = ground arith

strip_zones_lem :
    (cs : List Column)
    → All HasNoZone (strip_zones cs).0
      × (contents (strip_zones cs).0 ≡ contents cs)
      × ((strip_zones cs).1 ≡ false → (strip_zones cs).0 ≡ cs)
unfolding strip_zones
strip_zones_lem [] = (tt, refl, λ h. refl)
strip_zones_lem (c ∷ cs) =
    let (unzoned, names, values, same) = strip_zone_lem c c.type refl in
    let (rest_unzoned, rest_contents, rest_same) = strip_zones_lem cs in
    (
      (unzoned, rest_unzoned),
      rw (names, values, rest_contents),
      λ h. rw (
        same (or_left (strip_zone c c.type).1 (strip_zones cs).1 h),
        rest_same (or_right (strip_zone c c.type).1 (strip_zones cs).1 h),
      ),
    )

-- What a written batch promises: no zone, and the rows, names and values of the batch that came.
pub record IsNormalized (from to : Batch) : Type 0 where
  pub unzoned : All HasNoZone to.columns
  pub same_rows : to.num_rows ≡ from.num_rows
  pub same_contents : contents to.columns ≡ contents from.columns

pub normalize_timestamps-IsNormalized :
    (batch : Batch) → IsNormalized batch (normalize_timestamps batch)
unfolding normalize_timestamps
normalize_timestamps-IsNormalized batch =
    let (unzoned, same_contents, same) = strip_zones_lem batch.columns in
    elim (Bool-cases (strip_zones batch.columns).1) [
      | inl changed ↦
          rw changed (record { unzoned = unzoned; same_rows = refl; same_contents = same_contents })
      | inr kept ↦ rw kept (record {
        unzoned = subst (All HasNoZone) (same kept) unzoned;
        same_rows = refl;
        same_contents = refl;
      })
    ]

-- Every batch of `_stream_window` has rows and no timestamp with a zone.
abbrev pub IsClean : Batch → Type 0
IsClean b = (0 < b.num_rows) × All HasNoZone b.columns

-- `_stream_window` drops no row, and passes on only batches with rows in which no column has a time zone.
pub stream_window_lem :
    (batches : List Batch)
    → (rows (stream_window batches) ≡ rows batches) × All IsClean (stream_window batches)
unfolding stream_window
stream_window_lem [] = (refl, tt)
stream_window_lem (batch ∷ batches) =
    let (same_rows, clean) = stream_window_lem batches in
    let n = normalize_timestamps-IsNormalized batch in
    elim (Bool-cases (batch.num_rows == 0)) [
      | inl empty ↦ rw empty (ground arith, clean)
      | inr full ↦
          rw full (
            omega (arith, same_rows, n.same_rows),
            ((ground (arith, n.same_rows), n.unzoned), clean),
          )
    ]
