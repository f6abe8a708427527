-- ===== src/Cardinality/Guard.antt =====
-- telemetry_engine/cardinality/guard.py, and the rewriting rule of telemetry_engine/storage/rollups.py.
-- What ClickHouse answers is a parameter.
use llm_telemetry_engine.Base.{
  ℕ, ◌+◌, Bool, ◌&&◌, ◌||◌, List, [], ◌∷◌, ◌++◌, String, map, length, take, leb, str_eq,
  if◌then◌else◌, Result, ok, ◌>>◌, false,
}
use llm_telemetry_engine.Cardinality.Registry.{
  Dimension, Registry, static_dimensions, top_k_dimensions, validate_columns,
}

-- A row of `telemetry.dim_allowlist`. The table is a ReplacingMergeTree over both columns, so read
-- with FINAL it is a set, and no code deletes from it.
abbrev pub Row : Type 0
Row = String × String

abbrev pub Allowlist : Type 0
Allowlist = List Row

abbrev pub has : Allowlist → String → String → Bool
has [] dimension value = false
has ((d, v) ∷ rows) dimension value =
    (str_eq d dimension && str_eq v value) || has rows dimension value

-- `conn.insert(ALLOWLIST_TABLE, rows)`
unfoldable pub insert_rows : List Row → Allowlist → Allowlist
insert_rows [] table = table
insert_rows ((d, v) ∷ rows) table =
    insert_rows rows (if has table d v then table else (d, v) ∷ table)

abbrev pub rows_for : String → List String → List Row
rows_for name values = map (λ v. (name, v)) values

abbrev pub static_rows : List Dimension → List Row
static_rows [] = []
static_rows (d ∷ ds) = rows_for d.name d.values ++ static_rows ds

-- `if rows: conn.insert(...)`; inserting no row changes nothing
unfoldable pub sync_static : Registry → Allowlist → ℕ × Allowlist
unfolding insert_rows static_dimensions
sync_static reg table =
    let rows = static_rows (static_dimensions reg) in (length rows, insert_rows rows table)

-- What ClickHouse answers: the columns of the rollup table, and the values of a dimension in its
-- window, by falling volume.
pub record Traffic : Type 0 where
  pub rollup_columns : List String
  pub ranked : Dimension → List String

-- `ORDER BY count() DESC LIMIT budget`
unfoldable pub compute_top_k : Traffic → Dimension → List String
compute_top_k traffic d = take d.budget (traffic.ranked d)

-- The loop of `sync_top_k`, with its counts by dimension.
unfoldable pub sync_dimensions :
    Traffic → List Dimension → Allowlist → List (String × ℕ) × Allowlist
unfolding compute_top_k insert_rows
sync_dimensions traffic [] table = ([], table)
sync_dimensions traffic (d ∷ ds) table =
    let values = compute_top_k traffic d in
    let (counts, table') =
      sync_dimensions traffic ds (insert_rows (rows_for d.name values) table) in
    ((d.name, length values) ∷ counts, table')

unfoldable pub sync_top_k : Traffic → Registry → Allowlist → List (String × ℕ) × Allowlist
unfolding sync_dimensions top_k_dimensions
sync_top_k traffic reg table = sync_dimensions traffic (top_k_dimensions reg) table

pub record SyncResult : Type 0 where
  pub static_values : ℕ
  pub top_k_values : List (String × ℕ)

-- The reload of the dictionary makes it the table again.
unfoldable pub sync : Traffic → Registry → Allowlist → Result (SyncResult × Allowlist)
unfolding sync_static sync_top_k
sync traffic reg table = do
  validate_columns reg traffic.rollup_columns
  let (static_values, table') = sync_static reg table
  let (top_k_values, table'') = sync_top_k traffic reg table'
  ok (record { static_values = static_values; top_k_values = top_k_values }, table'')

-- `SELECT count() FROM ... FINAL WHERE dimension = name`
unfoldable pub allowlisted : Allowlist → String → List String
allowlisted [] name = []
allowlisted ((d, v) ∷ rows) name =
    let rest = allowlisted rows name in if str_eq d name then v ∷ rest else rest

-- `multiIf(c = '', '__none__', dictHas(dict, (name, c)), c, '__other__')`
unfoldable pub guarded : Allowlist → String → String → String
guarded table name value =
    if str_eq value "" then "__none__" else if has table name value then value else "__other__"

-- The columns behind `ts_minute` in the `GROUP BY` of the rollup's view and of `_BACKFILL_SQL`, which
-- are the same whatever the registry names.
abbrev pub key_columns : List String
key_columns =
    "tenant_id" ∷ "tenant_tier" ∷ "model" ∷ "operation" ∷ "route" ∷ "region" ∷ "status_class" ∷ []

-- The `multiIf` of each of the columns, which looks a value up under the column's own name.
unfoldable pub rewrite_columns : Allowlist → List String → (String → String) → List String
unfolding guarded
rewrite_columns table [] row = []
rewrite_columns table (c ∷ cs) row = guarded table c (row c) ∷ rewrite_columns table cs row

-- The key within its minute of a raw row, given by its columns.
unfoldable pub rollup_key : Allowlist → (String → String) → List String
unfolding rewrite_columns
rollup_key table row = rewrite_columns table key_columns row

pub record DimensionStatus : Type 0 where
  pub name : String
  pub allowlisted_count : ℕ
  pub budget : ℕ
  pub observed_distinct : ℕ
  pub other_bucket_rows : ℕ
  pub none_bucket_rows : ℕ
  pub total_rows : ℕ

-- `DimensionStatus.within_budget`
unfoldable pub within_budget : DimensionStatus → Bool
within_budget s = leb s.observed_distinct (s.budget + 2)
