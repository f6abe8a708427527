-- ===== src/Cardinality/Tests.antt =====
-- The theorems on src/telemetry_engine/cardinality at concrete inputs.
use mathlib.Core.List.{Nodup, Memᴰ, not-mem-nil}
use mathlib.Core.List.Memᴰ as Memᴰs
use mathlib.Core.Logic.{∥∥₁_elim}
use mathlib.Core.HLevel.{⊥_prop}
use mathlib.Core.List.Pairwise
use llm_telemetry_engine.Base.{
  none, some, ◌+◌, ◌≤◌, ◌≡◌, ◌≢◌, refl, true, false, [], ◌∷◌, ◌++◌, String, map, length, arith,
  eq_iff, ◌∙◌, ok,
}
use llm_telemetry_engine.Cardinality.Registry.{
  Document, Entry, load_registry, dimensions_of, dimension_of, new_dimension, Dimension, Registry,
  top_k, top_k_dimensions, static_dimensions, of_source, validate_columns, max_rows_per_bucket,
}
use llm_telemetry_engine.Cardinality.Guard.{
  Allowlist, Traffic, SyncResult, sync, compute_top_k, allowlisted, key_columns, rollup_key,
  sync_static, sync_top_k, sync_dimensions, insert_rows,
}
use llm_telemetry_engine.Cardinality.Bound.{rollup_key-bound}
use llm_telemetry_engine.Cardinality.Sync.{sync-accumulates}
use llm_telemetry_engine.Cardinality.FirstSync.{first_sync-bound}

abbrev tenant : Dimension
tenant = record {
  name = "tenant_id";
  column = "tenant_id";
  attribute = "tenant.id";
  source = top_k;
  budget = 1;
  values = [];
  top_k_window_hours = 24;
}

abbrev registry : Registry
registry = record {
  version = 1;
  other_bucket = "__other__";
  none_bucket = "__none__";
  dimensions = tenant ∷ [];
  forbidden = [];
}

abbrev traffic : String → Traffic
traffic top = record { rollup_columns = "tenant_id" ∷ []; ranked = λ d. top ∷ [] }

abbrev row : String → String → String
row value column = value

abbrev first_table : Allowlist
first_table = ("tenant_id", "a") ∷ []

abbrev second_table : Allowlist
second_table = ("tenant_id", "b") ∷ ("tenant_id", "a") ∷ []

abbrev synced : SyncResult
synced = record { static_values = 0; top_k_values = ("tenant_id", 1) ∷ [] }

first_sync : sync (traffic "a") registry [] ≡ ok (synced, first_table)
unfolding sync validate_columns sync_static sync_top_k sync_dimensions insert_rows compute_top_k
    static_dimensions top_k_dimensions of_source
first_sync = refl

second_sync : sync (traffic "b") registry first_table ≡ ok (synced, second_table)
unfolding sync validate_columns sync_static sync_top_k sync_dimensions insert_rows compute_top_k
    static_dimensions top_k_dimensions of_source
second_sync = refl

single : {A : Type 0} (x : A) → Nodup (x ∷ [])
single x = Pairwise.cons (λ y m. absurd (not-mem-nil m)) Pairwise.nil

abbrev a : String
a = "a"

abbrev b : String
b = "b"

a-ne-b : a ≢ b
a-ne-b e = let h : false ≡ true = (eq_iff "a" "b").1 e in cc

a-not-in : (x : String) → Memᴰ x (b ∷ []) → a ≢ x
a-not-in x (Memᴰ.head same) e = a-ne-b (e ∙ same)
a-not-in x (Memᴰ.tail later) e = Memᴰs.not-nil later

a-b-Nodup : Nodup (a ∷ b ∷ [])
a-b-Nodup = Pairwise.cons (λ x m e. ∥∥₁_elim m ⊥_prop (λ d. a-not-in x d e)) (single b)

tenants : top_k_dimensions registry ≡ [] ++ (tenant ∷ [])
unfolding top_k_dimensions of_source
tenants = refl

sync-accumulates_example :
    length (compute_top_k (traffic "a") tenant) + length (compute_top_k (traffic "b") tenant)
    ≤ length (allowlisted second_table "tenant_id")
unfolding compute_top_k
sync-accumulates_example =
    sync-accumulates (traffic "a") (traffic "b") registry [] first_table second_table [] [] tenant
      tenants first_sync second_sync a-b-Nodup

-- A registry that names the rollup's columns, each with a budget of one.
abbrev full_dimension : String → Dimension
full_dimension name = record {
  name = name;
  column = name;
  attribute = name;
  source = top_k;
  budget = 1;
  values = [];
  top_k_window_hours = 24;
}

abbrev full_registry : Registry
full_registry = record {
  version = 1;
  other_bucket = "__other__";
  none_bucket = "__none__";
  dimensions = map full_dimension key_columns;
  forbidden = [];
}

abbrev full_traffic : Traffic
full_traffic = record { rollup_columns = key_columns; ranked = λ d. "a" ∷ "b" ∷ [] }

abbrev full_table : Allowlist
full_table =
    ("status_class", "a")
    ∷ ("region", "a")
    ∷ ("route", "a")
    ∷ ("operation", "a")
    ∷ ("model", "a")
    ∷ ("tenant_tier", "a")
    ∷ ("tenant_id", "a")
    ∷ []

abbrev full_synced : SyncResult
full_synced = record { static_values = 0; top_k_values = map (λ c. (c, 1)) key_columns }

full_sync : sync full_traffic full_registry [] ≡ ok (full_synced, full_table)
unfolding sync validate_columns sync_static sync_top_k sync_dimensions insert_rows compute_top_k
    static_dimensions top_k_dimensions of_source
full_sync = refl

rollup_key-bound_example : length (row "a" ∷ []) ≤ max_rows_per_bucket full_registry
unfolding allowlisted
rollup_key-bound_example =
    rollup_key-bound full_table full_registry (row "a" ∷ []) refl
      (
        omega arith,
        (
          omega arith,
          (omega arith, (omega arith, (omega arith, (omega arith, (omega arith, tt))))),
        ),
      )
      (single (rollup_key full_table (row "a")))

abbrev full_entry : String → Entry
full_entry name = record {
  name = name;
  column = name;
  attribute = name;
  source = some "top_k";
  budget = 1;
  values = [];
  top_k_window_hours = none;
}

abbrev document : Document
document = record {
  version = none;
  other_bucket = none;
  none_bucket = none;
  dimensions = map full_entry key_columns;
  forbidden_as_dimensions = [];
}

loaded : load_registry document ≡ ok full_registry
unfolding load_registry dimensions_of dimension_of new_dimension
loaded = refl

first_sync-bound_example : length (row "a" ∷ []) ≤ max_rows_per_bucket full_registry
first_sync-bound_example =
    first_sync-bound full_traffic document full_registry full_table (row "a" ∷ []) loaded full_sync
      refl (single (rollup_key full_table (row "a")))
