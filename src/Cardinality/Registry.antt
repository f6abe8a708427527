-- ===== src/Cardinality/Registry.antt =====
-- telemetry_engine/cardinality/registry.py. The YAML parser is not modelled: `load_registry` starts
-- at the parsed document, and an `Entry` holds what `e[...]` and `e.get(...)` read of it.
pub mod Loaded
use llm_telemetry_engine.Base.{
  ℕ, ◌+◌, ◌*◌, Bool, true, false, not, ◌&&◌, ◌||◌, Option, List, [], ◌∷◌, String, map, length, ltb,
  str_eq, if◌then◌else◌, Result, ok, err, value_error, ◌>>=◌, ◌>>◌, raise_if, is_empty, contains,
  get,
}

pub data DimensionSource : Type 0 where
  static top_k : DimensionSource

pub record Dimension : Type 0 where
  pub name : String
  pub column : String
  pub attribute : String
  pub source : DimensionSource
  pub budget : ℕ
  pub values : List String
  pub top_k_window_hours : ℕ

-- the checks of `__post_init__` behind the one on the budget
abbrev pub check_source : DimensionSource → ℕ → List String → Result (Unit {0})
check_source static budget values = do
  raise_if (is_empty values) value_error
  raise_if (ltb budget (length values)) value_error
check_source top_k budget values = raise_if (not (is_empty values)) value_error

-- `Dimension(...)`
unfoldable pub new_dimension : Dimension → Result Dimension
new_dimension d = do
  raise_if (ltb d.budget 1) value_error
  check_source d.source d.budget d.values
  ok d

unfoldable pub max_distinct : Dimension → ℕ
max_distinct d = d.budget + 2

pub record Registry : Type 0 where
  pub version : ℕ
  pub other_bucket : String
  pub none_bucket : String
  pub dimensions : List Dimension
  pub forbidden : List String

abbrev pub has_source : DimensionSource → DimensionSource → Bool
has_source static static = true
has_source top_k top_k = true
has_source _ _ = false

unfoldable pub of_source : DimensionSource → List Dimension → List Dimension
of_source source [] = []
of_source source (d ∷ ds) =
    let rest = of_source source ds in if has_source d.source source then d ∷ rest else rest

unfoldable pub static_dimensions : Registry → List Dimension
unfolding of_source
static_dimensions reg = of_source static reg.dimensions

unfoldable pub top_k_dimensions : Registry → List Dimension
unfolding of_source
top_k_dimensions reg = of_source top_k reg.dimensions

-- The loop of `max_rows_per_bucket`.
unfoldable pub product_from : ℕ → List Dimension → ℕ
unfolding max_distinct
product_from total [] = total
product_from total (d ∷ ds) = product_from (total * max_distinct d) ds

unfoldable pub max_rows_per_bucket : Registry → ℕ
unfolding product_from
max_rows_per_bucket reg = product_from 1 reg.dimensions

unfoldable pub is_forbidden : Registry → String → Bool
is_forbidden reg attribute = contains reg.forbidden attribute

-- `not (set(wanted) - available)`
abbrev pub all_in : List String → List String → Bool
all_in [] available = true
all_in (x ∷ xs) available = contains available x && all_in xs available

unfoldable pub validate_columns : Registry → List String → Result (Unit {0})
validate_columns reg available =
    raise_if (not (all_in (map (λ (d : Dimension). d.column) reg.dimensions) available)) value_error

-- A parsed entry of `dimensions:`; `none` is a key that is not there.
pub record Entry : Type 0 where
  pub name : String
  pub column : String
  pub attribute : String
  pub source : Option String
  pub budget : ℕ
  pub values : List String
  pub top_k_window_hours : Option ℕ

pub record Document : Type 0 where
  pub version : Option ℕ
  pub other_bucket : Option String
  pub none_bucket : Option String
  pub dimensions : List Entry
  pub forbidden_as_dimensions : List String

-- `DimensionSource(text)`
abbrev pub source_of : String → Result DimensionSource
source_of text =
    if str_eq text "static"
    then ok static
    else if str_eq text "top_k"
    then ok top_k
    else err value_error

unfoldable pub dimension_of : Entry → Result Dimension
unfolding new_dimension
dimension_of e = do
  source ← source_of (get e.source "static")
  new_dimension (record {
    name = e.name;
    column = e.column;
    attribute = e.attribute;
    source = source;
    budget = e.budget;
    values = e.values;
    top_k_window_hours = get e.top_k_window_hours 24;
  })

unfoldable pub dimensions_of : List Entry → Result (List Dimension)
unfolding dimension_of
dimensions_of [] = ok []
dimensions_of (e ∷ es) = do d ← dimension_of e; ds ← dimensions_of es; ok (d ∷ ds)

-- `len(names) != len(set(names))`
abbrev pub has_duplicate : List String → Bool
has_duplicate [] = false
has_duplicate (x ∷ xs) = contains xs x || has_duplicate xs

-- `set(wanted) & forbidden`
abbrev pub meets : List String → List String → Bool
meets [] forbidden = false
meets (x ∷ xs) forbidden = contains forbidden x || meets xs forbidden

unfoldable pub load_registry : Document → Result Registry
unfolding dimensions_of
load_registry raw = do
  raise_if (is_empty raw.dimensions) value_error
  dimensions ← dimensions_of raw.dimensions
  raise_if (has_duplicate (map (λ (d : Dimension). d.name) dimensions)) value_error
  raise_if (meets (map (λ (d : Dimension). d.attribute) dimensions) raw.forbidden_as_dimensions)
      value_error
  ok (record {
    version = get raw.version 1;
    other_bucket = get raw.other_bucket "__other__";
    none_bucket = get raw.none_bucket "__none__";
    dimensions = dimensions;
    forbidden = raw.forbidden_as_dimensions;
  })
