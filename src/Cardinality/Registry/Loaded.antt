-- ===== src/Cardinality/Registry/Loaded.antt =====
-- What `load_registry` of telemetry_engine/cardinality/registry.py guarantees of what it returns.
use mathlib.Core.Path.{subst}
use llm_telemetry_engine.Base.{
  str_eq-sym, ok-inj, raise_if-eq-ok, ℕ, ◌+◌, ◌≤◌, ◌≡◌, refl, false, List, [], ◌∷◌, String, map,
  length, All, arith, str_eq, ltb, le_of_ltb, if◌then◌else◌, Bool-cases, inl, inr, ok, raise_if,
  value_error, >>=-eq-ok, is_empty, contains, get,
}
use llm_telemetry_engine.Cardinality.Registry.{
  DimensionSource, static, top_k, Dimension, Registry, Document, Entry, check_source, new_dimension,
  dimension_of, dimensions_of, source_of, has_duplicate, meets, load_registry,
}

-- What the dimensions with the name are budgeted.
abbrev pub quota : List Dimension → String → ℕ
quota [] n = 0
quota (d ∷ ds) n = (if str_eq d.name n then d.budget else 0) + quota ds n

-- The declared values fit in the budget.
abbrev pub IsLegal : Dimension → Type 0
IsLegal d = length d.values ≤ d.budget

quota-absent :
    (ds : List Dimension) (n : String)
    → contains (map (λ (d : Dimension). d.name) ds) n ≡ false
    → (quota ds n ≡ 0) × All (λ (d : Dimension). str_eq n d.name ≡ false) ds
quota-absent [] n h = (refl, tt)
quota-absent (d ∷ ds) n h = elim (Bool-cases (str_eq d.name n)) [
  | inl same ↦ cc (same, h)
  | inr other ↦
      let (none_left, absent) = quota-absent ds n (rw other at h) in
      (rw other (omega (arith, none_left)), (str_eq-sym d.name n other, absent))
]

quota-cons :
    (d : Dimension) (rest es : List Dimension)
    → All (λ (e : Dimension). str_eq d.name e.name ≡ false) es
    → All (λ (e : Dimension). quota rest e.name ≤ e.budget) es
    → All (λ (e : Dimension). quota (d ∷ rest) e.name ≤ e.budget) es
quota-cons d rest [] h k = tt
quota-cons d rest (e ∷ es) (other, h) (fits, k) =
    (rw other (omega (arith, fits)), quota-cons d rest es h k)

-- Where no dimension has the name of another, each is the only one with its name.
pub quota-le :
    (ds : List Dimension)
    → has_duplicate (map (λ (d : Dimension). d.name) ds) ≡ false
    → All (λ (d : Dimension). quota ds d.name ≤ d.budget) ds
quota-le [] h = tt
quota-le (d ∷ ds) h = elim (Bool-cases (contains (map (λ (e : Dimension). e.name) ds) d.name)) [
  | inl again ↦ cc (again, h)
  | inr once ↦
      let (none_left, absent) = quota-absent ds d.name once in
      (ground (arith, none_left), quota-cons d ds ds absent (quota-le ds (rw once at h)))
]

check_source-IsLegal :
    (s : DimensionSource) (budget : ℕ) (values : List String) {u : Unit {0}}
    → check_source s budget values ≡ ok u
    → length values ≤ budget
check_source-IsLegal static budget values h =
    let (u, first, rest) = >>=-eq-ok (raise_if (is_empty values) value_error) _ h in
    le_of_ltb budget (length values) (raise_if-eq-ok (ltb budget (length values)) value_error rest)
check_source-IsLegal top_k budget [] h = omega arith
check_source-IsLegal top_k budget (v ∷ values) h = cc h

new_dimension-IsLegal : (d e : Dimension) → new_dimension d ≡ ok e → IsLegal e
unfolding new_dimension
new_dimension-IsLegal d e h =
    let (u, some_budget, rest) = >>=-eq-ok (raise_if (ltb d.budget 1) value_error) _ h in
    let (v, checked, same) = >>=-eq-ok (check_source d.source d.budget d.values) _ rest in
    subst IsLegal (ok-inj same) (check_source-IsLegal d.source d.budget d.values checked)

dimension_of-IsLegal : (e : Entry) (d : Dimension) → dimension_of e ≡ ok d → IsLegal d
unfolding dimension_of
dimension_of-IsLegal e d h =
    let (source, named, made) = >>=-eq-ok (source_of (get e.source "static")) _ h in
    new_dimension-IsLegal
      (record {
        name = e.name;
        column = e.column;
        attribute = e.attribute;
        source = source;
        budget = e.budget;
        values = e.values;
        top_k_window_hours = get e.top_k_window_hours 24;
      })
      d made

dimensions_of-IsLegal :
    (es : List Entry) (ds : List Dimension) → dimensions_of es ≡ ok ds → All IsLegal ds
unfolding dimensions_of dimension_of
dimensions_of-IsLegal [] ds h = subst (All IsLegal) (ok-inj h) tt
dimensions_of-IsLegal (e ∷ es) ds h =
    let (d, one, more) = >>=-eq-ok (dimension_of e) _ h in
    let (rest, others, same) = >>=-eq-ok (dimensions_of es) _ more in
    subst (All IsLegal) (ok-inj same)
      (dimension_of-IsLegal e d one, dimensions_of-IsLegal es rest others)

-- What `load_registry` has checked of the registry that it returns.
pub load_registry-checked :
    (raw : Document) (reg : Registry)
    → load_registry raw ≡ ok reg
    → All IsLegal reg.dimensions
      × (has_duplicate (map (λ (d : Dimension). d.name) reg.dimensions) ≡ false)
unfolding load_registry
load_registry-checked raw reg h =
    let (u, some_there, h1) = >>=-eq-ok (raise_if (is_empty raw.dimensions) value_error) _ h in
    let (ds, read, h2) = >>=-eq-ok (dimensions_of raw.dimensions) _ h1 in
    let (v, distinct, h3) =
      >>=-eq-ok (raise_if (has_duplicate (map (λ (d : Dimension). d.name) ds)) value_error) _ h2 in
    let (x, allowed, same) =
      >>=-eq-ok
        (raise_if (meets (map (λ (d : Dimension). d.attribute) ds) raw.forbidden_as_dimensions)
          value_error)
        _ h3 in
    subst
      (λ (r : Registry).
        All IsLegal r.dimensions
        × (has_duplicate (map (λ (d : Dimension). d.name) r.dimensions) ≡ false))
      (ok-inj same)
      (dimensions_of-IsLegal raw.dimensions ds read, raise_if-eq-ok _ value_error distinct)
