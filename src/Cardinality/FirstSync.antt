-- ===== src/Cardinality/FirstSync.antt =====
-- From the parsed registry to the rollup: what a first `sync` of telemetry_engine/cardinality/guard.py
-- leaves of a registry that `load_registry` returned.
use mathlib.Core.List.{Nodup}
use llm_telemetry_engine.Base.{
  ℕ, ◌+◌, ◌≤◌, ◌≡◌, refl, List, [], ◌∷◌, ◌++◌, String, map, length, length-take-le, All, All-mono,
  arith, str_eq, if◌then◌else◌, Bool-cases, if-elim, inl, inr, ok,
}
use llm_telemetry_engine.Cardinality.Registry.{
  DimensionSource, static, top_k, Dimension, Registry, Document, has_source, of_source,
  static_dimensions, top_k_dimensions, load_registry, max_rows_per_bucket,
}
use llm_telemetry_engine.Cardinality.Guard.{
  Row, Allowlist, Traffic, SyncResult, has, insert_rows, rows_for, static_rows, compute_top_k,
  sync_dimensions, sync, allowlisted, key_columns, rollup_key,
}
use llm_telemetry_engine.Cardinality.Bound.{IsWithin, names, rollup_key-bound}
use llm_telemetry_engine.Cardinality.Sync.{sync-eq}
use llm_telemetry_engine.Cardinality.Registry.Loaded.{
  quota, IsLegal, quota-le, load_registry-checked,
}

-- The number of allowlisted values of a name.
abbrev size : Allowlist → String → ℕ
size table n = length (allowlisted table n)

size-append : (xs ys : Allowlist) (n : String) → size (xs ++ ys) n ≡ size xs n + size ys n
unfolding allowlisted
size-append [] ys n = omega arith
size-append ((d, v) ∷ xs) ys n = ground (arith, size-append xs ys n)

size_empty : (n : String) → size [] n ≡ 0
unfolding allowlisted
size_empty n = refl

size-insert_rows :
    (rows : List Row) (table : Allowlist) (n : String)
    → size (insert_rows rows table) n ≤ size rows n + size table n
unfolding insert_rows allowlisted
size-insert_rows [] table n = omega arith
size-insert_rows ((d, v) ∷ rows) table n = elim (Bool-cases (has table d v)) [
  | inl there ↦ rw there (ground (arith, size-insert_rows rows table n))
  | inr missing ↦ rw missing (ground (arith, size-insert_rows rows ((d, v) ∷ table) n))
]

size-rows_for :
    (name : String) (vs : List String) (n : String)
    → size (rows_for name vs) n ≡ (if str_eq name n then length vs else 0)
unfolding allowlisted
size-rows_for name [] n = ground arith
size-rows_for name (v ∷ vs) n = ground (arith, size-rows_for name vs n)

size-rows_for-le :
    (name : String) (vs : List String) (budget : ℕ) (n : String)
    → length vs ≤ budget
    → size (rows_for name vs) n ≤ (if str_eq name n then budget else 0)
size-rows_for-le name vs budget n h = elim (Bool-cases (str_eq name n)) [
  | inl same ↦
      rw same (let e = size-rows_for name vs n in let e' = rw same at e in omega (arith, h, e'))
  | inr other ↦
      rw other (let e = size-rows_for name vs n in let e' = rw other at e in omega (arith, e'))
]

size-static_rows :
    (ds : List Dimension) (n : String)
    → All IsLegal ds
    → size (static_rows (of_source static ds)) n ≤ quota (of_source static ds) n
unfolding of_source allowlisted
size-static_rows [] n h = omega arith
size-static_rows (d ∷ ds) n h =
    if-elim (λ es. size (static_rows es) n ≤ quota es n) (has_source d.source static)
      (λ is_static.
        let split = size-append (rows_for d.name d.values) (static_rows (of_source static ds)) n in
        let own = size-rows_for-le d.name d.values d.budget n h.0 in
        omega (arith, split, own, size-static_rows ds n h.1))
      (λ other. size-static_rows ds n h.1)

length-compute_top_k :
    (traffic : Traffic) (d : Dimension) → length (compute_top_k traffic d) ≤ d.budget
unfolding compute_top_k
length-compute_top_k traffic d = length-take-le d.budget (traffic.ranked d)

size-sync_dimensions :
    (traffic : Traffic) (ds : List Dimension) (table : Allowlist) (n : String)
    → size (sync_dimensions traffic ds table).1 n ≤ quota ds n + size table n
unfolding sync_dimensions
size-sync_dimensions traffic [] table n = omega arith
size-sync_dimensions traffic (d ∷ ds) table n =
    let values = compute_top_k traffic d in
    let rest = size-sync_dimensions traffic ds (insert_rows (rows_for d.name values) table) n in
    let inserted = size-insert_rows (rows_for d.name values) table n in
    let own = size-rows_for-le d.name values d.budget n (length-compute_top_k traffic d) in
    omega (arith, rest, inserted, own)

quota-of_source :
    (ds : List Dimension) (n : String)
    → quota (of_source static ds) n + quota (of_source top_k ds) n ≡ quota ds n
unfolding of_source
quota-of_source [] n = omega arith
quota-of_source (d ∷ ds) n = go d.source (quota-of_source ds n)
  where
    go :
        (s : DimensionSource)
        → quota (of_source static ds) n + quota (of_source top_k ds) n ≡ quota ds n
        → quota (if has_source s static then d ∷ of_source static ds else of_source static ds) n
            + quota (if has_source s top_k then d ∷ of_source top_k ds else of_source top_k ds) n
          ≡ (if str_eq d.name n then d.budget else 0) + quota ds n
    go static rest = omega (arith, rest)
    go top_k rest = omega (arith, rest)

size-synced :
    (traffic : Traffic) (ds : List Dimension) (n : String)
    → All IsLegal ds
    → size
        (sync_dimensions traffic
          (of_source top_k ds)
          (insert_rows (static_rows (of_source static ds)) [])).1
        n
      ≤ quota ds n
size-synced traffic ds n legal =
    let table = insert_rows (static_rows (of_source static ds)) [] in
    let tops = size-sync_dimensions traffic (of_source top_k ds) table n in
    let inserted = size-insert_rows (static_rows (of_source static ds)) [] n in
    let statics = size-static_rows ds n legal in
    omega (arith, tops, inserted, statics, quota-of_source ds n, size_empty n)

first_sync-IsWithin :
    (traffic : Traffic) (raw : Document) (reg : Registry) (table : Allowlist) {done : SyncResult}
    → load_registry raw ≡ ok reg
    → sync traffic reg [] ≡ ok (done, table)
    → IsWithin table reg.dimensions
unfolding static_dimensions top_k_dimensions
first_sync-IsWithin traffic raw reg table loaded synced =
    let (legal, distinct) = load_registry-checked raw reg loaded in
    let (mid, last, first) = sync-eq traffic reg [] table synced in
    rw (last, first)
      (All-mono reg.dimensions
        (λ d fits.
          let fewer = size-synced traffic reg.dimensions d.name legal in omega (arith, fewer, fits))
        (quota-le reg.dimensions distinct))

-- Let a document load as a registry that names the seven columns of the rollup, in their order, and let a first run of `sync`, on an allowlist without rows, succeed. Then rows with pairwise different keys of the rollup are at most as many as `max_rows_per_bucket` says, whatever values they hold and whatever the traffic was.
pub first_sync-bound :
    (traffic : Traffic) (raw : Document) (reg : Registry) (table : Allowlist)
    (rows : List (String → String)) {done : SyncResult}
    → load_registry raw ≡ ok reg
    → sync traffic reg [] ≡ ok (done, table)
    → names reg.dimensions ≡ key_columns
    → Nodup (map (rollup_key table) rows)
    → length rows ≤ max_rows_per_bucket reg
first_sync-bound traffic raw reg table rows loaded synced named distinct =
    rollup_key-bound table reg rows named (first_sync-IsWithin traffic raw reg table loaded synced)
      distinct
