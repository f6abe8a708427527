-- ===== src/Cardinality/Sync.antt =====
-- What `sync` of telemetry_engine/cardinality/guard.py does to the allowlist.
use mathlib.Core.List.{Nodup, Memᴰ}
use mathlib.Core.List.Memᴰ as Memᴰs
use mathlib.Core.Logic.{∥∥₁_map}
use mathlib.Core.Path.{subst}
use llm_telemetry_engine.Base.{
  ◌+◌, ◌≤◌, ◌≡◌, refl, sym, Bool, true, false, ◌&&◌, ◌||◌, List, [], ◌∷◌, ◌++◌, String, length,
  length-append, All, arith, str_eq, if◌then◌else◌, Bool-cases, inl, inr, eq_iff, ok, >>=-eq-ok,
}
use llm_telemetry_engine.Cardinality.Registry.{
  Dimension, Registry, static_dimensions, top_k_dimensions, validate_columns,
}
use llm_telemetry_engine.Cardinality.Guard.{
  Row, Allowlist, Traffic, SyncResult, has, insert_rows, rows_for, static_rows, compute_top_k,
  sync_dimensions, sync_static, sync_top_k, sync, allowlisted,
}
use llm_telemetry_engine.Cardinality.Bound.{has-Mem, length-le_of_Subset}

or_right : (a b : Bool) → b ≡ true → (a || b) ≡ true
or_right true b h = refl
or_right false b h = h

-- Inserting keeps what is there.
insert_rows-keeps :
    (rows : List Row) (table : Allowlist) (n v : String)
    → has table n v ≡ true
    → has (insert_rows rows table) n v ≡ true
unfolding insert_rows
insert_rows-keeps [] table n v h = h
insert_rows-keeps ((d, x) ∷ rows) table n v h = elim (Bool-cases (has table d x)) [
  | inl there ↦ rw there (insert_rows-keeps rows table n v h)
  | inr missing ↦ rw missing (
      insert_rows-keeps rows ((d, x) ∷ table) n v
        (or_right (str_eq d n && str_eq x v) (has table n v) h))
]

has-head : (d x : String) (table : Allowlist) → has ((d, x) ∷ table) d x ≡ true
has-head d x table = rw ((eq_iff d d).1 refl) (rw ((eq_iff x x).1 refl) refl)

-- The table after the insertion of one row has it.
has-added :
    (table : Allowlist) (d x : String)
    → has (if has table d x then table else (d, x) ∷ table) d x ≡ true
has-added table d x = elim (Bool-cases (has table d x)) [
  | inl there ↦ rw there there
  | inr missing ↦ rw missing (has-head d x table)
]

-- Inserting adds every row.
insert_rows-adds :
    (name : String) (vs : List String) (table : Allowlist)
    → All (λ v. has (insert_rows (rows_for name vs) table) name v ≡ true) vs
unfolding insert_rows
insert_rows-adds name [] table = tt
insert_rows-adds name (v ∷ vs) table = (
  insert_rows-keeps (rows_for name vs) _ name v (has-added table name v),
  insert_rows-adds name vs (if has table name v then table else (name, v) ∷ table),
)

sync_dimensions-keeps :
    (traffic : Traffic) (ds : List Dimension) (table : Allowlist) (n v : String)
    → has table n v ≡ true
    → has (sync_dimensions traffic ds table).1 n v ≡ true
unfolding sync_dimensions
sync_dimensions-keeps traffic [] table n v h = h
sync_dimensions-keeps traffic (d ∷ ds) table n v h =
    sync_dimensions-keeps traffic ds _ n v
      (insert_rows-keeps (rows_for d.name (compute_top_k traffic d)) table n v h)

All-keeps :
    (table table' : Allowlist) (n : String) (vs : List String)
    → ((v : String) → has table n v ≡ true → has table' n v ≡ true)
    → All (λ v. has table n v ≡ true) vs
    → All (λ v. has table' n v ≡ true) vs
All-keeps table table' n [] k h = tt
All-keeps table table' n (v ∷ vs) k h = (k v h.0, All-keeps table table' n vs k h.1)

sync_dimensions-adds :
    (traffic : Traffic) (before after : List Dimension) (d : Dimension) (table : Allowlist)
    → All
        (λ v. has (sync_dimensions traffic (before ++ (d ∷ after)) table).1 d.name v ≡ true)
        (compute_top_k traffic d)
unfolding sync_dimensions
sync_dimensions-adds traffic [] after d table =
    All-keeps _ _ d.name (compute_top_k traffic d)
      (λ v. sync_dimensions-keeps traffic after _ d.name v)
      (insert_rows-adds d.name (compute_top_k traffic d) table)
sync_dimensions-adds traffic (e ∷ before) after d table =
    sync_dimensions-adds traffic before after d _

-- What a run of `sync` that succeeds leaves.
pub sync-eq :
    (traffic : Traffic) (reg : Registry) (table table' : Allowlist) {done : SyncResult}
    → sync traffic reg table ≡ ok (done, table')
    → (mid : Allowlist) × (table' ≡ (sync_dimensions traffic (top_k_dimensions reg) mid).1)
      × (mid ≡ insert_rows (static_rows (static_dimensions reg)) table)
unfolding sync sync_static sync_top_k
sync-eq traffic reg table table' {done} e =
    let (u, v, rest) = >>=-eq-ok (validate_columns reg traffic.rollup_columns) _ e in
    (insert_rows (static_rows (static_dimensions reg)) table, cc, refl)

-- A run of `sync` that succeeds removes no value of any dimension.
pub sync-keeps :
    (traffic : Traffic) (reg : Registry) (table table' : Allowlist) (n v : String)
    {done : SyncResult}
    → sync traffic reg table ≡ ok (done, table')
    → has table n v ≡ true
    → has table' n v ≡ true
sync-keeps traffic reg table table' n v e h =
    let (mid, last, first) = sync-eq traffic reg table table' e in
    rw last (
      sync_dimensions-keeps traffic (top_k_dimensions reg) mid n v
        (rw first (insert_rows-keeps (static_rows (static_dimensions reg)) table n v h)))

-- A run of `sync` that succeeds allowlists the top values of each dimension of source `top_k`.
pub sync-adds :
    (traffic : Traffic) (reg : Registry) (table table' : Allowlist) (before after : List Dimension)
    (d : Dimension) {done : SyncResult}
    → top_k_dimensions reg ≡ before ++ (d ∷ after)
    → sync traffic reg table ≡ ok (done, table')
    → All (λ v. has table' d.name v ≡ true) (compute_top_k traffic d)
sync-adds traffic reg table table' before after d split e =
    let (mid, last, first) = sync-eq traffic reg table table' e in
    let all : (ds : List Dimension)
        → ds ≡ before ++ (d ∷ after)
        → All (λ v. has (sync_dimensions traffic ds mid).1 d.name v ≡ true)
            (compute_top_k traffic d) =
      λ ds same.
        subst
          (λ (es : List Dimension).
            All (λ v. has (sync_dimensions traffic es mid).1 d.name v ≡ true)
              (compute_top_k traffic d))
          (sym same) (sync_dimensions-adds traffic before after d mid) in
    subst (λ (t : Allowlist). All (λ v. has t d.name v ≡ true) (compute_top_k traffic d)) (sym last)
      (all (top_k_dimensions reg) split)

All-append :
    (table : Allowlist) (n : String) (vs ws : List String)
    → All (λ v. has table n v ≡ true) vs
    → All (λ v. has table n v ≡ true) ws
    → All (λ v. has table n v ≡ true) (vs ++ ws)
All-append table n [] ws h k = k
All-append table n (v ∷ vs) ws h k = (h.0, All-append table n vs ws h.1 k)

All-Memᴰ :
    (table : Allowlist) (n : String) (vs : List String)
    → All (λ v. has table n v ≡ true) vs
    → (v : String) → Memᴰ v vs
    → Memᴰ v (allowlisted table n)
All-Memᴰ table n [] h v m = absurd (Memᴰs.not-nil m)
All-Memᴰ table n (x ∷ vs) h v (Memᴰ.head e) = Memᴰs.cast e (has-Mem table n x h.0)
All-Memᴰ table n (x ∷ vs) h v (Memᴰ.tail m) = All-Memᴰ table n vs h.1 v m

-- Where two runs of `sync` succeed one after the other and the top values of a dimension in the two are pairwise different, the dimension has all of them allowlisted, which may be twice its budget.
pub sync-accumulates :
    (first second : Traffic) (reg : Registry) (table table' table'' : Allowlist)
    (before after : List Dimension) (d : Dimension) {done done' : SyncResult}
    → top_k_dimensions reg ≡ before ++ (d ∷ after)
    → sync first reg table ≡ ok (done, table')
    → sync second reg table' ≡ ok (done', table'')
    → Nodup (compute_top_k first d ++ compute_top_k second d)
    → length (compute_top_k first d) + length (compute_top_k second d)
      ≤ length (allowlisted table'' d.name)
sync-accumulates first second reg table table' table'' before after d split e e' distinct =
    let vs = compute_top_k first d in
    let ws = compute_top_k second d in
    let old =
      All-keeps table' table'' d.name vs (λ v. sync-keeps second reg table' table'' d.name v e')
        (sync-adds first reg table table' before after d split e) in
    let new = sync-adds second reg table' table'' before after d split e' in
    let all = All-append table'' d.name vs ws old new in
    let le = length-le_of_Subset (vs ++ ws) (allowlisted table'' d.name) distinct (λ v m.
      ∥∥₁_map {B = Memᴰ v (allowlisted table'' d.name)} m
        (All-Memᴰ table'' d.name (vs ++ ws) all v)) in
    omega (arith, le, length-append vs ws)
