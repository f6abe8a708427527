-- ===== src/ColdTier/Query.antt =====
-- telemetry_engine/coldtier/query.py, over a lake as the list of its files. DuckDB is a parameter:
-- what it answers on the views that `open_lake` makes.
use llm_telemetry_engine.Base.{
  ℕ, ◌-◌, ◌==◌, ◌≡◌, refl, ap, ◌∙◌, Bool, true, false, not, Option, none, some, List, [], ◌∷◌, map,
  sum, length, take, if◌then◌else◌, Result, ok, err, runtime_error, ◌>>=◌, ◌>>◌, raise_if,
  >>=-eq-ok, ==_iff,
}
use llm_telemetry_engine.ColdTier.Layout.{FilePath, name, parent}

-- `_one`
unfoldable pub one : {A : Type 0} → Option A → Result A
one none = err runtime_error
one (some row) = ok row

pub record File : Type 0 where
  pub path : FilePath
  pub size : ℕ

pub record LakeStats : Type 0 where
  pub files : ℕ
  pub rows : ℕ
  pub bytes_on_disk : ℕ
  pub partitions : ℕ

-- The two views of an empty lake, or those over its files.
pub data View : Type 0 where
  empty_view lake_view : View

pub record DuckDb : Type 0 where
  pub create_view : Result (Unit {0})
  -- `SELECT count(DISTINCT filename) ...`
  pub distinct_files : Result (Option ℕ)
  pub count : View → Result (Option ℕ)
  pub count_distinct : View → Result (Option (ℕ × ℕ))
  -- the rows of a file that break its order
  pub out_of_order : FilePath → Result (Option ℕ)

-- `if verify: ...`
unfoldable pub cross_check : DuckDb → List File → Bool → Result (Unit {0})
unfolding one
cross_check db on_disk false = ok tt
cross_check db on_disk true = do
  row ← db.distinct_files
  seen ← one row
  raise_if (not (seen == length on_disk)) runtime_error

-- `with open_lake(root) as conn: body`
unfoldable pub open_lake : {A : Type 0} → DuckDb → List File → Bool → (View → Result A) → Result A
unfolding cross_check
open_lake db [] verify body = body empty_view
open_lake db (f ∷ fs) verify body = do
  db.create_view
  cross_check db (f ∷ fs) verify
  body lake_view

-- `len({f.parent.name for f in files})` of the names that are given
abbrev pub partition_names : List File → List FilePath
partition_names files = map (λ (f : File). name (parent f.path) ∷ []) files

unfoldable pub stats : DuckDb → (List FilePath → ℕ) → List File → Result LakeStats
unfolding open_lake one
stats db distinct [] = ok (record { files = 0; rows = 0; bytes_on_disk = 0; partitions = 0 })
stats db distinct (f ∷ fs) = do
  rows ← open_lake db (f ∷ fs) true (λ view. do row ← db.count view; one row)
  ok (record {
    files = length (f ∷ fs);
    rows = rows;
    bytes_on_disk = sum (map (λ (g : File). g.size) (f ∷ fs));
    partitions = distinct (partition_names (f ∷ fs));
  })

pub record DuplicationReport : Type 0 where
  pub rows : ℕ
  pub distinct_spans : ℕ

-- `DuplicationReport.duplicates`: there are no more distinct spans than rows
unfoldable pub duplicates : DuplicationReport → ℕ
duplicates r = r.rows - r.distinct_spans

unfoldable pub duplication : DuckDb → List File → Result DuplicationReport
unfolding open_lake one
duplication db files = do
  row ← open_lake db files true (λ view. do r ← db.count_distinct view; one r)
  ok (record { rows = row.0; distinct_spans = row.1 })

unfoldable pub query : {A : Type 0} → DuckDb → List File → (View → Result A) → Result A
unfolding open_lake
query db files sql = open_lake db files true sql

-- The loop of `verify_sorted`: a file and the number of its rows that break the order.
unfoldable pub problems_of : DuckDb → List File → Result (List (FilePath × ℕ))
unfolding one
problems_of db [] = ok []
problems_of db (f ∷ fs) = do
  row ← db.out_of_order f.path
  out_of_order ← one row
  problems ← problems_of db fs
  ok (if out_of_order == 0 then problems else (f.path, out_of_order) ∷ problems)

unfoldable pub verify_sorted : DuckDb → List File → ℕ → Result (List (FilePath × ℕ))
unfolding problems_of
verify_sorted db files sample_files = problems_of db (take sample_files files)

raise-ok : (b : Bool) {u : Unit {0}} → raise_if (not b) runtime_error ≡ ok u → b ≡ true
raise-ok true h = refl
raise-ok false h = cc

one-ok : {A : Type 0} (row : Option A) {a : A} → one row ≡ ok a → row ≡ some a
unfolding one
one-ok none h = cc
one-ok (some b) h = cc

-- A query that returns over a lake with files has compared their number with the one that DuckDB reads, and the two are the same.
pub query_complete :
    {A : Type 0} (db : DuckDb) (f : File) (fs : List File) (sql : View → Result A) (answer : A)
    → query db (f ∷ fs) sql ≡ ok answer
    → (db.distinct_files ≡ ok (some (length (f ∷ fs)))) × (sql lake_view ≡ ok answer)
unfolding query open_lake cross_check one
query_complete db f fs sql answer h =
    let (u, made, h1) = >>=-eq-ok db.create_view _ h in
    let (v, checked, h2) = >>=-eq-ok (cross_check db (f ∷ fs) true) _ h1 in
    let (row, asked, h3) = >>=-eq-ok db.distinct_files _ checked in
    let (seen, there, h4) = >>=-eq-ok (one row) _ h3 in
    let same = (==_iff seen (length (f ∷ fs))).0 (raise-ok (seen == length (f ∷ fs)) h4) in
    (asked ∙ ap ok (one-ok row there ∙ ap some same), h2)
