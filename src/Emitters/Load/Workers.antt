-- ===== src/Emitters/Load/Workers.antt =====
-- `run_load` of telemetry_engine/emitters/load.py. What a worker reports, and what the queue gives
-- within its timeout, are parameters.
use mathlib.Core.List.{foldl}
use llm_telemetry_engine.Base.{
  ℕ, zero, suc, ◌/◌, ◌≤◌, ◌≡◌, refl, sym, ap, ◌∙◌, arith, min, max, ◌==◌, ==_iff, if◌then◌else◌,
  if-elim, Option, none, some, List, [], ◌∷◌, map, sum, length, length-map, Result, ok, err,
  timeout_error, map_ok, ◌>>=◌, >>=-eq-ok,
}
use llm_telemetry_engine.Emitters.Load.{LoadResult}

-- What `_run_worker` returns and puts into the queue.
pub record Report : Type 0 where
  pub spans : ℕ
  pub traces : ℕ
  pub target : ℕ
  pub generation : ℕ

-- `max(1, min(4, (os.cpu_count() or 4) // 3))`
abbrev cores : Option ℕ → ℕ
cores none = 4
cores (some n) = if n == 0 then 4 else n

unfoldable pub worker_count : Option ℕ → Option ℕ → ℕ
worker_count (some workers) cpu_count = workers
worker_count none cpu_count = max 1 (min 4 (cores cpu_count / 3))

abbrev got : Option Report → Result Report
got none = err timeout_error
got (some r) = ok r

-- The loop over the processes: as many reports as there are, of the queue from its `i`-th.
unfoldable pub collect : (ℕ → Option Report) → ℕ → ℕ → Result (List Report)
collect get i zero = ok []
collect get i (suc n) =
    got (get i) >>= λ r. map_ok (λ (rs : List Report). r ∷ rs) (collect get (suc i) n)

abbrev single : ℕ → Report → LoadResult
single wall r = record {
  spans = r.spans;
  traces = r.traces;
  elapsed = r.generation;
  wall_elapsed = wall;
  target_spans = r.target;
  workers = 1;
  per_worker_spans = r.spans ∷ [];
}

abbrev total : (Report → ℕ) → List Report → ℕ
total f rs = sum (map f rs)

abbrev combined : ℕ → ℕ → List Report → LoadResult
combined wall n rs = record {
  spans = total (λ (r : Report). r.spans) rs;
  traces = total (λ (r : Report). r.traces) rs;
  elapsed = foldl max 0 (map (λ (r : Report). r.generation) rs);
  wall_elapsed = wall;
  target_spans = total (λ (r : Report). r.target) rs;
  workers = n;
  per_worker_spans = map (λ (r : Report). r.spans) rs;
}

-- `run_load`: `alone` is the call of `_run_worker` in this process.
unfoldable pub run_load :
    Option ℕ → Option ℕ → Result Report → (ℕ → Option Report) → ℕ → Result LoadResult
unfolding collect worker_count
run_load workers cpu_count alone get wall =
    let n : ℕ = worker_count workers cpu_count in
    if n == 1 then map_ok (single wall) alone else map_ok (combined wall n) (collect get 0 n)

map_ok-eq-ok {ℓ κ} :
    {A : Type ℓ} {B : Type κ} {y : B} (f : A → B) (m : Result A)
    → map_ok f m ≡ ok y
    → (x : A) × (m ≡ ok x) × (f x ≡ y)
map_ok-eq-ok f (ok a) h = (a, refl, cc)
map_ok-eq-ok f (err e) h = cc

length-collect :
    (get : ℕ → Option Report) (i n : ℕ) (rs : List Report) → collect get i n ≡ ok rs → length rs ≡ n
unfolding collect
length-collect get i zero rs h =
    let e : [] ≡ rs = cc h in ap (λ (l : List Report). length l) (sym e)
length-collect get i (suc n) rs h =
    let (r, e, k) =
      >>=-eq-ok (got (get i))
        (λ (r : Report). map_ok (λ (rs : List Report). r ∷ rs) (collect get (suc i) n)) h in
    let (rest, e', k') = map_ok-eq-ok (λ (rs : List Report). r ∷ rs) (collect get (suc i) n) k in
    ap (λ (l : List Report). length l) (sym k') ∙ ap suc (length-collect get (suc i) n rest e')

abbrev IsSum : LoadResult → ℕ → Type 0
IsSum result n =
    (result.workers ≡ n)
    × (length result.per_worker_spans ≡ result.workers)
    × (result.spans ≡ sum result.per_worker_spans)

combined-IsSum : (wall n : ℕ) (rs : List Report) → length rs ≡ n → IsSum (combined wall n rs) n
combined-IsSum wall n rs h = (refl, length-map rs (λ (r : Report). r.spans) ∙ h, refl)

-- A run returns only with the reports of all its workers: their number is the one that was asked for,
-- or between 1 and 4 where none was, and the spans of the run are the sum of theirs.
run_load-IsSum :
    (workers cpu_count : Option ℕ) (alone : Result Report) (get : ℕ → Option Report) (wall : ℕ)
    (result : LoadResult)
    → run_load workers cpu_count alone get wall ≡ ok result
    → (result.workers ≡ worker_count workers cpu_count)
      × (length result.per_worker_spans ≡ result.workers)
      × (result.spans ≡ sum result.per_worker_spans)
      × (1 ≤ worker_count none cpu_count)
      × (worker_count none cpu_count ≤ 4)
unfolding run_load worker_count
run_load-IsSum workers cpu_count alone get wall result h =
    let n : ℕ = worker_count workers cpu_count in
    let whole : IsSum result n =
      if-elim (λ (m : Result LoadResult). m ≡ ok result → IsSum result n) (n == 1)
        (λ one k.
          let (r, e, same) = map_ok-eq-ok (single wall) alone k in
          rw (sym same) (sym ((==_iff n 1).0 one), refl, omega arith))
        (λ more k.
          let (rs, e, same) = map_ok-eq-ok (combined wall n) (collect get 0 n) k in
          rw (sym same) (combined-IsSum wall n rs (length-collect get 0 n rs e)))
        h in
    (whole.0, whole.1, whole.2, omega arith, omega arith)
