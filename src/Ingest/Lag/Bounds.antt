-- ===== src/Ingest/Lag/Bounds.antt =====
-- The lag that telemetry_engine/ingest/lag.py reports.
use mathlib.Core.List.{foldl}
use mathlib.Core.Path.{subst}
use llm_telemetry_engine.Base.{
  ℕ, ◌+◌, ◌-◌, ◌≤◌, max, ◌==◌, ◌≡◌, refl, Option, none, some, List, [], ◌∷◌, sum, Result, ok, err,
  arith, Bool-cases, inl, inr, >>=-eq-ok, map_ok,
}
use llm_telemetry_engine.Ingest.Lag.{
  Partitions, set_partition, numbers, LagSnapshot, max_partition_lag, no_lag, Broker, Committed,
  position, add_partition, read_partitions, read_lag, read_topic, with_total,
}

foldl-max-bound : (m : ℕ) (xs : List ℕ) → foldl max m xs ≤ m + sum xs
foldl-max-bound m [] = omega arith
foldl-max-bound m (x ∷ xs) = omega (arith, foldl-max-bound (max m x) xs)

-- What the loop keeps: the lag of every partition is at most its high watermark, so that the sums are.
abbrev pub IsBelow : Partitions → Partitions → Type 0
IsBelow [] [] = Unit
IsBelow ((p, l) ∷ lags) ((q, h) ∷ highs) = (p ≡ q) × (l ≤ h) × IsBelow lags highs
IsBelow _ _ = ⊥

set-IsBelow :
    (lags highs : Partitions) (p l h : ℕ)
    → l ≤ h
    → IsBelow lags highs
    → IsBelow (set_partition lags p l) (set_partition highs p h)
set-IsBelow [] [] p l h le k = (refl, le, tt)
set-IsBelow [] (x ∷ highs) p l h le k = absurd k
set-IsBelow (x ∷ lags) [] p l h le k = absurd k
set-IsBelow ((q, u) ∷ lags) ((r, v) ∷ highs) p l h le (same, below, k) =
    rw same (elim (Bool-cases (r == p)) [
      | inl hit ↦ rw hit (refl, le, k)
      | inr miss ↦ rw miss (refl, below, set-IsBelow lags highs p l h le k)
    ])

sum-IsBelow :
    (lags highs : Partitions) → IsBelow lags highs → sum (numbers lags) ≤ sum (numbers highs)
sum-IsBelow [] [] k = omega arith
sum-IsBelow [] (x ∷ highs) k = absurd k
sum-IsBelow (x ∷ lags) [] k = absurd k
sum-IsBelow ((p, l) ∷ lags) ((q, h) ∷ highs) (same, le, k) =
    omega (arith, le, sum-IsBelow lags highs k)

read_partitions-IsBelow :
    (broker : Broker) (tps : List Committed) (s : LagSnapshot) {s' : LagSnapshot}
    → IsBelow s.per_partition s.high_watermarks
    → read_partitions broker tps s ≡ ok s'
    → IsBelow s'.per_partition s'.high_watermarks
unfolding read_partitions
read_partitions-IsBelow broker [] s {s'} k e =
    let same : s ≡ s' = cc in
    subst (λ (t : LagSnapshot). IsBelow t.per_partition t.high_watermarks) same k
read_partitions-IsBelow broker (tp ∷ tps) s k e =
    let (high, answered, rest) = >>=-eq-ok (broker.high_watermark tp.0) _ e in
    read_partitions-IsBelow broker tps (add_partition tp s high)
      (set-IsBelow s.per_partition s.high_watermarks tp.0 (high - position tp.1) high (omega arith)
        k)
      rest

-- What a reading promises: no partition lags more than the whole does, and the whole no more than the topic holds.
abbrev pub IsReading : LagSnapshot → Type 0
IsReading s = (max_partition_lag s ≤ s.total_lag) × (s.total_lag ≤ sum (numbers s.high_watermarks))

with_total-IsReading :
    (s : LagSnapshot) → IsBelow s.per_partition s.high_watermarks → IsReading (with_total s)
unfolding max_partition_lag
with_total-IsReading s k = (
  omega (arith, foldl-max-bound 0 (numbers s.per_partition)),
  sum-IsBelow s.per_partition s.high_watermarks k,
)

map_ok-IsReading :
    (r : Result LagSnapshot) {s : LagSnapshot}
    → ((t : LagSnapshot) → r ≡ ok t → IsBelow t.per_partition t.high_watermarks)
    → map_ok with_total r ≡ ok s
    → IsReading s
map_ok-IsReading (ok t) {s} k e =
    let same : with_total t ≡ s = cc in subst IsReading same (with_total-IsReading t (k t refl))
map_ok-IsReading (err x) k e = cc

read_topic-IsReading :
    (broker : Broker) (topic : Option (List ℕ)) {s : LagSnapshot}
    → read_topic broker topic ≡ ok s
    → IsReading s
unfolding max_partition_lag
read_topic-IsReading broker none {s} e =
    let same : no_lag ≡ s = cc in subst IsReading same (omega arith, omega arith)
read_topic-IsReading broker (some ps) e =
    let (tps, answered, rest) = >>=-eq-ok (broker.committed ps) _ e in
    map_ok-IsReading (read_partitions broker tps no_lag)
      (λ t read. read_partitions-IsBelow broker tps no_lag tt read) rest

-- Where `read_lag` returns, its greatest lag of a partition is at most its total, and its total is at most the sum of the high watermarks.
pub read_lag-IsReading : (broker : Broker) (s : LagSnapshot) → read_lag broker ≡ ok s → IsReading s
unfolding read_lag
read_lag-IsReading broker s e =
    let (topic, answered, rest) = >>=-eq-ok broker.topic _ e in
    read_topic-IsReading broker topic rest
