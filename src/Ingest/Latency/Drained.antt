-- ===== src/Ingest/Latency/Drained.antt =====
-- When `measure` of telemetry_engine/ingest/latency.py returns a latency.
use llm_telemetry_engine.Base.{
  ℕ, ◌≤◌, ◌≡◌, refl, ap, ◌≢◌, ◌⊎◌, inl, inr, Bool, true, false, ◌||◌, List, [], ◌∷◌, ◌++◌, ltb,
  le_of_ltb, Result, ok, value_error, runtime_error, >>=-eq-ok, raise_if-eq-ok, raise_if,
  if◌then◌else◌,
}
use llm_telemetry_engine.Base.Text.{Text, codes, strip_prefix, strip_prefix-append}
use llm_telemetry_engine.Ingest.Latency.{
  is_some, Row, LatencyStats, occurs, latency_sql, drained_lag_threshold, assert_drained, measure,
}

occurs-here : (part after : Text) → occurs part (part ++ after) ≡ true
unfolding occurs
occurs-here [] [] = refl
occurs-here [] (c ∷ after) = refl
occurs-here (p ∷ part) after = rw (strip_prefix-append (p ∷ part) after) refl

or_true : (b : Bool) → (b || true) ≡ true
or_true true = refl
or_true false = refl

occurs-append : (part before after : Text) → occurs part (before ++ (part ++ after)) ≡ true
unfolding occurs
occurs-append part [] after = occurs-here part after
occurs-append part (c ∷ before) after =
    rw (occurs-append part before after)
      (or_true (is_some (strip_prefix part (c ∷ (before ++ (part ++ after))))))

module _ {V : Type 0} (zero_s : V) (query : Text → Result (List (Row V))) where
  required-le :
      (required : Bool) (total_lag : ℕ) {u : Unit {0}}
      → (if required then assert_drained total_lag else ok tt) ≡ ok u
      → (required ≡ false) ⊎ (total_lag ≤ 500)
  unfolding assert_drained drained_lag_threshold
  required-le false total_lag h = inl refl
  required-le true total_lag h =
      inr (le_of_ltb 500 total_lag (raise_if-eq-ok (ltb 500 total_lag) runtime_error h))

  -- A measurement that returns was taken at a lag of at most 500 messages, if that was required, and over a window whose condition does not name `ingested_at` anywhere.
  pub measure-drained :
      (since_expr : Text) (total_lag : ℕ) (require_drained : Bool) (stats : LatencyStats V)
      → measure zero_s query since_expr total_lag require_drained ≡ ok stats
      → ((require_drained ≡ false) ⊎ (total_lag ≤ 500))
        × ((before after : Text) → since_expr ≢ before ++ (codes "ingested_at" ++ after))
  unfolding measure latency_sql
  measure-drained since_expr total_lag require_drained stats h =
      let (u, drained, rest) =
        >>=-eq-ok (if require_drained then assert_drained total_lag else ok tt) _ h in
      let (sql, built, more) = >>=-eq-ok (latency_sql since_expr) _ rest in
      let (v, absent, same) =
        >>=-eq-ok (raise_if (occurs (codes "ingested_at") since_expr) value_error) _ built in
      let none_there =
        raise_if-eq-ok (occurs (codes "ingested_at") since_expr) value_error absent in
      (
        required-le require_drained total_lag drained,
        λ before after e.
            let there = occurs-append (codes "ingested_at") before after in
            let same_expr = ap (occurs (codes "ingested_at")) e in
            cc (none_there, there, same_expr),
      )
