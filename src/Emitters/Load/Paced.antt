-- ===== src/Emitters/Load/Paced.antt =====
-- How many spans a worker of telemetry_engine/emitters/load.py emits, and how many it should.
use native.Mathlib.Nat.{mul-add, mul-zero}
use llm_telemetry_engine.Base.{
  ℕ, zero, suc, ◌+◌, ◌-◌, ◌*◌, ◌/◌, ◌≤◌, ◌≡◌, refl, sym, ap, ◌∙◌, ◌⊎◌, inl, inr, arith, min, leb,
  ltb, ltb→lt, le_of_ltb, leb→le, gt_of_leb, le→geb, false, Bool-cases, List, [], ◌∷◌, sum, length,
  Result, ok, if◌then◌else◌, if-elim,
}
use llm_telemetry_engine.Base.Exec.{Exec}
use llm_telemetry_engine.Emitters.Pacing.{
  steady, LoadProfile, target_rate, RateLimiter, acquire, acquire_all, million,
}
use llm_telemetry_engine.Emitters.Workload.Calls.Outcome.{Returns}
use llm_telemetry_engine.Emitters.Load.{
  Reading, Totals, integrate_loop, integrate_target, emit_batch, spend, run_rounds,
}

-- A step of a second, and what is left behind it, are what was left.
step_eq :
    (rate t elapsed : ℕ)
    → rate * min million (elapsed - t) + rate * (elapsed - (t + million)) ≡ rate * (elapsed - t)
step_eq rate t elapsed =
    sym (mul-add rate (min million (elapsed - t)) (elapsed - (t + million)))
    ∙ ap (λ (x : ℕ). rate * x) (omega arith)

steady_rate :
    (p : LoadProfile) (t : ℕ)
    → p.profile ≡ steady
    → target_rate p t ≡ ok (p.sustained_spans_per_sec * million)
unfolding target_rate
steady_rate p t e = rw e refl

none_left : (rate t elapsed : ℕ) → elapsed ≤ t → rate * (elapsed - t) ≡ 0
none_left rate t elapsed h = ap (λ (x : ℕ). rate * x) (omega (arith, h)) ∙ mul-zero rate

integrate_loop-steady :
    (fuel : ℕ) (p : LoadProfile) (workers elapsed t total : ℕ)
    → p.profile ≡ steady
    → elapsed ≤ t + fuel * million
    → integrate_loop fuel p workers elapsed t total
      ≡ ok (total + p.sustained_spans_per_sec * million / workers * (elapsed - t))
unfolding integrate_loop
integrate_loop-steady zero p workers elapsed t total e enough =
    let done : elapsed ≤ t = omega (arith, enough) in
    rw (le→geb elapsed t done) (
      ap ok
        (omega (arith, none_left (p.sustained_spans_per_sec * million / workers) t elapsed done)))
integrate_loop-steady (suc fuel) p workers elapsed t total e enough =
    let rate : ℕ = p.sustained_spans_per_sec * million / workers in
    if-elim (λ (r : Result ℕ). r ≡ ok (total + rate * (elapsed - t))) (ltb t elapsed)
      (λ before. rw (steady_rate p t e) (
        integrate_loop-steady fuel p workers elapsed (t + million)
          (total + rate * min million (elapsed - t)) e (omega (arith, enough))
        ∙ ap ok (omega (arith, step_eq rate t elapsed))))
      (λ done. ap ok (omega (arith, none_left rate t elapsed (le_of_ltb t elapsed done))))

-- A worker of a steady profile should produce its share of the rate over the time, however the time is
-- cut into steps.
pub integrate_target-steady :
    (p : LoadProfile) (elapsed workers : ℕ)
    → p.profile ≡ steady
    → integrate_target p elapsed workers
      ≡ ok (p.sustained_spans_per_sec * million / workers * elapsed)
unfolding integrate_target
integrate_target-steady p elapsed workers e =
    let rate : ℕ = p.sustained_spans_per_sec * million / workers in
    let whole : elapsed - 0 ≡ elapsed = omega arith in
    integrate_loop-steady (suc (elapsed / million)) p workers elapsed 0 0 e (omega arith)
    ∙ ap ok (omega (arith, ap (λ (x : ℕ). rate * x) whole))

abbrev pub IsPacedBy : Totals → List ℕ → Totals → Type 0
IsPacedBy before grants after =
    (before.spans + sum grants ≤ after.spans)
    × (after.spans ≤ before.spans + sum grants + 7 * length grants)
    × (after.traces + before.spans ≤ before.traces + after.spans)

module _ (workers duration : ℕ) (rate : ℕ → ℕ) where
  -- The calls of the limiter in the rounds before the end.
  abbrev pub schedule : List Reading → List (ℕ × ℕ)
  schedule [] = []
  schedule (r ∷ rs) =
      let rest = schedule rs in
      if leb duration r.elapsed then [] else (r.now, rate r.elapsed / workers) ∷ rest

  -- Some reading is at or behind the end.
  abbrev pub Ends : List Reading → Type 0
  Ends [] = ⊥
  Ends (r ∷ rs) = (duration ≤ r.elapsed) ⊎ Ends rs

module _ {W : Type 0} (produce : Exec W ℕ)
    (small : (w : W) → Returns (λ (n : ℕ) (w' : W). (1 ≤ n) × (n ≤ 8)) (produce w)) where
  emit_batch-Returns :
      (fuel allowance emitted traces : ℕ) (w : W)
      → allowance ≤ emitted + fuel
      → emitted ≤ allowance + 7
      → Returns
          (λ (r : ℕ × ℕ) (w' : W).
            (allowance ≤ r.0) × (r.0 ≤ allowance + 7) × (r.1 + emitted ≤ traces + r.0))
          (emit_batch produce fuel allowance emitted traces w)
  unfolding emit_batch
  emit_batch-Returns zero allowance emitted traces w enough few =
      rw (le→geb allowance emitted (omega (arith, enough)))
        (_, _, refl, (omega (arith, enough), few, omega arith))
  emit_batch-Returns (suc fuel) allowance emitted traces w enough few =
      if-elim
        (λ (m : Exec W (ℕ × ℕ)).
          Returns
            (λ (r : ℕ × ℕ) (w' : W).
              (allowance ≤ r.0) × (r.0 ≤ allowance + 7) × (r.1 + emitted ≤ traces + r.0))
            (m w))
        (ltb emitted allowance)
        (λ before.
          let (n, w', e, range) = small w in
          let (r, w'', e', (enough', few', counted)) =
            emit_batch-Returns fuel allowance (emitted + n) (suc traces) w'
              (omega (arith, enough, range))
              (omega (arith, ltb→lt emitted allowance before, range)) in
          rw e (r, w'', e', (enough', few', omega (arith, counted, range))))
        (λ done. (_, _, refl, (le_of_ltb emitted allowance done, few, omega arith)))

  spend-Returns :
      (totals : Totals) (allowance : ℕ) (w : W)
      → Returns
          (λ (t : Totals) (w' : W).
            (totals.spans + allowance ≤ t.spans)
            × (t.spans ≤ totals.spans + allowance + 7)
            × (t.traces + totals.spans ≤ totals.traces + t.spans))
          (spend produce totals allowance w)
  unfolding spend
  spend-Returns totals allowance w =
      if-elim
        (λ (m : Exec W Totals).
          Returns
            (λ (t : Totals) (w' : W).
              (totals.spans + allowance ≤ t.spans)
              × (t.spans ≤ totals.spans + allowance + 7)
              × (t.traces + totals.spans ≤ totals.traces + t.spans))
            (m w))
        (leb allowance 0)
        (λ none. (_, _, refl, (omega (arith, leb→le allowance 0 none), omega arith, omega arith)))
        (λ some.
          let (r, w', e, (enough, few, counted)) =
            emit_batch-Returns allowance allowance 0 totals.traces w (omega arith) (omega arith) in
          rw e (_, _, refl, (omega (arith, enough), omega (arith, few), omega (arith, counted))))

  module _ (p : LoadProfile) (workers duration : ℕ) (rate : ℕ → ℕ)
      (rated : (t : ℕ) → target_rate p t ≡ ok (rate t)) where
    Ends-tail :
        (r : Reading) (rs : List Reading)
        → Ends workers duration rate (r ∷ rs)
        → leb duration r.elapsed ≡ false
        → Ends workers duration rate rs
    Ends-tail r rs (inl here) before =
        absurd (omega (arith, here, gt_of_leb duration r.elapsed before))
    Ends-tail r rs (inr later) before = later

    -- Where each trace is produced with one to eight spans and the clock comes to the end, the loop of
    -- a worker comes to its end. It has emitted as many spans as the limiter granted in its rounds, and
    -- at most seven more in each, in no more traces than spans.
    pub run_rounds-Returns :
        (rs : List Reading) (limiter : RateLimiter) (totals : Totals) (w : W)
        → Ends workers duration rate rs
        → Returns
            (λ (t : Totals) (w' : W).
              IsPacedBy totals (acquire_all limiter (schedule workers duration rate rs)).0 t)
            (run_rounds produce p workers duration rs limiter totals w)
    unfolding run_rounds acquire_all
    run_rounds-Returns [] limiter totals w ends = elim ends [ ]
    run_rounds-Returns (r ∷ rs) limiter totals w ends = elim (Bool-cases (leb duration r.elapsed)) [
      | inl over ↦ rw over (_, _, refl, (omega arith, omega arith, omega arith))
      | inr open_round ↦
          let (allowance, limiter') = acquire limiter r.now (rate r.elapsed / workers) in
          let (t, w', e, (enough, few, counted)) = spend-Returns totals allowance w in
          let (last, w'', e', (enough', few', counted')) =
            run_rounds-Returns rs limiter' t w' (Ends-tail r rs ends open_round) in
          rw (open_round, rated r.elapsed, e)
            (
              last,
              w'',
              e',
              (
                omega (arith, enough, enough'),
                omega (arith, few, few'),
                omega (arith, counted, counted'),
              ),
            )
    ]
