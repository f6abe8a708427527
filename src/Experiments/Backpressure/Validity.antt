-- ===== src/Experiments/Backpressure/Validity.antt =====
-- What a valid run, and a recovery time, of telemetry_engine/experiments/backpressure.py say.
use llm_telemetry_engine.Base.{
  ℕ, ◌+◌, ◌-◌, ◌*◌, ◌≤◌, ◌<◌, ◌≡◌, refl, ap, Bool, true, false, ◌&&◌, some, List, [], ◌∷◌, ◌++◌,
  All, leb, leb→le, gt_of_leb, Bool-cases, inl, inr, ◌⊎◌, arith, none, max, get, ltb, ltb→lt,
  le_of_ltb, if-elim, All-mono, Option,
}
use llm_telemetry_engine.Experiments.Backpressure.{
  Sample, BackpressureResult, recovered_lag, first_recovered, origin, recovery_seconds,
  emitted_total, unaccounted, peak_lag, probe_latency, baseline_window, burst_window,
}

-- No counter of the second is below the first's.
abbrev pub IsAfter : Sample → Sample → Type 0
IsAfter a b = (a.accepted ≤ b.accepted) × (a.sent ≤ b.sent) × (a.dropped ≤ b.dropped)

-- Each sample comes after all that stand before it.
abbrev pub IsMonotone : List Sample → Type 0
IsMonotone [] = Unit
IsMonotone (a ∷ ss) = All (IsAfter a) ss × IsMonotone ss

and-true : (a b : Bool) → (a && b) ≡ true → (a ≡ true) × (b ≡ true)
and-true true b h = (refl, h)
and-true false b h = cc

and-false : (a b : Bool) → (a && b) ≡ false → (a ≡ false) ⊎ (b ≡ false)
and-false true b h = inr h
and-false false b h = inl refl

-- What the checks are there for.
pub record IsValid (r : BackpressureResult) : Type 0 where
  pub target_met :
      (0 < r.generator_target_spans) × (r.generator_target_spans * 90 ≤ r.generator_spans * 100)
  pub delivered :
      (0 < emitted_total r)
      × (emitted_total r * 95 ≤ (r.collector_accepted + r.collector_refused) * 100)
  pub monotone : IsMonotone r.samples
  pub resolution : r.sample_interval_s * 4 ≤ r.burst_s
  pub stressed : 5_000 ≤ peak_lag r
  pub accounted : unaccounted r * 100 ≤ emitted_total r * 2
  pub probed_before : 10 ≤ (probe_latency r (baseline_window r)).n
  pub probed_during : 10 ≤ (probe_latency r (burst_window r)).n
  pub noninvasive : r.rebalances_after_baseline ≡ r.rebalances_before

-- When the burst ended: the measured time, or the planned one where nothing was measured.
abbrev pub IsBurstEnd : BackpressureResult → ℕ → Type 0
IsBurstEnd r e =
    ((r.burst_started_at < r.burst_ended_at) × (e ≡ r.burst_ended_at))
    ⊎ ((r.burst_ended_at ≤ r.burst_started_at) × (e ≡ r.baseline_s + r.burst_s))

-- When the stalled consumer was released, or 0 where none was.
abbrev pub IsRelease : BackpressureResult → ℕ → Type 0
IsRelease r t = (r.stall_released_at ≡ some t) ⊎ ((r.stall_released_at ≡ none) × (t ≡ 0))

-- How a recovery time comes about: a sample behind the burst and the release, with a lag of at most
-- 500, by that time after the later of them, before which no sample is such.
abbrev pub IsRecovery : BackpressureResult → ℕ → Type 0
IsRecovery r seconds =
    (burst_end : ℕ) × (released : ℕ) × IsBurstEnd r burst_end
    × IsRelease r released
    × (before : List Sample) × (s : Sample) × (after : List Sample) × (r.samples
        ≡ before ++ (s ∷ after))
    × (s.t ≡ max burst_end released + seconds)
    × (s.total_lag ≤ 500)
    × All (λ (b : Sample). (b.t < burst_end) ⊎ (b.t < released) ⊎ (500 < b.total_lag)) before

IsFirst : ℕ → ℕ → List Sample → Type 0
IsFirst o seconds ss =
    (before : List Sample) × (s : Sample) × (after : List Sample) × (ss ≡ before ++ (s ∷ after))
    × (s.t ≡ o + seconds)
    × (s.total_lag ≤ recovered_lag)
    × All (λ (b : Sample). (b.t < o) ⊎ (recovered_lag < b.total_lag)) before

not_yet :
    (o : ℕ) (s : Sample)
    → (leb o s.t && leb s.total_lag recovered_lag) ≡ false
    → (s.t < o) ⊎ (recovered_lag < s.total_lag)
not_yet o s miss = elim (and-false (leb o s.t) (leb s.total_lag recovered_lag) miss) [
  | inl early ↦ inl (gt_of_leb o s.t early)
  | inr high ↦ inr (gt_of_leb s.total_lag recovered_lag high)
]

first_recovered-IsFirst :
    (o : ℕ) (ss : List Sample) {seconds : ℕ}
    → first_recovered o ss ≡ some seconds
    → IsFirst o seconds ss
unfolding first_recovered IsFirst
first_recovered-IsFirst o [] e = cc
first_recovered-IsFirst o (s ∷ ss) {seconds} e =
    elim (Bool-cases (leb o s.t && leb s.total_lag recovered_lag)) [
      | inl hit ↦
          let (late, low) = and-true _ _ hit in
          let found : some (s.t - o) ≡ some seconds = rw hit at e in
          let same : s.t - o ≡ seconds = cc in
          (
            [],
            s,
            ss,
            refl,
            omega (arith, same, leb→le o s.t late),
            leb→le s.total_lag recovered_lag low,
            tt,
          )
      | inr miss ↦
          let rest : first_recovered o ss ≡ some seconds = rw miss at e in
          let (before, r, after, split, at_time, low, none_before) =
            first_recovered-IsFirst o ss rest in
          (
            s ∷ before,
            r,
            after,
            ap (λ (l : List Sample). s ∷ l) split,
            at_time,
            low,
            (not_yet o s miss, none_before),
          )
    ]

burst_window-IsBurstEnd : (r : BackpressureResult) → IsBurstEnd r (burst_window r).1
unfolding burst_window
burst_window-IsBurstEnd r =
    if-elim (λ (w : ℕ × ℕ). IsBurstEnd r w.1) (ltb r.burst_started_at r.burst_ended_at)
      (λ timed. inl (ltb→lt r.burst_started_at r.burst_ended_at timed, refl))
      (λ untimed. inr (le_of_ltb r.burst_started_at r.burst_ended_at untimed, refl))

get-IsRelease :
    (r : BackpressureResult) (found : Option ℕ)
    → r.stall_released_at ≡ found
    → IsRelease r (get found 0)
get-IsRelease r none e = inr (e, refl)
get-IsRelease r (some t) e = inl e

early_or : (a b t lag : ℕ) → (t < max a b) ⊎ (500 < lag) → (t < a) ⊎ (t < b) ⊎ (500 < lag)
early_or a b t lag h = ground (arith, h)

-- A recovery time belongs to the first sample that is not before the end of the burst, not before the release of the stalled consumer, and whose lag is at most 500, and it is the time from the later of the two to that sample.
pub recovery_seconds-IsRecovery :
    (r : BackpressureResult) (seconds : ℕ)
    → recovery_seconds r ≡ some seconds
    → IsRecovery r seconds
unfolding recovery_seconds origin IsFirst
recovery_seconds-IsRecovery r seconds e =
    let end = (burst_window r).1 in
    let released = get r.stall_released_at 0 in
    let (before, s, after, split, at_time, low, none_before) =
      first_recovered-IsFirst (max end released) r.samples e in
    (
      end,
      released,
      burst_window-IsBurstEnd r,
      get-IsRelease r r.stall_released_at refl,
      before,
      s,
      after,
      split,
      at_time,
      low,
      All-mono before (λ b h. early_or end released b.t b.total_lag h) none_before,
    )
