-- ===== src/Experiments/Sampling/Counters.antt =====
-- The sampler of telemetry_engine/experiments/backpressure.py against the check on its counters.
use mathlib.Core.List.{append_assoc, append-nil}
use llm_telemetry_engine.Base.{
  ℕ, ◌≤◌, ◌≡◌, refl, sym, ap, ◌∙◌, true, false, Option, none, some, List, [], ◌∷◌, ◌++◌, Result, ok,
  err, All, arith,
}
use mathlib.Core.Path.{subst}
use llm_telemetry_engine.Ingest.Lag.{LagSnapshot, CollectorSnapshot, dropped_spans}
use llm_telemetry_engine.Experiments.Backpressure.{Sample, no_counter_reset, decreases}
use llm_telemetry_engine.Experiments.Backpressure.Validity.{IsAfter, IsMonotone}
use llm_telemetry_engine.Experiments.Sampling.{Round, taken, run_sampler}

-- No counter of the second is below the first's.
abbrev pub IsLater : CollectorSnapshot → CollectorSnapshot → Type 0
IsLater c c' =
    (c.accepted_spans ≤ c'.accepted_spans)
    × (c.sent_spans ≤ c'.sent_spans)
    × (c.send_failed_spans ≤ c'.send_failed_spans)
    × (c.enqueue_failed_spans ≤ c'.enqueue_failed_spans)

-- The scrapes that were answered, in order.
abbrev scrape : Result (Option CollectorSnapshot) → List CollectorSnapshot
scrape (err e) = []
scrape (ok none) = []
scrape (ok (some c)) = c ∷ []

abbrev pub scrapes : List Round → List CollectorSnapshot
scrapes [] = []
scrapes (r ∷ rounds) = scrape r.collector ++ scrapes rounds

abbrev pub AreRising : List CollectorSnapshot → Type 0
AreRising [] = Unit
AreRising (c ∷ cs) = All (IsLater c) cs × AreRising cs

IsAfter-decreases : (a b : Sample) → IsAfter a b → decreases a b ≡ false
IsAfter-decreases a b h = let (accepted, sent, dropped) = h in ground arith

IsMonotone-no_counter_reset : (ss : List Sample) → IsMonotone ss → no_counter_reset ss ≡ true
unfolding no_counter_reset
IsMonotone-no_counter_reset [] h = refl
IsMonotone-no_counter_reset (a ∷ []) h = refl
IsMonotone-no_counter_reset (a ∷ b ∷ ss) h =
    rw (IsAfter-decreases a b h.0.0) (IsMonotone-no_counter_reset (b ∷ ss) h.1)

module _ (t0 : ℕ) where
  run_sampler-append :
      (rounds : List Round) (samples : List Sample)
      → run_sampler t0 rounds samples ≡ samples ++ run_sampler t0 rounds []
  unfolding run_sampler
  run_sampler-append [] samples = sym (append-nil samples)
  run_sampler-append (r ∷ rounds) samples =
      let new = taken t0 r.started r.lag r.collector in
      run_sampler-append rounds (samples ++ new)
      ∙ append_assoc samples new (run_sampler t0 rounds [])
      ∙ ap (λ (l : List Sample). samples ++ l) (sym (run_sampler-append rounds new))

  -- The samples of later rounds come after a scrape, where all later scrapes do.
  AreBehind : CollectorSnapshot → List Sample → Type 0
  AreBehind c = All (λ s.
      (c.accepted_spans ≤ s.accepted) × (c.sent_spans ≤ s.sent) × (dropped_spans c ≤ s.dropped))

  taken-AreBehind :
      (c : CollectorSnapshot) (started : ℕ) (lag : Result LagSnapshot)
      (collector : Result (Option CollectorSnapshot)) (rest : List CollectorSnapshot)
      (samples : List Sample)
      → All (IsLater c) (scrape collector ++ rest)
      → (All (IsLater c) rest → AreBehind c samples)
      → AreBehind c (taken t0 started lag collector ++ samples)
  unfolding taken dropped_spans AreBehind
  taken-AreBehind c started (err e) (err x) rest samples h k = k h
  taken-AreBehind c started (err e) (ok none) rest samples h k = k h
  taken-AreBehind c started (err e) (ok (some d)) rest samples h k = k h.1
  taken-AreBehind c started (ok lag) (err e) rest samples h k = k h
  taken-AreBehind c started (ok lag) (ok none) rest samples h k = k h
  taken-AreBehind c started (ok lag) (ok (some d)) rest samples h k =
      let (accepted, sent, failed, refused) = h.0 in
      ((accepted, sent, omega (arith, failed, refused)), k h.1)

  run_sampler-AreBehind :
      (c : CollectorSnapshot) (rounds : List Round)
      → All (IsLater c) (scrapes rounds)
      → AreBehind c (run_sampler t0 rounds [])
  unfolding run_sampler AreBehind
  run_sampler-AreBehind c [] h = tt
  run_sampler-AreBehind c (r ∷ rounds) h =
      subst (AreBehind c) (sym (run_sampler-append rounds (taken t0 r.started r.lag r.collector))) (
        taken-AreBehind c r.started r.lag r.collector (scrapes rounds) (run_sampler t0 rounds []) h
          (run_sampler-AreBehind c rounds))

  taken-IsMonotone :
      (started : ℕ) (lag : Result LagSnapshot) (collector : Result (Option CollectorSnapshot))
      (rest : List CollectorSnapshot) (samples : List Sample)
      → AreRising (scrape collector ++ rest)
      → ((c : CollectorSnapshot) → All (IsLater c) rest → AreBehind c samples)
      → (AreRising rest → IsMonotone samples)
      → IsMonotone (taken t0 started lag collector ++ samples)
  unfolding taken AreBehind
  taken-IsMonotone started (err e) (err x) rest samples h k m = m h
  taken-IsMonotone started (err e) (ok none) rest samples h k m = m h
  taken-IsMonotone started (err e) (ok (some d)) rest samples h k m = m h.1
  taken-IsMonotone started (ok lag) (err e) rest samples h k m = m h
  taken-IsMonotone started (ok lag) (ok none) rest samples h k m = m h
  taken-IsMonotone started (ok lag) (ok (some d)) rest samples h k m = (k d h.0, m h.1)

  run_sampler-IsMonotone :
      (rounds : List Round) → AreRising (scrapes rounds) → IsMonotone (run_sampler t0 rounds [])
  unfolding run_sampler
  run_sampler-IsMonotone [] h = tt
  run_sampler-IsMonotone (r ∷ rounds) h =
      subst IsMonotone (sym (run_sampler-append rounds (taken t0 r.started r.lag r.collector))) (
        taken-IsMonotone r.started r.lag r.collector (scrapes rounds) (run_sampler t0 rounds []) h
          (λ c. run_sampler-AreBehind c rounds) (run_sampler-IsMonotone rounds))

  -- Let no counter of the collector be lower in a scrape than in an earlier one. Then the samples pass the check on the counters, whichever readings of the lag and scrapes of the collector failed: a round that fails leaves no sample that reads as a reset.
  pub run_sampler-no_counter_reset :
      (rounds : List Round)
      → AreRising (scrapes rounds)
      → no_counter_reset (run_sampler t0 rounds []) ≡ true
  run_sampler-no_counter_reset rounds h =
      IsMonotone-no_counter_reset (run_sampler t0 rounds []) (run_sampler-IsMonotone rounds h)
