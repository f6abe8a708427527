-- ===== src/Experiments/Quiesce/Progress.antt =====
-- When `wait_until_quiesced` of telemetry_engine/experiments/backpressure.py has to return.
use llm_telemetry_engine.Base.{
  ℕ, ◌+◌, ◌-◌, ◌≤◌, ◌<◌, ◌≡◌, refl, arith, ltb, leb, le→leb, lt→leb, le→geb, ==_iff, ◌||◌, false,
  if-elim, Option, none, some, List, [], ◌∷◌, ◌++◌, All, Result, ok,
}
use llm_telemetry_engine.Experiments.Backpressure.{recovered_lag}
use llm_telemetry_engine.Experiments.Quiesce.{
  Round, moved, settle, quiesce_loop, wait_until_quiesced,
}
use llm_telemetry_engine.Experiments.Quiesce.Stretch.{IsQuiet, Continues}

-- No time, or one that is not behind `t`.
abbrev IsBefore : ℕ → Option ℕ → Type 0
IsBefore t none = Unit
IsBefore t (some since) = since ≤ t

module _ (deadline stable : ℕ) where
  -- A round before the deadline in which both answers come, measured by the time `t`.
  abbrev pub IsRead : ℕ → Round → Type 0
  IsRead t r =
      (r.started < deadline)
      × (r.measured ≤ t)
      × (lag n : ℕ) × (r.lag ≡ ok lag)
      × (r.rebalances ≡ ok n)

  module _ (last_lag : Result ℕ) where
    abbrev Returns : List Round → Option ℕ → Option ℕ → Type 0
    Returns rs since last = quiesce_loop deadline stable last_lag rs since last ≡ ok tt

    settle-ok :
        (t : ℕ) (since : Option ℕ) (r : Round) (next : Option ℕ → Result (Unit {0}))
        → r.measured ≤ t
        → IsBefore t since
        → ((s : ℕ) → s ≤ t → next (some s) ≡ ok tt)
        → settle stable since r.measured next ≡ ok tt
    settle-ok t none r next by old k = k r.measured by
    settle-ok t (some since) r next by old k =
        if-elim (λ (o : Result (Unit {0})). o ≡ ok tt) (leb stable (r.measured - since))
          (λ long. refl) (λ short. k since old)

    -- A round that is read, whatever it says, before rounds that return.
    Returns-read :
        (t : ℕ) (r : Round) (rs : List Round) (since last : Option ℕ)
        → IsRead t r
        → IsBefore t since
        → ((s l : Option ℕ) → IsBefore t s → Returns rs s l)
        → Returns (r ∷ rs) since last
    unfolding quiesce_loop
    Returns-read t r rs since last (in_time, by, lag, n, e, e') old k =
        rw (lt→leb r.started deadline in_time, e, e')
          (if-elim (λ (o : Result (Unit {0})). o ≡ ok tt) (ltb recovered_lag lag || moved last n)
            (λ loud. k none (some n) tt)
            (λ quiet. settle-ok t since r _ by old (λ s before. k (some s) (some n) before)))

    still : (n : ℕ) → moved (some n) n ≡ false
    still n = ground (arith, ==_iff n n)

    -- A quiet round behind rounds with as many rebalances.
    Returns-quiet :
        (n : ℕ) (r : Round) (rs : List Round) (since : Option ℕ)
        → IsQuiet deadline stable n r
        → settle stable since r.measured (λ s. quiesce_loop deadline stable last_lag rs s (some n))
          ≡ ok tt
        → Returns (r ∷ rs) since (some n)
    unfolding quiesce_loop
    Returns-quiet n r rs since (in_time, e', lag, e, low) h =
        rw (lt→leb r.started deadline in_time, e, e', le→geb lag recovered_lag low, still n) h

    Returns-Continues :
        (n t since : ℕ) (stretch after : List Round) (z : Round)
        → All (IsQuiet deadline stable n) stretch
        → IsQuiet deadline stable n z
        → stable ≤ z.measured - t
        → since ≤ t
        → Returns (stretch ++ (z ∷ after)) (some since) (some n)
    Returns-Continues n t since [] after z quiets quiet long old =
        Returns-quiet n z after (some since) quiet
          (rw (le→leb stable (z.measured - since) (omega (arith, long, old))) refl)
    Returns-Continues n t since (r ∷ stretch) after z (first, quiets) quiet long old =
        Returns-quiet n r (stretch ++ (z ∷ after)) (some since) first (
          if-elim (λ (o : Result (Unit {0})). o ≡ ok tt) (leb stable (r.measured - since))
            (λ over. refl)
            (λ short. Returns-Continues n t since stretch after z quiets quiet long old))

    -- Two quiet rounds and those that go on with them, from the time of the second.
    Returns-start :
        (n : ℕ) (a b : Round) (rest : List Round) (since last : Option ℕ)
        → IsQuiet deadline stable n a
        → IsQuiet deadline stable n b
        → a.measured ≤ b.measured
        → Continues deadline stable n b.measured rest
        → IsBefore b.measured since
        → Returns (a ∷ b ∷ rest) since last
    unfolding quiesce_loop
    Returns-start n a b rest since last (in_time, e', lag, e, low) quiet order more old =
        let (stretch, z, after, whole, quiets, last_quiet, long) = more in
        let go_on = λ (s : Option ℕ) (before : IsBefore b.measured s).
          Returns-quiet n b rest s quiet (
            settle-ok b.measured s b _ (omega arith) before (λ s' before'. rw whole (
              Returns-Continues n b.measured s' stretch after z quiets last_quiet long before'))) in
        rw (lt→leb a.started deadline in_time, e, e')
          (if-elim (λ (o : Result (Unit {0})). o ≡ ok tt) (ltb recovered_lag lag || moved last n)
            (λ loud. go_on none tt)
            (λ still_quiet.
              settle-ok b.measured since a _ order old (λ s before. go_on (some s) before)))

    Returns-before :
        (n : ℕ) (before : List Round) (a b : Round) (rest : List Round) (since last : Option ℕ)
        → All (IsRead b.measured) before
        → IsQuiet deadline stable n a
        → IsQuiet deadline stable n b
        → a.measured ≤ b.measured
        → Continues deadline stable n b.measured rest
        → IsBefore b.measured since
        → Returns (before ++ (a ∷ b ∷ rest)) since last
    Returns-before n [] a b rest since last reads quiet quiet' order more old =
        Returns-start n a b rest since last quiet quiet' order more old
    Returns-before n (r ∷ before) a b rest since last (read, reads) quiet quiet' order more old =
        Returns-read b.measured r (before ++ (a ∷ b ∷ rest)) since last read old (λ s l earlier.
          Returns-before n before a b rest s l reads quiet quiet' order more earlier)

-- The wait returns where two quiet rounds come before its deadline, both with a lag of at most 500 and
-- one count of the rebalances, and quiet rounds with that count go on until the pipeline has been
-- stable for long enough since the second, whatever the answers before them were, if those came and
-- the clock did not go back.
pub wait_until_quiesced-returns :
    (now stable timeout n : ℕ) (last_lag : Result ℕ) (before : List Round) (a b : Round)
    (rest : List Round)
    → All (IsRead (now + timeout) stable b.measured) before
    → IsQuiet (now + timeout) stable n a
    → IsQuiet (now + timeout) stable n b
    → a.measured ≤ b.measured
    → Continues (now + timeout) stable n b.measured rest
    → wait_until_quiesced now stable timeout last_lag (before ++ (a ∷ b ∷ rest)) ≡ ok tt
unfolding wait_until_quiesced
wait_until_quiesced-returns now stable timeout n last_lag before a b rest reads quiet quiet' order
      more =
    Returns-before (now + timeout) stable last_lag n before a b rest none none reads quiet quiet'
      order more tt
