-- ===== src/Experiments/Quiesce/Stretch.antt =====
-- When `wait_until_quiesced` of telemetry_engine/experiments/backpressure.py returns.
use llm_telemetry_engine.Base.{
  ℕ, ◌+◌, ◌-◌, ◌≤◌, ◌<◌, ◌≡◌, refl, ap, ◌⊎◌, inl, inr, arith, ltb, leb, leb→le, gt_of_leb,
  le_of_ltb, ◌==◌, ==_iff, not, ◌||◌, Bool, true, false, if-elim, Option, none, some, List, [], ◌∷◌,
  ◌++◌, All, Result, ok, >>=-eq-ok,
}
use llm_telemetry_engine.Experiments.Backpressure.{recovered_lag}
use llm_telemetry_engine.Experiments.Quiesce.{
  Round, moved, settle, quiesce_loop, wait_until_quiesced,
}

neither : (b c : Bool) → (b || c) ≡ false → (b ≡ false) × (c ≡ false)
neither true c h = cc h
neither false c h = (refl, h)

same_count : (m n : ℕ) → not (m == n) ≡ false → m ≡ n
same_count m n h = ground (arith, ==_iff m n)

module _ (deadline stable : ℕ) where
  -- A round before the deadline with a low lag and this many rebalances.
  abbrev pub IsQuiet : ℕ → Round → Type 0
  IsQuiet n r =
      (r.started < deadline)
      × (r.rebalances ≡ ok n)
      × (lag : ℕ) × (r.lag ≡ ok lag)
      × (lag ≤ recovered_lag)

  -- Quiet rounds up to one that was measured long enough after `since`.
  abbrev pub Continues : ℕ → ℕ → List Round → Type 0
  Continues n since rounds =
      (stretch : List Round) × (z : Round) × (after : List Round) × (rounds
        ≡ stretch ++ (z ∷ after))
      × All (IsQuiet n) stretch
      × IsQuiet n z
      × (stable ≤ z.measured - since)

  -- A stretch of quiet rounds with as many rebalances, from the first's time to the last's long enough.
  abbrev pub HasStretch : List Round → Type 0
  HasStretch rounds =
      (before : List Round) × (n : ℕ) × (a : Round) × (rest : List Round) × (rounds
        ≡ before ++ (a ∷ rest))
      × IsQuiet n a
      × Continues n a.measured rest

  HasStretch-cons : (r : Round) (rs : List Round) → HasStretch rs → HasStretch (r ∷ rs)
  HasStretch-cons r rs (before, n, a, rest, e, quiet, more) =
      (r ∷ before, n, a, rest, ap (λ (l : List Round). r ∷ l) e, quiet, more)

  Continues-cons :
      (n since : ℕ) (r : Round) (rs : List Round)
      → IsQuiet n r
      → Continues n since rs
      → Continues n since (r ∷ rs)
  Continues-cons n since r rs quiet (stretch, z, after, e, quiets, last, long) =
      (r ∷ stretch, z, after, ap (λ (l : List Round). r ∷ l) e, (quiet, quiets), last, long)

  -- What is known where the loop returned, from the two states that it goes on with.
  abbrev Known : Option ℕ → Option ℕ → List Round → Type 0
  Known none last rs = HasStretch rs
  Known (some since) none rs = Unit
  Known (some since) (some n) rs = Continues n since rs ⊎ HasStretch rs

  Known-start :
      (n : ℕ) (r : Round) (rs : List Round)
      → IsQuiet n r
      → Continues n r.measured rs ⊎ HasStretch rs
      → HasStretch (r ∷ rs)
  Known-start n r rs quiet (inl more) = ([], n, r, rs, refl, quiet, more)
  Known-start n r rs quiet (inr later) = HasStretch-cons r rs later

  Known-more :
      (n since : ℕ) (r : Round) (rs : List Round)
      → IsQuiet n r
      → Continues n since rs ⊎ HasStretch rs
      → Continues n since (r ∷ rs) ⊎ HasStretch (r ∷ rs)
  Known-more n since r rs quiet (inl more) = inl (Continues-cons n since r rs quiet more)
  Known-more n since r rs quiet (inr later) = inr (HasStretch-cons r rs later)

  Known-quiet :
      (since last : Option ℕ) (n : ℕ) (r : Round) (rs : List Round)
      (next : Option ℕ → Result (Unit {0}))
      → moved last n ≡ false
      → IsQuiet n r
      → ((s : Option ℕ) → next s ≡ ok tt → Known s (some n) rs)
      → settle stable since r.measured next ≡ ok tt
      → Known since last (r ∷ rs)
  Known-quiet none last n r rs next same quiet k h =
      Known-start n r rs quiet (k (some r.measured) h)
  Known-quiet (some since) none n r rs next same quiet k h = tt
  Known-quiet (some since) (some m) n r rs next same quiet k h =
      let e : m ≡ n = same_count m n same in
      rw e (
        if-elim
          (λ (o : Result (Unit {0})). o ≡ ok tt → Continues n since (r ∷ rs) ⊎ HasStretch (r ∷ rs))
          (leb stable (r.measured - since))
          (λ long _. inl ([], r, rs, refl, tt, quiet, leb→le stable (r.measured - since) long))
          (λ short go_on. Known-more n since r rs quiet (k (some since) go_on)) h)

  Known-loud :
      (since last : Option ℕ) (n : ℕ) (r : Round) (rs : List Round)
      → HasStretch rs
      → Known since last (r ∷ rs)
  Known-loud none last n r rs h = HasStretch-cons r rs h
  Known-loud (some since) none n r rs h = tt
  Known-loud (some since) (some m) n r rs h = inr (HasStretch-cons r rs h)

  quiesce_loop-Known :
      (last_lag : Result ℕ) (rs : List Round) (since last : Option ℕ)
      → quiesce_loop deadline stable last_lag rs since last ≡ ok tt
      → Known since last rs
  unfolding quiesce_loop
  quiesce_loop-Known last_lag [] since last h = cc h
  quiesce_loop-Known last_lag (r ∷ rs) since last h =
      if-elim (λ (o : Result (Unit {0})). o ≡ ok tt → Known since last (r ∷ rs))
        (leb deadline r.started) (λ late k. let (lag, e, k') = >>=-eq-ok last_lag _ k in cc k')
        (λ in_time k.
          let (lag, e, k') = >>=-eq-ok r.lag _ k in
          let (n, e', k'') = >>=-eq-ok r.rebalances _ k' in
          if-elim (λ (o : Result (Unit {0})). o ≡ ok tt → Known since last (r ∷ rs))
            (ltb recovered_lag lag || moved last n)
            (λ loud k.
              Known-loud since last n r rs (quiesce_loop-Known last_lag rs none (some n) k))
            (λ quiet k.
              let (low, same) = neither (ltb recovered_lag lag) (moved last n) quiet in
              Known-quiet since last n r rs
                (λ (s : Option ℕ). quiesce_loop deadline stable last_lag rs s (some n)) same
                (gt_of_leb deadline r.started in_time, e', lag, e, le_of_ltb recovered_lag lag low)
                (λ s. quiesce_loop-Known last_lag rs s (some n)) k)
            k'')
        h

-- The wait returns only behind a stretch of rounds before its deadline in each of which the lag was at
-- most 500 and the count of the rebalances the same, and whose last one was measured as long after its
-- first one as the pipeline has to be stable.
pub wait_until_quiesced-HasStretch :
    (now stable timeout : ℕ) (last_lag : Result ℕ) (rounds : List Round)
    → wait_until_quiesced now stable timeout last_lag rounds ≡ ok tt
    → HasStretch (now + timeout) stable rounds
unfolding wait_until_quiesced
wait_until_quiesced-HasStretch now stable timeout last_lag rounds h =
    quiesce_loop-Known (now + timeout) stable last_lag rounds none none h
