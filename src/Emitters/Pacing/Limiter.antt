-- ===== src/Emitters/Pacing/Limiter.antt =====
-- What `RateLimiter` of telemetry_engine/emitters/workload.py grants over any number of calls.
use native.Mathlib.Nat.{add-mul, mul-le-mul}
use llm_telemetry_engine.Base.{ℕ, ◌+◌, ◌-◌, ◌*◌, ◌≤◌, ◌≡◌, sym, ap, arith, List, [], ◌∷◌, sum, All}
use llm_telemetry_engine.Emitters.Pacing.{RateLimiter, whole_span, acquire, acquire_all}

-- The clock does not go back, and no rate is above the given one.
abbrev pub IsPaced : ℕ → ℕ → List (ℕ × ℕ) → Type 0
IsPaced rate last [] = Unit
IsPaced rate last ((now, r) ∷ steps) = (last ≤ now) × (r ≤ rate) × IsPaced rate now steps

-- The clock's last reading.
abbrev pub finish : ℕ → List (ℕ × ℕ) → ℕ
finish last [] = last
finish last ((now, r) ∷ steps) = finish now steps

finish-ge :
    (rate last : ℕ) (steps : List (ℕ × ℕ)) → IsPaced rate last steps → last ≤ finish last steps
finish-ge rate last [] h = omega arith
finish-ge rate last ((now, r) ∷ steps) (later, below, h) =
    omega (arith, later, finish-ge rate now steps h)

-- Time by rate, over two stretches.
stretches : (a b c rate : ℕ) → a ≤ b → b ≤ c → (b - a) * rate + (c - b) * rate ≡ (c - a) * rate
stretches a b c rate h k =
    rw (sym (add-mul (b - a) (c - b) rate)) (ap (λ (t : ℕ). t * rate) (omega arith))

-- What one call takes and leaves is at most what was there and what the time since gave, and it takes
-- no more than the cap.
acquire-le :
    (l : RateLimiter) (now r rate : ℕ)
    → r ≤ rate
    → ((acquire l now r).0 * whole_span + (acquire l now r).1.credit
        ≤ l.credit + (now - l.last) * rate)
      × ((acquire l now r).0 * whole_span ≤ l.max_burst_credit)
unfolding acquire
acquire-le l now r rate h =
    let more : (now - l.last) * r ≤ (now - l.last) * rate = mul-le-mul (omega arith) h in
    (omega (arith, more), omega arith)

-- Where the clock does not go back and no rate is above the given one, the spans that a sequence of
-- calls grants, with the credit that is left, are at most the credit at the start and that rate over
-- the time from the limiter's last reading to the last one. No call grants more than the cap.
pub acquire_all-le :
    (l : RateLimiter) (rate : ℕ) (steps : List (ℕ × ℕ))
    → IsPaced rate l.last steps
    → (sum (acquire_all l steps).0 * whole_span + (acquire_all l steps).1.credit
        ≤ l.credit + (finish l.last steps - l.last) * rate)
      × All (λ n. n * whole_span ≤ l.max_burst_credit) (acquire_all l steps).0
unfolding acquire_all
acquire_all-le l rate [] h = (omega arith, tt)
acquire_all-le l rate ((now, r) ∷ steps) (later, low, h) =
    let (taken, capped) = acquire-le l now r rate low in
    let after : RateLimiter = (acquire l now r).1 in
    let (rest, all_capped) = acquire_all-le after rate steps h in
    (
      omega (
        arith,
        taken,
        rest,
        stretches l.last now (finish now steps) rate later (finish-ge rate now steps h),
      ),
      (capped, all_capped),
    )
