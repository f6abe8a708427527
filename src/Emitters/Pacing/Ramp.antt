-- ===== src/Emitters/Pacing/Ramp.antt =====
-- The target rate of `LoadProfile` in telemetry_engine/emitters/workload.py over time.
use native.Mathlib.Nat.{
  le-div_iff_mul-le, div-mul-le_self, mul-le-mul_left, div-le_of_le-mul, mul-div_cancel,
}
use llm_telemetry_engine.Base.{
  ℕ, ◌+◌, ◌-◌, ◌*◌, ◌/◌, ◌≤◌, ◌<◌, ◌≡◌, ap, arith, min, le→leb, not_zero, ok, ◌∙◌,
}
use llm_telemetry_engine.Emitters.Pacing.{ramp, LoadProfile, low, climb, million, target_rate}

share-le : (x part whole : ℕ) → 0 < whole → part ≤ whole → x * part / whole ≤ x
share-le x part whole h k = div-le_of_le-mul whole (omega (arith, mul-le-mul_left x k))

share_mono : (x part more whole : ℕ) → 0 < whole → part ≤ more → x * part / whole ≤ x * more / whole
share_mono x part more whole h k =
    (le-div_iff_mul-le h).1 (omega (arith, div-mul-le_self (x * part) whole, mul-le-mul_left x k))

-- Between two rates that are in order, a climb stays between them and rises with its part.
climb-between :
    (bottom top part whole : ℕ)
    → bottom ≤ top
    → 0 < whole
    → part ≤ whole
    → (bottom ≤ climb bottom top part whole) × (climb bottom top part whole ≤ top)
climb-between bottom top part whole h pos k =
    rw (le→leb bottom top h) (omega arith, omega (arith, share-le (top - bottom) part whole pos k))

climb_mono :
    (bottom top part more whole : ℕ)
    → bottom ≤ top
    → 0 < whole
    → part ≤ more
    → climb bottom top part whole ≤ climb bottom top more whole
climb_mono bottom top part more whole h pos k =
    rw (le→leb bottom top h) (omega (arith, share_mono (top - bottom) part more whole pos k))

climb-top : (bottom top whole : ℕ) → bottom ≤ top → 0 < whole → climb bottom top whole whole ≡ top
climb-top bottom top whole h pos =
    rw (le→leb bottom top h) (omega (arith, mul-div_cancel (top - bottom) pos))

-- A ramp with a duration, whose burst rate is at least a tenth of its sustained rate, has a rate at
-- every time. It never falls, lies between that tenth and the burst rate, and is the burst rate from
-- the end of the ramp on.
pub target_rate-ramp :
    (p : LoadProfile) (t later : ℕ)
    → p.profile ≡ ramp
    → 0 < p.ramp_duration
    → low p ≤ p.burst_spans_per_sec * million
    → t ≤ later
    → (x y : ℕ) × (target_rate p t ≡ ok x)
      × (target_rate p later ≡ ok y)
      × (low p ≤ x)
      × (x ≤ y)
      × (y ≤ p.burst_spans_per_sec * million)
      × (target_rate p (p.ramp_duration + t) ≡ ok (p.burst_spans_per_sec * million))
unfolding target_rate
target_rate-ramp p t later is_ramp pos rises after =
    let top : ℕ = p.burst_spans_per_sec * million in
    let part : ℕ = min p.ramp_duration t in
    let more : ℕ = min p.ramp_duration later in
    (
      climb (low p) top part p.ramp_duration,
      climb (low p) top more p.ramp_duration,
      rw (is_ramp, not_zero p.ramp_duration pos),
      rw (is_ramp, not_zero p.ramp_duration pos),
      (climb-between (low p) top part p.ramp_duration rises pos (omega arith)).0,
      climb_mono (low p) top part more p.ramp_duration rises pos (omega arith),
      (climb-between (low p) top more p.ramp_duration rises pos (omega arith)).1,
      rw (is_ramp, not_zero p.ramp_duration pos)
          (ap ok (
            ap (λ (m : ℕ). climb (low p) top m p.ramp_duration) (omega arith)
            ∙ climb-top (low p) top p.ramp_duration rises pos)),
    )
