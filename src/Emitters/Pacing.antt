-- ===== src/Emitters/Pacing.antt =====
-- `LoadProfile` and `RateLimiter` of telemetry_engine/emitters/workload.py. A time is a whole number of
-- microseconds, a target rate one of millionths of a span per second, and a credit one of millionths
-- of millionths of a span, so that a time by a rate is a credit, exactly where the code has doubles.
pub mod Limiter
pub mod Ramp
use llm_telemetry_engine.Base.{
  ℕ, zero, suc, ◌+◌, ◌-◌, ◌*◌, ◌/◌, ◌%◌, min, ltb, leb, ◌==◌, if◌then◌else◌, List, [], ◌∷◌, Result,
  ok, err, zero_division,
}

pub data Profile : Type 0 where
  steady burst ramp : Profile

pub record LoadProfile : Type 0 where
  pub profile : Profile
  pub sustained_spans_per_sec : ℕ
  pub burst_spans_per_sec : ℕ
  pub burst_period : ℕ
  pub burst_duration : ℕ
  pub ramp_duration : ℕ

abbrev pub million : ℕ
million = 1000000

-- `low`, a tenth of the sustained rate.
abbrev pub low : LoadProfile → ℕ
low p = p.sustained_spans_per_sec * 100000

-- `low + (burst - low) * part / whole`, also where the burst rate is the lower.
abbrev pub climb : ℕ → ℕ → ℕ → ℕ → ℕ
climb low high part whole =
    if leb low high then low + (high - low) * part / whole else low - (low - high) * part / whole

abbrev pub rate_by : Profile → LoadProfile → ℕ → Result ℕ
rate_by steady p elapsed = ok (p.sustained_spans_per_sec * million)
rate_by burst p elapsed =
    if p.burst_period == 0
    then err zero_division
    else if ltb (elapsed % p.burst_period) p.burst_duration
    then ok (p.burst_spans_per_sec * million)
    else ok (p.sustained_spans_per_sec * million)
rate_by ramp p elapsed =
    if p.ramp_duration == 0
    then err zero_division
    else ok (
        climb (low p) (p.burst_spans_per_sec * million) (min p.ramp_duration elapsed)
          p.ramp_duration)

-- `LoadProfile.target_rate`
unfoldable pub target_rate : LoadProfile → ℕ → Result ℕ
target_rate p elapsed = rate_by p.profile p elapsed

pub record RateLimiter : Type 0 where
  pub last : ℕ
  pub credit : ℕ
  pub max_burst_credit : ℕ

-- A whole span of credit.
abbrev pub whole_span : ℕ
whole_span = 1000000000000

-- `RateLimiter.__init__`, at the clock's first reading, with the default cap of 5000 spans.
unfoldable pub new_limiter : ℕ → RateLimiter
new_limiter now = record { last = now; credit = 0; max_burst_credit = 5000 * whole_span }

-- The credit before the whole spans are taken. Subtraction stops at 0, as `max(0.0, ...)` does.
abbrev pub accrued : RateLimiter → ℕ → ℕ → ℕ
accrued l now rate = min l.max_burst_credit (l.credit + (now - l.last) * rate)

-- `RateLimiter.acquire`, at the clock's reading `now`. The whole spans are exact here, where the code
-- truncates a double, which can be a span less.
unfoldable pub acquire : RateLimiter → ℕ → ℕ → ℕ × RateLimiter
acquire l now rate =
    let credit : ℕ = accrued l now rate in
    let whole : ℕ = credit / whole_span in
    (whole, record l { last = now; credit = credit - whole * whole_span })

-- Calls one after another, each with its reading of the clock and its rate.
unfoldable pub acquire_all : RateLimiter → List (ℕ × ℕ) → List ℕ × RateLimiter
unfolding acquire
acquire_all l [] = ([], l)
acquire_all l ((now, rate) ∷ steps) =
    let (whole, after) = acquire l now rate in
    let (wholes, last) = acquire_all after steps in (whole ∷ wholes, last)
