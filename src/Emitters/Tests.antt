-- ===== src/Emitters/Tests.antt =====
-- The theorems on src/telemetry_engine/emitters at concrete inputs.
use mathlib.Core.List.{Memᴰ}
use llm_telemetry_engine.Base.{
  ℕ, ◌+◌, ◌-◌, ◌*◌, ◌≤◌, ◌<◌, ◌≡◌, refl, arith, inl, inr, some, List, [], ◌∷◌, map, sum, All, ok,
}
use llm_telemetry_engine.Base.Exec.{Exec}
use llm_telemetry_engine.Emitters.Spans.{
  StatusClass, SpanFields, span_data, tuple, TraceData, fields, walk, span_count,
}
use llm_telemetry_engine.Emitters.Otlp.{Call, Tracer, ns, kind_of, emit_trace}
use llm_telemetry_engine.Emitters.Otlp.Walk.{EndsAt, replay, starts, start_row}
use llm_telemetry_engine.Emitters.Otlp.Deadline.{emit_trace-walk}
use llm_telemetry_engine.Emitters.Pacing.{
  steady, ramp, LoadProfile, million, target_rate, RateLimiter, new_limiter, whole_span,
  acquire_all,
}
use llm_telemetry_engine.Emitters.Pacing.Limiter.{finish, acquire_all-le}
use llm_telemetry_engine.Emitters.Tenants.{TenantPool, new_pool, tenant_name, at, sample}
use llm_telemetry_engine.Emitters.Tenants.Sampling.{sample-IsCut, pool_of}
use llm_telemetry_engine.Emitters.Workload.{Random, up, Generator, chat, profile_of}
use llm_telemetry_engine.Emitters.Workload.Calls.{Context, llm_call_span}
use llm_telemetry_engine.Emitters.Workload.Calls.Outcome.{
  Returns, IsClamped, IsCall, llm_call_span-IsCall,
}
use llm_telemetry_engine.Emitters.Workload.Traces.{generate_trace}
use llm_telemetry_engine.Emitters.Workload.Traces.Shape.{IsRandom, IsTrace, generate_trace-IsTrace}
use llm_telemetry_engine.Emitters.Workload.Traces.Emission.{emit_trace-generate_trace}
use llm_telemetry_engine.Emitters.Load.{Reading, Totals, run_rounds}
use llm_telemetry_engine.Emitters.Load.Paced.{IsPacedBy, schedule, run_rounds-Returns}

-- A root with one call under it.
abbrev root_fields : SpanFields
root_fields = record {
  name = "invoke_agent research-agent";
  kind = "server";
  start_offset = 0;
  duration = 9000;
  attributes = [];
  status = StatusClass.timeout;
}

abbrev call_fields : SpanFields
call_fields = record {
  name = "chat mistral-7b-instruct";
  kind = "client";
  start_offset = 2000;
  duration = 5000;
  attributes = [];
  status = StatusClass.timeout;
}

abbrev one_call : TraceData
one_call = record {
  root = span_data root_fields (tuple (call_fields ∷ []));
  tenant_id = "tenant-0000";
}

abbrev silent : Tracer
silent = record { started = 0; calls = [] }

emit_trace-walk_example :
    (new : List Call) × (emit_trace 100 one_call silent ≡ (
      ok (span_count one_call.root),
      record { started = 0 + span_count one_call.root; calls = new },
    ))
    × (starts new ≡ map (start_row (100 - ns (fields one_call.root).duration)) (walk one_call.root))
    × (replay new 0 [] ≡ some ([], 0 + span_count one_call.root))
    × All (EndsAt (λ time. time ≤ 100)) new
unfolding walk kind_of
emit_trace-walk_example =
    emit_trace-walk 100 one_call silent ((_, refl), ((_, refl), tt))
      (omega arith, (omega arith, tt)) (omega arith)

-- Ten calls a second apart would be too few for the cap; these are two, half a second apart.
abbrev limiter : RateLimiter
limiter = record { last = 0; credit = 0; max_burst_credit = 5000 * whole_span }

abbrev half_seconds : List (ℕ × ℕ)
half_seconds = (500000, 5000 * million) ∷ (1000000, 5000 * million) ∷ []

acquire_all-le_example :
    (sum (acquire_all limiter half_seconds).0 * whole_span
        + (acquire_all limiter half_seconds).1.credit
      ≤ 0 + (finish 0 half_seconds - 0) * (5000 * million))
    × All (λ n. n * whole_span ≤ 5000 * whole_span) (acquire_all limiter half_seconds).0
acquire_all-le_example =
    acquire_all-le limiter (5000 * million) half_seconds
      (omega arith, omega arith, (omega arith, omega arith, tt))

abbrev climbing : LoadProfile
climbing = record {
  profile = ramp;
  sustained_spans_per_sec = 5000;
  burst_spans_per_sec = 20000;
  burst_period = 30000000;
  burst_duration = 8000000;
  ramp_duration = 120000000;
}

-- Shares of three tenants that were rounded down.
abbrev share : ℕ → ℕ
share rank = 333333

sample-IsCut_example :
    (pool : TenantPool) × (new_pool 3 1200000 share ≡ ok pool)
    × (i : ℕ) × (i < 3)
    × (sample pool 999999 ≡ ok (tenant_name i))
    × (at (0 ∷ pool.cumulative) i ≤ 999999)
    × (999999 < at pool.cumulative i)
sample-IsCut_example = sample-IsCut 3 1200000 999999 share (omega arith) (omega arith) (omega arith)

-- A choice that is the second where there is one.
abbrev second_of : {A : Type 0} → A → List A → A
second_of x [] = x
second_of x (y ∷ ys) = y

second_of-Mem : {A : Type 0} (x : A) (xs : List A) → Memᴰ (second_of x xs) (x ∷ xs)
second_of-Mem x [] = Memᴰ.head refl
second_of-Mem x (y ∷ ys) = Memᴰ.tail (Memᴰ.head refl)

abbrev pick : {A : Type 0} → A → List A → A
pick default [] = default
pick default (x ∷ xs) = second_of x xs

abbrev rng : Random (Unit {0})
rng = record {
  random = λ s. (0, s);
  gauss = λ s. (up 10000, s);
  uniform = λ lo hi s. (lo, s);
  lognormvariate = λ median sigma s. (median * million, s);
  betavariate = λ a b s. (500000, s);
  choice = λ xs s. (pick "" xs, s);
  choices = λ xs weights s. (pick 0 xs, s);
  randint = λ lo hi s. (lo, s);
  getrandbits = λ n s. (7, s);
}

rng-IsRandom : IsRandom rng
rng-IsRandom = record {
  below = λ s. omega arith;
  share = λ a b s. omega arith;
  chosen = λ x xs s. second_of-Mem x xs;
  picked = λ x xs weights s. second_of-Mem x xs;
}

abbrev generator : Generator (Unit {0})
generator = record {
  rng = tt;
  kv_utilization = 450000;
  error_rate = 20000;
  tenants = pool_of 3 share;
}

abbrev context : Context
context = record {
  tenant_id = "tenant-0000";
  tier = "enterprise";
  model = "mistral-7b-instruct";
  route = "/v1/completions";
  region = "us-east-1";
}

llm_call_span-IsCall_example :
    Returns
      (λ (f : SpanFields) (g : Generator (Unit {0})). IsCall 3000 f × IsClamped g)
      (llm_call_span rng context chat 3000 generator)
unfolding profile_of
llm_call_span-IsCall_example =
    llm_call_span-IsCall rng (λ a b s. omega arith) context chat 3000 _ generator refl

generate_trace-IsTrace_example :
    Returns
      (λ (d : TraceData) (g : Generator (Unit {0})). IsTrace d × IsClamped g)
      (generate_trace rng generator)
unfolding new_pool
generate_trace-IsTrace_example =
    generate_trace-IsTrace rng rng-IsRandom 3 1200000 share generator (omega arith) (omega arith)
      refl (omega arith, omega arith)

emit_trace-generate_trace_example :
    (d : TraceData) × (g : Generator (Unit {0})) × (new : List Call) × (generate_trace rng generator
      ≡ (ok d, g))
    × (emit_trace (ns (fields d.root).duration + 1000) d silent
        ≡ (ok (span_count d.root), record { started = 0 + span_count d.root; calls = new }))
    × (2 ≤ span_count d.root)
    × (span_count d.root ≤ 8)
    × (replay new 0 [] ≡ some ([], 0 + span_count d.root))
    × All (EndsAt (λ time. time ≤ ns (fields d.root).duration + 1000)) new
unfolding new_pool
emit_trace-generate_trace_example =
    emit_trace-generate_trace rng rng-IsRandom 3 1200000 1000 share generator silent (omega arith)
      (omega arith) refl (omega arith, omega arith)

-- Two rounds a millisecond apart, and the end.
abbrev readings : List Reading
readings =
    record { elapsed = 1000; now = 1000 }
    ∷ record { elapsed = 2000; now = 2000 }
    ∷ record { elapsed = 3000; now = 3000 }
    ∷ []

abbrev flat : LoadProfile
flat = record climbing { profile = steady }

-- A trace of three spans each time.
abbrev three : Exec (Unit {0}) ℕ
three w = (ok 3, w)

abbrev nothing : Totals
nothing = record { spans = 0; traces = 0 }

run_rounds-Returns_example :
    Returns
      (λ (t : Totals) (w : Unit {0}).
        IsPacedBy nothing
          (acquire_all (new_limiter 0) (schedule 1 3000 (λ t. 5000 * million) readings)).0
          t)
      (run_rounds three flat 1 3000 readings (new_limiter 0) nothing tt)
unfolding target_rate
run_rounds-Returns_example =
    run_rounds-Returns three (λ w. (3, w, refl, (omega arith, omega arith))) flat 1 3000
      (λ t. 5000 * million) (λ t. refl) readings (new_limiter 0) nothing tt
      (inr (inr (inl (omega arith))))

tenant_names :
    map tenant_name (7 ∷ 1234 ∷ 12345 ∷ []) ≡ ("tenant-0007" ∷ "tenant-1234" ∷ "tenant-12345" ∷ [])
unfolding tenant_name
tenant_names = refl
