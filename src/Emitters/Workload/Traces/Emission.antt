-- ===== src/Emitters/Workload/Traces/Emission.antt =====
-- A trace of `generate_trace` through `emit_trace`, of telemetry_engine/emitters/otlp.py.
use llm_telemetry_engine.Base.{ℕ, ◌+◌, ◌≤◌, ◌<◌, ◌≡◌, arith, some, List, [], ◌++◌, All, ok}
use llm_telemetry_engine.Emitters.Spans.{TraceData, fields, span_count}
use llm_telemetry_engine.Emitters.Otlp.{Call, Tracer, ns, emit_trace}
use llm_telemetry_engine.Emitters.Otlp.Walk.{EndsAt, replay}
use llm_telemetry_engine.Emitters.Otlp.Deadline.{emit_trace-walk}
use llm_telemetry_engine.Emitters.Tenants.{new_pool}
use llm_telemetry_engine.Emitters.Workload.{Random, Generator}
use llm_telemetry_engine.Emitters.Workload.Calls.Outcome.{IsClamped}
use llm_telemetry_engine.Emitters.Workload.Traces.{generate_trace}
use llm_telemetry_engine.Emitters.Workload.Traces.Shape.{
  IsRandom, IsTrace-IsNested, generate_trace-IsTrace,
}

module _ {S : Type 0} (random : Random S) (laws : IsRandom random) where
  -- With a pool that was made of a tenant at least, and a utilization between 0.05 and 0.99, a trace is
  -- generated and emitted as two to eight spans, at any reading of the clock from its own duration on.
  -- Each span is started under the innermost of the trace's open spans, all are ended, the innermost
  -- first, and none at a time behind the clock.
  pub emit_trace-generate_trace :
      (count alpha since : ℕ) (share : ℕ → ℕ) (g : Generator S) (t : Tracer)
      → 0 < count
      → 0 < alpha
      → new_pool count alpha share ≡ ok g.tenants
      → IsClamped g
      → (d : TraceData) × (g' : Generator S) × (new : List Call) × (generate_trace random g
          ≡ (ok d, g'))
        × (emit_trace (ns (fields d.root).duration + since) d t ≡ (
          ok (span_count d.root),
          record { started = t.started + span_count d.root; calls = t.calls ++ new },
        ))
        × (2 ≤ span_count d.root)
        × (span_count d.root ≤ 8)
        × (replay new t.started [] ≡ some ([], t.started + span_count d.root))
        × All (EndsAt (λ time. time ≤ ns (fields d.root).duration + since)) new
  emit_trace-generate_trace count alpha since share g t some_count some_alpha made clamped =
      let (d, g', e, trace) =
        generate_trace-IsTrace random laws count alpha share g some_count some_alpha made clamped in
      let (nested, kinds, two, eight) = IsTrace-IsNested d trace.0 in
      let (new, emitted, order, balanced, ended) =
        emit_trace-walk (ns (fields d.root).duration + since) d t kinds nested (omega arith) in
      (d, g', new, e, emitted, two, eight, balanced, ended)
