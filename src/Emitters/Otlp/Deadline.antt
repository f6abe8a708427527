-- ===== src/Emitters/Otlp/Deadline.antt =====
-- What `emit_trace` of telemetry_engine/emitters/otlp.py tells the tracer of a whole trace.
use llm_telemetry_engine.Base.{
  ℕ, ◌+◌, ◌-◌, ◌≤◌, ◌≡◌, sym, ◌∙◌, ap, arith, some, List, [], ◌++◌, map, All, All-mono, ok,
}
use mathlib.Core.List.{append-nil}
use llm_telemetry_engine.Emitters.Spans.{SpanFields, TraceData, fields, walk, span_count}
use llm_telemetry_engine.Emitters.Spans.Nested.{IsBy, IsNested}
use llm_telemetry_engine.Emitters.Otlp.{Call, Tracer, ns, emit_trace}
use llm_telemetry_engine.Emitters.Otlp.Walk.{
  HasKind, start_row, end_of, EndsAt, replay, starts, emit_span-Emits,
}

-- The nanoseconds of the parts are at most those of the whole.
ns_le : (x y z : ℕ) → x + y ≤ z → ns x + ns y ≤ ns z
ns_le x y z h = omega arith

end_of-le :
    (now total : ℕ) (f : SpanFields)
    → ns total ≤ now
    → IsBy total f
    → end_of (now - ns total) f ≤ now
end_of-le now total f fits h = omega (arith, ns_le f.start_offset f.duration total h)

-- Where every span of the trace has a kind and ends by the end of the root, and the clock has passed
-- the duration of the root, `emit_trace` returns the number of the trace's spans. It starts each of
-- them once, parents first, in the order of the walk, at its offset from the start of the trace. Each
-- is started under the innermost of the spans that are open, only the innermost is ended, and none
-- stays open. No span is ended at a time behind the clock.
pub emit_trace-walk :
    (now : ℕ) (d : TraceData) (t : Tracer)
    → All HasKind (walk d.root)
    → IsNested d.root
    → ns (fields d.root).duration ≤ now
    → (new : List Call) × (emit_trace now d t ≡ (
      ok (span_count d.root),
      record { started = t.started + span_count d.root; calls = t.calls ++ new },
    ))
      × (starts new ≡ map (start_row (now - ns (fields d.root).duration)) (walk d.root))
      × (replay new t.started [] ≡ some ([], t.started + span_count d.root))
      × All (EndsAt (λ time. time ≤ now)) new
unfolding emit_trace span_count
emit_trace-walk now d t kinds nested fits =
    let total : ℕ = (fields d.root).duration in
    let (new, e, calls) = emit_span-Emits (now - ns total) d.root [] t kinds in
    (
      new,
      e,
      calls.in_order,
      ap (λ (l : List Call). replay l t.started []) (sym (append-nil new)) ∙ calls.balanced [],
      calls.ended (λ time. time ≤ now)
          (All-mono (walk d.root) (λ f by. end_of-le now total f fits by) nested),
    )
