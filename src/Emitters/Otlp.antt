-- ===== src/Emitters/Otlp.antt =====
-- The emission of a trace by telemetry_engine/emitters/otlp.py. The tracer of the SDK is the log of
-- the calls that it receives; a span is the number of the spans that were started before it, and a
-- context is the span that it holds.
pub mod Walk
pub mod Deadline
use llm_telemetry_engine.Base.{
  ℕ, ◌+◌, ◌-◌, ◌/◌, suc, Option, none, some, String, List, [], ◌∷◌, ◌++◌, Dict, lookup, Result, ok,
  err, Error, value_error, key_error,
}
use llm_telemetry_engine.Base.Exec.{Exec, ◌>>=◌, ◌>>◌, pure, lift}
use llm_telemetry_engine.Emitters.Spans.{
  StatusClass, status_value, Attribute, SpanFields, SpanData, span_data, Children, none_left, child,
  TraceData, fields,
}

pub data SpanKind : Type 0 where
  server client internal : SpanKind

-- `_SPAN_KINDS`
abbrev span_kinds : Dict SpanKind
span_kinds = ("server", server) ∷ ("client", client) ∷ ("internal", internal) ∷ []

abbrev found : Option SpanKind → Result SpanKind
found none = err key_error
found (some kind) = ok kind

-- `_SPAN_KINDS[kind]`
unfoldable pub kind_of : String → Result SpanKind
kind_of kind = found (lookup span_kinds kind)

pub data Status : Type 0 where
  status_ok : Status
  status_error : String → Status

-- `_status`
unfoldable pub status : StatusClass → Status
status StatusClass.ok = status_ok
status failure = status_error (status_value failure)

pub record Start : Type 0 where
  pub name : String
  pub context : Option ℕ
  pub kind : SpanKind
  pub attributes : Dict Attribute
  pub start_time : ℕ

pub data Call : Type 0 where
  start_span : Start → Call
  set_status : ℕ → Status → Call
  end_span : ℕ → ℕ → Call

pub record Tracer : Type 0 where
  pub started : ℕ
  pub calls : List Call

-- `tracer.start_span`
abbrev pub start : Start → Exec Tracer ℕ
start s t =
    (ok t.started, record { started = suc t.started; calls = t.calls ++ (start_span s ∷ []) })

-- A call on a span.
abbrev pub record_call : Call → Exec Tracer (Unit {0})
record_call c t = (ok tt, record t { calls = t.calls ++ (c ∷ []) })

-- `int(x * _MS_TO_NS)`, of picoseconds
abbrev pub ns : ℕ → ℕ
ns x = x / 1000

abbrev pub start_of : ℕ → SpanFields → ℕ
start_of trace_start_ns f = trace_start_ns + ns f.start_offset

-- `_emit_span`, and its loop over the children.
unfoldable mutual
  pub emit_span : ℕ → SpanData → Option ℕ → Exec Tracer ℕ
  emit_span trace_start_ns (span_data f children) parent_context = do
    kind ← lift (kind_of f.kind)
    span ← start (record {
      name = f.name;
      context = parent_context;
      kind = kind;
      attributes = f.attributes;
      start_time = start_of trace_start_ns f;
    })
    record_call (set_status span (status f.status))
    emitted ← emit_children trace_start_ns children (some span) 1
    record_call (end_span span (start_of trace_start_ns f + ns f.duration))
    pure emitted

  pub emit_children : ℕ → Children → Option ℕ → ℕ → Exec Tracer ℕ
  emit_children trace_start_ns none_left child_context emitted = pure emitted
  emit_children trace_start_ns (child s rest) child_context emitted = do
    more ← emit_span trace_start_ns s child_context
    emit_children trace_start_ns rest child_context (emitted + more)

-- `emit_trace` without a start: the trace ends at `now`, the nanoseconds of the clock.
unfoldable pub emit_trace : ℕ → TraceData → Exec Tracer ℕ
emit_trace now trace_data =
    emit_span (now - ns (fields trace_data.root).duration) trace_data.root none
