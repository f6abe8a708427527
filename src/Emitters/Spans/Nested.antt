-- ===== src/Emitters/Spans/Nested.antt =====
-- Where the spans of a trace lie in time.
use llm_telemetry_engine.Base.{ℕ, ◌+◌, ◌≤◌, All}
use llm_telemetry_engine.Emitters.Spans.{SpanFields, SpanData, walk, fields}

-- The span ends by this time after the start of the trace.
abbrev pub IsBy : ℕ → SpanFields → Type 0
IsBy last f = f.start_offset + f.duration ≤ last

-- Every span of the trace ends by the end of the root, which starts with the trace.
abbrev pub IsNested : SpanData → Type 0
IsNested s = All (IsBy (fields s).duration) (walk s)
