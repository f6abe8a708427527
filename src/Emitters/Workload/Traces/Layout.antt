-- ===== src/Emitters/Workload/Traces/Layout.antt =====
-- How `generate_trace` of telemetry_engine/emitters/workload.py lays the spans of a trace.
use llm_telemetry_engine.Base.{
  ℕ, zero, suc, ◌+◌, ◌*◌, ◌≤◌, ◌≡◌, refl, ◌⊎◌, inl, inr, arith, Bool, true, false, String, not,
  ◌&&◌, min, List, [], ◌∷◌, ◌++◌, All, all, length, length-append, ok, ltb, if◌then◌else◌,
}
use llm_telemetry_engine.Base.Issues.{All-append}
use llm_telemetry_engine.Emitters.Spans.{StatusClass, is_failure, SpanFields}
use llm_telemetry_engine.Emitters.Spans.Nested.{IsBy}
use llm_telemetry_engine.Emitters.Tenants.{million}
use llm_telemetry_engine.Emitters.Workload.{
  Operation, chat, embeddings, agent_invoke, tool, ModelProfile, profile_of, Random, Generator,
}
use llm_telemetry_engine.Emitters.Workload.Calls.{Context, tool_span}
use llm_telemetry_engine.Emitters.Workload.Calls.Outcome.{Returns, IsClamped, llm_call_span-IsCall}
use llm_telemetry_engine.Emitters.Workload.Traces.{
  worst, durations, tool_if, tool_after, sample_route, run_steps,
}

-- Each span starts where the one before it ends, and the last one ends at the given time.
abbrev pub IsLaid : ℕ → List SpanFields → ℕ → Type 0
IsLaid cursor [] last = cursor ≡ last
IsLaid cursor (f ∷ fs) last = (f.start_offset ≡ cursor) × IsLaid (cursor + f.duration) fs last

-- A call of the endpoint, or of a tool.
abbrev pub IsChild : SpanFields → Type 0
IsChild f = (f.kind ≡ "client") ⊎ (f.kind ≡ "internal")

pub IsLaid-IsBy :
    (cursor last : ℕ) (fs : List SpanFields)
    → IsLaid cursor fs last
    → (cursor ≤ last) × All (IsBy last) fs
IsLaid-IsBy cursor last [] h = (omega (arith, h), tt)
IsLaid-IsBy cursor last (f ∷ fs) (start, h) =
    let (after, rest) = IsLaid-IsBy (cursor + f.duration) last fs h in
    (omega (arith, after), (omega (arith, start, after), rest))

IsLaid-append :
    (cursor middle last : ℕ) (fs gs : List SpanFields)
    → IsLaid cursor fs middle
    → IsLaid middle gs last
    → IsLaid cursor (fs ++ gs) last
IsLaid-append cursor middle last [] gs h k = rw h k
IsLaid-append cursor middle last (f ∷ fs) gs (start, h) k =
    (start, IsLaid-append (cursor + f.duration) middle last fs gs h k)

worst_step :
    (s rest : StatusClass) {b : Bool}
    → b ≡ not (is_failure rest)
    → (not (is_failure s) && b) ≡ not (is_failure (if is_failure s then s else rest))
worst_step StatusClass.ok rest h = h
worst_step StatusClass.client_error rest h = refl
worst_step StatusClass.server_error rest h = refl
worst_step StatusClass.timeout rest h = refl

-- The worst status is a failure where some span's is.
pub worst-is_failure :
    (fs : List SpanFields)
    → all (λ (f : SpanFields). not (is_failure f.status)) fs ≡ not (is_failure (worst fs))
unfolding worst
worst-is_failure [] = refl
worst-is_failure (f ∷ fs) = worst_step f.status (worst fs) (worst-is_failure fs)

module _ {S : Type 0} (random : Random S) where
  -- What a step says of the spans that it adds from `cursor` on.
  abbrev AreTools : ℕ → List SpanFields → Generator S → Type 0
  AreTools cursor fs g = IsLaid cursor fs (cursor + durations fs) × All IsChild fs × IsClamped g

  tool_if-AreTools :
      (call : Bool) (c : Context) (cursor step : ℕ) (g : Generator S)
      → IsClamped g
      → Returns
          (λ (fs : List SpanFields) (g' : Generator S). AreTools cursor fs g' × (length fs ≤ 1))
          (tool_if random call c cursor step g)
  unfolding tool_span
  tool_if-AreTools false c cursor step g h = (_, _, refl, ((omega arith, tt, h), omega arith))
  tool_if-AreTools true c cursor step g h =
      (_, _, refl, (((refl, omega arith), (inr refl, tt), h), omega arith))

  -- A step that is not the last adds at most one tool, the last one none.
  tool_after-AreTools :
      (left : ℕ) (c : Context) (cursor step : ℕ) (g : Generator S)
      → IsClamped g
      → Returns
          (λ (fs : List SpanFields) (g' : Generator S).
            AreTools cursor fs g' × (length fs ≤ min 1 left))
          (tool_after random left c cursor step g)
  unfolding tool_after
  tool_after-AreTools zero c cursor step g h = (_, _, refl, ((omega arith, tt, h), omega arith))
  tool_after-AreTools (suc left) c cursor step g h =
      let roll = random.random g.rng in
      let (fs, g', e, (tools, few)) =
        tool_if-AreTools (ltb roll.0 700000) c cursor step (record g { rng = roll.1 }) h in
      (fs, g', e, (tools, omega (arith, few)))

  sample_route-Returns :
      (operation : Operation) (g : Generator S)
      → IsClamped g
      → Returns
          (λ (route : String) (g' : Generator S). IsClamped g')
          (sample_route random operation g)
  sample_route-Returns embeddings g h = (_, _, refl, h)
  sample_route-Returns chat g h = (_, _, refl, h)
  sample_route-Returns agent_invoke g h = (_, _, refl, h)
  sample_route-Returns tool g h = (_, _, refl, h)

  -- What is said of the spans of the steps, and of where the last one ends.
  abbrev pub IsRun : ℕ → ℕ → List SpanFields × ℕ → Type 0
  IsRun left cursor (fs, last) =
      IsLaid cursor fs last
      × All IsChild fs
      × (left ≤ length fs)
      × (length fs + min 1 left ≤ 2 * left)

  pub run_steps-IsRun :
      ((a b : ℕ) (s : S) → (random.betavariate a b s).0 ≤ million)
      → (left : ℕ) (c : Context) (profile : ModelProfile) (step cursor : ℕ) (g : Generator S)
      → profile_of c.model ≡ ok profile
      → IsClamped g
      → Returns
          (λ (r : List SpanFields × ℕ) (g' : Generator S). IsRun left cursor r × IsClamped g')
          (run_steps random left c step cursor g)
  unfolding run_steps
  run_steps-IsRun share zero c profile step cursor g known h =
      (_, _, refl, ((refl, tt, omega arith, omega arith), h))
  run_steps-IsRun share (suc left) c profile step cursor g known h =
      let roll = random.random g.rng in
      let operation : Operation = if ltb roll.0 120000 then embeddings else chat in
      let (route, g1, e1, h1) = sample_route-Returns operation (record g { rng = roll.1 }) h in
      let (call, g2, e2, h2) =
        llm_call_span-IsCall random share (record c { route = route }) operation cursor profile g1
          known in
      let (tools, g3, e3, (laid, few)) =
        tool_after-AreTools left c (cursor + call.duration) step g2 h2.1 in
      let after : ℕ = cursor + call.duration + durations tools in
      let (rest, g4, e4, run) =
        run_steps-IsRun share left c profile (suc step) after g3 known laid.2 in
      rw (e1, e2, e3, e4)
        (
          _,
          _,
          refl,
          (
            (
              (
                h2.0.1,
                IsLaid-append (cursor + call.duration) after rest.1 tools rest.0 laid.0 run.0.0,
              ),
              (inl h2.0.0, All-append IsChild tools rest.0 laid.1 run.0.1),
              omega (arith, length-append tools rest.0, run.0.2),
              omega (arith, length-append tools rest.0, run.0.3, few),
            ),
            run.1,
          ),
        )
