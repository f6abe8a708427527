-- ===== src/Emitters/Workload/Traces.antt =====
-- `generate_trace` of telemetry_engine/emitters/workload.py.
pub mod Layout
pub mod Shape
pub mod Emission
use Prim.Native.String as Texts
use llm_telemetry_engine.Base.{
  ℕ, zero, suc, ◌+◌, ◌*◌, ◌/◌, ltb, Bool, true, false, if◌then◌else◌, String, List, [], ◌∷◌, ◌++◌,
  map, sum, take, lookup,
}
use llm_telemetry_engine.Base.Exec.{Exec, ◌>>=◌, pure, lift}
use llm_telemetry_engine.Emitters.Spans.{
  StatusClass, status_value, is_failure, string, hex, SpanFields, span_data, tuple, TraceData,
}
use llm_telemetry_engine.Emitters.Tenants.{sample}
use llm_telemetry_engine.Emitters.Workload.{
  Operation, chat, embeddings, agent_invoke, operation_value, Random, Generator, draw, found,
  models, routes, regions, agent_names,
}
use llm_telemetry_engine.Emitters.Workload.Calls.{ms, Context, llm_call_span, tool_span}

-- The status of the first child that failed, or OK.
unfoldable pub worst : List SpanFields → StatusClass
worst [] = StatusClass.ok
worst (f ∷ fs) = let rest = worst fs in if is_failure f.status then f.status else rest

abbrev pub durations : List SpanFields → ℕ
durations fs = sum (map (λ (f : SpanFields). f.duration) fs)

module _ {S : Type 0} (random : Random S) where
  abbrev sample_route : Operation → Exec (Generator S) String
  sample_route embeddings = pure "/v1/embeddings"
  sample_route _ = draw (random.choice (take 2 routes))

  abbrev tool_if : Bool → Context → ℕ → ℕ → Exec (Generator S) (List SpanFields)
  tool_if false c cursor step = pure []
  tool_if true c cursor step = do tool ← tool_span random c.tenant_id cursor step; pure (tool ∷ [])

  -- The tool call behind a step, which the last one does not have.
  unfoldable pub tool_after : ℕ → Context → ℕ → ℕ → Exec (Generator S) (List SpanFields)
  tool_after zero c cursor step = pure []
  tool_after (suc left) c cursor step = do
    roll ← draw random.random
    tool_if (ltb roll 700000) c cursor step

  -- The loop over the steps, by those that are left: the spans, and where the last one ends.
  unfoldable pub run_steps : ℕ → Context → ℕ → ℕ → Exec (Generator S) (List SpanFields × ℕ)
  run_steps zero c step cursor = pure ([], cursor)
  run_steps (suc left) c step cursor = do
    roll ← draw random.random
    let operation : Operation = if ltb roll 120000 then embeddings else chat
    route ← sample_route operation
    call ← llm_call_span random (record c { route = route }) operation cursor
    tools ← tool_after left c (cursor + call.duration) step
    rest ← run_steps left c (suc step) (cursor + call.duration + durations tools)
    pure (call ∷ (tools ++ rest.0), rest.1)

  -- The span over all of them.
  unfoldable pub root_span : Context → String → List SpanFields → ℕ → Exec (Generator S) SpanFields
  unfolding worst
  root_span c agent children cursor = do
    tail ← draw (random.uniform (ms / 2) (4 * ms))
    request_id ← draw (random.getrandbits 128)
    pure (record {
      name = Texts.◌++◌ "invoke_agent " agent;
      kind = "server";
      start_offset = 0;
      duration = cursor + tail;
      attributes =
          ("tenant.id", string c.tenant_id)
          ∷ ("tenant.tier", string c.tier)
          ∷ ("cloud.region", string c.region)
          ∷ ("http.route", string "/v1/agents/invoke")
          ∷ ("status.class", string (status_value (worst children)))
          ∷ ("gen_ai.operation.name", string (operation_value agent_invoke))
          ∷ ("agent.name", string agent)
          ∷ ("gen_ai.request.model", string c.model)
          ∷ ("request.id", hex request_id 32)
          ∷ [];
      status = worst children;
    })

  -- `self.tenants.sample()`
  unfoldable pub sample_tenant : Exec (Generator S) String
  sample_tenant g =
      let (drawn, rng) = random.random g.rng in (sample g.tenants drawn, record g { rng = rng })

  -- `WorkloadGenerator.generate_trace`
  unfoldable pub generate_trace : Exec (Generator S) TraceData
  generate_trace g =
      (do
        tenant_id ← sample_tenant
        tier ← lift (found (lookup g.tenants.tiers tenant_id))
        model ← draw (random.choice models)
        region ← draw (random.choice regions)
        agent ← draw (random.choice agent_names)
        steps ← draw (random.choices (1 ∷ 2 ∷ 3 ∷ 4 ∷ []) (62 ∷ 22 ∷ 11 ∷ 5 ∷ []))
        start ← draw (random.uniform (ms / 2) (3 * ms))
        let c : Context = record {
          tenant_id = tenant_id;
          tier = tier;
          model = model;
          route = "";
          region = region;
        }
        (children, cursor) ← run_steps steps c 0 start
        root ← root_span c agent children cursor
        pure (record { root = span_data root (tuple children); tenant_id = tenant_id }))
        g
