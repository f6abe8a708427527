-- ===== src/Emitters/Workload/Calls.antt =====
-- `_llm_call_span` and `_tool_span` of telemetry_engine/emitters/workload.py, with the keys of
-- telemetry_engine/emitters/attributes.py.
pub mod Outcome
use Prim.Native.String as Texts
use llm_telemetry_engine.Base.{
  ℕ, ◌+◌, ◌-◌, ◌*◌, ◌/◌, ◌%◌, suc, min, ltb, ◌==◌, not, Bool, true, false, ◌||◌, ◌&&◌,
  if◌then◌else◌, String, List, [], ◌∷◌, ◌++◌, Dict,
}
use llm_telemetry_engine.Base.Exec.{Exec, ◌>>=◌, pure, lift}
use llm_telemetry_engine.Emitters.Spans.{
  StatusClass, status_value, is_failure, Attribute, string, int, decimal, flag, hex, SpanFields,
}
use llm_telemetry_engine.Emitters.Tenants.{million}
use llm_telemetry_engine.Emitters.Workload.{
  Operation, chat, embeddings, agent_invoke, tool, operation_value, ModelProfile, profile_of,
  Random, Generator, draw, tool_names, advance_kv_cache, sample_long_tail, status_for,
}

-- A millisecond, in picoseconds.
abbrev pub ms : ℕ
ms = 1000000000

-- `round`: to the nearest whole number of units, of two the even one
abbrev pub round : ℕ → ℕ → ℕ
round x unit =
    let q : ℕ = x / unit in
    let twice : ℕ = 2 * (x % unit) in
    if ltb twice unit then q else if ltb unit twice then suc q else q + q % 2

-- The arguments of a call.
pub record Context : Type 0 where
  pub tenant_id : String
  pub tier : String
  pub model : String
  pub route : String
  pub region : String

-- What is drawn for a call before its outcome is known.
pub record Request : Type 0 where
  pub kv_utilization : ℕ
  pub input_tokens : ℕ
  pub output_tokens : ℕ
  pub cached_prompt_tokens : ℕ
  pub queue_time : ℕ
  pub ttft : ℕ
  pub itl : ℕ

-- What the outcome leaves of it.
pub record Response : Type 0 where
  pub duration : ℕ
  pub generated : ℕ

abbrev is_chat : Operation → Bool
is_chat chat = true
is_chat _ = false

-- The dictionary of error types
abbrev pub error_type : StatusClass → List (String × Attribute)
error_type StatusClass.ok = []
error_type StatusClass.server_error = ("error.type", string "engine_overloaded") ∷ []
error_type StatusClass.timeout = ("error.type", string "deadline_exceeded") ∷ []
error_type StatusClass.client_error = ("error.type", string "invalid_request") ∷ []

abbrev pub tokens_per_second : Response → List (String × Attribute)
tokens_per_second r =
    if (r.generated == 0) || (r.duration == 0)
    then []
    else (
      "llm.output_tokens_per_second",
      decimal (round (r.generated * 100 * (1000 * ms)) r.duration) 2,
    )
      ∷ []

-- The attributes of a call that every outcome has, with the draws that are made for them.
abbrev pub call_attributes :
    Context
    → Operation
    → ModelProfile
    → Request
    → StatusClass
    → Response
    → ℕ
    → ℕ
    → ℕ
    → ℕ
    → Dict Attribute
call_attributes c operation profile q status r temperature batch request_id prompt_hash =
    ("tenant.id", string c.tenant_id)
    ∷ ("tenant.tier", string c.tier)
    ∷ ("http.route", string c.route)
    ∷ ("cloud.region", string c.region)
    ∷ ("status.class", string (status_value status))
    ∷ ("gen_ai.system", string "vllm")
    ∷ ("gen_ai.operation.name", string (operation_value operation))
    ∷ ("gen_ai.request.model", string c.model)
    ∷ ("gen_ai.response.model", string c.model)
    ∷ ("gen_ai.request.max_tokens", int 4096)
    ∷ ("gen_ai.request.temperature", decimal (round temperature 10000) 2)
    ∷ ("gen_ai.usage.input_tokens", int q.input_tokens)
    ∷ ("gen_ai.usage.output_tokens", int r.generated)
    ∷ ("llm.kv_cache.utilization", decimal (round q.kv_utilization 100) 4)
    ∷ (
      "llm.kv_cache.blocks",
      int ((q.input_tokens + r.generated) * profile.kv_tenths_per_1k_tokens / 10000),
    )
    ∷ ("llm.time_to_first_token_ms", decimal (round q.ttft 10000000) 2)
    ∷ ("llm.inter_token_latency_ms", decimal (round q.itl 1000000) 3)
    ∷ ("llm.queue_time_ms", decimal (round q.queue_time 10000000) 2)
    ∷ ("llm.cached_prompt_tokens", int q.cached_prompt_tokens)
    ∷ ("llm.batch_size", int batch)
    ∷ ("llm.streaming", flag (is_chat operation))
    ∷ ("request.id", hex request_id 32)
    ∷ ("prompt.hash", hex prompt_hash 16)
    ∷ (tokens_per_second r ++ error_type status)

module _ {S : Type 0} (random : Random S) where
  abbrev sample_output : Operation → Exec (Generator S) ℕ
  sample_output embeddings = pure 0
  sample_output _ = sample_long_tail random 180 10 4096

  -- The queueing time above a utilization of 0.8.
  abbrev queue_above : Bool → ℕ → Exec (Generator S) ℕ
  queue_above false utilization = pure 0
  queue_above true utilization = do
    queued ← draw (random.uniform (50 * ms) (900 * ms))
    pure ((utilization - 800000) * queued / 200000)

  abbrev sample_queue : ℕ → Exec (Generator S) ℕ
  sample_queue utilization = queue_above (ltb 800000 utilization) utilization

  -- The duration and the tokens by the status.
  unfoldable pub respond : StatusClass → Request → Exec (Generator S) Response
  respond StatusClass.ok q =
      pure (record { duration = q.ttft + q.output_tokens * q.itl; generated = q.output_tokens })
  respond StatusClass.timeout q = do
    part ← draw (random.uniform 0 500000)
    pure (record {
      duration = min (q.ttft + q.output_tokens * q.itl) (30000 * ms);
      generated = q.output_tokens * part / million;
    })
  respond _ q = do
    part ← draw (random.uniform 200000 800000)
    pure (record { duration = q.ttft * part / million; generated = 0 })

  -- The first part of `_llm_call_span`, up to the duration.
  unfoldable pub sample_request : Operation → ModelProfile → Exec (Generator S) Request
  sample_request operation profile = do
    utilization ← advance_kv_cache random
    input ← sample_long_tail random 420 9 32000
    output ← sample_output operation
    part ← draw (random.betavariate 2 5)
    let cached : ℕ = input * part / million
    queue ← sample_queue utilization
    prefill ← draw (random.uniform 800000 1300000)
    decode ← draw (random.uniform 850000 1400000)
    pure (record {
      kv_utilization = utilization;
      input_tokens = input;
      output_tokens = output;
      cached_prompt_tokens = cached;
      queue_time = queue;
      ttft = profile.base_ttft_ms * ms + (input - cached) * 50 * prefill + queue;
      itl = profile.ms_per_output_token * 1000 * decode;
    })

  -- The last part of `_llm_call_span`, from the attributes on.
  unfoldable pub complete :
      Context
      → Operation
      → ℕ
      → ModelProfile
      → Request
      → StatusClass
      → Response
      → Exec (Generator S) SpanFields
  complete c operation start_offset profile request status response = do
    temperature ← draw (random.uniform 0 million)
    batch ← draw (random.randint 1 48)
    request_id ← draw (random.getrandbits 128)
    prompt_hash ← draw (random.getrandbits 64)
    pure (record {
      name = Texts.◌++◌ (operation_value operation) (Texts.◌++◌ " " c.model);
      kind = "client";
      start_offset = start_offset;
      duration = response.duration;
      attributes =
          call_attributes c operation profile request status response temperature batch request_id
            prompt_hash;
      status = status;
    })

  -- `_llm_call_span`
  unfoldable pub llm_call_span : Context → Operation → ℕ → Exec (Generator S) SpanFields
  llm_call_span c operation start_offset = do
    profile ← lift (profile_of c.model)
    request ← sample_request operation profile
    status ← status_for random request.kv_utilization
    response ← respond status request
    complete c operation start_offset profile request status response

  -- `_tool_span`, with a duration of millionths of a millisecond
  unfoldable pub tool_span : String → ℕ → ℕ → Exec (Generator S) SpanFields
  tool_span tenant_id start_offset step = do
    name ← draw (random.choice tool_names)
    duration ← draw (random.lognormvariate 45 8)
    pure (record {
      name = Texts.◌++◌ "execute_tool " name;
      kind = "internal";
      start_offset = start_offset;
      duration = duration * 1000;
      attributes =
          ("tenant.id", string tenant_id)
          ∷ ("gen_ai.operation.name", string (operation_value tool))
          ∷ ("tool.name", string name)
          ∷ ("agent.step", int step)
          ∷ ("status.class", string (status_value StatusClass.ok))
          ∷ [];
      status = StatusClass.ok;
    })
