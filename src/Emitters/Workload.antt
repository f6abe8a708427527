-- ===== src/Emitters/Workload.antt =====
-- The vocabulary, the random numbers and the endpoint's state of `WorkloadGenerator` in
-- telemetry_engine/emitters/workload.py. A share is a whole number of millionths and a duration one of
-- picoseconds, exactly or rounded down where the code has doubles.
pub mod Calls
pub mod Traces
use llm_telemetry_engine.Base.{
  ℕ, Bool, ◌+◌, ◌-◌, ◌*◌, ◌/◌, max, min, ltb, leb, if◌then◌else◌, String, Option, none, some, List,
  [], ◌∷◌, Dict, lookup, Result, ok, err, raise_if, value_error, key_error,
}
use llm_telemetry_engine.Base.Exec.{Exec, ◌>>=◌, pure}
use llm_telemetry_engine.Emitters.Spans.{StatusClass}
use llm_telemetry_engine.Emitters.Tenants.{TenantPool, million}

-- `Operation`
pub data Operation : Type 0 where
  chat embeddings agent_invoke tool : Operation

-- `Operation.value`
abbrev pub operation_value : Operation → String
operation_value chat = "chat"
operation_value embeddings = "embeddings"
operation_value agent_invoke = "invoke_agent"
operation_value tool = "execute_tool"

-- `MODELS`, `ROUTES`, `REGIONS`, `AGENT_NAMES`, `TOOL_NAMES`
abbrev pub models : List String
models =
    "llama-3.1-8b-instruct" ∷ "llama-3.1-70b-instruct" ∷ "mistral-7b-instruct"
    ∷ "qwen2.5-14b-instruct" ∷ "claude-haiku-proxy" ∷ []

abbrev pub routes : List String
routes = "/v1/chat/completions" ∷ "/v1/completions" ∷ "/v1/embeddings" ∷ []

abbrev pub regions : List String
regions = "us-east-1" ∷ "us-west-2" ∷ "eu-central-1" ∷ []

abbrev pub agent_names : List String
agent_names = "research-agent" ∷ "support-agent" ∷ "codegen-agent" ∷ []

abbrev pub tool_names : List String
tool_names = "web_search" ∷ "sql_query" ∷ "vector_lookup" ∷ "code_exec" ∷ []

-- `ModelProfile`: milliseconds, and tenths of a block.
pub record ModelProfile : Type 0 where
  pub name : String
  pub ms_per_output_token : ℕ
  pub base_ttft_ms : ℕ
  pub kv_tenths_per_1k_tokens : ℕ

abbrev model_profile : String → ℕ → ℕ → ℕ → String × ModelProfile
model_profile name ms ttft kv = (
  name,
  record {
    name = name;
    ms_per_output_token = ms;
    base_ttft_ms = ttft;
    kv_tenths_per_1k_tokens = kv;
  },
)

-- `MODEL_PROFILES`
abbrev pub model_profiles : Dict ModelProfile
model_profiles =
    model_profile "llama-3.1-8b-instruct" 8 90 30
    ∷ model_profile "llama-3.1-70b-instruct" 28 240 90
    ∷ model_profile "mistral-7b-instruct" 7 80 26
    ∷ model_profile "qwen2.5-14b-instruct" 12 130 45
    ∷ model_profile "claude-haiku-proxy" 5 160 20
    ∷ []

abbrev pub found : {A : Type 0} → Option A → Result A
found none = err key_error
found (some a) = ok a

-- `MODEL_PROFILES[model]`
unfoldable pub profile_of : String → Result ModelProfile
profile_of model = found (lookup model_profiles model)

-- A change of either sign.
pub data Drift : Type 0 where
  up down : ℕ → Drift

-- `random.Random`, on its state. The draws between 0 and 1 are in millionths, and those of `uniform` and
-- of the log-normal distribution in the unit of their arguments: of millionths of `median` here.
pub record Random (S : Type 0) : Type 0 where
  pub random : S → ℕ × S
  pub gauss : S → Drift × S
  pub uniform : ℕ → ℕ → S → ℕ × S
  pub lognormvariate : ℕ → ℕ → S → ℕ × S
  pub betavariate : ℕ → ℕ → S → ℕ × S
  pub choice : List String → S → String × S
  pub choices : List ℕ → List ℕ → S → ℕ × S
  pub randint : ℕ → ℕ → S → ℕ × S
  pub getrandbits : ℕ → S → ℕ × S

-- What the generator keeps.
pub record Generator (S : Type 0) : Type 0 where
  pub rng : S
  pub kv_utilization : ℕ
  pub error_rate : ℕ
  pub tenants : TenantPool

abbrev pub draw : {S A : Type 0} → (S → A × S) → Exec (Generator S) A
draw f g = let (a, rng) = f g.rng in (ok a, record g { rng = rng })

-- `WorkloadGenerator.__init__`, with the pool that `TenantPool` makes
unfoldable pub new_generator : {S : Type 0} → S → Result TenantPool → ℕ → Result (Generator S)
new_generator rng (err e) error_rate = if leb million error_rate then err value_error else err e
new_generator rng (ok pool) error_rate =
    if leb million error_rate
    then err value_error
    else ok (record { rng = rng; kv_utilization = 450000; error_rate = error_rate; tenants = pool })

-- A change of what is not yet clamped: `utilization` and a fiftieth of what it lacks of 0.55, both at
-- once, and the drift.
abbrev drifted : ℕ → Drift → ℕ
drifted utilization (up d) = utilization * 49 / 50 + 11000 + d
drifted utilization (down d) = utilization * 49 / 50 + 11000 - d

-- `min(0.99, max(0.05, x))`
abbrev clamp : ℕ → ℕ
clamp x = min 990000 (max 50000 x)

-- `_sample_long_tail`, of a draw in millionths of a token
unfoldable pub long_tail : ℕ → ℕ → ℕ
long_tail cap value = max million (min value (cap * million)) / million

-- The threshold of `_status_for`: the error rate by the pressure's multiplier. A draw is compared with
-- it by products, 150000 millionths being the 0.15 that the pressure is divided by.
abbrev pub is_below : ℕ → ℕ → ℕ → Bool
is_below drawn error_rate utilization =
    ltb (drawn * 150000) (error_rate * (150000 + 6 * (utilization - 850000)))

module _ {S : Type 0} (random : Random S) where
  -- `_advance_kv_cache`
  unfoldable pub advance_kv_cache : Exec (Generator S) ℕ
  advance_kv_cache g =
      let (drift, rng) = random.gauss g.rng in
      let utilization : ℕ = clamp (drifted g.kv_utilization drift) in
      (ok utilization, record g { rng = rng; kv_utilization = utilization })

  -- `_sample_long_tail`
  unfoldable pub sample_long_tail : ℕ → ℕ → ℕ → Exec (Generator S) ℕ
  unfolding long_tail
  sample_long_tail median sigma cap = do
    value ← draw (random.lognormvariate median sigma)
    pure (long_tail cap value)

  abbrev failure_of : ℕ → StatusClass
  failure_of roll =
      if ltb roll 550000
      then StatusClass.server_error
      else if ltb roll 850000
      then StatusClass.timeout
      else StatusClass.client_error

  -- `_status_for`
  unfoldable pub status_for : ℕ → Exec (Generator S) StatusClass
  status_for utilization g =
      let (drawn, rng) = random.random g.rng in
      let (roll, rng') = random.random rng in
      if is_below drawn g.error_rate utilization
      then (ok (failure_of roll), record g { rng = rng' })
      else (ok StatusClass.ok, record g { rng = rng })
