-- ===== src/Emitters/Workload/Calls/Outcome.antt =====
-- What `_llm_call_span` of telemetry_engine/emitters/workload.py makes of each outcome.
use native.Mathlib.Nat.{div-le_of_le-mul, mul-le-mul_left}
use llm_telemetry_engine.Base.{
  ℕ, ◌*◌, ◌/◌, ◌≤◌, ◌≡◌, refl, ap, arith, ltb, ◌==◌, Bool, true, false, ◌||◌, String, none, some,
  List, [], ◌++◌, lookup, Result, ok, if-elim,
}
use llm_telemetry_engine.Emitters.Spans.{StatusClass, Attribute, string, int, SpanFields}
use llm_telemetry_engine.Emitters.Tenants.{million}
use llm_telemetry_engine.Emitters.Workload.{
  Operation, chat, embeddings, agent_invoke, tool, ModelProfile, profile_of, Random, Generator,
  draw, is_below, advance_kv_cache, sample_long_tail, long_tail, status_for,
}
use llm_telemetry_engine.Emitters.Workload.Calls.{
  ms, Context, Request, Response, call_attributes, tokens_per_second, sample_request, sample_output,
  queue_above, respond, complete, llm_call_span,
}

-- The utilization of the cache is between 0.05 and 0.99.
abbrev pub IsClamped : {S : Type 0} → Generator S → Type 0
IsClamped g = (50000 ≤ g.kv_utilization) × (g.kv_utilization ≤ 990000)

-- What `m` returns, from a state that it leaves.
abbrev pub Returns : {S A : Type 0} → (A → S → Type 0) → Result A × S → Type 0
Returns {S} {A} P m = (a : A) × (s : S) × (m ≡ (ok a, s)) × P a s

-- What is said of the tokens and of the attributes of a call by its status.
abbrev pub IsOutcome : StatusClass → SpanFields → Type 0
IsOutcome StatusClass.ok f = lookup f.attributes "error.type" ≡ none
IsOutcome StatusClass.timeout f =
    (lookup f.attributes "error.type" ≡ some (string "deadline_exceeded"))
    × (f.duration ≤ 30000 * ms)
IsOutcome StatusClass.server_error f =
    (lookup f.attributes "error.type" ≡ some (string "engine_overloaded"))
    × (lookup f.attributes "gen_ai.usage.output_tokens" ≡ some (int 0))
    × (lookup f.attributes "llm.output_tokens_per_second" ≡ none)
IsOutcome StatusClass.client_error f =
    (lookup f.attributes "error.type" ≡ some (string "invalid_request"))
    × (lookup f.attributes "gen_ai.usage.output_tokens" ≡ some (int 0))
    × (lookup f.attributes "llm.output_tokens_per_second" ≡ none)

-- What is said of the response alone.
abbrev IsResponse : StatusClass → Response → Type 0
IsResponse StatusClass.ok r = Unit
IsResponse StatusClass.timeout r = r.duration ≤ 30000 * ms
IsResponse _ r = r.generated ≡ 0

-- A client's span at the offset, with its input tokens, the cached ones among them, and its outcome.
abbrev pub IsCall : ℕ → SpanFields → Type 0
IsCall start_offset f =
    (f.kind ≡ "client")
    × (f.start_offset ≡ start_offset)
    × ((input : ℕ) × (cached : ℕ) × (lookup f.attributes "gen_ai.usage.input_tokens"
          ≡ some (int input))
        × (lookup f.attributes "llm.cached_prompt_tokens" ≡ some (int cached))
        × (cached ≤ input)
        × (1 ≤ input)
        × (input ≤ 32000))
    × IsOutcome f.status f

no_speed : (r : Response) → r.generated ≡ 0 → tokens_per_second r ≡ []
no_speed r h = rw h refl

-- The speed is before the type of the error.
lookup-error_type :
    (r : Response) (rest : List (String × Attribute))
    → lookup (tokens_per_second r ++ rest) "error.type" ≡ lookup rest "error.type"
lookup-error_type r rest =
    if-elim
      (λ (l : List (String × Attribute)).
        lookup (l ++ rest) "error.type" ≡ lookup rest "error.type")
      ((r.generated == 0) || (r.duration == 0)) (λ h. refl) (λ h. refl)

module _ (name : String) (start_offset : ℕ) (c : Context) (operation : Operation)
    (profile : ModelProfile) (q : Request) (temperature batch request_id prompt_hash : ℕ) where
  abbrev call_fields : StatusClass → Response → SpanFields
  call_fields status r = record {
    name = name;
    kind = "client";
    start_offset = start_offset;
    duration = r.duration;
    attributes =
        call_attributes c operation profile q status r temperature batch request_id prompt_hash;
    status = status;
  }

  call-IsOutcome :
      (status : StatusClass) (r : Response)
      → IsResponse status r
      → IsOutcome status (call_fields status r)
  call-IsOutcome StatusClass.ok r h = lookup-error_type r []
  call-IsOutcome StatusClass.timeout r h = (lookup-error_type r _, h)
  call-IsOutcome StatusClass.server_error r h =
      (lookup-error_type r _, ap (λ (n : ℕ). some (int n)) h, rw (no_speed r h) refl)
  call-IsOutcome StatusClass.client_error r h =
      (lookup-error_type r _, ap (λ (n : ℕ). some (int n)) h, rw (no_speed r h) refl)

module _ {S : Type 0} (random : Random S) where
  long_tail-range :
      (cap value : ℕ) → 1 ≤ cap → (1 ≤ long_tail cap value) × (long_tail cap value ≤ cap)
  unfolding long_tail
  long_tail-range cap value h = (omega arith, omega arith)

  -- A request in bounds.
  abbrev IsRequest : Request → Generator S → Type 0
  IsRequest q g =
      (1 ≤ q.input_tokens)
      × (q.input_tokens ≤ 32000)
      × (q.cached_prompt_tokens ≤ q.input_tokens)
      × (q.output_tokens ≤ 4096)
      × IsClamped g

  draw-Returns :
      {A : Type 0} (f : S → A × S) (g : Generator S)
      → IsClamped g
      → Returns (λ (a : A) (g' : Generator S). IsClamped g') (draw f g)
  draw-Returns f g h = (_, _, refl, h)

  sample_long_tail-range :
      (median sigma cap : ℕ) (g : Generator S)
      → 1 ≤ cap
      → IsClamped g
      → Returns
          (λ (n : ℕ) (g' : Generator S). (1 ≤ n) × (n ≤ cap) × IsClamped g')
          (sample_long_tail random median sigma cap g)
  unfolding sample_long_tail
  sample_long_tail-range median sigma cap g pos h =
      let range = long_tail-range cap (random.lognormvariate median sigma g.rng).0 pos in
      (_, _, refl, (range.0, range.1, h))

  sampled_output-le :
      (g : Generator S)
      → IsClamped g
      → Returns
          (λ (n : ℕ) (g' : Generator S). (n ≤ 4096) × IsClamped g')
          (sample_long_tail random 180 10 4096 g)
  sampled_output-le g h =
      let (n, g', e, range) = sample_long_tail-range 180 10 4096 g (omega arith) h in
      (n, g', e, (range.1, range.2))

  sample_output-le :
      (operation : Operation) (g : Generator S)
      → IsClamped g
      → Returns
          (λ (n : ℕ) (g' : Generator S). (n ≤ 4096) × IsClamped g')
          (sample_output random operation g)
  sample_output-le embeddings g h = (0, g, refl, (omega arith, h))
  sample_output-le chat g h = sampled_output-le g h
  sample_output-le agent_invoke g h = sampled_output-le g h
  sample_output-le tool g h = sampled_output-le g h

  queue_above-Returns :
      (above : Bool) (utilization : ℕ) (g : Generator S)
      → IsClamped g
      → Returns
          (λ (n : ℕ) (g' : Generator S). IsClamped g')
          (queue_above random above utilization g)
  queue_above-Returns false utilization g h = (0, g, refl, h)
  queue_above-Returns true utilization g h = (_, _, refl, h)

  advance_kv_cache-IsClamped :
      (g : Generator S)
      → Returns (λ (n : ℕ) (g' : Generator S). IsClamped g') (advance_kv_cache random g)
  unfolding advance_kv_cache
  advance_kv_cache-IsClamped g = (_, _, refl, (omega arith, omega arith))

  module _ (share : (a b : ℕ) (s : S) → (random.betavariate a b s).0 ≤ million) where
    cached-le : (input a b : ℕ) (s : S) → input * (random.betavariate a b s).0 / million ≤ input
    cached-le input a b s =
        div-le_of_le-mul million (omega (arith, mul-le-mul_left input (share a b s)))

    sample_request-IsRequest :
        (operation : Operation) (profile : ModelProfile) (g : Generator S)
        → Returns IsRequest (sample_request random operation profile g)
    unfolding sample_request
    sample_request-IsRequest operation profile g =
        let (utilization, g1, e1, h1) = advance_kv_cache-IsClamped g in
        let (input, g2, e2, h2) = sample_long_tail-range 420 9 32000 g1 (omega arith) h1 in
        let (output, g3, e3, h3) = sample_output-le operation g2 h2.2 in
        let g4 : Generator S = (draw (random.betavariate 2 5) g3).1 in
        let (queue, g5, e5, h5) =
          queue_above-Returns (ltb 800000 utilization) utilization g4 h3.1 in
        rw (e1, e2, e3, e5) (_, _, refl, (h2.0, h2.1, cached-le input 2 5 g3.rng, h3.0, h5))

  status_for-Returns :
      (utilization : ℕ) (g : Generator S)
      → IsClamped g
      → Returns
          (λ (status : StatusClass) (g' : Generator S). IsClamped g')
          (status_for random utilization g)
  unfolding status_for
  status_for-Returns utilization g h =
      let drawn : ℕ = (random.random g.rng).0 in
      if-elim (Returns (λ (status : StatusClass) (g' : Generator S). IsClamped g'))
        (is_below drawn g.error_rate utilization) (λ below. (_, _, refl, h))
        (λ above. (_, _, refl, h))

  respond-IsResponse :
      (status : StatusClass) (q : Request) (g : Generator S)
      → IsClamped g
      → Returns
          (λ (r : Response) (g' : Generator S). IsResponse status r × IsClamped g')
          (respond random status q g)
  unfolding respond
  respond-IsResponse StatusClass.ok q g h = (_, _, refl, (tt, h))
  respond-IsResponse StatusClass.timeout q g h = (_, _, refl, (omega arith, h))
  respond-IsResponse StatusClass.server_error q g h = (_, _, refl, (refl, h))
  respond-IsResponse StatusClass.client_error q g h = (_, _, refl, (refl, h))

  complete-IsCall :
      (c : Context) (operation : Operation) (start_offset : ℕ) (profile : ModelProfile)
      (q : Request) (status : StatusClass) (r : Response) (g : Generator S)
      → (1 ≤ q.input_tokens) × (q.input_tokens ≤ 32000) × (q.cached_prompt_tokens ≤ q.input_tokens)
      → IsResponse status r
      → IsClamped g
      → Returns
          (λ (f : SpanFields) (g' : Generator S). IsCall start_offset f × IsClamped g')
          (complete random c operation start_offset profile q status r g)
  unfolding complete
  complete-IsCall c operation start_offset profile q status r g (some_input, bounded, cached) h k =
      let (temperature, rng1) = random.uniform 0 million g.rng in
      let (batch, rng2) = random.randint 1 48 rng1 in
      let (request_id, rng3) = random.getrandbits 128 rng2 in
      let (prompt_hash, rng4) = random.getrandbits 64 rng3 in
      (
        _,
        _,
        refl,
        (
          (
            refl,
            refl,
            (q.input_tokens, q.cached_prompt_tokens, refl, refl, cached, some_input, bounded),
            call-IsOutcome _ start_offset c operation profile q temperature batch request_id
                prompt_hash status r h,
          ),
          k,
        ),
      )

  -- With a beta distribution between 0 and 1 and a model that has a profile, a call of the endpoint is
  -- always made. It is a client's span at the given offset, has between 1 and 32000 input tokens of
  -- which no more than all are cached, and by its status: no type of an error; the one of a timeout,
  -- and a duration of 30 seconds at most; or the one of a failure, no output tokens and no speed. The
  -- utilization of the cache is then between 0.05 and 0.99.
  pub llm_call_span-IsCall :
      ((a b : ℕ) (s : S) → (random.betavariate a b s).0 ≤ million)
      → (c : Context) (operation : Operation) (start_offset : ℕ) (profile : ModelProfile)
        (g : Generator S)
      → profile_of c.model ≡ ok profile
      → Returns
          (λ (f : SpanFields) (g' : Generator S). IsCall start_offset f × IsClamped g')
          (llm_call_span random c operation start_offset g)
  unfolding llm_call_span
  llm_call_span-IsCall share c operation start_offset profile g known =
      let (request, g1, e1, h1) = sample_request-IsRequest share operation profile g in
      let (status, g2, e2, h2) = status_for-Returns request.kv_utilization g1 h1.4 in
      let (response, g3, e3, h3) = respond-IsResponse status request g2 h2 in
      rw (known, e1, e2, e3)
        (complete-IsCall c operation start_offset profile request status response g3
          (h1.0, h1.1, h1.2) h3.0 h3.1)
