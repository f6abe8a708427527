-- ===== src/Emitters/Workload/Traces/Shape.antt =====
-- What `generate_trace` of telemetry_engine/emitters/workload.py makes.
use mathlib.Core.List.{Memᴰ}
use llm_telemetry_engine.Base.{
  ℕ, ◌*◌, ◌/◌, ◌≤◌, ◌<◌, ◌≡◌, refl, sym, arith, not, inl, inr, String, List, [], ◌∷◌, All, All-mono,
  all, length, ok,
}
use llm_telemetry_engine.Emitters.Spans.{
  is_failure, SpanFields, span_data, tuple, TraceData, walk, walk-tuple, span_count,
}
use llm_telemetry_engine.Emitters.Spans.Nested.{IsNested}
use llm_telemetry_engine.Emitters.Otlp.{kind_of}
use llm_telemetry_engine.Emitters.Otlp.Walk.{HasKind}
use llm_telemetry_engine.Emitters.Tenants.{million, new_pool}
use llm_telemetry_engine.Emitters.Tenants.Sampling.{sample-HasTier}
use llm_telemetry_engine.Emitters.Workload.{
  ModelProfile, profile_of, Random, Generator, models, regions, agent_names,
}
use llm_telemetry_engine.Emitters.Workload.Calls.{ms, Context}
use llm_telemetry_engine.Emitters.Workload.Calls.Outcome.{Returns, IsClamped}
use llm_telemetry_engine.Emitters.Workload.Traces.{root_span, sample_tenant, generate_trace}
use llm_telemetry_engine.Emitters.Workload.Traces.Layout.{
  IsLaid, IsChild, IsRun, IsLaid-IsBy, worst-is_failure, run_steps-IsRun,
}

-- Every model has a profile.
profile_known :
    (model : String) → Memᴰ model models → (p : ModelProfile) × (profile_of model ≡ ok p)
unfolding profile_of
profile_known model (Memᴰ.head e) = rw e (_, refl)
profile_known model (Memᴰ.tail (Memᴰ.head e)) = rw e (_, refl)
profile_known model (Memᴰ.tail (Memᴰ.tail (Memᴰ.head e))) = rw e (_, refl)
profile_known model (Memᴰ.tail (Memᴰ.tail (Memᴰ.tail (Memᴰ.head e)))) = rw e (_, refl)
profile_known model (Memᴰ.tail (Memᴰ.tail (Memᴰ.tail (Memᴰ.tail (Memᴰ.head e))))) = rw e (_, refl)
profile_known model (Memᴰ.tail (Memᴰ.tail (Memᴰ.tail (Memᴰ.tail (Memᴰ.tail m))))) = elim m [ ]

-- From one step to four.
steps_range : (n : ℕ) → Memᴰ n (1 ∷ 2 ∷ 3 ∷ 4 ∷ []) → (1 ≤ n) × (n ≤ 4)
steps_range n (Memᴰ.head e) = (omega (arith, e), omega (arith, e))
steps_range n (Memᴰ.tail (Memᴰ.head e)) = (omega (arith, e), omega (arith, e))
steps_range n (Memᴰ.tail (Memᴰ.tail (Memᴰ.head e))) = (omega (arith, e), omega (arith, e))
steps_range n (Memᴰ.tail (Memᴰ.tail (Memᴰ.tail (Memᴰ.head e)))) =
    (omega (arith, e), omega (arith, e))
steps_range n (Memᴰ.tail (Memᴰ.tail (Memᴰ.tail (Memᴰ.tail m)))) = elim m [ ]

child-HasKind : (f : SpanFields) → IsChild f → HasKind f
unfolding kind_of
child-HasKind f (inl e) = rw e (_, refl)
child-HasKind f (inr e) = rw e (_, refl)

-- What the generator relies on of `random.Random`.
pub record IsRandom {S : Type 0} (random : Random S) : Type 0 where
  pub below : (s : S) → (random.random s).0 < million
  pub share : (a b : ℕ) (s : S) → (random.betavariate a b s).0 ≤ million
  pub chosen : (x : String) (xs : List String) (s : S) → Memᴰ (random.choice (x ∷ xs) s).0 (x ∷ xs)
  pub picked :
      (x : ℕ) (xs weights : List ℕ) (s : S) → Memᴰ (random.choices (x ∷ xs) weights s).0 (x ∷ xs)

-- A root over one to seven children: calls and tools, one behind the other, that end by the end of the
-- root, which has failed where one of them has.
abbrev pub IsTrace : TraceData → Type 0
IsTrace d =
    (f : SpanFields) × (children : List SpanFields) × (first last : ℕ) × (d.root
      ≡ span_data f (tuple children))
    × (f.kind ≡ "server")
    × (f.start_offset ≡ 0)
    × IsLaid first children last
    × (last ≤ f.duration)
    × All IsChild children
    × (1 ≤ length children)
    × (length children ≤ 7)
    × (not (is_failure f.status) ≡ all (λ (c : SpanFields). not (is_failure c.status)) children)

-- Every span of a trace has a kind and ends by the end of its root, and there are two to eight.
pub IsTrace-IsNested :
    (d : TraceData)
    → IsTrace d
    → IsNested d.root
      × All HasKind (walk d.root)
      × (2 ≤ span_count d.root)
      × (span_count d.root ≤ 8)
unfolding span_count walk kind_of
IsTrace-IsNested d
      (f, children, first, last, e, server, zero_start, laid, ends, kinds, some_child, few, s) =
    let (_, by) = IsLaid-IsBy first last children laid in
    rw (e, walk-tuple children)
      (
        (omega (arith, zero_start), All-mono children (λ c end_c. omega (arith, end_c, ends)) by),
        (rw server (_, refl), All-mono children child-HasKind kinds),
        omega (arith, some_child),
        omega (arith, few),
      )

module _ {S : Type 0} (random : Random S) (laws : IsRandom random) where
  root_span-IsTrace :
      (c : Context) (agent : String) (children : List SpanFields) (first last steps : ℕ)
      (g : Generator S)
      → IsRun random steps first (children, last)
      → (1 ≤ steps) × (steps ≤ 4)
      → IsClamped g
      → Returns
          (λ (f : SpanFields) (g' : Generator S).
            IsTrace (record { root = span_data f (tuple children); tenant_id = c.tenant_id })
            × IsClamped g')
          (root_span random c agent children last g)
  unfolding root_span
  root_span-IsTrace c agent children first last steps g (laid, kinds, many, few) (low, high) h = (
    _,
    _,
    refl,
    (
      (
        _,
        children,
        first,
        last,
        refl,
        refl,
        refl,
        laid,
        omega arith,
        kinds,
        omega (arith, many, low),
        omega (arith, few, low, high),
        sym (worst-is_failure children),
      ),
      h,
    ),
  )

  -- With a pool that was made of a tenant at least, and a utilization between 0.05 and 0.99, a trace is
  -- always generated: a root from the start on over one to seven children, calls and tools, each of
  -- which starts where the one before it ends, and that end by the end of the root. The root has failed
  -- where a child has, and only there. The utilization stays between 0.05 and 0.99.
  pub generate_trace-IsTrace :
      (count alpha : ℕ) (share : ℕ → ℕ) (g : Generator S)
      → 0 < count
      → 0 < alpha
      → new_pool count alpha share ≡ ok g.tenants
      → IsClamped g
      → Returns
          (λ (d : TraceData) (g' : Generator S). IsTrace d × IsClamped g')
          (generate_trace random g)
  unfolding generate_trace sample_tenant
  generate_trace-IsTrace count alpha share g some_count some_alpha made h =
      let (drawn, rng1) = random.random g.rng in
      let (id, tier, e1, e2) =
        sample-HasTier count alpha drawn share g.tenants some_count some_alpha made
          (laws.below g.rng) in
      let (model, rng2) = random.choice models rng1 in
      let (region, rng3) = random.choice regions rng2 in
      let (agent, rng4) = random.choice agent_names rng3 in
      let (steps, rng5) = random.choices (1 ∷ 2 ∷ 3 ∷ 4 ∷ []) (62 ∷ 22 ∷ 11 ∷ 5 ∷ []) rng4 in
      let (start, rng6) = random.uniform (ms / 2) (3 * ms) rng5 in
      let (profile, known) = profile_known model (laws.chosen _ _ rng1) in
      let (low, high) = steps_range steps (laws.picked _ _ _ rng4) in
      let c : Context = record {
        tenant_id = id;
        tier = tier;
        model = model;
        route = "";
        region = region;
      } in
      let (r, g', e3, run) =
        run_steps-IsRun random laws.share steps c profile 0 start (record g { rng = rng6 }) known
          h in
      let (f, g'', e4, whole) =
        root_span-IsTrace c agent r.0 start r.1 steps g' run.0 (low, high) run.1 in
      rw (e1, e2, e3, e4) (_, _, refl, whole)
