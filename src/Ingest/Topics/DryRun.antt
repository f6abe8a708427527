-- ===== src/Ingest/Topics/DryRun.antt =====
-- What a dry run of `reconcile` of telemetry_engine/ingest/topics.py leaves alone, and what a run does
-- on a broker that is as desired.
use llm_telemetry_engine.Base.{
  ℕ, ◌≡◌, refl, ◌∙◌, Bool, true, false, Option, none, some, if-elim, ltb_irrefl, List, [], ◌∷◌,
  ◌++◌, map, String, ltb, Result, ok, err, Dict, lookup, is_empty, All,
}
use mathlib.Core.List.{append_assoc, append-nil}
use llm_telemetry_engine.Base.Exec.{Exec, next, pure}
use llm_telemetry_engine.Ingest.Specs.{TopicSpec}
use llm_telemetry_engine.Ingest.Topics.{
  TopicMetadata, Admin, World, ReconcileResult, no_result, partition_counts, drift,
  existing_partition_counts, ask, reconcile_partitions, current_config, reconcile_config,
  reconcile_spec, reconcile_found, reconcile_loop, reconcile,
}

next-same :
    {S A B : Type 0} (w : S) (m : Result A × S) (f : A → Exec S B)
    → m.1 ≡ w
    → ((a : A) (v : S) → (f a v).1 ≡ v)
    → (next m f).1 ≡ w
next-same w (ok a, v) f h k = k a v ∙ h
next-same w (err e, v) f h k = h

module _ {S : Type 0} (admin : Admin S) where
  abbrev Same : {A : Type 0} → World S → Exec (World S) A → Type 0
  Same w m = (m w).1 ≡ w

  partitions-same :
      (spec : TopicSpec) (current : ℕ) (result : ReconcileResult) (w : World S)
      → (reconcile_partitions admin true spec current result w).1 ≡ w
  unfolding reconcile_partitions ask
  partitions-same spec current result w =
      if-elim (Same w) (ltb current spec.partitions) (λ _. refl)
        (λ _. if-elim (Same w) (ltb spec.partitions current) (λ _. refl) (λ _. refl))

  config-same :
      (spec : TopicSpec) (before : ReconcileResult × Bool) (w : World S)
      → (reconcile_config admin true spec before w).1 ≡ w
  unfolding reconcile_config ask current_config
  config-same spec (result, topic_changed) w =
      if-elim (Same w) (is_empty spec.config) (λ _. refl)
        (λ _. next-same w (current_config admin true spec.name w) _ refl (λ config v.
          if-elim (Same v) (is_empty (drift spec.config config)) (λ _. refl) (λ _. refl)))

  found-same :
      (spec : TopicSpec) (result : ReconcileResult) (found : Option ℕ) (w : World S)
      → (reconcile_found admin true spec result found w).1 ≡ w
  unfolding reconcile_found ask
  found-same spec result none w = refl
  found-same spec result (some current) w =
      next-same w (reconcile_partitions admin true spec current result w) _
        (partitions-same spec current result w)
        (λ after v.
          next-same v (reconcile_config admin true spec after v) (λ _. pure _)
            (config-same spec after v) (λ a u. refl))

  loop-same :
      (existing : Dict ℕ) (specs : List TopicSpec) (result : ReconcileResult) (w : World S)
      → (reconcile_loop admin true existing specs result w).1 ≡ w
  unfolding reconcile_loop reconcile_spec
  loop-same existing [] result w = refl
  loop-same existing (spec ∷ specs) result w =
      next-same w (reconcile_spec admin true existing spec result w) _
        (found-same spec result (lookup existing spec.name) w) (λ r v. loop-same existing specs r v)

  -- A dry run of `reconcile` issues no request and leaves the broker as it is.
  pub reconcile-dry_run :
      (desired : List TopicSpec) (w : World S) → (reconcile admin true desired w).1 ≡ w
  unfolding reconcile existing_partition_counts
  reconcile-dry_run desired w =
      next-same w (existing_partition_counts admin true w) _ refl
        (λ existing v. loop-same existing desired no_result v)

  -- The topic is there with the partitions and the configuration that the spec says.
  abbrev pub IsSettled : Dict ℕ → S → TopicSpec → Type 0
  IsSettled existing broker spec =
      (lookup existing spec.name ≡ some spec.partitions)
      × (config : Dict String) × (admin.describe_configs broker spec.name ≡ ok config)
      × (drift spec.config config ≡ [])

  module _ (dry_run : Bool) where
    partitions-settled :
        (spec : TopicSpec) (result : ReconcileResult) (w : World S)
        → reconcile_partitions admin dry_run spec spec.partitions result w ≡ (ok (result, false), w)
    unfolding reconcile_partitions
    partitions-settled spec result w = rw (ltb_irrefl spec.partitions) refl

    config-settled :
        (spec : TopicSpec) (result : ReconcileResult) (w : World S) (config : Dict String)
        → admin.describe_configs w.broker spec.name ≡ ok config
        → drift spec.config config ≡ []
        → reconcile_config admin dry_run spec (result, false) w ≡ (ok (result, false), w)
    unfolding reconcile_config current_config
    config-settled spec result w config described same =
        if-elim (λ (m : Exec (World S) (ReconcileResult × Bool)). m w ≡ (ok (result, false), w))
          (is_empty spec.config) (λ _. refl) (λ _. rw described (rw same refl))

    spec-settled :
        (existing : Dict ℕ) (spec : TopicSpec) (result : ReconcileResult) (w : World S)
        → IsSettled existing w.broker spec
        → result.refused ≡ []
        → reconcile_spec admin dry_run existing spec result w
          ≡ (ok (record result { unchanged = result.unchanged ++ (spec.name ∷ []) }), w)
    unfolding reconcile_spec reconcile_found
    spec-settled existing spec result w (there, config, described, same) fresh = rw there (
        rw (partitions-settled spec result w)
          (rw (config-settled spec result w config described same) (rw fresh refl)))

    loop-settled :
        (existing : Dict ℕ) (specs : List TopicSpec) (result : ReconcileResult) (w : World S)
        → All (IsSettled existing w.broker) specs
        → result.refused ≡ []
        → reconcile_loop admin dry_run existing specs result w ≡ (
          ok (record result {
            unchanged = result.unchanged ++ map (λ (s : TopicSpec). s.name) specs;
          }),
          w,
        )
    unfolding reconcile_loop
    loop-settled existing [] result w h fresh = rw (append-nil result.unchanged) refl
    loop-settled existing (spec ∷ specs) result w h fresh =
        rw (spec-settled existing spec result w h.0 fresh) (
          loop-settled existing specs
            (record result { unchanged = result.unchanged ++ (spec.name ∷ []) }) w h.1 fresh
          ∙ rw
              (append_assoc result.unchanged (spec.name ∷ [])
                (map (λ (s : TopicSpec). s.name) specs))
              refl)

    -- Where each desired topic is in the listing with the partitions of its spec and has the configuration of its spec, `reconcile` issues no request, leaves the broker as it is and reports each topic as unchanged.
    pub reconcile-settled :
        (desired : List TopicSpec) (w : World S) (topics : List TopicMetadata)
        → admin.list_topics w.broker ≡ ok topics
        → All (IsSettled (partition_counts topics) w.broker) desired
        → reconcile admin dry_run desired w
          ≡ (ok (record no_result { unchanged = map (λ (s : TopicSpec). s.name) desired }), w)
    unfolding reconcile existing_partition_counts
    reconcile-settled desired w topics listed h =
        rw listed (loop-settled (partition_counts topics) desired no_result w h refl)
